-- ===== src/CoreTools/Run/Plans.antt =====
-- Which programs the shell tool starts.
use tool_smith.Base.Int.{ℤ, pos, negsuc, clamp}
use tool_smith.Base.{
  ℕ, ◌≤◌, ◌≡◌, refl, subst, Bool, true, false, not, [], ◌∷◌, arith, Bytes, ascii, is_empty,
  if◌then◌else◌,
}
use tool_smith.Base.Except.{Except, Exn, ok, throw, ◌>>=◌}
use tool_smith.Json.{Json, find}
use tool_smith.Jail.{Disk, WorkspaceJail, ResolveResult, resolve}
use tool_smith.Jail.Confined.{IsJailed, IsConfined, resolve-write}
use tool_smith.CoreTools.{payload, clamp_int, int_or}
use tool_smith.Registry.Chain.{text_or}
use tool_smith.CoreTools.Run.{
  Launch, default_timeout, or_dot, Plan, answer, launch, shell_launch, shell_at, shell_in,
  shell_plan,
}

-- `P` holds of the program, if one is started.
pub data Launches (P : Launch → Type 0) : Except Plan → Type 0 where
  throws : (e : Exn) → Launches P (throw e)
  answers : (j : Json) → Launches P (ok (answer j))
  launches : (l : Launch) → P l → Launches P (ok (launch l))

pub Launches-bind :
    {A : Type 0} (P : Launch → Type 0) (x : Except A) (f : A → Except Plan)
    → ((a : A) → Launches P (f a))
    → Launches P (x >>= f)
Launches-bind P (ok a) f h = h a
Launches-bind P (throw e) f h = throws e

pub Launches-if :
    (P : Launch → Type 0) (b : Bool) (x y : Except Plan)
    → (b ≡ true → Launches P x)
    → (b ≡ false → Launches P y)
    → Launches P (if b then x else y)
Launches-if P true x y t f = t refl
Launches-if P false x y t f = f refl

pub Launches-launch :
    (P : Launch → Type 0) (x : Except Plan) (l : Launch) → Launches P x → x ≡ ok (launch l) → P l
Launches-launch P x l (throws e) q = absurd cc
Launches-launch P x l (answers j) q = absurd cc
Launches-launch P x l (launches k p) q = let same : k ≡ l = cc in subst P same p

-- Whatever the fallback and the bounds are, the value lies within them if the fallback does.
pub clamp_int-within :
    (v : ℤ) (lo hi fallback : ℕ)
    → lo ≤ hi
    → lo ≤ fallback
    → fallback ≤ hi
    → (lo ≤ clamp (clamp_int v (pos lo) (pos hi) (pos fallback)))
      × (clamp (clamp_int v (pos lo) (pos hi) (pos fallback)) ≤ hi)
unfolding clamp_int
clamp_int-within (pos n) lo hi fallback a b c = (ground arith, ground arith)
clamp_int-within (negsuc n) lo hi fallback a b c = (omega arith, a)

-- What the shell tool may start, with the time limit that is handed to `RunProc`.
pub record IsShell (jail : WorkspaceJail) (l : Launch) : Type 0 where
  pub confined : IsConfined jail l.cwd
  pub least : 1 ≤ l.timeout
  pub most : l.timeout ≤ 120

pub no_text : (s : Bytes) → is_empty s ≡ true → s ≡ []
no_text [] e = refl
no_text (c ∷ s) e = absurd cc

shell_launch-IsShell :
    (jail : WorkspaceJail) (r : ResolveResult) (command : Bytes) (timeout : ℤ) (id : Bytes)
    → IsConfined jail r.path
    → IsShell jail (shell_launch r command timeout id)
shell_launch-IsShell jail r command timeout id held =
    let (least, most) =
      clamp_int-within timeout 1 120 30 (omega arith) (omega arith) (omega arith) in
    record { confined = held; least = least; most = most }

shell_at-IsShell :
    (truncate : Bytes → ℤ) (jail : WorkspaceJail) (p : Json) (command : Bytes) (r : ResolveResult)
    → (r.error ≡ [] → IsConfined jail r.path)
    → Launches (IsShell jail) (shell_at truncate p command r)
unfolding shell_at
shell_at-IsShell truncate jail p command r held =
    Launches-if (IsShell jail) (not (is_empty r.error)) _ _ (λ _. answers _)
      (λ e.
        let fine = no_text r.error (ground (arith, e)) in
        Launches-bind (IsShell jail) (int_or truncate default_timeout (find (ascii "timeout") p)) _
          (λ timeout.
            Launches-bind (IsShell jail) (text_or [] (find (ascii "_requestId") p)) _
              (λ id. launches _ (shell_launch-IsShell jail r command timeout id (held fine)))))

-- In a jail whose directories are canonical, a program that the shell tool starts is started in a
-- directory below the root or an allowed directory, and the time limit that is handed to RunProc
-- with it is from 1 to 120.
pub shell_plan-IsShell :
    (truncate : Bytes → ℤ) (disk : Disk) (jail : WorkspaceJail) (request : Json) (l : Launch)
    → IsJailed jail
    → shell_plan truncate disk jail request ≡ ok (launch l)
    → IsShell jail l
unfolding shell_plan shell_in
shell_plan-IsShell truncate disk jail request l h e =
    Launches-launch (IsShell jail) (shell_plan truncate disk jail request) l
      (Launches-bind (IsShell jail) (text_or [] (find (ascii "command") (payload request))) _
        (λ command.
          Launches-if (IsShell jail) (is_empty command) _ _ (λ _. answers _)
            (λ _.
              Launches-bind (IsShell jail) (text_or [] (find (ascii "cwd") (payload request))) _
                (λ cwd.
                  shell_at-IsShell truncate jail (payload request) command
                    (resolve disk jail (or_dot cwd) true)
                    (λ q. (resolve-write disk jail (or_dot cwd) h q).0)))))
      e
