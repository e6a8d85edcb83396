-- ===== src/CoreTools/Run/Git.antt =====
-- Which programs the git tool starts.
use tool_smith.Base.Int.{ℤ, pos}
use tool_smith.Base.{
  ℕ, ◌≤◌, ◌≡◌, ◌⊎◌, inl, inr, refl, Bool, true, false, List, [], ◌∷◌, ◌++◌, arith, Bytes, ascii,
  is_empty, str_eq, contains, All, decimal, Bool-cases,
}
use tool_smith.Base.Except.{ok}
use tool_smith.Json.{Json, find}
use tool_smith.Registry.Chain.{text_or}
use tool_smith.Jail.{Disk, WorkspaceJail, ResolveResult, resolve}
use tool_smith.CoreTools.{payload, int_or, bool_or}
use tool_smith.CoreTools.Run.{
  Launch, launch, git_launch, log_limit, git_blame, git_diff, git_diff_args, git_log_args,
  git_blame_args, git_action, git_plan,
}
use tool_smith.CoreTools.Run.Plans.{
  Launches, answers, launches, Launches-bind, Launches-if, Launches-launch, clamp_int-within,
}

-- What the git tool may start: a command that only reads, with options that the code chose, the words of
-- the request standing behind "--".
abbrev pub git_options : List Bytes
git_options =
    ascii "-sb"
    ∷ ascii "--untracked-files=normal"
    ∷ ascii "--stat"
    ∷ ascii "-n"
    ∷ ascii "--oneline"
    ∷ ascii "-L"
    ∷ ascii "1,40"
    ∷ ascii "--name-only"
    ∷ ascii "--diff-filter=U"
    ∷ []

abbrev pub IsOption : Bytes → Type 0
IsOption o = (contains git_options o ≡ true) ⊎ ((n : ℕ) × (1 ≤ n) × (n ≤ 30) × (o ≡ decimal n))

abbrev pub IsTail : List Bytes → Type 0
IsTail tail = (tail ≡ []) ⊎ ((word : Bytes) × (tail ≡ ascii "--" ∷ word ∷ []))

abbrev pub read_commands : List Bytes
read_commands = ascii "status" ∷ ascii "diff" ∷ ascii "log" ∷ ascii "blame" ∷ []

pub record IsReading (root : Bytes) (l : Launch) : Type 0 where
  pub command : Bytes
  pub options : List Bytes
  pub tail : List Bytes
  pub git : l.program ≡ ascii "git"
  pub arguments : l.args ≡ ascii "-C" ∷ root ∷ command ∷ (options ++ tail)
  pub reads : contains read_commands command ≡ true
  pub chosen : All IsOption options
  pub behind : IsTail tail
  pub most : l.timeout ≤ 20

reading :
    (root : Bytes) (command : Bytes) (options tail : List Bytes) (timeout : ℕ)
    → contains read_commands command ≡ true
    → All IsOption options
    → IsTail tail
    → timeout ≤ 20
    → Launches (IsReading root) (ok (git_launch root (command ∷ (options ++ tail)) timeout))
reading root command options tail timeout r o t m = launches _ (record {
  command = command;
  options = options;
  tail = tail;
  git = refl;
  arguments = refl;
  reads = r;
  chosen = o;
  behind = t;
  most = m;
})

git_diff-IsReading :
    (root : Bytes) (full : Bool) (path : Bytes)
    → Launches (IsReading root) (ok (git_diff root full path))
unfolding git_diff contains str_eq
git_diff-IsReading root true [] = answers _
git_diff-IsReading root true (c ∷ path) =
    reading root (ascii "diff") [] _ 20 refl tt (inr (c ∷ path, refl)) (omega arith)
git_diff-IsReading root false path =
    reading root (ascii "diff") (ascii "--stat" ∷ []) [] 20 refl (inl refl, tt) (inl refl)
      (omega arith)

git_diff_args-IsReading :
    (p : Json) (root : Bytes) → Launches (IsReading root) (git_diff_args p root)
unfolding git_diff_args
git_diff_args-IsReading p root =
    Launches-bind (IsReading root) (bool_or false (find (ascii "full") p)) _ (λ full.
      Launches-bind (IsReading root) (text_or [] (find (ascii "path") p)) _
        (λ path. git_diff-IsReading root full path))

log_run-IsReading :
    (root : Bytes) (limit : ℤ)
    → Launches (IsReading root) (
        ok (
          git_launch root (ascii "log" ∷ ascii "-n" ∷ log_limit limit ∷ ascii "--oneline" ∷ []) 15))
unfolding contains str_eq
log_run-IsReading root limit =
    let (least, most) = clamp_int-within limit 1 30 10 (omega arith) (omega arith) (omega arith) in
    reading root (ascii "log") (ascii "-n" ∷ log_limit limit ∷ ascii "--oneline" ∷ []) [] 15 refl
      (inl refl, (inr (_, least, most, refl), (inl refl, tt))) (inl refl) (omega arith)

git_log_args-IsReading :
    (truncate : Bytes → ℤ) (p : Json) (root : Bytes)
    → Launches (IsReading root) (git_log_args truncate p root)
unfolding git_log_args
git_log_args-IsReading truncate p root =
    Launches-bind (IsReading root) (int_or truncate (pos 10) (find (ascii "limit") p)) _
      (λ limit. log_run-IsReading root limit)

git_blame-IsReading :
    (disk : Disk) (root : Bytes) (r : ResolveResult)
    → Launches (IsReading root) (ok (git_blame disk root r))
unfolding git_blame contains str_eq
git_blame-IsReading disk root r = elim (Bool-cases (is_empty r.error)) [
  | inl fine ↦ rw fine (
      reading root (ascii "blame") (ascii "-L" ∷ ascii "1,40" ∷ []) _ 15 refl
        (inl refl, (inl refl, tt)) (inr (disk.text r.path, refl)) (omega arith))
  | inr bad ↦ rw bad (answers _)
]

git_blame_args-IsReading :
    (disk : Disk) (jail : WorkspaceJail) (p : Json) (root : Bytes)
    → Launches (IsReading root) (git_blame_args disk jail p root)
unfolding git_blame_args
git_blame_args-IsReading disk jail p root =
    Launches-bind (IsReading root) (text_or [] (find (ascii "path") p)) _ (λ path.
      elim (Bool-cases (is_empty path)) [
        | inl missing ↦ rw missing (answers _)
        | inr given ↦ rw given (git_blame-IsReading disk root (resolve disk jail path false))
      ])

status_run-IsReading :
    (root : Bytes)
    → Launches (IsReading root) (
        ok (
          git_launch root
            (ascii "status" ∷ ascii "-sb" ∷ ascii "--untracked-files=normal" ∷ [])
            15))
unfolding contains str_eq
status_run-IsReading root =
    reading root (ascii "status") (ascii "-sb" ∷ ascii "--untracked-files=normal" ∷ []) [] 15 refl
      (inl refl, (inl refl, tt)) (inl refl) (omega arith)

conflicts_run-IsReading :
    (root : Bytes)
    → Launches (IsReading root) (
        ok (git_launch root (ascii "diff" ∷ ascii "--name-only" ∷ ascii "--diff-filter=U" ∷ []) 15))
unfolding contains str_eq
conflicts_run-IsReading root =
    reading root (ascii "diff") (ascii "--name-only" ∷ ascii "--diff-filter=U" ∷ []) [] 15 refl
      (inl refl, (inl refl, tt)) (inl refl) (omega arith)

git_action-IsReading :
    (truncate : Bytes → ℤ) (disk : Disk) (jail : WorkspaceJail) (p : Json) (action : Bytes)
    → Launches (IsReading (disk.text jail.root)) (git_action truncate disk jail p action)
unfolding git_action
git_action-IsReading truncate disk jail p action =
    let root : Bytes = disk.text jail.root in
    Launches-if (IsReading root) (str_eq action (ascii "status")) _ _
      (λ _. status_run-IsReading root)
      (λ _.
        Launches-if (IsReading root) (str_eq action (ascii "diff")) _ _
          (λ _. git_diff_args-IsReading p root)
          (λ _.
            Launches-if (IsReading root) (str_eq action (ascii "log")) _ _
              (λ _. git_log_args-IsReading truncate p root)
              (λ _.
                Launches-if (IsReading root) (str_eq action (ascii "blame")) _ _
                  (λ _. git_blame_args-IsReading disk jail p root)
                  (λ _.
                    Launches-if (IsReading root) (str_eq action (ascii "conflicts")) _ _
                      (λ _. conflicts_run-IsReading root) (λ _. answers _)))))

-- A program that the git tool starts is git in the root, with the command status, diff, log or
-- blame, options from a fixed list or a number from 1 to 30, and at most one word of the request,
-- which stands behind "--"; the time limit that is handed to RunProc with it is at most 20.
pub git_plan-IsReading :
    (truncate : Bytes → ℤ) (disk : Disk) (jail : WorkspaceJail) (request : Json) (l : Launch)
    → git_plan truncate disk jail request ≡ ok (launch l)
    → IsReading (disk.text jail.root) l
unfolding git_plan
git_plan-IsReading truncate disk jail request l e =
    Launches-launch (IsReading (disk.text jail.root)) (git_plan truncate disk jail request) l
      (Launches-bind (IsReading (disk.text jail.root))
        (text_or [] (find (ascii "action") (payload request))) _
        (λ action. git_action-IsReading truncate disk jail (payload request) action))
      e
