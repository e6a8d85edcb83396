-- ===== src/Transport/Resources/Paths.antt =====
-- Which files resources/read may open.
use tool_smith.Base.{◌≡◌, ◌↔◌, refl, true, [], ◌∷◌, ◌++◌, arith, Bytes}
use tool_smith.Base.FilePath.{FilePath}
use tool_smith.CoreTools.Run.{starts_with}
use tool_smith.Jail.{Disk}
use tool_smith.Transport.Resources.{under_root}

starts_with-append : (s rest : Bytes) → starts_with s (s ++ rest) ≡ true
unfolding starts_with
starts_with-append [] rest = refl
starts_with-append (c ∷ s) rest = ground (arith, starts_with-append s rest)

starts_with-split : (s t : Bytes) → starts_with s t ≡ true → (rest : Bytes) × (t ≡ s ++ rest)
unfolding starts_with
starts_with-split [] t h = (t, refl)
starts_with-split (c ∷ s) [] h = absurd cc
starts_with-split (c ∷ s) (d ∷ t) h =
    let same : c ≡ d = ground arith in
    let (rest, e) = starts_with-split s t (ground arith) in (rest, rw (same, e) refl)

-- The check of a path against the root: the path's text begins with the root's.
pub under_root_iff :
    (disk : Disk) (root path : FilePath)
    → (under_root disk root path ≡ true)
      ↔ ((rest : Bytes) × (disk.text path ≡ disk.text root ++ rest))
unfolding under_root
under_root_iff disk root path = (
  starts_with-split (disk.text root) (disk.text path),
  λ (rest, e). rw e (starts_with-append (disk.text root) rest),
)
