-- ===== src/Jail/Detect.antt =====
-- The search of `WorkspaceJail::DetectRoot` for the directory that holds `.git`.
use tool_smith.Base.{
  ℕ, zero, suc, ◌≤◌, ◌≡◌, refl, ◌∙◌, ap, true, false, Bool, some, Bool-cases, inl, inr, ◌⊎◌, length,
  arith,
}
use tool_smith.Base.FilePath.{FilePath, join, parent_path, path_eq, path_eq_refl, parent_path-cases}
use tool_smith.Jail.{Disk, walk_up, search_start, root_of, detect_root, canonical_of, git_directory}
use tool_smith.Jail.Inside.{climbs_or}

-- `q` is reached from `p` by steps to the parent, and no directory before it holds `.git`.
pub data IsNearest (disk : Disk) (q : FilePath) : FilePath → Type 0 where
  here : IsNearest disk q q
  higher :
      {p : FilePath}
      → disk.exists (join p git_directory) ≡ false
      → IsNearest disk q (parent_path p)
      → IsNearest disk q p

-- Where the loop stops, started at a path: at `.git`, or at the top.
pub record Stops (disk : Disk) (fuel : ℕ) (walk : FilePath) : Type 0 where
  pub directory : FilePath
  pub found : Bool
  pub stops : walk_up disk fuel walk ≡ some (directory, found)
  pub nearest : IsNearest disk directory walk
  pub holds : disk.exists (join directory git_directory) ≡ found
  pub top : found ≡ false → path_eq directory (parent_path directory) ≡ true

-- A path that is not its own parent has more elements than its parent.
parent_path-shorter :
    (p : FilePath) → path_eq p (parent_path p) ≡ false → suc (length (parent_path p)) ≡ length p
parent_path-shorter p h = elim (parent_path-cases p) [
  | inl same ↦ climbs_or h (rw same (path_eq_refl p))
  | inr less ↦ less
]

module _ (disk : Disk) (n : ℕ) (walk : FilePath) where
  Stops-found : disk.exists (join walk git_directory) ≡ true → Stops disk (suc n) walk
  unfolding walk_up
  Stops-found h = record {
    directory = walk;
    found = true;
    stops = rw h refl;
    nearest = here;
    holds = h;
    top = λ f. climbs_or f refl;
  }

  Stops-top :
      disk.exists (join walk git_directory) ≡ false
      → path_eq walk (parent_path walk) ≡ true
      → Stops disk (suc n) walk
  unfolding walk_up
  Stops-top h t = record {
    directory = walk;
    found = false;
    stops = rw (h, t) refl;
    nearest = here;
    holds = h;
    top = λ f. t;
  }

  Stops-higher :
      disk.exists (join walk git_directory) ≡ false
      → path_eq walk (parent_path walk) ≡ false
      → Stops disk n (parent_path walk)
      → Stops disk (suc n) walk
  unfolding walk_up
  Stops-higher h t s = record {
    directory = s.directory;
    found = s.found;
    stops = rw (h, t) s.stops;
    nearest = higher h s.nearest;
    holds = s.holds;
    top = s.top;
  }

  Stops-next :
      (path_eq walk (parent_path walk) ≡ false → Stops disk n (parent_path walk))
      → Stops disk (suc n) walk
  Stops-next next = elim (Bool-cases (disk.exists (join walk git_directory))) [
    | inl found ↦ Stops-found found
    | inr missing ↦ elim (Bool-cases (path_eq walk (parent_path walk))) [
      | inl top ↦ Stops-top missing top
      | inr more ↦ Stops-higher missing more (next more)
    ]
  ]

walk_up-Stops : (disk : Disk) (n : ℕ) (walk : FilePath) → length walk ≤ n → Stops disk (suc n) walk
walk_up-Stops disk zero walk le =
    Stops-next disk zero walk (λ more. absurd (omega (arith, parent_path-shorter walk more)))
walk_up-Stops disk (suc n) walk le =
    Stops-next disk (suc n) walk (λ more.
      walk_up-Stops disk n (parent_path walk) (omega (arith, parent_path-shorter walk more)))

-- What `DetectRoot` gives: the canonical form of the nearest directory that holds `.git`, or else of
-- where it started.
abbrev pub Detects : Disk → FilePath → FilePath → Type 0
Detects disk start q =
    ((disk.exists (join q git_directory) ≡ true)
      × (detect_root disk start ≡ some (canonical_of disk q true)))
    ⊎ ((disk.exists (join q git_directory) ≡ false)
        × (path_eq q (parent_path q) ≡ true)
        × (detect_root disk start ≡ some (canonical_of disk (search_start disk start) false)))

root_of-found :
    (disk : Disk) (start q : FilePath)
    → root_of disk (search_start disk start) (some (q, true)) ≡ some (canonical_of disk q true)
unfolding root_of
root_of-found disk start q = refl

root_of-top :
    (disk : Disk) (start q : FilePath)
    → root_of disk (search_start disk start) (some (q, false))
      ≡ some (canonical_of disk (search_start disk start) false)
unfolding root_of
root_of-top disk start q = refl

Stops-Detects :
    (disk : Disk) (start : FilePath)
    → (s : Stops disk (suc (length (search_start disk start))) (search_start disk start))
    → Detects disk start s.directory
unfolding detect_root
Stops-Detects disk start s = elim (Bool-cases s.found) [
  | inl f ↦ inl (
    s.holds ∙ f,
    ap (root_of disk (search_start disk start)) s.stops
        ∙ rw f (root_of-found disk start s.directory),
  )
  | inr f ↦ inr (
    s.holds ∙ f,
    s.top f,
    ap (root_of disk (search_start disk start)) s.stops ∙ rw f (root_of-top disk start s.directory),
  )
]

-- The search for the root ends, at the nearest directory at or above its start that holds .git,
-- whose canonical form it gives; or at a directory that is its own parent, and then it gives the
-- canonical form of its start.
pub detect_root-IsNearest :
    (disk : Disk) (start : FilePath)
    → (q : FilePath) × IsNearest disk q (search_start disk start) × Detects disk start q
detect_root-IsNearest disk start =
    let s =
      walk_up-Stops disk (length (search_start disk start)) (search_start disk start)
        (omega arith) in
    (s.directory, s.nearest, Stops-Detects disk start s)
