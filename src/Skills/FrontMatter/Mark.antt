-- ===== src/Skills/FrontMatter/Mark.antt =====
-- A head, its closing mark, and a body.
use tool_smith.Base.{
  ℕ, ◌≡◌, refl, Bool, true, not, ◌&&◌, none, some, [], ◌∷◌, ◌++◌, arith, Option-cases, inl, inr,
  Bytes, ◌==◌,
}
use tool_smith.Skills.FrontMatter.{
  behind_mark, split_mark, split_byte, body_of, drop_newlines, strip_bom, read_parts,
  parse_yaml_frontmatter, read_all, get_lines, beginning,
}

behind_mark-second : (c : ℕ) (s : Bytes) → behind_mark (c ∷ b'\n' ∷ s) ≡ none
behind_mark-second c [] = refl
behind_mark-second c (e ∷ []) = refl
behind_mark-second c (e ∷ f ∷ s) = ground arith

behind_mark-third : (c d : ℕ) (s : Bytes) → behind_mark (c ∷ d ∷ b'\n' ∷ s) ≡ none
behind_mark-third c d [] = refl
behind_mark-third c d (f ∷ s) = ground arith

-- A mark cannot begin before a newline and reach over it.
behind_mark-newline :
    (c : ℕ) (s rest : Bytes)
    → behind_mark (c ∷ s) ≡ none
    → behind_mark (c ∷ (s ++ b'\n' ∷ rest)) ≡ none
behind_mark-newline c [] rest h = behind_mark-second c rest
behind_mark-newline c (d ∷ []) rest h = behind_mark-third c d rest
behind_mark-newline c (d ∷ e ∷ []) rest h = ground arith
behind_mark-newline c (d ∷ e ∷ f ∷ s) rest h = ground arith

abbrev pub closed : Bytes → Bytes → Bytes
closed head behind = head ++ (b'\n' ∷ b'-' ∷ b'-' ∷ b'-' ∷ behind)

split_mark-closed :
    (head behind : Bytes)
    → split_mark head ≡ none
    → split_mark (closed head behind) ≡ some (head, behind)
unfolding split_mark
split_mark-closed [] behind h = refl
split_mark-closed (c ∷ head) behind h = elim (Option-cases (behind_mark (c ∷ head))) [
  | inr (t, found) ↦ let wrong : some ([], t) ≡ none = rw (found, split_mark) at h in absurd cc
  | inl here ↦ elim (Option-cases (split_mark head)) [
    | inr (t, found) ↦
        let wrong : some (c ∷ t.0, t.1) ≡ none = rw (here, found, split_mark) at h in absurd cc
    | inl later ↦
        let plain = behind_mark-newline c head (b'-' ∷ b'-' ∷ b'-' ∷ behind) here in
        rw (plain, split_mark-closed head behind later, split_mark) refl
  ]
]

-- The body does not begin with a line break.
abbrev pub begins_plainly : Bytes → Bool
begins_plainly [] = true
begins_plainly (c ∷ s) = not (c == b'\n') && not (c == b'\r')

drop_newlines-plain : (body : Bytes) → begins_plainly body ≡ true → drop_newlines body ≡ body
unfolding drop_newlines
drop_newlines-plain [] h = refl
drop_newlines-plain (c ∷ s) h = ground arith

body_of-newline : (body : Bytes) → begins_plainly body ≡ true → body_of (b'\n' ∷ body) ≡ body
unfolding body_of split_byte
body_of-newline body h = drop_newlines-plain body h

-- A head without a mark and a body that begins with no line break are told apart.
pub parse_yaml_frontmatter-parts :
    (head body : Bytes)
    → split_mark head ≡ none
    → begins_plainly body ≡ true
    → parse_yaml_frontmatter (b'-' ∷ b'-' ∷ b'-' ∷ closed head (b'\n' ∷ body))
      ≡ record { fields = (read_all (get_lines head) beginning).fields; body = body; error = [] }
unfolding parse_yaml_frontmatter strip_bom read_parts
parse_yaml_frontmatter-parts head body no_mark plain =
    rw (split_mark-closed head (b'\n' ∷ body) no_mark, body_of-newline body plain) refl
