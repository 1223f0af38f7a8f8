-- ===== src/Normalize/Authors.antt =====
-- common/normalize.py: `split_authors`. A match of the pattern is given by its length: the
-- alternatives differ in what follows the blanks, so the greedy `\s*` and `\s+` take all of them.
pub mod Split
use aa_metadata_worker.Prelude.{
  ℕ, zero, suc, ◌+◌, Text, Bool, true, false, Option, none, some, List, [], ◌∷◌, ◌++◌, ◌&&◌, ◌||◌,
  codes, ◌==◌, nat_eq, text_eq, nonempty, ltb, if◌then◌else◌, filter, length, take, drop, map,
}
use aa_metadata_worker.Unicode.{Unicode}
use aa_metadata_worker.Normalize.{strip, collapse}

-- `[;|]` and `&`
abbrev pub is_mark : ℕ → Bool
is_mark c = c == 59 || c == 124 || c == 38

-- `strip(" ,;")`
abbrev pub is_trim : ℕ → Bool
is_trim c = c == 32 || c == 44 || c == 59

module _ (u : Unicode) where
  -- How many blanks a text begins with.
  abbrev pub blanks : Text → ℕ
  blanks [] = 0
  blanks (c ∷ s) = let more = blanks s in if u.is_space c then suc more else 0

  -- `and` with the blanks behind it, of which there must be one.
  abbrev pub word_and : Text → ℕ
  word_and s =
      let after = blanks (drop 3 s) in
      if take 3 s == codes "and" && ltb 0 after then 3 + after else 0

  -- What follows the blanks; the flag says that there was one.
  unfoldable pub joint : Bool → Text → ℕ
  joint blank [] = 0
  joint blank (c ∷ s) =
      if is_mark c || (blank && c == 44)
      then suc (blanks s)
      else if blank
      then word_and (c ∷ s)
      else 0

  -- The length of the match at the beginning of a text, zero where there is none.
  unfoldable pub separator : Text → ℕ
  unfolding joint
  separator s =
      let n = blanks s in let m = joint (ltb 0 n) (drop n s) in if ltb 0 m then n + m else 0

  -- `re.split`: how much of a match is left, and the part that is being read
  unfoldable pub split_parts : ℕ → Text → Text → List Text
  split_parts skip part [] = part ∷ []
  split_parts (suc skip) part (c ∷ s) = split_parts skip part s
  split_parts zero part (c ∷ s) = elim (separator (c ∷ s)) [
    | zero ↦ split_parts zero (part ++ (c ∷ [])) s
    | suc skip ↦ part ∷ split_parts skip [] s
  ]

  unfoldable pub clean_author : Text → Text
  unfolding strip collapse
  clean_author part = strip is_trim (collapse u.is_space false part)

  unfoldable pub split_authors : Text → List Text
  unfolding strip split_parts clean_author
  split_authors [] = []
  split_authors (c ∷ s) =
      filter nonempty (map clean_author (split_parts 0 [] (strip u.is_space (c ∷ s))))
