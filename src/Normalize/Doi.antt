-- ===== src/Normalize/Doi.antt =====
-- common/normalize.py: digital object identifiers.
pub mod Shape
use aa_metadata_worker.Prelude.{
  ℕ, zero, suc, ◌+◌, Text, Bool, true, false, Option, none, some, List, [], ◌∷◌, ◌++◌, codes, ◌==◌,
  nat_eq, text_eq, ◌&&◌, ◌||◌, not, nonempty, is_some, if◌then◌else◌, leb, length,
}
use aa_metadata_worker.Unicode.{Unicode}
use aa_metadata_worker.Normalize.{strip, rstrip}

module _ (u : Unicode) where
  -- What stands after a prefix, whatever the case of its letters.
  unfoldable pub strip_prefix_i : Text → Text → Option Text
  strip_prefix_i [] s = some s
  strip_prefix_i (p ∷ prefix) [] = none
  strip_prefix_i (p ∷ prefix) (c ∷ s) =
      let rest = strip_prefix_i prefix s in if u.same_letter p c then rest else none

  abbrev pub or_else : Option Text → Option Text → Option Text
  or_else none b = b
  or_else (some a) b = some a

  -- `_DOI_STRIP_RE.sub("", doi)`, alternative by alternative
  unfoldable pub strip_resolver : Text → Text
  unfolding strip_prefix_i
  strip_resolver s =
      elim (or_else (strip_prefix_i (codes "https://dx.doi.org/") s) (
        or_else (strip_prefix_i (codes "https://doi.org/") s) (
          or_else (strip_prefix_i (codes "http://dx.doi.org/") s) (
            or_else (strip_prefix_i (codes "http://doi.org/") s) (
              or_else (strip_prefix_i (codes "doi:") s)
                (strip_prefix_i (codes "info:doi/") s)))))) [ none ↦ s | some rest ↦ rest ]

  -- `\d*`: the decimal digits at the head, and the rest
  unfoldable pub span_digits : Text → Text × Text
  span_digits [] = ([], [])
  span_digits (c ∷ s) =
      let (digits, rest) = span_digits s in
      if is_some (u.decimal c) then (c ∷ digits, rest) else ([], c ∷ s)

  -- `\S+$`, where `$` also stands before a last newline
  unfoldable pub is_suffix : Text → Bool
  is_suffix [] = false
  is_suffix (c ∷ []) = not (u.is_space c)
  is_suffix (c ∷ d ∷ s) = not (u.is_space c) && (is_suffix (d ∷ s) || d ∷ s == 10 ∷ [])

  -- `10\.\d{4,9}/\S+$`, from the three characters, the digits and the rest
  unfoldable pub split_tail : ℕ → ℕ → ℕ → Text → Text → Option (Text × Text)
  unfolding is_suffix
  split_tail a b c digits [] = none
  split_tail a b c digits (slash ∷ suffix) =
      if a ∷ b ∷ c ∷ [] == codes "10."
        && leb 4 (length digits)
        && leb (length digits) 9
        && slash == 47
        && is_suffix suffix
      then some (a ∷ b ∷ c ∷ digits, slash ∷ suffix)
      else none

  -- `_DOI_RE.match`: the prefix, and what starts with the slash
  unfoldable pub split_doi : Text → Option (Text × Text)
  split_doi (a ∷ b ∷ c ∷ s) = let (digits, rest) = span_digits s in split_tail a b c digits rest
  split_doi _ = none

  -- The prefix is put into lower case.
  unfoldable pub normalize_doi : Text → Option Text
  normalize_doi [] = none
  normalize_doi (c ∷ s) =
      let doi =
        rstrip (λ d. d == 46) (strip u.is_space (strip_resolver (strip u.is_space (c ∷ s)))) in
      elim (split_doi doi) [ none ↦ none | some (prefix, suffix) ↦ some (u.lower prefix ++ suffix) ]
