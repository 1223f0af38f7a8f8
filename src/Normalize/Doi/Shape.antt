-- ===== src/Normalize/Doi/Shape.antt =====
-- common/normalize.py: the identifiers that `normalize_doi` returns.
use aa_metadata_worker.Prelude.{
  Bool-cases, ℕ, ◌≡◌, ◌≤◌, Text, true, some, [], ◌∷◌, ◌++◌, codes, arith, ◌==◌, nat_eq, length,
  is_some, All, Option-cases, inl, inr,
}
use aa_metadata_worker.Unicode.{Unicode}
use aa_metadata_worker.Normalize.Doi.{
  strip_resolver, strip, rstrip, split_tail, span_digits, is_suffix, split_doi, normalize_doi,
}

module _ (u : Unicode) where
  span_digits-All : (s : Text) → All (λ c. is_some (u.decimal c) ≡ true) (span_digits u s).0
  unfolding span_digits
  span_digits-All [] = tt
  span_digits-All (c ∷ s) = elim (Bool-cases (is_some (u.decimal c))) [
    | inl e ↦ rw e (e, span_digits-All s)
    | inr e ↦ rw e tt
  ]

  -- What a match has found.
  abbrev Parts : Text → Text → Type 0
  Parts prefix rest =
      (digits : Text) × (suffix : Text) × (prefix ≡ codes "10." ++ digits)
      × (rest ≡ 47 ∷ suffix)
      × (4 ≤ length digits)
      × (length digits ≤ 9)
      × All (λ c. is_some (u.decimal c) ≡ true) digits
      × (is_suffix u suffix ≡ true)

  tail-Parts :
      (a b c : ℕ) (digits rest prefix after : Text)
      → All (λ d. is_some (u.decimal d) ≡ true) digits
      → split_tail u a b c digits rest ≡ some (prefix, after)
      → Parts prefix after
  unfolding split_tail
  tail-Parts a b c digits [] prefix after d h = ground arith
  tail-Parts a b c digits (slash ∷ suffix) prefix after d h =
      (digits, suffix, ground arith, ground arith, ground arith, ground arith, d, ground arith)

  split_doi-Parts : (s prefix rest : Text) → split_doi u s ≡ some (prefix, rest) → Parts prefix rest
  unfolding split_doi
  split_doi-Parts [] prefix rest h = cc
  split_doi-Parts (_ ∷ []) prefix rest h = cc
  split_doi-Parts (_ ∷ _ ∷ []) prefix rest h = cc
  split_doi-Parts (a ∷ b ∷ c ∷ s) prefix rest h =
      tail-Parts a b c (span_digits u s).0 (span_digits u s).1 prefix rest (span_digits-All s) h

  -- A DOI that is returned is `10.` with four to nine decimal digits, put into lower case, a slash, and
  -- a suffix without blanks, but for a newline that may stand at its end.
  pub normalize_doi-shape :
      (value doi : Text)
      → normalize_doi u value ≡ some doi
      → (digits : Text) × (suffix : Text) × (doi ≡ u.lower (codes "10." ++ digits) ++ 47 ∷ suffix)
        × (4 ≤ length digits)
        × (length digits ≤ 9)
        × All (λ c. is_some (u.decimal c) ≡ true) digits
        × (is_suffix u suffix ≡ true)
  unfolding normalize_doi
  normalize_doi-shape [] doi h = cc
  normalize_doi-shape (c ∷ s) doi h =
      let text =
        rstrip (λ d. d == 46) (strip u.is_space (strip_resolver u (strip u.is_space (c ∷ s)))) in
      elim (Option-cases (split_doi u text)) [
        | inl e ↦ absurd (ground (arith, e))
        | inr ((prefix, rest), e) ↦
            let (digits, suffix, p, r, lo, hi, d, ok) = split_doi-Parts text prefix rest e in
            (digits, suffix, ground (arith, e, p, r), lo, hi, d, ok)
      ]
