-- ===== src/Normalize/Authors/Split.antt =====
-- common/normalize.py: what the authors that `split_authors` returns look like.
use aa_metadata_worker.Prelude.{
  ℕ, zero, suc, ◌≡◌, refl, Text, Bool, true, false, List, [], ◌∷◌, ◌++◌, ◌==◌, nat_eq, nonempty,
  ltb, filter, map, contains, contains-append, All, arith, Bool-cases, inl, inr, nat_discrete, ◌⊎◌,
}
use aa_metadata_worker.Unicode.{Unicode}
use aa_metadata_worker.Normalize.{strip, lstrip, rstrip, collapse}
use aa_metadata_worker.Normalize.Authors.{
  is_mark, is_trim, joint, separator, split_parts, clean_author, split_authors,
}

zero_or_suc : (n : ℕ) → (n ≡ 0) ⊎ ((k : ℕ) × (n ≡ suc k))
zero_or_suc zero = inl refl
zero_or_suc (suc k) = inr (k, refl)

module _ (u : Unicode) (ch : ℕ) (mark : is_mark ch ≡ true) (word : u.is_space ch ≡ false) where
  contains-lstrip :
      (p : ℕ → Bool) (s : Text) → contains ch s ≡ false → contains ch (lstrip p s) ≡ false
  unfolding lstrip
  contains-lstrip p [] h = refl
  contains-lstrip p (c ∷ s) h = ground (arith, h, contains-lstrip p s)

  contains-rstrip :
      (p : ℕ → Bool) (s : Text) → contains ch s ≡ false → contains ch (rstrip p s) ≡ false
  unfolding rstrip
  contains-rstrip p [] h = refl
  contains-rstrip p (c ∷ s) h = ground (arith, h, contains-rstrip p s)

  contains-collapse :
      (written : Bool) (s : Text)
      → contains ch s ≡ false
      → contains ch (collapse u.is_space written s) ≡ false
  unfolding collapse
  contains-collapse written [] h = refl
  contains-collapse written (c ∷ s) h =
      ground (arith, h, mark, contains-collapse true s, contains-collapse false s)

  contains-clean_author :
      (s : Text) → contains ch s ≡ false → contains ch (clean_author u s) ≡ false
  unfolding clean_author strip
  contains-clean_author s h =
      contains-rstrip is_trim (lstrip is_trim (collapse u.is_space false s))
        (contains-lstrip is_trim (collapse u.is_space false s) (contains-collapse false s h))

  separator-mark : (s : Text) → ltb 0 (separator u (ch ∷ s)) ≡ true
  unfolding separator joint
  separator-mark s = ground (arith, mark, word)

  separator-other : (c : ℕ) (s : Text) → separator u (c ∷ s) ≡ 0 → (ch == c) ≡ false
  separator-other c s h = elim (nat_discrete ch c) [
    | yes e ↦
        let marked : ltb 0 (separator u (c ∷ s)) ≡ true = rw (← e) (separator-mark s) in
        ground (arith, h, marked)
    | no n ↦ ground (arith, n)
  ]

  split_parts-unmarked :
      (skip : ℕ) (part s : Text)
      → contains ch part ≡ false
      → All (λ a. contains ch a ≡ false) (split_parts u skip part s)
  unfolding split_parts
  split_parts-unmarked skip part [] h = (h, tt)
  split_parts-unmarked (suc skip) part (c ∷ s) h = split_parts-unmarked skip part s h
  split_parts-unmarked zero part (c ∷ s) h = elim (zero_or_suc (separator u (c ∷ s))) [
    | inl e ↦
        rw (e, split_parts)
          (split_parts-unmarked 0 (part ++ (c ∷ [])) s
            (ground (arith, h, separator-other c s e, contains-append ch part (c ∷ []))))
    | inr (k, e) ↦ rw (e, split_parts) (h, split_parts-unmarked k [] s refl)
  ]

  clean-unmarked :
      (parts : List Text)
      → All (λ a. contains ch a ≡ false) parts
      → All
          (λ a. (nonempty a ≡ true) × (contains ch a ≡ false))
          (filter nonempty (map (clean_author u) parts))
  clean-unmarked [] h = tt
  clean-unmarked (part ∷ parts) h = elim (Bool-cases (nonempty (clean_author u part))) [
    | inl e ↦ rw e ((e, contains-clean_author part h.0), clean-unmarked parts h.1)
    | inr e ↦ rw e (clean-unmarked parts h.1)
  ]

  -- Let a character be a semicolon, a bar or an ampersand that the table of blanks does not list. Then
  -- no author that is returned is empty or contains it.
  pub split_authors-unmarked :
      (value : Text)
      → All (λ a. (nonempty a ≡ true) × (contains ch a ≡ false)) (split_authors u value)
  unfolding split_authors
  split_authors-unmarked [] = tt
  split_authors-unmarked (c ∷ s) =
      let parts = split_parts u 0 [] (strip u.is_space (c ∷ s)) in
      clean-unmarked parts (split_parts-unmarked 0 [] (strip u.is_space (c ∷ s)) refl)
