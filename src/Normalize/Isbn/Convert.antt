-- ===== src/Normalize/Isbn/Convert.antt =====
-- common/normalize.py: a valid ISBN-10 converts to a valid ISBN-13.
use aa_metadata_worker.Prelude.{
  length-take, ℕ, zero, suc, ◌+◌, ◌-◌, ◌*◌, ◌%◌, ◌<◌, ◌≡◌, refl, Text, Bool, true, some, [], ◌∷◌,
  ◌++◌, not, arith, nat_eq, length, take, All, is_some, length-append, Option-cases, inl, inr, ap,
}
use aa_metadata_worker.Result.{ok, Result-cases}
use aa_metadata_worker.Unicode.{Unicode}
use aa_metadata_worker.Normalize.Isbn.{
  int_digit, isbn10_valid, all_digits, weight13, isbn13_sum, isbn13_valid, core_of, isbn10_to_13,
}

-- The ASCII digits are digits, and decimal ones of their value.
abbrev pub HasDigits : Unicode → Type 0
HasDigits u = (d : ℕ) → d < 10 → (u.decimal (48 + d) ≡ some d) × (u.is_digit (48 + d) ≡ true)

-- A character that `int` reads and that `isdigit` accepts.
abbrev pub IsDigit : Unicode → ℕ → Type 0
IsDigit u c = (is_some (u.decimal c) ≡ true) × (u.is_digit c ≡ true)

abbrev parity : ℕ → Bool → Bool
parity zero even = even
parity (suc n) even = parity n (not even)

module _ (u : Unicode) where
  sum-ok :
      (even : Bool) (s : Text) → All (IsDigit u) s → (total : ℕ) × (isbn13_sum u even s ≡ ok total)
  unfolding isbn13_sum int_digit
  sum-ok even [] h = (0, refl)
  sum-ok even (c ∷ s) h = elim (Option-cases (u.decimal c)) [
    | inl e ↦ absurd (ground (arith, e, h.0))
    | inr (d, e) ↦
        let (total, k) = sum-ok (not even) s h.1 in
        (d * weight13 even + total, rw (isbn13_sum, int_digit, e, k) refl)
  ]

  sum-append :
      (even : Bool) (s : Text) (c d total : ℕ)
      → isbn13_sum u even s ≡ ok total
      → u.decimal c ≡ some d
      → isbn13_sum u even (s ++ (c ∷ [])) ≡ ok (total + d * weight13 (parity (length s) even))
  unfolding isbn13_sum int_digit
  sum-append even [] c d total h e = rw (isbn13_sum, int_digit, e) (ap ok (ground (arith, h)))
  sum-append even (x ∷ s) c d total h e = elim (Option-cases (u.decimal x)) [
    | inl k ↦ absurd (ground (arith, k, h))
    | inr (v, k) ↦ elim (Result-cases (isbn13_sum u (not even) s)) [
      | inr (x, f) ↦ absurd (ground (arith, k, f, h))
      | inl (rest, f) ↦
          rw (isbn13_sum, int_digit, k, sum-append (not even) s c d rest f e)
            (ap ok (ground (arith, k, f, h)))
    ]
  ]

  all_digits-append :
      (s : Text) (c : ℕ)
      → All (IsDigit u) s
      → u.is_digit c ≡ true
      → all_digits u (s ++ (c ∷ [])) ≡ true
  all_digits-append [] c h e = ground (arith, e)
  all_digits-append (x ∷ s) c h e = ground (arith, h.0, all_digits-append s c h.1 e)

  length-take_nine : (s : Text) → length s ≡ 10 → length (take 9 s) ≡ 9
  length-take_nine s h = omega (arith, length-take 9 s, h)

  valid-length : (s : Text) → isbn10_valid u s ≡ ok true → length s ≡ 10
  unfolding isbn10_valid
  valid-length s h = ground arith

  core-check :
      (core : Text) (total : ℕ)
      → HasDigits u
      → All (IsDigit u) core
      → length core ≡ 12
      → isbn13_sum u true core ≡ ok total
      → isbn13_valid u (core ++ ((48 + (10 - total % 10) % 10) ∷ [])) ≡ ok true
  unfolding isbn13_valid
  core-check core total digits h l e =
      let check = (10 - total % 10) % 10 in
      let (value, digit) = digits check (omega arith) in
      let long = length-append core ((48 + check) ∷ []) in
      let sum = sum-append true core (48 + check) check total e value in
      let all = all_digits-append core (48 + check) h digit in
      let sum' : isbn13_sum u true (core ++ ((48 + check) ∷ [])) ≡ ok (total + check * 1) =
        rw l at sum in
      rw (long, l, all, sum') (ground arith)

  -- An ISBN-10 that is valid and whose first nine characters are digits that `int` reads, so that its
  -- only X may stand at its end, is converted, and to a valid ISBN-13.
  pub isbn10_to_13-valid :
      (isbn10 : Text)
      → HasDigits u
      → All (IsDigit u) (take 9 isbn10)
      → isbn10_valid u isbn10 ≡ ok true
      → (isbn13 : Text) × (isbn10_to_13 u isbn10 ≡ ok (some isbn13))
        × (isbn13_valid u isbn13 ≡ ok true)
  unfolding isbn10_to_13
  isbn10_to_13-valid isbn10 digits h v =
      let nine = digits 9 (omega arith) in
      let seven = digits 7 (omega arith) in
      let eight = digits 8 (omega arith) in
      let core = core_of isbn10 in
      let all : All (IsDigit u) core = (
        (ground (arith, nine.0), nine.1),
        ((ground (arith, seven.0), seven.1), ((ground (arith, eight.0), eight.1), h)),
      ) in
      let (total, e) = sum-ok true core all in
      let long : length core ≡ 12 =
        omega (arith, length-take_nine isbn10 (valid-length isbn10 v)) in
      let good = core-check core total digits all long e in
      (core ++ ((48 + (10 - total % 10) % 10) ∷ []), rw (v, e, good) refl, good)
