-- ===== src/Normalize/Isbn.antt =====
-- common/normalize.py: ISBN-10 and ISBN-13, their checksums and the conversion.
pub mod Convert
use aa_metadata_worker.Prelude.{
  ℕ, ◌+◌, ◌-◌, ◌*◌, ◌%◌, Text, Bool, true, false, Option, none, some, List, [], ◌∷◌, ◌++◌, ◌&&◌,
  ◌||◌, not, codes, ◌==◌, text_eq, nat_eq, contains, nonempty, is_some, leb, if◌then◌else◌, filter,
  length, take,
}
use aa_metadata_worker.Result.{Exception, error, Result, ok, err, ◌>>=◌}
use aa_metadata_worker.Unicode.{Unicode}
use aa_metadata_worker.Normalize.{strip}

-- What `int(ch)` raises at a character that is no decimal digit.
abbrev pub bad_literal : ℕ → Exception
bad_literal c =
    error (codes "ValueError")
      (codes "invalid literal for int() with base 10: '" ++ (c ∷ codes "'"))

abbrev pub weight13 : Bool → ℕ
weight13 even = if even then 1 else 3

-- `"978" + isbn10[:9]`
abbrev pub core_of : Text → Text
core_of isbn10 = 57 ∷ 55 ∷ 56 ∷ take 9 isbn10

module _ (u : Unicode) where
  unfoldable pub int_digit : ℕ → Result ℕ
  int_digit c = elim (u.decimal c) [ none ↦ err (bad_literal c) | some d ↦ ok d ]

  -- `all(ch.isdigit() or (ch == "X" and isbn.endswith("X")) for ch in isbn)`
  unfoldable pub isbn10_shape : Bool → Text → Bool
  isbn10_shape ends_x [] = true
  isbn10_shape ends_x (c ∷ s) = (u.is_digit c || (c == 88 && ends_x)) && isbn10_shape ends_x s

  unfoldable pub ends_with_x : Text → Bool
  ends_with_x [] = false
  ends_with_x (c ∷ []) = c == 88
  ends_with_x (c ∷ s) = ends_with_x s

  -- The weighted sum, from the weight of the first character down.
  unfoldable pub isbn10_sum : ℕ → Text → Result ℕ
  unfolding int_digit
  isbn10_sum weight [] = ok 0
  isbn10_sum weight (c ∷ s) = do
    d ← if c == 88 then ok 10 else int_digit c
    rest ← isbn10_sum (weight - 1) s
    ok (weight * d + rest)

  unfoldable pub isbn10_valid : Text → Result Bool
  unfolding isbn10_shape ends_with_x isbn10_sum
  isbn10_valid isbn =
      if not (length isbn == 10) || not (isbn10_shape (ends_with_x isbn) isbn)
      then ok false
      else (do total ← isbn10_sum 10 isbn; ok (total % 11 == 0))

  abbrev pub all_digits : Text → Bool
  all_digits [] = true
  all_digits (c ∷ s) = u.is_digit c && all_digits s

  -- The sum with weights 1 and 3 in turn; the flag says that the index is even.
  unfoldable pub isbn13_sum : Bool → Text → Result ℕ
  unfolding int_digit
  isbn13_sum even [] = ok 0
  isbn13_sum even (c ∷ s) = do
    d ← int_digit c
    rest ← isbn13_sum (not even) s
    ok (d * weight13 even + rest)

  unfoldable pub isbn13_valid : Text → Result Bool
  unfolding isbn13_sum
  isbn13_valid isbn =
      if not (length isbn == 13) || not (all_digits isbn)
      then ok false
      else (do total ← isbn13_sum true isbn; ok (total % 10 == 0))

  unfoldable pub isbn10_to_13 : Text → Result (Option Text)
  isbn10_to_13 isbn10 = do
    valid ← isbn10_valid isbn10
    if not valid then ok none else do
      total ← isbn13_sum true (core_of isbn10)
      let candidate = core_of isbn10 ++ ((48 + (10 - total % 10) % 10) ∷ [])
      valid13 ← isbn13_valid candidate
      ok (if valid13 then some candidate else none)

  -- `[\s\-‐-―]`
  abbrev pub is_separator : ℕ → Bool
  is_separator c = u.is_space c || c == 45 || (leb 8208 c && leb c 8213)

  -- `re.sub(r"[\s\-‐-―]", "", value.strip()).upper()`
  unfoldable pub cleaned : Text → Text
  unfolding strip
  cleaned value = u.upper (filter (λ c. not (is_separator c)) (strip u.is_space value))

  unfoldable pub normalize_isbn13 : Text → Result (Option Text)
  unfolding cleaned
  normalize_isbn13 [] = ok none
  normalize_isbn13 (c ∷ s) = do
    let text = cleaned (c ∷ s)
    valid ← isbn13_valid text
    if valid then ok (some text) else if length text == 10 then isbn10_to_13 text else ok none

  unfoldable pub normalize_isbn10 : Text → Result (Option Text)
  unfolding cleaned
  normalize_isbn10 [] = ok none
  normalize_isbn10 (c ∷ s) = do
    let text = cleaned (c ∷ s)
    valid ← isbn10_valid text
    ok (if valid then some text else none)

  abbrev pub asin_tail : Text → Bool
  asin_tail [] = true
  asin_tail (c ∷ s) = ((leb 48 c && leb c 57) || (leb 65 c && leb c 90)) && asin_tail s

  -- `re.fullmatch(r"B[0-9A-Z]{9}", value)`
  unfoldable pub looks_like_asin : Text → Bool
  looks_like_asin [] = false
  looks_like_asin (c ∷ s) = c == 66 && length s == 9 && asin_tail s

  abbrev pub add_new : Option Text → List Text → List Text
  add_new none xs = xs
  add_new (some x) xs = if contains x xs then xs else xs ++ (x ∷ [])

  -- The loop of `normalize_isbn_list` over strings, with the two lists that it appends to.
  unfoldable pub isbn_loop : List Text → List Text → List Text → Result (List Text × List Text)
  unfolding cleaned
  isbn_loop [] isbn13 isbn10 = ok (isbn13, isbn10)
  isbn_loop (raw ∷ rest) isbn13 isbn10 =
      let text = cleaned raw in
      if not (nonempty text) then isbn_loop rest isbn13 isbn10 else do
        as13 ← normalize_isbn13 text
        as10 ←
            if is_some as13 || not (length text == 10) || looks_like_asin text
            then ok none
            else normalize_isbn10 text
        isbn_loop rest (add_new as13 isbn13) (add_new as10 isbn10)

  unfoldable pub normalize_isbn_list : List Text → Result (List Text × List Text)
  unfolding isbn_loop
  normalize_isbn_list values = isbn_loop values [] []
