-- ===== src/Normalize.antt =====
-- common/normalize.py: text, and the small fields of a record.
pub mod Isbn
pub mod Doi
pub mod Codes
pub mod Authors
use aa_metadata_worker.Prelude.{
  ℕ, ◌+◌, ◌-◌, ◌*◌, Text, Bool, true, false, Option, none, some, List, [], ◌∷◌, ◌++◌, ◌&&◌, ◌||◌,
  not, codes, ◌==◌, text_eq, nat_eq, contains, nonempty, ltb, leb, if◌then◌else◌, filter, length,
  take, drop, is_some,
}
use aa_metadata_worker.Unicode.{Unicode}

-- `lstrip`, `rstrip` and `strip`, over a class of characters
unfoldable pub lstrip : (ℕ → Bool) → Text → Text
lstrip p [] = []
lstrip p (c ∷ s) = let rest = lstrip p s in if p c then rest else c ∷ s

unfoldable pub rstrip : (ℕ → Bool) → Text → Text
rstrip p [] = []
rstrip p (c ∷ s) = let rest = rstrip p s in if p c && not (nonempty rest) then [] else c ∷ rest

unfoldable pub strip : (ℕ → Bool) → Text → Text
unfolding lstrip rstrip
strip p s = rstrip p (lstrip p s)

-- `re.sub(r"\s+", " ", s)`; the flag says that the run of blanks has been written.
unfoldable pub collapse : (ℕ → Bool) → Bool → Text → Text
collapse p written [] = []
collapse p written (c ∷ s) =
    let in_run = collapse p true s in
    let out = collapse p false s in
    if p c then (if written then in_run else 32 ∷ in_run) else c ∷ out

-- `re.findall(r"\w+", s)`; the first argument is the token that is being read.
unfoldable pub findall : (ℕ → Bool) → Text → Text → List Text
findall p token [] = if nonempty token then token ∷ [] else []
findall p token (c ∷ s) =
    let longer = findall p (token ++ (c ∷ [])) s in
    let fresh = findall p [] s in
    if p c then longer else if nonempty token then token ∷ fresh else fresh

module _ (u : Unicode) where
  unfoldable pub normalize_text : Text → Text
  unfolding strip collapse
  normalize_text [] = []
  normalize_text (c ∷ s) =
      let text = filter (λ ch. not (u.combining ch)) (u.nfkd (u.nfkc (c ∷ s))) in
      u.casefold (strip u.is_space (collapse u.is_space false text))

abbrev pub hex_digit : ℕ → Option ℕ
hex_digit c =
    if leb 48 c && leb c 57
    then some (c - 48)
    else if leb 97 c && leb c 102
    then some (c - 87)
    else none

-- `bytes.fromhex`, on pairs of digits
unfoldable pub from_hex : Text → Option Text
from_hex [] = some []
from_hex (a ∷ []) = none
from_hex (a ∷ b ∷ s) = elim (hex_digit a) [
  | none ↦ none
  | some x ↦ elim (hex_digit b) [
    | none ↦ none
    | some y ↦ elim (from_hex s) [ none ↦ none | some rest ↦ some ((x * 16 + y) ∷ rest) ]
  ]
]

-- `^[0-9a-f]{32}$` on a stripped text: 32 digits that `fromhex` reads
unfoldable pub normalize_md5 : Unicode → Option Text → Option Text
unfolding strip from_hex
normalize_md5 u none = none
normalize_md5 u (some value) =
    let hexed = u.lower (strip u.is_space value) in
    if length hexed == 32 then from_hex hexed else none

-- `(\d{4})` at the head of a text
unfoldable pub four_digits : Unicode → Text → Option ℕ
four_digits u (w ∷ x ∷ y ∷ z ∷ _) = elim (u.decimal w) [
  | none ↦ none
  | some i ↦ elim (u.decimal x) [
    | none ↦ none
    | some j ↦ elim (u.decimal y) [
      | none ↦ none
      | some k ↦ elim (u.decimal z) [
        | none ↦ none
        | some l ↦ some (i * 1000 + j * 100 + k * 10 + l)
      ]
    ]
  ]
]
four_digits u _ = none

-- `_YEAR_RE.search`: the leftmost four decimal digits in a row
search_year : Unicode → Text → Option ℕ
search_year u [] = none
search_year u (c ∷ s) = elim (four_digits u (c ∷ s)) [
  | none ↦ search_year u s
  | some year ↦ some year
]

-- The argument is `str(value)`.
unfoldable pub normalize_year : Unicode → Option Text → Option ℕ
unfolding four_digits search_year
normalize_year u none = none
normalize_year u (some value) = elim (search_year u value) [
  | none ↦ none
  | some year ↦ if leb 1000 year && leb year 2100 then some year else none
]

abbrev pub is_ext_char : ℕ → Bool
is_ext_char c = (leb 97 c && leb c 122) || (leb 48 c && leb c 57)

abbrev pub all_ext : Text → Bool
all_ext [] = true
all_ext (c ∷ s) = is_ext_char c && all_ext s

unfoldable pub normalize_extension : Unicode → Option Text → Option Text
unfolding strip
normalize_extension u none = none
normalize_extension u (some value) =
    let ext = lstrip (λ c. c == 46) (u.lower (strip u.is_space value)) in
    if nonempty ext && leb (length ext) 10 && all_ext ext then some ext else none

-- The first identifier of the most reliable kind that is present.
unfoldable pub derive_work_key : List Text → List Text → List Text → List Text → Option Text
derive_work_key (i ∷ _) isbn10 doi ol = some (codes "isbn:" ++ i)
derive_work_key [] (i ∷ _) doi ol = some (codes "isbn:" ++ i)
derive_work_key [] [] (d ∷ _) ol = some (codes "doi:" ++ d)
derive_work_key [] [] [] (o ∷ _) = some (codes "ol:" ++ o)
derive_work_key [] [] [] [] = none
