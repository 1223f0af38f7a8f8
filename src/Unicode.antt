-- ===== src/Unicode.antt =====
-- What the program takes from Python's Unicode tables: `unicodedata` and the character classes of
-- `str` and `re`. The tables are a parameter; `ascii` is a value of it that is right on ASCII text.
use aa_metadata_worker.Prelude.{
  ℕ, ◌+◌, ◌-◌, Text, Bool, false, Option, none, some, ◌&&◌, ◌||◌, leb, if◌then◌else◌, ◌==◌, nat_eq,
  map,
}

pub record Unicode : Type 0 where
  pub nfkc : Text → Text
  pub nfkd : Text → Text
  pub combining : ℕ → Bool
  pub casefold : Text → Text
  pub lower : Text → Text
  pub upper : Text → Text
  -- `\s`, `str.isspace`
  pub is_space : ℕ → Bool
  -- `\w`
  pub is_word : ℕ → Bool
  -- `str.isdigit`
  pub is_digit : ℕ → Bool
  -- `\d` and `int(ch)`: the value of a decimal digit
  pub decimal : ℕ → Option ℕ
  pub is_alpha : ℕ → Bool
  -- a literal character of a pattern against a character of the text, under `re.IGNORECASE`
  pub same_letter : ℕ → ℕ → Bool

abbrev in_range : ℕ → ℕ → ℕ → Bool
in_range lo hi c = leb lo c && leb c hi

abbrev ascii_lower : ℕ → ℕ
ascii_lower c = if in_range 65 90 c then c + 32 else c

abbrev ascii_upper : ℕ → ℕ
ascii_upper c = if in_range 97 122 c then c - 32 else c

abbrev pub ascii_decimal : ℕ → Option ℕ
ascii_decimal c = if in_range 48 57 c then some (c - 48) else none

abbrev ascii_letter : ℕ → Bool
ascii_letter c = in_range 65 90 c || in_range 97 122 c

abbrev pub ascii : Unicode
ascii = record {
  nfkc = λ t. t;
  nfkd = λ t. t;
  combining = λ c. false;
  casefold = map ascii_lower;
  lower = map ascii_lower;
  upper = map ascii_upper;
  is_space = λ c. c == 32 || in_range 9 13 c || in_range 28 31 c;
  is_word = λ c. ascii_letter c || in_range 48 57 c || c == 95;
  is_digit = in_range 48 57;
  decimal = ascii_decimal;
  is_alpha = ascii_letter;
  same_letter = λ p c. ascii_lower p == ascii_lower c;
}
