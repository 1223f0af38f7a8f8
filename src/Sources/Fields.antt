-- ===== src/Sources/Fields.antt =====
-- common/normalize.py and common/languages.py at a value of a JSON object, which need not be a
-- string: each is what the code does with a value of every type.
use aa_metadata_worker.Prelude.{
  ℕ, ℤ, pos, negsuc, Text, Bool, true, false, Option, none, some, List, [], ◌∷◌, ◌&&◌, ◌||◌, not,
  codes, ◌==◌, text_eq, nonempty, leb, find?, if◌then◌else◌,
}
use aa_metadata_worker.Result.{Exception, error, graceful_shutdown, Result, ok, err, ◌>>=◌}
use aa_metadata_worker.Normalize
use aa_metadata_worker.Normalize.{strip}
use aa_metadata_worker.Normalize.Isbn
use aa_metadata_worker.Normalize.Authors
use aa_metadata_worker.Languages.{language_to_iso639_3}
use aa_metadata_worker.Sources.Json.{
  Json, null, boolean, integer, float, string, array, object, Python, items, truthy, or_value,
  empty_array, no_attribute, iterate, str, int,
}

-- `except (TypeError, ValueError)`
abbrev pub is_type_or_value_error : Exception → Bool
is_type_or_value_error graceful_shutdown = false
is_type_or_value_error (error name message) =
    name == codes "TypeError" || name == codes "ValueError"

-- The `str` entries of a list.
abbrev pub strings : List Json → List Text
strings [] = []
strings (string s ∷ vs) = s ∷ strings vs
strings (null ∷ vs) = strings vs
strings (boolean b ∷ vs) = strings vs
strings (integer n ∷ vs) = strings vs
strings (float b t ∷ vs) = strings vs
strings (array xs ∷ vs) = strings vs
strings (object ms ∷ vs) = strings vs

module _ (py : Python) where
  -- `str(v).strip()`
  abbrev pub stripped : Json → Text
  stripped v = strip py.unicode.is_space (str py v)

  abbrev pub has_text : Json → Bool
  has_text v = nonempty (stripped v)

  -- The first entry with a text, of a list; any other value is left as it is.
  abbrev pub first_usable : Json → Json
  first_usable (array vs) = elim (find? has_text (items vs)) [ none ↦ null | some v ↦ v ]
  first_usable v = v

  unfoldable pub normalize_language : Json → Option Text
  normalize_language value =
      let v = first_usable value in
      if truthy v then language_to_iso639_3 py.unicode (str py v) else none

  unfoldable pub normalize_year : Json → Option ℕ
  normalize_year null = none
  normalize_year v = Normalize.normalize_year py.unicode (some (str py v))

  -- A parameter of which `.strip()` is called if it is true.
  abbrev pub string_or_none : Json → Result (Option Text)
  string_or_none (string s) = ok (if nonempty s then some s else none)
  string_or_none v = if truthy v then err (no_attribute v (codes "strip")) else ok none

  unfoldable pub normalize_md5 : Json → Result (Option Text)
  normalize_md5 v = do value ← string_or_none v; ok (Normalize.normalize_md5 py.unicode value)

  unfoldable pub normalize_extension : Json → Result (Option Text)
  normalize_extension v = do
    value ← string_or_none v
    ok (Normalize.normalize_extension py.unicode value)

  unfoldable pub split_authors : Json → Result (List Text)
  split_authors v = do
    value ← string_or_none v
    ok (elim value [ none ↦ [] | some s ↦ Authors.split_authors py.unicode s ])

  unfoldable pub normalize_isbn_list : Json → Result (List Text × List Text)
  normalize_isbn_list v = do
    values ← iterate (or_value v empty_array)
    Isbn.normalize_isbn_list py.unicode (strings values)

  -- The column is a SMALLINT.
  abbrev pub plausible_position : ℤ → Option ℕ
  plausible_position (pos n) = if leb 1 n && leb n 32767 then some n else none
  plausible_position (negsuc n) = none

  -- `value is None or value == ""`
  abbrev pub is_absent : Json → Bool
  is_absent null = true
  is_absent (string s) = not (nonempty s)
  is_absent v = false

  unfoldable pub normalize_series_position : Json → Result (Option ℕ)
  normalize_series_position value = if is_absent value then ok none else elim (int py value) [
    | ok n ↦ ok (plausible_position n)
    | err e ↦ if is_type_or_value_error e then ok none else err e
  ]

  -- `int(v) if v else None` under `except (TypeError, ValueError)`
  unfoldable pub size_or_none : Json → Result (Option ℤ)
  size_or_none v = if not (truthy v) then ok none else elim (int py v) [
    | ok n ↦ ok (some n)
    | err e ↦ if is_type_or_value_error e then ok none else err e
  ]
