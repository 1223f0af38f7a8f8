-- ===== src/Normalize/Codes.antt =====
-- common/normalize.py: lists of language codes.
use aa_metadata_worker.Prelude.{
  Text, Option, none, some, List, [], ◌∷◌, ◌++◌, ◌==◌, nat_eq, text_eq, ◌||◌, contains,
  if◌then◌else◌,
}
use aa_metadata_worker.Unicode.{Unicode}
use aa_metadata_worker.Languages.{language_to_iso639_3}

-- `re.split(r"[,;/]", values)`; the first argument is the part that is being read.
unfoldable pub split_values : Text → Text → List Text
split_values part [] = part ∷ []
split_values part (c ∷ s) =
    let fresh = split_values [] s in
    let longer = split_values (part ++ (c ∷ [])) s in
    if c == 44 || c == 59 || c == 47 then part ∷ fresh else longer

module _ (u : Unicode) where
  -- `add`
  abbrev pub add_code : Option Text → List Text → List Text
  add_code none result = result
  add_code (some code) result = if contains code result then result else result ++ (code ∷ [])

  -- The loop over the strings of a list.
  unfoldable pub add_codes : List Text → List Text → List Text
  add_codes [] result = result
  add_codes (raw ∷ rest) result = add_codes rest (add_code (language_to_iso639_3 u raw) result)

  -- Of a string, and of a list of strings.
  unfoldable pub normalize_languages : Text → List Text
  unfolding split_values add_codes
  normalize_languages values = add_codes (split_values [] values) []

  unfoldable pub normalize_language_list : List Text → List Text
  normalize_language_list values = add_codes values []
