-- ===== src/Languages.antt =====
-- common/languages.py: language names and codes to ISO 639-3.
use aa_metadata_worker.Prelude.{
  not, ℕ, ◌≡◌, refl, Text, Bool, true, false, Option, none, some, List, [], ◌∷◌, codes, Dict,
  lookup, text_eq, length, leb, ◌&&◌, ◌||◌, ◌==◌, nat_eq, if◌then◌else◌, nonempty, take, drop,
  is_some,
}
use aa_metadata_worker.Unicode.{Unicode}
use aa_metadata_worker.Normalize.{strip}
pub mod Codes

-- `_TO_ISO639_3`
unfoldable pub table : Dict Text Text
table =
    (codes "de", codes "deu")
    ∷ (codes "ger", codes "deu")
    ∷ (codes "deu", codes "deu")
    ∷ (codes "german", codes "deu")
    ∷ (codes "deutsch", codes "deu")
    ∷ (codes "en", codes "eng")
    ∷ (codes "eng", codes "eng")
    ∷ (codes "english", codes "eng")
    ∷ (codes "fr", codes "fra")
    ∷ (codes "fre", codes "fra")
    ∷ (codes "fra", codes "fra")
    ∷ (codes "french", codes "fra")
    ∷ (codes "français", codes "fra")
    ∷ (codes "franzosisch", codes "fra")
    ∷ (codes "es", codes "spa")
    ∷ (codes "spa", codes "spa")
    ∷ (codes "spanish", codes "spa")
    ∷ (codes "español", codes "spa")
    ∷ (codes "spanisch", codes "spa")
    ∷ (codes "it", codes "ita")
    ∷ (codes "ita", codes "ita")
    ∷ (codes "italian", codes "ita")
    ∷ (codes "italienisch", codes "ita")
    ∷ (codes "nl", codes "nld")
    ∷ (codes "dut", codes "nld")
    ∷ (codes "nld", codes "nld")
    ∷ (codes "dutch", codes "nld")
    ∷ (codes "niederlandisch", codes "nld")
    ∷ (codes "ru", codes "rus")
    ∷ (codes "rus", codes "rus")
    ∷ (codes "russian", codes "rus")
    ∷ (codes "russisch", codes "rus")
    ∷ (codes "pt", codes "por")
    ∷ (codes "por", codes "por")
    ∷ (codes "portuguese", codes "por")
    ∷ (codes "pl", codes "pol")
    ∷ (codes "pol", codes "pol")
    ∷ (codes "polish", codes "pol")
    ∷ (codes "polnisch", codes "pol")
    ∷ (codes "zh", codes "zho")
    ∷ (codes "chi", codes "zho")
    ∷ (codes "zho", codes "zho")
    ∷ (codes "chinese", codes "zho")
    ∷ (codes "mandarin", codes "zho")
    ∷ (codes "ja", codes "jpn")
    ∷ (codes "jpn", codes "jpn")
    ∷ (codes "japanese", codes "jpn")
    ∷ (codes "ko", codes "kor")
    ∷ (codes "kor", codes "kor")
    ∷ (codes "korean", codes "kor")
    ∷ (codes "ar", codes "ara")
    ∷ (codes "ara", codes "ara")
    ∷ (codes "arabic", codes "ara")
    ∷ (codes "tr", codes "tur")
    ∷ (codes "tur", codes "tur")
    ∷ (codes "turkish", codes "tur")
    ∷ (codes "sv", codes "swe")
    ∷ (codes "swe", codes "swe")
    ∷ (codes "swedish", codes "swe")
    ∷ (codes "no", codes "nor")
    ∷ (codes "nor", codes "nor")
    ∷ (codes "nob", codes "nob")
    ∷ (codes "nno", codes "nno")
    ∷ (codes "norwegian", codes "nor")
    ∷ (codes "da", codes "dan")
    ∷ (codes "dan", codes "dan")
    ∷ (codes "danish", codes "dan")
    ∷ (codes "fi", codes "fin")
    ∷ (codes "fin", codes "fin")
    ∷ (codes "finnish", codes "fin")
    ∷ (codes "cs", codes "ces")
    ∷ (codes "cze", codes "ces")
    ∷ (codes "ces", codes "ces")
    ∷ (codes "czech", codes "ces")
    ∷ (codes "hu", codes "hun")
    ∷ (codes "hun", codes "hun")
    ∷ (codes "hungarian", codes "hun")
    ∷ (codes "ro", codes "ron")
    ∷ (codes "rum", codes "ron")
    ∷ (codes "ron", codes "ron")
    ∷ (codes "romanian", codes "ron")
    ∷ (codes "el", codes "ell")
    ∷ (codes "gre", codes "ell")
    ∷ (codes "ell", codes "ell")
    ∷ (codes "greek", codes "ell")
    ∷ (codes "he", codes "heb")
    ∷ (codes "heb", codes "heb")
    ∷ (codes "hebrew", codes "heb")
    ∷ (codes "hi", codes "hin")
    ∷ (codes "hin", codes "hin")
    ∷ (codes "hindi", codes "hin")
    ∷ (codes "id", codes "ind")
    ∷ (codes "ind", codes "ind")
    ∷ (codes "indonesian", codes "ind")
    ∷ (codes "uk", codes "ukr")
    ∷ (codes "ukr", codes "ukr")
    ∷ (codes "ukrainian", codes "ukr")
    ∷ (codes "bg", codes "bul")
    ∷ (codes "bul", codes "bul")
    ∷ (codes "bulgarian", codes "bul")
    ∷ (codes "hr", codes "hrv")
    ∷ (codes "hrv", codes "hrv")
    ∷ (codes "croatian", codes "hrv")
    ∷ (codes "sr", codes "srp")
    ∷ (codes "srp", codes "srp")
    ∷ (codes "serbian", codes "srp")
    ∷ (codes "sk", codes "slk")
    ∷ (codes "slo", codes "slk")
    ∷ (codes "slk", codes "slk")
    ∷ (codes "slovak", codes "slk")
    ∷ (codes "sl", codes "slv")
    ∷ (codes "slv", codes "slv")
    ∷ (codes "slovenian", codes "slv")
    ∷ (codes "vi", codes "vie")
    ∷ (codes "vie", codes "vie")
    ∷ (codes "vietnamese", codes "vie")
    ∷ (codes "th", codes "tha")
    ∷ (codes "tha", codes "tha")
    ∷ (codes "thai", codes "tha")
    ∷ (codes "fa", codes "fas")
    ∷ (codes "fas", codes "fas")
    ∷ (codes "per", codes "fas")
    ∷ (codes "persian", codes "fas")
    ∷ (codes "farsi", codes "fas")
    ∷ (codes "la", codes "lat")
    ∷ (codes "lat", codes "lat")
    ∷ (codes "latin", codes "lat")
    ∷ (codes "mul", codes "mul")
    ∷ (codes "multiple", codes "mul")
    ∷ []

-- `^([a-z]{2,3})[-_]`, greedy: the letters before the separator
abbrev pub is_lower : ℕ → Bool
is_lower c = leb 97 c && leb c 122

abbrev pub is_separator : ℕ → Bool
is_separator c = c == 45 || c == 95

unfoldable pub region_base : Text → Option Text
region_base (a ∷ b ∷ c ∷ d ∷ _) =
    if is_lower a && is_lower b && is_lower c && is_separator d
    then some (a ∷ b ∷ c ∷ [])
    else if is_lower a && is_lower b && is_separator c
    then some (a ∷ b ∷ [])
    else none
region_base (a ∷ b ∷ c ∷ []) =
    if is_lower a && is_lower b && is_separator c then some (a ∷ b ∷ []) else none
region_base _ = none

-- `str.isalpha`, on a text that is not empty
abbrev pub all_alpha : Unicode → Text → Bool
all_alpha u [] = true
all_alpha u (c ∷ s) = u.is_alpha c && all_alpha u s

abbrev pub base_code : Option Text → Option Text
base_code none = none
base_code (some base) = lookup base table

-- The value is a string; of a list the first entry that is not blank is one.
unfoldable pub language_to_iso639_3 : Unicode → Text → Option Text
unfolding strip
language_to_iso639_3 u value =
    let key = u.lower (strip u.is_space value) in
    if not (nonempty key) then none else elim (lookup key table) [
      | some code ↦ some code
      | none ↦ elim (base_code (region_base key)) [
        | some code ↦ some code
        | none ↦ if length key == 3 && all_alpha u key then some key else none
      ]
    ]
