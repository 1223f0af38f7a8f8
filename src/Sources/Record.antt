-- ===== src/Sources/Record.antt =====
-- What the adapters of sync/sources share: the settings that they read, and the columns that take a
-- value of the line as it is. `aacid` and `ipfs_cid` are strings or absent in the dumps; another
-- value, which the code passes on until the row is written, is refused here at once.
use aa_metadata_worker.Prelude.{
  ℕ, Text, Bool, Option, none, some, List, [], ◌∷◌, codes, nonempty, if◌then◌else◌,
}
use aa_metadata_worker.Result.{Exception, Result, ok, err, ◌>>=◌}
use aa_metadata_worker.Records.{truthy_text, truthy_int}
use aa_metadata_worker.Sources.Json.{Json, null, string, Python, truthy, get, type_error, str}

pub record SourceSettings : Type 0 where
  pub upload_blocked_subcollections : List Text
  pub upload_require_title_author : Bool
  pub ia_require_texts : Bool
  pub gbooks_require_books : Bool
  pub libby_allowed_types : List Text

abbrev pub not_text : Exception
not_text = type_error (codes "expected a string")

abbrev pub text_column : Json → Result (Option Text)
text_column null = ok none
text_column (string s) = ok (some s)
text_column v = err not_text

-- `raw.get("aacid")`
unfoldable pub aacid_column : Json → Result (Option Text)
unfolding get
aacid_column raw = do aacid ← get (codes "aacid") raw; text_column aacid

-- `s or None`
abbrev pub text_or_none : Text → Option Text
text_or_none s = if nonempty s then some s else none

-- `[x] if x else []`
abbrev pub list_of : Option Text → List Text
list_of none = []
list_of (some x) = if nonempty x then x ∷ [] else []

-- `str(v) if v else None`
abbrev pub str_if_true : Python → Json → Option Text
str_if_true py v = if truthy v then some (str py v) else none

-- `a or b`, where `b` is evaluated only if `a` is false
abbrev pub pick_text : Option Text → Result (Option Text) → Result (Option Text)
pick_text a b = if truthy_text a then ok a else b

abbrev pub pick_year : Option ℕ → Result (Option ℕ) → Result (Option ℕ)
pick_year a b = if truthy_int a then ok a else b

-- A test for `None`, and what follows in each case.
unfoldable pub on_option :
    {A : Type 0} → {B : Type 0} → Option B → Result A → (B → Result A) → Result A
on_option none missing given = missing
on_option (some b) missing given = given b
