-- ===== src/Sources/Libby.antt =====
-- sync/sources/libby.py
use aa_metadata_worker.Prelude.{
  Text, Bool, true, false, Option, none, some, List, [], ◌∷◌, ◌++◌, ◌&&◌, ◌||◌, not, codes, text_eq,
  nonempty, contains, if◌then◌else◌,
}
use aa_metadata_worker.Result.{Result, ok, ◌>>=◌}
use aa_metadata_worker.Normalize.{strip}
use aa_metadata_worker.Records.{NormalizedRecord, blank}
use aa_metadata_worker.Discovery.{strip_prefix}
use aa_metadata_worker.Sources.Json.{
  Json, Python, or_value, get, get_object, empty_array, iterate, str, str_or_empty,
}
use aa_metadata_worker.Sources.Fields.{normalize_language, normalize_year}
use aa_metadata_worker.Sources.Base.{record_timestamp, synthetic_md5}
use aa_metadata_worker.Sources.Ia2.{is_object}
use aa_metadata_worker.Sources.Gbooks.{str_if_given, text_of}
use aa_metadata_worker.Sources.Record.{on_option, SourceSettings, aacid_column, text_or_none}

abbrev pub libby_records : Text
libby_records = codes "libby_records"

-- `sub in s`
unfoldable pub includes : Text → Text → Bool
unfolding strip_prefix
includes sub [] = not (nonempty sub)
includes sub (c ∷ s) =
    let here : Bool = elim (strip_prefix sub (c ∷ s)) [ none ↦ false | some _ ↦ true ] in
    here || includes sub s

-- A code that is given and new, at the end of a list.
abbrev pub add_code : Option Text → List Text → List Text
add_code none found = found
add_code (some code) found =
    if nonempty code && not (contains code found) then found ++ (code ∷ []) else found

module _ (py : Python) where
  -- `entry.get(key)`, of an object
  abbrev pub member_text : Text → Json → Result Text
  member_text key entry = do v ← get key entry; ok (text_of py v)

  unfoldable pub named : Json → Result Text
  named entry = if is_object entry then member_text (codes "name") entry else ok (text_of py entry)

  unfoldable pub type_id : Json → Result Text
  type_id entry = if not (is_object entry) then ok (text_of py entry) else do
    id ← get (codes "id") entry
    name ← get (codes "name") entry
    ok (text_of py (or_value id name))

  -- `"author" in str(creator.get("role") or "").lower()`
  abbrev pub is_author : Json → Bool
  is_author role = includes (codes "author") (py.unicode.lower (str_or_empty py role))

  -- The names of the creators that are authors.
  unfoldable pub author_names : List Json → Result (List Text)
  author_names [] = ok []
  author_names (creator ∷ creators) = if not (is_object creator) then author_names creators else do
    role ← get (codes "role") creator
    found ← if is_author role then (do v ← get (codes "name") creator; named v) else ok []
    rest ← author_names creators
    ok (if nonempty found then strip py.unicode.is_space found ∷ rest else rest)

  unfoldable pub authors_of : Json → Result (List Text)
  authors_of meta = do
    listed ← get (codes "creators") meta
    creators ← iterate (or_value listed empty_array)
    authors ← author_names creators
    if nonempty authors then ok authors else do
      first ← get (codes "firstCreatorName") meta
      ok (if nonempty (text_of py first) then text_of py first ∷ [] else [])

  -- The codes of the entries, which are objects with an id, or ids.
  unfoldable pub language_codes : List Text → List Json → Result (List Text)
  language_codes found [] = ok found
  language_codes found (entry ∷ entries) = do
    value ← if is_object entry then get (codes "id") entry else ok entry
    language_codes (add_code (normalize_language py value) found) entries

  unfoldable pub title_record : Json → Json → Text → Text → Result NormalizedRecord
  title_record raw meta record_id md5 = do
    authors ← authors_of meta
    listed ← get (codes "languages") meta
    entries ← iterate (or_value listed empty_array)
    languages ← language_codes [] entries
    publisher_entry ← get (codes "publisher") meta
    own_publisher ← named publisher_entry
    publisher ←
        if nonempty own_publisher
        then ok own_publisher
        else (do imprint ← get (codes "imprint") meta; named imprint)
    title ← get (codes "title") meta
    published ← get (codes "publishDate") meta
    edition_entry ← get (codes "edition") meta
    edition ← named edition_entry
    source_timestamp ← record_timestamp py raw
    aacid_text ← aacid_column raw
    ok (record (blank md5) {
      title = text_of py title;
      authors = authors;
      publisher = text_or_none publisher;
      publication_year = normalize_year py published;
      languages = languages;
      edition = text_or_none edition;
      source_collection = libby_records;
      source_record_id = some record_id;
      aacid = aacid_text;
      source_timestamp = source_timestamp;
    })

  unfoldable pub parse_libby : SourceSettings → Json → Result (List NormalizedRecord)
  parse_libby settings raw = do
    meta ← get_object (codes "metadata") raw
    id ← get (codes "id") meta
    md5 ← synthetic_md5 py libby_records (str_if_given py id)
    on_option md5 (ok []) (λ m. (do
      kind ← get (codes "type") meta
      kind_id ← type_id kind
      let media_type = py.unicode.lower kind_id
      if nonempty media_type && not (contains media_type settings.libby_allowed_types)
          then ok (
              record (blank m) {
                source_collection = libby_records;
                discarded = true;
                discard_reason = some (codes "libby_type:" ++ media_type);
              }
              ∷ [])
          else (do r ← title_record raw meta (str py id) m; ok (r ∷ []))))
