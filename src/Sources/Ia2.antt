-- ===== src/Sources/Ia2.antt =====
-- sync/sources/ia2.py: one record for each file of an item.
pub mod Files
use aa_metadata_worker.Prelude.{
  ℕ, suc, zero, ℤ, Text, Bool, true, false, Option, none, some, List, [], ◌∷◌, ◌++◌, ◌&&◌, ◌||◌,
  not, codes, ◌==◌, nat_eq, text_eq, nonempty, contains, filter, map, is_some, if◌then◌else◌,
}
use aa_metadata_worker.Result.{Result, ok, err, ◌>>=◌}
use aa_metadata_worker.Unicode.{Unicode}
use aa_metadata_worker.Normalize.{strip}
use aa_metadata_worker.Normalize.Authors
use aa_metadata_worker.Normalize.Isbn
use aa_metadata_worker.Records.{NormalizedRecord, blank}
use aa_metadata_worker.Discovery.{strip_prefix}
use aa_metadata_worker.Sources.Json.{
  Json, null, boolean, integer, float, string, array, object, Python, items, truthy, or_value, get,
  get_object, empty_array, iterate, str, str_or_empty,
}
use aa_metadata_worker.Sources.Fields.{
  normalize_md5, normalize_isbn_list, normalize_language, normalize_year, normalize_extension,
  normalize_series_position, size_or_none, stripped, has_text,
}
use aa_metadata_worker.Sources.FileName.{suffix}
use aa_metadata_worker.Sources.Base.{record_timestamp}
use aa_metadata_worker.Sources.Record.{
  on_option, SourceSettings, text_column, aacid_column, text_or_none, list_of, str_if_true,
}

abbrev pub ia2_records : Text
ia2_records = codes "ia2_records"

abbrev pub all_of : (ℕ → Bool) → Text → Bool
all_of p [] = true
all_of p (c ∷ s) = p c && all_of p s

-- `isinstance(v, dict)`
abbrev pub is_object : Json → Bool
is_object (object ms) = true
is_object v = false

-- The authors that are not yet in a list, appended to it.
abbrev pub add_authors : List Text → List Text → List Text
add_authors found [] = found
add_authors found (a ∷ more) =
    add_authors (if contains a found then found else found ++ (a ∷ [])) more

module _ (py : Python) where
  abbrev pub as_list : Json → List Text
  as_list null = []
  as_list (array vs) = map (stripped py) (filter (has_text py) (items vs))
  as_list v = if has_text py v then stripped py v ∷ [] else []

  -- Read by `head_of`: the first entry, or the empty text.
  abbrev pub head_of : List Text → Text
  head_of [] = []
  head_of (s ∷ _) = s

  abbrev pub as_text : Json → Text
  as_text v = head_of (as_list v)

  -- `v.isdigit()`
  abbrev pub is_number : Text → Bool
  is_number s = nonempty s && all_of py.unicode.is_digit s

  -- `\d+[MW]`, of which a digit has been read if the flag says so
  abbrev pub number_then_kind : Bool → Text → Bool
  number_then_kind after_digit [] = false
  number_then_kind after_digit (c ∷ s) =
      (after_digit && (c == 77 || c == 87) && not (nonempty s))
      || (is_some (py.unicode.decimal c) && number_then_kind true s)

  -- `re.fullmatch(r"OL\d+[MW]", v)`
  unfoldable pub is_openlibrary_id : Text → Bool
  unfolding strip_prefix
  is_openlibrary_id v = elim (strip_prefix (codes "OL") v) [
    | none ↦ false
    | some rest ↦ number_then_kind false rest
  ]

  unfoldable pub collect_authors : List Text → List Text → List Text
  collect_authors found [] = found
  collect_authors found (name ∷ names) =
      collect_authors (add_authors found (Authors.split_authors py.unicode name)) names

  -- The bibliographic data of an item, as a record without a file.
  unfoldable pub item_record : Json → Json → Result NormalizedRecord
  item_record meta ia_meta = do
    isbns ← get (codes "isbn") ia_meta
    isbn ← Isbn.normalize_isbn_list py.unicode (as_list isbns)
    oclc ← get (codes "oclc-id") ia_meta
    edition_ids ← get (codes "openlibrary_edition") ia_meta
    work_ids ← get (codes "openlibrary_work") ia_meta
    creator ← get (codes "creator") ia_meta
    associated ← get (codes "associated-names") ia_meta
    language ← get (codes "language") ia_meta
    date ← get (codes "date") ia_meta
    series ← get (codes "series") ia_meta
    volume ← get (codes "volume") ia_meta
    series_position ← normalize_series_position py volume
    edition ← get (codes "edition") ia_meta
    title ← get (codes "title") ia_meta
    publisher ← get (codes "publisher") ia_meta
    ia_id ← get (codes "ia_id") meta
    ok (record (blank []) {
      title = as_text title;
      authors = collect_authors [] (as_list creator ++ as_list associated);
      publisher = text_or_none (as_text publisher);
      publication_year = normalize_year py date;
      languages = list_of (normalize_language py language);
      isbn13 = isbn.0;
      isbn10 = isbn.1;
      oclc = filter is_number (as_list oclc);
      openlibrary_ids = filter is_openlibrary_id (as_list edition_ids ++ as_list work_ids);
      series_name = text_or_none (as_text series);
      series_position = series_position;
      edition = text_or_none (as_text edition);
      source_collection = ia2_records;
      source_record_id = str_if_true py ia_id;
    })

  -- The record of a file that has an MD5.
  unfoldable pub file_record : Json → NormalizedRecord → Json → Text → Result NormalizedRecord
  file_record raw item file_info md5 = do
    name ← get (codes "name") file_info
    extension ← normalize_extension py (string (suffix (str_or_empty py name)))
    size ← get (codes "size") file_info
    filesize ← size_or_none py size
    source_timestamp ← record_timestamp py raw
    aacid_text ← aacid_column raw
    ok (record item {
      md5 = md5;
      extension = extension;
      filesize = filesize;
      aacid = aacid_text;
      source_timestamp = source_timestamp;
    })

  -- The loop over the files, with the MD5s that have been seen.
  unfoldable pub file_records :
      Json → NormalizedRecord → List Text → List Json → Result (List NormalizedRecord)
  file_records raw item seen [] = ok []
  file_records raw item seen (file_info ∷ files) =
      let skip = file_records raw item seen files in
      if not (is_object file_info) then skip else do
        value ← get (codes "md5") file_info
        md5 ← normalize_md5 py value
        on_option md5 skip (λ m. if contains m seen then skip else do
          r ← file_record raw item file_info m
          rest ← file_records raw item (seen ++ (m ∷ [])) files
          ok (r ∷ rest))

  -- `next((f.get("md5") for f in files if isinstance(f, dict)), None)`
  unfoldable pub first_md5 : List Json → Result Json
  first_md5 [] = ok null
  first_md5 (file_info ∷ files) =
      if is_object file_info then get (codes "md5") file_info else first_md5 files

  -- An item that is no text, by the MD5 of its first file.
  unfoldable pub discarded_item : Json → Text → List Json → Result (List NormalizedRecord)
  unfolding first_md5
  discarded_item meta mediatype files = do
    value ← first_md5 files
    md5 ← normalize_md5 py value
    on_option md5 (ok []) (λ m. (do
      ia_id ← get (codes "ia_id") meta
      ok (
          record (blank m) {
            source_collection = ia2_records;
            source_record_id = some (str py ia_id);
            discarded = true;
            discard_reason = some (codes "ia_mediatype:" ++ mediatype);
          }
          ∷ [])))

  unfoldable pub parse_ia2 : SourceSettings → Json → Result (List NormalizedRecord)
  parse_ia2 settings raw = do
    meta ← get_object (codes "metadata") raw
    metadata_json ← get_object (codes "metadata_json") meta
    ia_meta ← get_object (codes "metadata") metadata_json
    files ← get (codes "aa_shorter_files") metadata_json
    mediatype_value ← get (codes "mediatype") ia_meta
    let mediatype = py.unicode.lower (as_text mediatype_value)
    if settings.ia_require_texts && nonempty mediatype && not (mediatype == codes "texts")
        then (do
          entries ← iterate (or_value files empty_array)
          discarded_item meta mediatype entries)
        else (do
          item ← item_record meta ia_meta
          entries ← iterate (or_value files empty_array)
          file_records raw item [] entries)
