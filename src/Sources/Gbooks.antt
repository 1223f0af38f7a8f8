-- ===== src/Sources/Gbooks.antt =====
-- sync/sources/gbooks.py
use aa_metadata_worker.Prelude.{
  Text, true, Option, none, some, List, [], ◌∷◌, ◌++◌, ◌&&◌, not, codes, ◌==◌, text_eq, nonempty,
  map, filter, if◌then◌else◌,
}
use aa_metadata_worker.Result.{Result, ok, ◌>>=◌}
use aa_metadata_worker.Normalize.{strip}
use aa_metadata_worker.Normalize.Authors
use aa_metadata_worker.Normalize.Isbn
use aa_metadata_worker.Records.{NormalizedRecord, blank}
use aa_metadata_worker.Sources.Json.{
  Json, null, Python, or_value, get, get_object, empty_array, iterate, str, str_or_empty,
}
use aa_metadata_worker.Sources.Fields.{normalize_language, normalize_year}
use aa_metadata_worker.Sources.Base.{record_timestamp, synthetic_md5}
use aa_metadata_worker.Sources.Ia2.{is_object}
use aa_metadata_worker.Sources.Record.{on_option, SourceSettings, aacid_column, list_of}

abbrev pub gbooks_records : Text
gbooks_records = codes "gbooks_records"

-- `sep.join(parts)`
abbrev pub join : Text → List Text → Text
join sep [] = []
join sep (part ∷ []) = part
join sep (part ∷ next ∷ parts) = part ++ (sep ++ join sep (next ∷ parts))

module _ (py : Python) where
  -- `str(v) if v is not None else None`
  abbrev pub str_if_given : Json → Option Text
  str_if_given null = none
  str_if_given v = some (str py v)

  -- `str(d.get(key) or "").strip()`, for a value
  abbrev pub text_of : Json → Text
  text_of v = strip py.unicode.is_space (str_or_empty py v)

  -- The values of the entries that are objects.
  unfoldable pub identifier_values : List Json → Result (List Text)
  identifier_values [] = ok []
  identifier_values (entry ∷ entries) =
      if not (is_object entry) then identifier_values entries else do
        identifier ← get (codes "identifier") entry
        rest ← identifier_values entries
        ok (text_of identifier ∷ rest)

  unfoldable pub identifiers : Json → Result (List Text × List Text)
  identifiers meta = do
    listed ← get (codes "industryIdentifiers") meta
    entries ← iterate (or_value listed empty_array)
    values ← identifier_values entries
    Isbn.normalize_isbn_list py.unicode (filter nonempty values)

  unfoldable pub volume_record : Json → Json → Text → Text → Result NormalizedRecord
  volume_record raw meta record_id md5 = do
    isbn ← identifiers meta
    language ← get (codes "language") meta
    title ← get (codes "title") meta
    listed ← get (codes "authors") meta
    names ← iterate (or_value listed empty_array)
    published ← get (codes "publishedDate") meta
    source_timestamp ← record_timestamp py raw
    aacid_text ← aacid_column raw
    ok (record (blank md5) {
      title = text_of title;
      authors = Authors.split_authors py.unicode (join (codes "; ") (map (str py) names));
      publication_year = normalize_year py published;
      languages = list_of (normalize_language py language);
      isbn13 = isbn.0;
      isbn10 = isbn.1;
      source_collection = gbooks_records;
      source_record_id = some record_id;
      aacid = aacid_text;
      source_timestamp = source_timestamp;
    })

  unfoldable pub parse_gbooks : SourceSettings → Json → Result (List NormalizedRecord)
  parse_gbooks settings raw = do
    meta ← get_object (codes "metadata") raw
    id ← get (codes "id") meta
    md5 ← synthetic_md5 py gbooks_records (str_if_given id)
    on_option md5 (ok []) (λ m. (do
      kind ← get (codes "printType") meta
      let print_type = text_of kind
      if settings.gbooks_require_books && nonempty print_type && not (print_type == codes "BOOK")
          then ok (
              record (blank m) {
                source_collection = gbooks_records;
                discarded = true;
                discard_reason = some (codes "gbooks_printtype:" ++ print_type);
              }
              ∷ [])
          else (do r ← volume_record raw meta (str py id) m; ok (r ∷ []))))
