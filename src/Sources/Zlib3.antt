-- ===== src/Sources/Zlib3.antt =====
-- sync/sources/zlib3.py. `assert` at the end compares a value with itself.
use aa_metadata_worker.Prelude.{Text, none, some, List, [], ◌∷◌, codes, find?, if◌then◌else◌}
use aa_metadata_worker.Result.{Result, ok, ◌>>=◌}
use aa_metadata_worker.Normalize.{strip}
use aa_metadata_worker.Records.{NormalizedRecord, blank}
use aa_metadata_worker.Sources.Json.{
  Json, string, array, Python, items, truthy, get, get_object, str, str_or_empty,
}
use aa_metadata_worker.Sources.Fields.{
  normalize_md5, normalize_isbn_list, normalize_language, normalize_year, normalize_extension,
  normalize_series_position, size_or_none, split_authors, has_text,
}
use aa_metadata_worker.Sources.Base.{record_timestamp}
use aa_metadata_worker.Sources.Record.{
  on_option, text_column, aacid_column, text_or_none, list_of, str_if_true, pick_text, pick_year,
}

abbrev pub zlib3_records : Text
zlib3_records = codes "zlib3_records"

module _ (py : Python) where
  abbrev pub first_or_empty : Json → Json
  first_or_empty (array vs) = elim (find? (has_text py) (items vs)) [
    | none ↦ string []
    | some v ↦ v
  ]
  first_or_empty v = v

  abbrev pub scalar_text : Json → Text
  scalar_text value = strip py.unicode.is_space (str_or_empty py (first_or_empty value))

  -- The record of a line that has an MD5.
  unfoldable pub zlib3_record : Json → Json → Text → Result NormalizedRecord
  zlib3_record raw meta md5 = do
    removed ← get (codes "removed") meta
    book_info ← get_object (codes "annabookinfo") meta
    annabook ← get_object (codes "response") book_info
    isbns ← get (codes "isbns") meta
    isbn ← normalize_isbn_list py isbns
    language ← get (codes "language") meta
    code ←
        pick_text (normalize_language py language)
          (do v ← get (codes "language") annabook; ok (normalize_language py v))
    year ← get (codes "year") meta
    publication_year ←
        pick_year (normalize_year py year)
          (do v ← get (codes "year") annabook; ok (normalize_year py v))
    suffix ← get (codes "extension") meta
    own_extension ← normalize_extension py suffix
    extension ←
        pick_text own_extension (do v ← get (codes "extension") annabook; normalize_extension py v)
    reported ← get (codes "filesize_reported") meta
    size ← if truthy reported then ok reported else get (codes "filesize") annabook
    filesize ← size_or_none py size
    series ← get (codes "series") meta
    volume ← get (codes "volume") meta
    series_position ← normalize_series_position py volume
    edition ← get (codes "edition") meta
    title ← get (codes "title") meta
    author ← get (codes "author") meta
    authors ← split_authors py author
    publisher ← get (codes "publisher") meta
    zlibrary_id ← get (codes "zlibrary_id") meta
    source_timestamp ← record_timestamp py raw
    removal_reason ← get (codes "removalReason") meta
    ipfs_cid ← get (codes "ipfs_cid") annabook
    aacid_text ← aacid_column raw
    ipfs_text ← text_column ipfs_cid
    ok (record (blank md5) {
      title = scalar_text title;
      authors = authors;
      publisher = text_or_none (scalar_text publisher);
      publication_year = publication_year;
      languages = list_of code;
      extension = extension;
      filesize = filesize;
      isbn13 = isbn.0;
      isbn10 = isbn.1;
      series_name = text_or_none (scalar_text series);
      series_position = series_position;
      edition = text_or_none (scalar_text edition);
      source_collection = zlib3_records;
      source_record_id = str_if_true py zlibrary_id;
      aacid = aacid_text;
      source_timestamp = source_timestamp;
      deleted = truthy removed;
      removed_reason = if truthy removed then some (str py removal_reason) else none;
      ipfs_cid = ipfs_text;
    })

  unfoldable pub parse_zlib3 : Json → Result (List NormalizedRecord)
  parse_zlib3 raw = do
    meta ← get_object (codes "metadata") raw
    reported ← get (codes "md5_reported") meta
    md5 ← normalize_md5 py reported
    on_option md5 (ok []) (λ m. (do r ← zlib3_record raw meta m; ok (r ∷ [])))
