-- ===== src/Importer/Params.antt =====
-- sync/importer.py: the database row of a record, and what the upsert leaves of an old row.
use aa_metadata_worker.Prelude.{
  Text, Option, none, some, List, [], ◌∷◌, ◌++◌, not, ◌==◌, nat_eq, text_eq, contains, nonempty,
  filter, if◌then◌else◌, map, max,
}
use aa_metadata_worker.Unicode.{Unicode}
use aa_metadata_worker.Records.{NormalizedRecord, quality_score}
use aa_metadata_worker.Normalize.{normalize_text, findall, derive_work_key}
use aa_metadata_worker.Database.{Row, coalesce}

-- `value.replace("\x00", "")`
unfoldable pub strip_nul : Text → Text
strip_nul = filter (λ c. not (c == 0))

abbrev pub strip_nul? : Option Text → Option Text
strip_nul? none = none
strip_nul? (some t) = some (strip_nul t)

-- The loop that appends the tokens that are new.
unfoldable pub add_tokens : List Text → List Text → List Text
add_tokens tokens [] = tokens
add_tokens tokens (t ∷ rest) =
    add_tokens (if contains t tokens then tokens else tokens ++ (t ∷ [])) rest

module _ (u : Unicode) where
  -- The loop over the author names, normalized and not empty.
  unfoldable pub author_tokens : List Text → List Text → List Text
  unfolding add_tokens
  author_tokens tokens [] = tokens
  author_tokens tokens (name ∷ rest) =
      author_tokens (add_tokens tokens (findall u.is_word [] name)) rest

  unfoldable pub record_to_params : NormalizedRecord → Row
  unfolding author_tokens strip_nul
  record_to_params r = record {
    title = strip_nul r.title;
    title_norm = strip_nul (normalize_text u r.title);
    authors = map strip_nul (filter nonempty r.authors);
    author_tokens = author_tokens [] (filter nonempty (map (normalize_text u) r.authors));
    publisher = strip_nul? r.publisher;
    publication_year = r.publication_year;
    languages = map strip_nul r.languages;
    extension = r.extension;
    filesize = r.filesize;
    isbn10 = r.isbn10;
    isbn13 = r.isbn13;
    doi = r.doi;
    oclc = r.oclc;
    openlibrary_ids = r.openlibrary_ids;
    work_key = derive_work_key r.isbn13 r.isbn10 r.doi r.openlibrary_ids;
    series_name = strip_nul? r.series_name;
    series_position = r.series_position;
    edition = strip_nul? r.edition;
    source_collection = r.source_collection;
    source_record_id = r.source_record_id;
    aacid = r.aacid;
    source_timestamp = r.source_timestamp;
    quality_score = quality_score r;
    deleted = r.deleted;
    removed_reason = r.removed_reason;
    ipfs_cid = r.ipfs_cid;
  }

-- `_UPSERT_SQL`: the row to insert, and the row that stands under its MD5.
unfoldable pub upsert_row : Row → Option Row → Row
upsert_row new none = new
upsert_row new (some old) = record new {
  series_name = coalesce new.series_name old.series_name;
  series_position = coalesce new.series_position old.series_position;
  edition = coalesce new.edition old.edition;
  source_timestamp = coalesce new.source_timestamp old.source_timestamp;
  quality_score = max old.quality_score new.quality_score;
  ipfs_cid = coalesce new.ipfs_cid old.ipfs_cid;
}
