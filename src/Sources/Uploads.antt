-- ===== src/Sources/Uploads.antt =====
-- sync/sources/uploads.py
pub mod Filters
use aa_metadata_worker.Prelude.{
  ℕ, ℤ, Text, Bool, true, false, Option, none, some, List, [], ◌∷◌, ◌++◌, ◌&&◌, ◌||◌, not, codes,
  ◌==◌, nat_eq, text_eq, nonempty, contains, filter, map, if◌then◌else◌,
}
use aa_metadata_worker.Result.{Result, ok, err, ◌>>=◌}
use aa_metadata_worker.Normalize.{strip, collapse}
use aa_metadata_worker.Records.{NormalizedRecord, blank, or_text}
use aa_metadata_worker.FilterAnalysis.{upload_records, subcollection_of}
use aa_metadata_worker.Sources.Json.{
  Json, null, string, Python, truthy, or_value, get, get_object, str, str_or_empty, int,
}
use aa_metadata_worker.Sources.Fields.{
  normalize_md5, normalize_language, normalize_year, normalize_extension,
}
use aa_metadata_worker.Sources.FileName.{split_on, suffix, stem}
use aa_metadata_worker.Sources.Base.{record_timestamp}
use aa_metadata_worker.Sources.Record.{
  on_option, SourceSettings, text_column, aacid_column, text_or_none, list_of, str_if_true,
  pick_text, pick_year,
}

module _ (py : Python) where
  -- `str(d.get(key) or "").strip()`
  unfoldable pub text_at : Text → Json → Result Text
  text_at key d = do v ← get key d; ok (strip py.unicode.is_space (str_or_empty py v))

  -- `a or b` for two such texts, of which the second is read only if the first is empty
  unfoldable pub text_of_either : Text → Json → Text → Json → Result Text
  unfolding text_at
  text_of_either key1 d1 key2 d2 = do
    first ← text_at key1 d1
    if nonempty first then ok first else text_at key2 d2

  abbrev pub is_unwordly : ℕ → Bool
  is_unwordly c = not (py.unicode.is_word c) || c == 95

  unfoldable pub title_from_filepath : Text → Text
  unfolding stem strip collapse
  title_from_filepath filepath =
      collapse py.unicode.is_space false
        (strip py.unicode.is_space (collapse is_unwordly false (stem filepath)))

  -- The texts among the parts between semicolons that are not blank.
  unfoldable pub author_parts : Text → List Text
  unfolding split_on
  author_parts s = filter (λ a. nonempty (strip py.unicode.is_space a)) (split_on 59 s)

  abbrev pub stripped_parts : Text → List Text
  stripped_parts s = map (strip py.unicode.is_space) (author_parts s)

  -- The closure of `parse`.
  unfoldable pub discarded_record :
      Json → Json → Text → Text → Text → Text → Result NormalizedRecord
  discarded_record raw meta md5 title author reason = do
    primary_id ← get (codes "primary_id") meta
    aacid_text ← aacid_column raw
    ok (record (blank md5) {
      title = title;
      authors = stripped_parts author;
      source_collection = upload_records;
      source_record_id = str_if_true py primary_id;
      aacid = aacid_text;
      discarded = true;
      discard_reason = some reason;
    })

  -- The record of a line that passes the filters.
  unfoldable pub upload_record :
      Json → Json → Json → Json → Text → Text → Text → Result NormalizedRecord
  upload_record raw meta exif pikepdf md5 found_title author = do
    filepath ← get (codes "filepath") meta
    let path = str_or_empty py filepath
    publisher ← text_of_either (codes "Publisher") exif (codes "/Publisher") pikepdf
    language ← get (codes "Language") exif
    created ← get (codes "CreateDate") exif
    publication_year ←
        pick_year (normalize_year py created)
          (do v ← get (codes "/CreationDate") pikepdf; ok (normalize_year py v))
    file_type ← get (codes "file_type") meta
    own_extension ← normalize_extension py file_type
    extension ← pick_text own_extension (normalize_extension py (string (suffix path)))
    deleted ← get (codes "deleted_as_duplicate") meta
    size ← get (codes "filesize") meta
    filesize ← if truthy size then (do n ← int py size; ok (some n)) else ok none
    primary_id ← get (codes "primary_id") meta
    source_timestamp ← record_timestamp py raw
    aacid_text ← aacid_column raw
    ok (record (blank md5) {
      title = if nonempty found_title then found_title else title_from_filepath path;
      authors = author_parts author;
      publisher = text_or_none publisher;
      publication_year = publication_year;
      languages = list_of (normalize_language py language);
      extension = extension;
      filesize = filesize;
      source_collection = upload_records;
      source_record_id = str_if_true py primary_id;
      aacid = aacid_text;
      source_timestamp = source_timestamp;
      deleted = truthy deleted;
      removed_reason = if truthy deleted then some (codes "deleted_as_duplicate") else none;
    })

  -- The reason to discard a line, by its AACID, its title and its author.
  unfoldable pub discard_reason_of : SourceSettings → Option Text → Text → Text → Option Text
  unfolding subcollection_of
  discard_reason_of settings aacid title author =
      let subcoll = subcollection_of py.unicode aacid in
      let missing =
        if settings.upload_require_title_author && not (nonempty title && nonempty author)
        then some (codes "missing_title_or_author")
        else none in
      elim subcoll [
        | none ↦ missing
        | some name ↦
            if nonempty name && contains name settings.upload_blocked_subcollections
            then some (codes "blocked_subcollection:" ++ name)
            else missing
      ]

  unfoldable pub parse_upload : SourceSettings → Json → Result (List NormalizedRecord)
  parse_upload settings raw = do
    meta ← get_object (codes "metadata") raw
    reported ← get (codes "md5") meta
    md5 ← normalize_md5 py reported
    on_option md5 (ok []) (λ m. do
      exif ← get_object (codes "exiftool_output") meta
      pikepdf ← get_object (codes "pikepdf_docinfo") meta
      title ← text_of_either (codes "Title") exif (codes "/Title") pikepdf
      author ← text_of_either (codes "Author") exif (codes "/Author") pikepdf
      aacid_text ← aacid_column raw
      on_option (discard_reason_of settings aacid_text title author)
          (do r ← upload_record raw meta exif pikepdf m title author; ok (r ∷ []))
          (λ reason. do r ← discarded_record raw meta m title author reason; ok (r ∷ [])))
