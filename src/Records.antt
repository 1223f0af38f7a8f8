-- ===== src/Records.antt =====
-- common/records.py: the normalized record, its quality score, and the merge of two records of one
-- MD5. A `datetime` is its UTC instant: every adapter takes it from `aacid_timestamp`, which is
-- timezone-aware, or leaves it `None`.
pub mod Arrays
pub mod Score
pub mod Merge
use aa_metadata_worker.Prelude.{
  ℕ, ◌+◌, Text, Bool, true, false, Option, none, some, List, [], ◌∷◌, ◌++◌, ◌&&◌, ◌||◌, not, codes,
  Eq, text_eq, nonempty, is_some, contains, ltb, max, ℤ, nonzero, if◌then◌else◌,
}
use aa_metadata_worker.Result.{Exception, error, Result, ok, err, ◌>>=◌, ◌>>◌}

pub record NormalizedRecord : Type 0 where
  pub md5 : Text
  pub title : Text
  pub authors : List Text
  pub publisher : Option Text
  pub publication_year : Option ℕ
  pub languages : List Text
  pub extension : Option Text
  pub filesize : Option ℤ
  pub isbn13 : List Text
  pub isbn10 : List Text
  pub doi : List Text
  pub oclc : List Text
  pub openlibrary_ids : List Text
  pub series_name : Option Text
  pub series_position : Option ℕ
  pub edition : Option Text
  pub source_collection : Text
  pub source_record_id : Option Text
  pub aacid : Option Text
  pub source_timestamp : Option ℕ
  pub deleted : Bool
  pub removed_reason : Option Text
  pub ipfs_cid : Option Text
  pub discarded : Bool
  pub discard_reason : Option Text

-- The defaults of the dataclass.
abbrev pub blank : Text → NormalizedRecord
blank m = record {
  md5 = m;
  title = [];
  authors = [];
  publisher = none;
  publication_year = none;
  languages = [];
  extension = none;
  filesize = none;
  isbn13 = [];
  isbn10 = [];
  doi = [];
  oclc = [];
  openlibrary_ids = [];
  series_name = none;
  series_position = none;
  edition = none;
  source_collection = [];
  source_record_id = none;
  aacid = none;
  source_timestamp = none;
  deleted = false;
  removed_reason = none;
  ipfs_cid = none;
  discarded = false;
  discard_reason = none;
}

-- The truth value of a `str | None`.
abbrev pub truthy_text : Option Text → Bool
truthy_text none = false
truthy_text (some t) = nonempty t

-- The truth value of an `int | None`: 0 counts as false.
abbrev pub truthy_int : Option ℕ → Bool
truthy_int none = false
truthy_int (some n) = ltb 0 n

-- The truth value of an `int | None` that may be negative.
abbrev pub truthy_size : Option ℤ → Bool
truthy_size none = false
truthy_size (some n) = nonzero n

abbrev pub points : Bool → ℕ → ℕ
points b weight = if b then weight else 0

unfoldable pub quality_score : NormalizedRecord → ℕ
quality_score r =
    points (nonempty r.title) 10
    + points (nonempty r.authors) 8
    + points (truthy_text r.publisher) 3
    + points (truthy_int r.publication_year) 3
    + points (nonempty r.languages) 2
    + points (nonempty r.isbn13) 6
    + points (nonempty r.isbn10) 3
    + points (nonempty r.doi) 3
    + points (nonempty r.oclc) 2
    + points (nonempty r.openlibrary_ids) 2
    + points (truthy_text r.extension) 1
    + points (truthy_size r.filesize) 1
    + points (truthy_text r.series_name) 2
    + points (is_some r.series_position) 1
    + points (truthy_text r.edition) 1

-- `list(dict.fromkeys(xs))`: the first occurrence of each element. The first argument holds what
-- has been seen.
unfoldable pub unseen {ℓ} : {A : Type ℓ} ⦃e : Eq A⦄ → List A → List A → List A
unseen seen [] = []
unseen seen (x ∷ xs) =
    let rest = unseen (seen ++ (x ∷ [])) xs in
    let old = unseen seen xs in if contains x seen then old else x ∷ rest

unfoldable pub merge_arrays : List Text → List Text → List Text
merge_arrays existing incoming = unseen [] (existing ++ incoming)

-- `x in (None, "", [])` for the three types of scalar.
abbrev pub empty_title : Text → Bool
empty_title t = not (nonempty t)

abbrev pub empty_text : Option Text → Bool
empty_text t = not (truthy_text t)

abbrev pub empty_int : Option ℕ → Bool
empty_int n = not (is_some n)

abbrev pub empty_size : Option ℤ → Bool
empty_size n = not (is_some n)

abbrev pub type_error : Exception
type_error =
    error (codes "TypeError") (codes "can't compare offset-naive and offset-aware datetimes")

-- `inc_ts > ex_ts`, where a missing timestamp is the naive `datetime.min`: Python refuses to
-- compare a naive with an aware datetime.
unfoldable pub newer : Option ℕ → Option ℕ → Result Bool
newer none none = ok false
newer (some i) (some x) = ok (ltb x i)
newer _ _ = err type_error

-- The closure of `merge_records`, over the two scores and the two timestamps.
unfoldable pub prefer_scalar {ℓ} :
    {A : Type ℓ} → (A → Bool) → ℕ → ℕ → Option ℕ → Option ℕ → A → A → Result A
unfolding newer
prefer_scalar empty ex_score inc_score ex_ts inc_ts existing incoming =
    if empty existing && not (empty incoming)
    then ok incoming
    else if empty incoming
    then ok existing
    else if ltb ex_score inc_score
    then ok incoming
    else if ltb inc_score ex_score
    then ok existing
    else (do win ← newer inc_ts ex_ts; ok (if win then incoming else existing))

-- `incoming or existing`
abbrev pub or_text : Option Text → Option Text → Option Text
or_text a b = if truthy_text a then a else b

-- `max(filter(None, [a, b]), default=None)`
abbrev pub latest : Option ℕ → Option ℕ → Option ℕ
latest none b = b
latest (some a) none = some a
latest (some a) (some b) = some (max a b)

-- `incoming.source_timestamp and (not existing.source_timestamp or incoming... > existing...)`
abbrev pub strictly_newer : Option ℕ → Option ℕ → Bool
strictly_newer none x = false
strictly_newer (some i) none = true
strictly_newer (some i) (some x) = ltb x i

abbrev pub merged_deleted : NormalizedRecord → NormalizedRecord → Bool × Option Text
merged_deleted existing incoming =
    if incoming.deleted && not existing.deleted
    then (true, incoming.removed_reason)
    else if existing.deleted
    then (if not incoming.deleted
          && strictly_newer incoming.source_timestamp existing.source_timestamp
        then (false, none)
        else (true, existing.removed_reason))
    else (false, none)

unfoldable pub merge_records :
    NormalizedRecord → ℕ → NormalizedRecord → Result (NormalizedRecord × ℕ)
merge_records ex ex_score inc =
    let inc_score = quality_score inc in
    let prefer_title =
      prefer_scalar empty_title ex_score inc_score ex.source_timestamp inc.source_timestamp in
    let prefer_text =
      prefer_scalar empty_text ex_score inc_score ex.source_timestamp inc.source_timestamp in
    let prefer_int =
      prefer_scalar empty_int ex_score inc_score ex.source_timestamp inc.source_timestamp in
    let prefer_size =
      prefer_scalar empty_size ex_score inc_score ex.source_timestamp inc.source_timestamp in
    do
      title ← prefer_title ex.title inc.title
      publisher ← prefer_text ex.publisher inc.publisher
      publication_year ← prefer_int ex.publication_year inc.publication_year
      extension ← prefer_text ex.extension inc.extension
      filesize ← prefer_size ex.filesize inc.filesize
      series_name ← prefer_text ex.series_name inc.series_name
      series_position ← prefer_int ex.series_position inc.series_position
      edition ← prefer_text ex.edition inc.edition
      ok (
        record {
          md5 = ex.md5;
          title = title;
          authors = merge_arrays ex.authors inc.authors;
          publisher = publisher;
          publication_year = publication_year;
          languages = merge_arrays ex.languages inc.languages;
          extension = extension;
          filesize = filesize;
          isbn13 = merge_arrays ex.isbn13 inc.isbn13;
          isbn10 = merge_arrays ex.isbn10 inc.isbn10;
          doi = merge_arrays ex.doi inc.doi;
          oclc = merge_arrays ex.oclc inc.oclc;
          openlibrary_ids = merge_arrays ex.openlibrary_ids inc.openlibrary_ids;
          series_name = series_name;
          series_position = series_position;
          edition = edition;
          source_collection =
              if ltb inc_score ex_score
              then ex.source_collection
              else if nonempty inc.source_collection
              then inc.source_collection
              else ex.source_collection;
          source_record_id =
              if ltb inc_score ex_score
              then ex.source_record_id
              else or_text inc.source_record_id ex.source_record_id;
          aacid = or_text inc.aacid ex.aacid;
          source_timestamp = latest ex.source_timestamp inc.source_timestamp;
          deleted = (merged_deleted ex inc).0;
          removed_reason = (merged_deleted ex inc).1;
          ipfs_cid = or_text ex.ipfs_cid inc.ipfs_cid;
          discarded = false;
          discard_reason = none;
        },
        max ex_score inc_score,
      )
