-- ===== src/Records/Score.antt =====
-- `quality_score` of common/records.py, and how a merge changes it.
use aa_metadata_worker.Prelude.{
  ℕ, ℤ, pos, ◌≡◌, ◌≤◌, Bool, true, false, ◌≢◌, Option, none, some, arith, List, Text, nonempty,
  is_some, Distinct, text_eq,
}
use aa_metadata_worker.Result.{ok}
use aa_metadata_worker.Records.{
  NormalizedRecord, quality_score, points, truthy_text, truthy_int, empty_title, empty_text,
  empty_int, empty_size, truthy_size, merge_arrays, merge_records, prefer_scalar,
}
use aa_metadata_worker.Records.Arrays.{nonempty-merge_arrays, merge_arrays_self}
use aa_metadata_worker.Records.Merge.{
  FromEither, FromScalars, IsMerge, merge_records-IsMerge, merge_records-FromEither,
}

-- A record whose year and size are not the number 0, which Python takes for missing.
pub record IsPlausible (r : NormalizedRecord) : Type 0 where
  pub year : r.publication_year ≢ some 0
  pub size : r.filesize ≢ some (pos 0)

points_mono : (a b : Bool) (w : ℕ) → (a ≡ true → b ≡ true) → points a w ≤ points b w
points_mono a b w h = ground arith

module _ (existing incoming v : Text) where
  title-filled :
      FromEither empty_title existing incoming v
      → (nonempty existing ≡ true → nonempty v ≡ true)
        × (nonempty incoming ≡ true → nonempty v ≡ true)
  title-filled h = (λ e. ground arith, λ e. ground arith)

module _ (existing incoming v : Option Text) where
  text-filled :
      FromEither empty_text existing incoming v
      → (truthy_text existing ≡ true → truthy_text v ≡ true)
        × (truthy_text incoming ≡ true → truthy_text v ≡ true)
  text-filled h = (λ e. ground arith, λ e. ground arith)

module _ (existing incoming v : Option ℕ) where
  int-filled :
      FromEither empty_int existing incoming v
      → (is_some existing ≡ true → is_some v ≡ true) × (is_some incoming ≡ true → is_some v ≡ true)
  int-filled h = (λ e. ground arith, λ e. ground arith)

  nonzero-filled :
      existing ≢ some 0
      → incoming ≢ some 0
      → FromEither empty_int existing incoming v
      → (truthy_int existing ≡ true → truthy_int v ≡ true)
        × (truthy_int incoming ≡ true → truthy_int v ≡ true)
  nonzero-filled p q h = (λ e. ground arith, λ e. ground arith)

module _ (existing incoming v : Option ℤ) where
  size-filled :
      existing ≢ some (pos 0)
      → incoming ≢ some (pos 0)
      → FromEither empty_size existing incoming v
      → (truthy_size existing ≡ true → truthy_size v ≡ true)
        × (truthy_size incoming ≡ true → truthy_size v ≡ true)
  size-filled p q h = (λ e. ground arith, λ e. ground arith)

array-filled :
    (a b v : List Text)
    → v ≡ merge_arrays a b
    → (nonempty a ≡ true → nonempty v ≡ true) × (nonempty b ≡ true → nonempty v ≡ true)
array-filled a b v h =
    (λ e. ground (arith, nonempty-merge_arrays a b), λ e. ground (arith, nonempty-merge_arrays a b))

-- Whatever counts for the score of `r` counts for `m` too.
record Covers (r m : NormalizedRecord) : Type 0 where
  title : nonempty r.title ≡ true → nonempty m.title ≡ true
  authors : nonempty r.authors ≡ true → nonempty m.authors ≡ true
  publisher : truthy_text r.publisher ≡ true → truthy_text m.publisher ≡ true
  publication_year : truthy_int r.publication_year ≡ true → truthy_int m.publication_year ≡ true
  languages : nonempty r.languages ≡ true → nonempty m.languages ≡ true
  isbn13 : nonempty r.isbn13 ≡ true → nonempty m.isbn13 ≡ true
  isbn10 : nonempty r.isbn10 ≡ true → nonempty m.isbn10 ≡ true
  doi : nonempty r.doi ≡ true → nonempty m.doi ≡ true
  oclc : nonempty r.oclc ≡ true → nonempty m.oclc ≡ true
  openlibrary_ids : nonempty r.openlibrary_ids ≡ true → nonempty m.openlibrary_ids ≡ true
  extension : truthy_text r.extension ≡ true → truthy_text m.extension ≡ true
  filesize : truthy_size r.filesize ≡ true → truthy_size m.filesize ≡ true
  series_name : truthy_text r.series_name ≡ true → truthy_text m.series_name ≡ true
  series_position : is_some r.series_position ≡ true → is_some m.series_position ≡ true
  edition : truthy_text r.edition ≡ true → truthy_text m.edition ≡ true

Covers-score : (r m : NormalizedRecord) → Covers r m → quality_score r ≤ quality_score m
unfolding quality_score
Covers-score r m c = omega (
  arith,
  points_mono _ _ 10 c.title,
  points_mono _ _ 8 c.authors,
  points_mono _ _ 3 c.publisher,
  points_mono _ _ 3 c.publication_year,
  points_mono _ _ 2 c.languages,
  points_mono _ _ 6 c.isbn13,
  points_mono _ _ 3 c.isbn10,
  points_mono _ _ 3 c.doi,
  points_mono _ _ 2 c.oclc,
  points_mono _ _ 2 c.openlibrary_ids,
  points_mono _ _ 1 c.extension,
  points_mono _ _ 1 c.filesize,
  points_mono _ _ 2 c.series_name,
  points_mono _ _ 1 c.series_position,
  points_mono _ _ 1 c.edition,
)

module _ (ex : NormalizedRecord) (ex_score : ℕ) (inc : NormalizedRecord) (m : NormalizedRecord)
    (f : IsMerge ex ex_score inc m) (from : FromScalars ex inc m) (pe : IsPlausible ex)
    (pi : IsPlausible inc) where
  Covers-existing : Covers ex m
  Covers-existing = record {
    title = (title-filled _ _ _ from.0).0;
    authors = (array-filled _ _ _ f.authors).0;
    publisher = (text-filled _ _ _ from.1).0;
    publication_year = (nonzero-filled _ _ _ pe.year pi.year from.2).0;
    languages = (array-filled _ _ _ f.languages).0;
    isbn13 = (array-filled _ _ _ f.isbn13).0;
    isbn10 = (array-filled _ _ _ f.isbn10).0;
    doi = (array-filled _ _ _ f.doi).0;
    oclc = (array-filled _ _ _ f.oclc).0;
    openlibrary_ids = (array-filled _ _ _ f.openlibrary_ids).0;
    extension = (text-filled _ _ _ from.3).0;
    filesize = (size-filled _ _ _ pe.size pi.size from.4).0;
    series_name = (text-filled _ _ _ from.5).0;
    series_position = (int-filled _ _ _ from.6).0;
    edition = (text-filled _ _ _ from.7).0;
  }

  Covers-incoming : Covers inc m
  Covers-incoming = record {
    title = (title-filled _ _ _ from.0).1;
    authors = (array-filled _ _ _ f.authors).1;
    publisher = (text-filled _ _ _ from.1).1;
    publication_year = (nonzero-filled _ _ _ pe.year pi.year from.2).1;
    languages = (array-filled _ _ _ f.languages).1;
    isbn13 = (array-filled _ _ _ f.isbn13).1;
    isbn10 = (array-filled _ _ _ f.isbn10).1;
    doi = (array-filled _ _ _ f.doi).1;
    oclc = (array-filled _ _ _ f.oclc).1;
    openlibrary_ids = (array-filled _ _ _ f.openlibrary_ids).1;
    extension = (text-filled _ _ _ from.3).1;
    filesize = (size-filled _ _ _ pe.size pi.size from.4).1;
    series_name = (text-filled _ _ _ from.5).1;
    series_position = (int-filled _ _ _ from.6).1;
    edition = (text-filled _ _ _ from.7).1;
  }

-- For plausible records a merge loses nothing that counts: its record scores at least as high as
-- each side, and the score that is returned with it, the larger of the two, is no overestimate.
pub merge_records-score :
    (ex inc : NormalizedRecord) {m : NormalizedRecord} {s : ℕ}
    → IsPlausible ex
    → IsPlausible inc
    → merge_records ex (quality_score ex) inc ≡ ok (m, s)
    → (quality_score ex ≤ quality_score m)
      × (quality_score inc ≤ quality_score m)
      × (s ≤ quality_score m)
merge_records-score ex inc {m} pe pi h =
    let (f, e) = merge_records-IsMerge ex (quality_score ex) inc h in
    let from = merge_records-FromEither ex (quality_score ex) inc h in
    let a = Covers-score ex m (Covers-existing ex (quality_score ex) inc m f from pe pi) in
    let b = Covers-score inc m (Covers-incoming ex (quality_score ex) inc m f from pe pi) in
    (a, b, omega arith)

-- A clean record repeats nothing in its lists, is not
-- discarded, and has a removal reason only if it is deleted.
pub record IsClean (r : NormalizedRecord) : Type 0 where
  pub authors : Distinct r.authors
  pub languages : Distinct r.languages
  pub isbn13 : Distinct r.isbn13
  pub isbn10 : Distinct r.isbn10
  pub doi : Distinct r.doi
  pub oclc : Distinct r.oclc
  pub openlibrary_ids : Distinct r.openlibrary_ids
  pub kept : r.discarded ≡ false
  pub no_discard_reason : r.discard_reason ≡ none
  pub live : r.deleted ≡ false → r.removed_reason ≡ none

prefer_scalar_self {ℓ} :
    {A : Type ℓ} (empty : A → Bool) (s : ℕ) (ts : Option ℕ) (v : A)
    → prefer_scalar empty s s ts ts v v ≡ ok v
unfolding prefer_scalar
prefer_scalar_self empty s none v = ground arith
prefer_scalar_self empty s (some t) v = ground arith

-- Importing the same clean record again changes nothing: the merge with itself is itself.
pub merge_records-idempotent :
    (r : NormalizedRecord)
    → IsClean r
    → merge_records r (quality_score r) r ≡ ok (r, quality_score r)
unfolding merge_records
merge_records-idempotent r c = ground (
  arith,
  prefer_scalar_self empty_title (quality_score r) r.source_timestamp r.title,
  prefer_scalar_self empty_text (quality_score r) r.source_timestamp r.publisher,
  prefer_scalar_self empty_int (quality_score r) r.source_timestamp r.publication_year,
  prefer_scalar_self empty_text (quality_score r) r.source_timestamp r.extension,
  prefer_scalar_self empty_size (quality_score r) r.source_timestamp r.filesize,
  prefer_scalar_self empty_text (quality_score r) r.source_timestamp r.series_name,
  prefer_scalar_self empty_int (quality_score r) r.source_timestamp r.series_position,
  prefer_scalar_self empty_text (quality_score r) r.source_timestamp r.edition,
  merge_arrays_self r.authors c.authors,
  merge_arrays_self r.languages c.languages,
  merge_arrays_self r.isbn13 c.isbn13,
  merge_arrays_self r.isbn10 c.isbn10,
  merge_arrays_self r.doi c.doi,
  merge_arrays_self r.oclc c.oclc,
  merge_arrays_self r.openlibrary_ids c.openlibrary_ids,
)
