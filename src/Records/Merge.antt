-- ===== src/Records/Merge.antt =====
-- `merge_records` of common/records.py: what a merge that returns has built.
use aa_metadata_worker.Prelude.{
  ℕ, ◌≡◌, ◌∙◌, ap, Bool, true, false, not, ◌||◌, ◌≢◌, ◌⊎◌, inl, inr, Option, arith, max, nonempty,
  if◌then◌else◌, is_some,
}
use aa_metadata_worker.Result.{Exception, Result-cases, ok, err}
use aa_metadata_worker.Records.{
  NormalizedRecord, quality_score, strictly_newer, merge_arrays, empty_title, empty_text, empty_int,
  empty_size, newer, type_error, prefer_scalar, latest, merged_deleted, merge_records,
  strictly_newer,
}

module _ {ℓ} {A : Type ℓ} (empty : A → Bool) (ex_score inc_score : ℕ)
    (ex_ts inc_ts : Option ℕ) where
  -- The value comes from one side, and an empty value never replaces one that is not.
  pub prefer_scalar-cases :
      (existing incoming : A) {v : A}
      → prefer_scalar empty ex_score inc_score ex_ts inc_ts existing incoming ≡ ok v
      → ((v ≡ incoming) × (empty incoming ≡ false))
        ⊎ (v ≡ existing) × ((empty incoming ≡ true) ⊎ (empty existing ≡ false))
  unfolding prefer_scalar
  prefer_scalar-cases existing incoming h = ground arith

  -- With different scores, or timestamps of one kind, no comparison is refused.
  prefer_scalar-returns :
      (existing incoming : A)
      → (ex_score ≢ inc_score) ⊎ (is_some ex_ts ≡ is_some inc_ts)
      → (e : Exception)
      → prefer_scalar empty ex_score inc_score ex_ts inc_ts existing incoming ≢ err e
  unfolding prefer_scalar
  prefer_scalar-returns existing incoming (inl h) e = ground arith
  prefer_scalar-returns existing incoming (inr h) e = ground arith

abbrev pub SameKind : Option ℕ → Option ℕ → Type 0
SameKind a b = is_some a ≡ is_some b

-- The fields of a merge that returned.
pub record IsMerge (ex : NormalizedRecord) (ex_score : ℕ) (inc m : NormalizedRecord) : Type 0 where
  pub md5 : m.md5 ≡ ex.md5
  pub title :
      prefer_scalar empty_title ex_score
        (quality_score inc)
        ex.source_timestamp
        inc.source_timestamp
        ex.title
        inc.title
      ≡ ok m.title
  pub publisher :
      prefer_scalar empty_text ex_score
        (quality_score inc)
        ex.source_timestamp
        inc.source_timestamp
        ex.publisher
        inc.publisher
      ≡ ok m.publisher
  pub publication_year :
      prefer_scalar empty_int ex_score
        (quality_score inc)
        ex.source_timestamp
        inc.source_timestamp
        ex.publication_year
        inc.publication_year
      ≡ ok m.publication_year
  pub extension :
      prefer_scalar empty_text ex_score
        (quality_score inc)
        ex.source_timestamp
        inc.source_timestamp
        ex.extension
        inc.extension
      ≡ ok m.extension
  pub filesize :
      prefer_scalar empty_size ex_score
        (quality_score inc)
        ex.source_timestamp
        inc.source_timestamp
        ex.filesize
        inc.filesize
      ≡ ok m.filesize
  pub series_name :
      prefer_scalar empty_text ex_score
        (quality_score inc)
        ex.source_timestamp
        inc.source_timestamp
        ex.series_name
        inc.series_name
      ≡ ok m.series_name
  pub series_position :
      prefer_scalar empty_int ex_score
        (quality_score inc)
        ex.source_timestamp
        inc.source_timestamp
        ex.series_position
        inc.series_position
      ≡ ok m.series_position
  pub edition :
      prefer_scalar empty_text ex_score
        (quality_score inc)
        ex.source_timestamp
        inc.source_timestamp
        ex.edition
        inc.edition
      ≡ ok m.edition
  pub authors : m.authors ≡ merge_arrays ex.authors inc.authors
  pub languages : m.languages ≡ merge_arrays ex.languages inc.languages
  pub isbn13 : m.isbn13 ≡ merge_arrays ex.isbn13 inc.isbn13
  pub isbn10 : m.isbn10 ≡ merge_arrays ex.isbn10 inc.isbn10
  pub doi : m.doi ≡ merge_arrays ex.doi inc.doi
  pub oclc : m.oclc ≡ merge_arrays ex.oclc inc.oclc
  pub openlibrary_ids : m.openlibrary_ids ≡ merge_arrays ex.openlibrary_ids inc.openlibrary_ids
  pub source_timestamp : m.source_timestamp ≡ latest ex.source_timestamp inc.source_timestamp
  pub deleted : m.deleted ≡ (merged_deleted ex inc).0
  pub removed_reason : m.removed_reason ≡ (merged_deleted ex inc).1
  pub discarded : m.discarded ≡ false

-- A merge that returns has the fields of `IsMerge` and the larger of the two scores.
pub merge_records-IsMerge :
    (ex : NormalizedRecord) (ex_score : ℕ) (inc : NormalizedRecord) {m : NormalizedRecord} {s : ℕ}
    → merge_records ex ex_score inc ≡ ok (m, s)
    → IsMerge ex ex_score inc m × (s ≡ max ex_score (quality_score inc))
unfolding merge_records
merge_records-IsMerge ex ex_score inc h = ground arith

-- Where a scalar of a merge comes from.
abbrev pub FromEither {ℓ} : {A : Type ℓ} → (A → Bool) → A → A → A → Type ℓ
FromEither empty existing incoming v =
    ((v ≡ incoming) × (empty incoming ≡ false))
    ⊎ (v ≡ existing) × ((empty incoming ≡ true) ⊎ (empty existing ≡ false))

abbrev pub FromScalars : NormalizedRecord → NormalizedRecord → NormalizedRecord → Type 0
FromScalars ex inc m =
    FromEither empty_title ex.title inc.title m.title
    × FromEither empty_text ex.publisher inc.publisher m.publisher
    × FromEither empty_int ex.publication_year inc.publication_year m.publication_year
    × FromEither empty_text ex.extension inc.extension m.extension
    × FromEither empty_size ex.filesize inc.filesize m.filesize
    × FromEither empty_text ex.series_name inc.series_name m.series_name
    × FromEither empty_int ex.series_position inc.series_position m.series_position
    × FromEither empty_text ex.edition inc.edition m.edition

-- No scalar is invented, and none is nulled out: each comes from the incoming side, where that is
-- not empty, or from the stored side, where that is not empty or neither is filled.
pub merge_records-FromEither :
    (ex : NormalizedRecord) (ex_score : ℕ) (inc : NormalizedRecord) {m : NormalizedRecord} {s : ℕ}
    → merge_records ex ex_score inc ≡ ok (m, s)
    → FromScalars ex inc m
merge_records-FromEither ex ex_score inc h =
    let (f, _) = merge_records-IsMerge ex ex_score inc h in
    (
      prefer_scalar-cases _ _ _ _ _ _ _ f.title,
      prefer_scalar-cases _ _ _ _ _ _ _ f.publisher,
      prefer_scalar-cases _ _ _ _ _ _ _ f.publication_year,
      prefer_scalar-cases _ _ _ _ _ _ _ f.extension,
      prefer_scalar-cases _ _ _ _ _ _ _ f.filesize,
      prefer_scalar-cases _ _ _ _ _ _ _ f.series_name,
      prefer_scalar-cases _ _ _ _ _ _ _ f.series_position,
      prefer_scalar-cases _ _ _ _ _ _ _ f.edition,
    )

-- With scores that differ, or timestamps that are both known or both missing, the merge returns:
-- its record is built, and its score is the larger one.
pub merge_records-returns :
    (ex : NormalizedRecord) (ex_score : ℕ) (inc : NormalizedRecord)
    → (ex_score ≢ quality_score inc) ⊎ SameKind ex.source_timestamp inc.source_timestamp
    → (m : NormalizedRecord) × (merge_records ex ex_score inc
        ≡ ok (m, max ex_score (quality_score inc)))
unfolding merge_records
merge_records-returns ex ex_score inc h = elim (Result-cases (merge_records ex ex_score inc)) [
  | inl (r, e) ↦ (r.0, e ∙ ap (λ k. ok (r.0, k)) (merge_records-IsMerge ex ex_score inc e).1)
  | inr (x, e) ↦ absurd (refused x e)
]
  where
    refused : (x : Exception) → merge_records ex ex_score inc ≡ err x → ⊥
    refused x e = ground (
      arith,
      prefer_scalar-returns empty_title ex_score (quality_score inc) ex.source_timestamp
          inc.source_timestamp ex.title inc.title h x,
      prefer_scalar-returns empty_text ex_score (quality_score inc) ex.source_timestamp
          inc.source_timestamp ex.publisher inc.publisher h x,
      prefer_scalar-returns empty_int ex_score (quality_score inc) ex.source_timestamp
          inc.source_timestamp ex.publication_year inc.publication_year h x,
      prefer_scalar-returns empty_text ex_score (quality_score inc) ex.source_timestamp
          inc.source_timestamp ex.extension inc.extension h x,
      prefer_scalar-returns empty_size ex_score (quality_score inc) ex.source_timestamp
          inc.source_timestamp ex.filesize inc.filesize h x,
      prefer_scalar-returns empty_text ex_score (quality_score inc) ex.source_timestamp
          inc.source_timestamp ex.series_name inc.series_name h x,
      prefer_scalar-returns empty_int ex_score (quality_score inc) ex.source_timestamp
          inc.source_timestamp ex.series_position inc.series_position h x,
      prefer_scalar-returns empty_text ex_score (quality_score inc) ex.source_timestamp
          inc.source_timestamp ex.edition inc.edition h x,
    )

-- With equal scores and exactly one timestamp missing, a title on both sides makes the merge raise
-- a `TypeError`.
pub merge_records-type_error :
    (ex inc : NormalizedRecord)
    → nonempty ex.title ≡ true
    → nonempty inc.title ≡ true
    → quality_score ex ≡ quality_score inc
    → is_some ex.source_timestamp ≢ is_some inc.source_timestamp
    → merge_records ex (quality_score ex) inc ≡ err type_error
unfolding merge_records prefer_scalar newer
merge_records-type_error ex inc ht it same differ = ground arith

-- The deletion mark of a merge. A stored tombstone stays unless the incoming record is live and
-- strictly newer; a live record becomes one exactly if the incoming record is one.
pub merge_records-tombstone :
    (ex : NormalizedRecord) (ex_score : ℕ) (inc : NormalizedRecord) {m : NormalizedRecord} {s : ℕ}
    → merge_records ex ex_score inc ≡ ok (m, s)
    → m.deleted ≡ (
        if ex.deleted
        then inc.deleted || not (strictly_newer inc.source_timestamp ex.source_timestamp)
        else inc.deleted)
merge_records-tombstone ex ex_score inc h =
    let (f, _) = merge_records-IsMerge ex ex_score inc h in rw f.deleted (ground arith)
