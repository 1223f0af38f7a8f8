-- ===== src/Examples/Records.antt =====
-- Merges of records.
use aa_metadata_worker.Prelude.{
  ℕ, ◌≤◌, ◌≡◌, refl, Text, not, none, List, [], ◌∷◌, ◌||◌, codes, arith, Distinct, text_eq,
  text_discrete, nat_discrete,
}
use aa_metadata_worker.Result.{err}
use aa_metadata_worker.Records.{
  NormalizedRecord, quality_score, merge_records, merge_arrays, unseen, strictly_newer, type_error,
  prefer_scalar, newer,
}
use aa_metadata_worker.Records.Merge.{
  FromScalars, merge_records-FromEither, merge_records-tombstone, merge_records-type_error,
}
use aa_metadata_worker.Records.Score.{IsPlausible, merge_records-score, IsClean}
use aa_metadata_worker.Examples.{value_or, book, richer_book, gone_book}

abbrev merged : NormalizedRecord × ℕ
unfolding merge_records prefer_scalar newer quality_score merge_arrays unseen text_discrete
    nat_discrete
merged = value_or (book, 0) (merge_records book (quality_score book) richer_book)

book-IsPlausible : IsPlausible book
book-IsPlausible = record { year = λ e. ground arith; size = λ e. cc }

richer-IsPlausible : IsPlausible richer_book
richer-IsPlausible = record { year = λ e. cc; size = λ e. cc }

merge_records-score_example :
    (quality_score book ≤ quality_score merged.0)
    × (quality_score richer_book ≤ quality_score merged.0)
    × (merged.1 ≤ quality_score merged.0)
unfolding merge_records prefer_scalar newer quality_score merge_arrays unseen text_discrete
    nat_discrete
merge_records-score_example =
    merge_records-score book richer_book {m = merged.0} {s = merged.1} book-IsPlausible
      richer-IsPlausible refl

merge_records-FromEither_example : FromScalars book richer_book merged.0
unfolding merge_records prefer_scalar newer quality_score merge_arrays unseen text_discrete
    nat_discrete
merge_records-FromEither_example =
    merge_records-FromEither book (quality_score book) richer_book {m = merged.0} {s = merged.1}
      refl

abbrev merged_gone : NormalizedRecord × ℕ
unfolding merge_records prefer_scalar newer quality_score merge_arrays unseen text_discrete
    nat_discrete
merged_gone = value_or (book, 0) (merge_records gone_book (quality_score gone_book) book)

merge_records-tombstone_example :
    merged_gone.0.deleted
    ≡ (book.deleted || not (strictly_newer book.source_timestamp gone_book.source_timestamp))
unfolding merge_records prefer_scalar newer quality_score merge_arrays unseen text_discrete
    nat_discrete
merge_records-tombstone_example =
    merge_records-tombstone gone_book (quality_score gone_book) book {m = merged_gone.0}
      {s = merged_gone.1} refl

abbrev undated : NormalizedRecord
undated = record book { source_timestamp = none }

merge_records-type_error_example : merge_records book (quality_score book) undated ≡ err type_error
unfolding quality_score
merge_records-type_error_example = merge_records-type_error book undated refl refl refl (λ e. cc)

book-IsClean : IsClean book
book-IsClean = record {
  authors = (refl, tt);
  languages = tt;
  isbn13 = tt;
  isbn10 = tt;
  doi = tt;
  oclc = tt;
  openlibrary_ids = tt;
  kept = refl;
  no_discard_reason = refl;
  live = λ e. refl;
}

abbrev two : List Text
two = codes "a" ∷ codes "b" ∷ []

abbrev two_others : List Text
two_others = codes "b" ∷ codes "c" ∷ []

two-Distinct : Distinct two
unfolding text_discrete nat_discrete
two-Distinct = (refl, (refl, tt))
