-- ===== src/Importer/Batch.antt =====
-- sync/importer.py: `process_batch`. A value that its column cannot hold would make PostgreSQL refuse
-- the batch; the columns are modelled without such limits.
pub mod Fold
pub mod Rows
use aa_metadata_worker.Prelude.{
  ℕ, zero, suc, ◌+◌, ◌-◌, Text, Bool, Option, none, some, List, [], ◌∷◌, text_eq, Dict, lookup,
  insert, length, keys, is_some, if◌then◌else◌,
}
use aa_metadata_worker.Result.{Result, ok, err, ◌>>=◌}
use aa_metadata_worker.Unicode.{Unicode}
use aa_metadata_worker.Records.{NormalizedRecord, quality_score, merge_records}
use aa_metadata_worker.Database.{Row, Db, Sample}
use aa_metadata_worker.Importer.Params.{record_to_params, upsert_row}

pub record ImportStats : Type 0 where
  pub seen : ℕ
  pub inserted : ℕ
  pub updated : ℕ
  pub skipped : ℕ
  pub discarded : ℕ
  pub failures : ℕ
  pub batches : ℕ
  pub error_samples : List Text
  pub discard_reasons : Dict Text ℕ
  pub discard_samples : Dict Text (List Sample)

abbrev pub Folded : Type 0
Folded = Dict Text (NormalizedRecord × ℕ)

-- The record and score that one more record leaves under its MD5.
unfoldable pub fold_entry :
    Option (NormalizedRecord × ℕ) → NormalizedRecord → Result (NormalizedRecord × ℕ)
fold_entry none r = ok (r, quality_score r)
fold_entry (some (old, score)) r = merge_records old score r

-- "Fold duplicates within the batch."
unfoldable pub fold_batch : List NormalizedRecord → Folded → Result Folded
unfolding fold_entry
fold_batch [] folded = ok folded
fold_batch (r ∷ records) folded = do
  entry ← fold_entry (lookup r.md5 folded) r
  fold_batch records (insert r.md5 entry folded)

module _ (u : Unicode) where
  unfoldable pub final_rows : Folded → Dict Text Row
  final_rows [] = []
  final_rows ((md5, (r, score)) ∷ rest) =
      (md5, record (record_to_params u r) { quality_score = score }) ∷ final_rows rest

-- `executemany(_UPSERT_SQL, final_rows)`
unfoldable pub upsert_rows : Dict Text Row → Dict Text Row → Dict Text Row
unfolding upsert_row
upsert_rows [] table = table
upsert_rows ((md5, row) ∷ rows) table =
    upsert_rows rows (insert md5 (upsert_row row (lookup md5 table)) table)

-- `len(existing_md5s)`: how many of the keys stand in the table
unfoldable pub count_existing : List Text → Dict Text Row → ℕ
count_existing [] table = 0
count_existing (md5 ∷ rest) table =
    (if is_some (lookup md5 table) then 1 else 0) + count_existing rest table

module _ (u : Unicode) where
  unfoldable pub process_batch :
      List NormalizedRecord → ImportStats → Db → Result (ImportStats × Db)
  process_batch records stats db = do
    folded ← fold_batch records []
    let rows = final_rows u folded
    let existing = count_existing (keys folded) db.records
    ok (
      record stats {
        inserted = stats.inserted + (length rows - existing);
        updated = stats.updated + existing;
        batches = stats.batches + 1;
      },
      record db { records = upsert_rows rows db.records },
    )
