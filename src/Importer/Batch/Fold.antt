-- ===== src/Importer/Batch/Fold.antt =====
-- The folding of a batch by `process_batch`.
use aa_metadata_worker.Prelude.{
  ◌≡◌, Text, ◌||◌, List, [], ◌∷◌, arith, text_eq, lookup, insert, keys, contains,
  contains-keys-insert, Distinct, Distinct-insert,
}
use aa_metadata_worker.Result.{ok, >>=-returned}
use aa_metadata_worker.Records.{NormalizedRecord}
use aa_metadata_worker.Importer.Batch.{Folded, fold_entry, fold_batch}

abbrev pub md5s : List NormalizedRecord → List Text
md5s [] = []
md5s (r ∷ rest) = r.md5 ∷ md5s rest

-- The keys of the folded batch are the MD5s of its records, each once.
pub fold_batch-keys :
    (records : List NormalizedRecord) (folded : Folded) {out : Folded}
    → fold_batch records folded ≡ ok out
    → (md5 : Text)
    → contains md5 (keys out) ≡ (contains md5 (md5s records) || contains md5 (keys folded))
unfolding fold_batch
fold_batch-keys [] folded h md5 = ground arith
fold_batch-keys (r ∷ records) folded h md5 =
    let (entry, _, h') = >>=-returned (fold_entry (lookup r.md5 folded) r) _ h in
    ground (
      arith,
      fold_batch-keys records (insert r.md5 entry folded) h' md5,
      contains-keys-insert md5 r.md5 entry folded,
    )

pub fold_batch-Distinct :
    (records : List NormalizedRecord) (folded : Folded) {out : Folded}
    → fold_batch records folded ≡ ok out
    → Distinct (keys folded)
    → Distinct (keys out)
unfolding fold_batch
fold_batch-Distinct [] folded h d = ground arith
fold_batch-Distinct (r ∷ records) folded h d =
    let (entry, _, h') = >>=-returned (fold_entry (lookup r.md5 folded) r) _ h in
    fold_batch-Distinct records (insert r.md5 entry folded) h'
      (Distinct-insert r.md5 entry folded d)
