-- ===== src/Importer/Batch/Rows.antt =====
-- The table that `process_batch` leaves, and its counts.
use aa_metadata_worker.Prelude.{
  ◌+◌, ◌-◌, ◌≤◌, ◌≡◌, refl, ◌∙◌, Text, true, false, Option, none, some, List, [], ◌∷◌, arith,
  text_eq, Dict, lookup, insert, lookup-insert, length-insert, keys, contains, contains-keys,
  Distinct, Distinct-insert, is_some, length, Option-cases, inl, inr, ◌⊎◌, map, filter, nonempty,
}
use aa_metadata_worker.Result.{ok, >>=-returned}
use aa_metadata_worker.Unicode.{Unicode}
use aa_metadata_worker.Database.{Row, Db}
use aa_metadata_worker.Records.{NormalizedRecord}
use aa_metadata_worker.Importer.Params.{strip_nul, strip_nul?, record_to_params, upsert_row}
use aa_metadata_worker.Importer.Batch.{
  ImportStats, Folded, fold_batch, final_rows, upsert_rows, count_existing, process_batch,
}
use aa_metadata_worker.Importer.Batch.Fold.{md5s, fold_batch-keys, fold_batch-Distinct}

-- What the statements leave under an MD5, given the row to write and the row before.
abbrev pub written : Option Row → Option Row → Option Row
written none old = old
written (some row) old = some (upsert_row row old)

pub lookup-upsert_rows :
    (rows table : Dict Text Row) (md5 : Text)
    → Distinct (keys rows)
    → lookup md5 (upsert_rows rows table) ≡ written (lookup md5 rows) (lookup md5 table)
unfolding lookup upsert_rows
lookup-upsert_rows [] table md5 d = refl
lookup-upsert_rows ((k, row) ∷ rows) table md5 d = ground (
  arith,
  lookup-upsert_rows rows (insert k (upsert_row row (lookup k table)) table) md5 d.1,
  lookup-insert md5 k (upsert_row row (lookup k table)) table,
  contains-keys k rows,
)

count_existing-insert :
    (names : List Text) (k : Text) (row : Row) (table : Dict Text Row)
    → contains k names ≡ false
    → count_existing names (insert k row table) ≡ count_existing names table
unfolding count_existing
count_existing-insert [] k row table h = refl
count_existing-insert (n ∷ names) k row table h =
    ground (arith, count_existing-insert names k row table, lookup-insert n k row table)

length-upsert_rows :
    (rows table : Dict Text Row)
    → Distinct (keys rows)
    → length (upsert_rows rows table) + count_existing (keys rows) table
      ≡ length table + length rows
unfolding upsert_rows count_existing
length-upsert_rows [] table d = omega arith
length-upsert_rows ((k, row) ∷ rows) table d = ground (
  arith,
  length-upsert_rows rows (insert k (upsert_row row (lookup k table)) table) d.1,
  count_existing-insert (keys rows) k (upsert_row row (lookup k table)) table d.0,
  length-insert k (upsert_row row (lookup k table)) table,
)

count_existing-le : (rows table : Dict Text Row) → count_existing (keys rows) table ≤ length rows
unfolding count_existing
count_existing-le [] table = omega arith
count_existing-le ((k, _) ∷ rows) table = ground (arith, count_existing-le rows table)

Distinct-upsert_rows :
    (rows table : Dict Text Row) → Distinct (keys table) → Distinct (keys (upsert_rows rows table))
unfolding upsert_rows
Distinct-upsert_rows [] table d = d
Distinct-upsert_rows ((k, row) ∷ rows) table d =
    Distinct-upsert_rows rows _ (Distinct-insert k (upsert_row row (lookup k table)) table d)

keys-final_rows : (u : Unicode) (folded : Folded) → keys (final_rows u folded) ≡ keys folded
unfolding final_rows
keys-final_rows u [] = refl
keys-final_rows u ((k, _) ∷ rest) = cc (keys-final_rows u rest)

abbrev Retained {ℓ} : {A : Type ℓ} → Option A → Option A → Type 0
Retained old new = is_some old ≡ true → is_some new ≡ true

-- What a row keeps of the row before.
abbrev pub Keeps : Option Row → Row → Type 0
Keeps none row = Unit
Keeps (some old) row =
    (old.quality_score ≤ row.quality_score)
    × Retained old.series_name row.series_name
    × Retained old.series_position row.series_position
    × Retained old.edition row.edition
    × Retained old.source_timestamp row.source_timestamp
    × Retained old.ipfs_cid row.ipfs_cid

Keeps-upsert_row : (new : Row) (old : Option Row) → Keeps old (upsert_row new old)
unfolding upsert_row
Keeps-upsert_row new none = tt
Keeps-upsert_row new (some old) = ground arith

-- The rows that a batch writes, and what became of the table and the counts.
record IsBatch (records : List NormalizedRecord) (stats : ImportStats) (db : Db)
    (stats' : ImportStats) (db' : Db) : Type 0 where
  rows : Dict Text Row
  distinct : Distinct (keys rows)
  names : (md5 : Text) → contains md5 (keys rows) ≡ contains md5 (md5s records)
  table : db'.records ≡ upsert_rows rows db.records
  inserted :
      stats'.inserted ≡ stats.inserted + (length rows - count_existing (keys rows) db.records)
  updated : stats'.updated ≡ stats.updated + count_existing (keys rows) db.records

module _ (u : Unicode) (records : List NormalizedRecord) (stats : ImportStats) (db : Db)
    {stats' : ImportStats} {db' : Db} where
  process_batch-IsBatch :
      process_batch u records stats db ≡ ok (stats', db') → IsBatch records stats db stats' db'
  unfolding process_batch
  process_batch-IsBatch returned =
      let (folded, e, h) = >>=-returned (fold_batch records []) _ returned in
      record {
        rows = final_rows u folded;
        distinct = rw keys-final_rows (fold_batch-Distinct records [] e tt);
        names = λ md5. rw keys-final_rows (ground (arith, fold_batch-keys records [] e md5));
        table = ground arith;
        inserted = rw keys-final_rows (ground arith);
        updated = rw keys-final_rows (ground arith);
      }

  -- A batch that is written adds to `inserted` what the table has grown by; each MD5 stands in the
  -- table once, as before.
  pub process_batch-counts :
      process_batch u records stats db ≡ ok (stats', db')
      → Distinct (keys db.records)
      → (length db'.records + stats.inserted ≡ length db.records + stats'.inserted)
        × Distinct (keys db'.records)
  process_batch-counts returned d =
      let b = process_batch-IsBatch returned in
      (
        rw b.table (
            omega (
              arith,
              b.inserted,
              length-upsert_rows b.rows db.records b.distinct,
              count_existing-le b.rows db.records,
            )),
        rw b.table (Distinct-upsert_rows b.rows db.records d),
      )

  -- An MD5 is not in the batch, and its row is left alone; or it is in the batch and has a row
  -- afterwards, and where it had one before, the quality score has not fallen and no known series,
  -- edition, timestamp or IPFS address has been lost.
  pub process_batch-rows :
      process_batch u records stats db ≡ ok (stats', db')
      → (md5 : Text)
      → ((contains md5 (md5s records) ≡ false) × (lookup md5 db'.records ≡ lookup md5 db.records))
        ⊎ ((contains md5 (md5s records) ≡ true)
            × ((row : Row) × (lookup md5 db'.records ≡ some row)
                × Keeps (lookup md5 db.records) row))
  process_batch-rows returned md5 =
      let b = process_batch-IsBatch returned in
      let l = lookup-upsert_rows b.rows db.records md5 b.distinct in
      let k = contains-keys md5 b.rows in
      let n = b.names md5 in
      elim (Option-cases (lookup md5 b.rows)) [
        | inl e ↦ inl (ground arith, rw b.table (ground arith))
        | inr (row, e) ↦ inr (
          ground arith,
          (
            upsert_row row (lookup md5 db.records),
            rw b.table (ground arith),
            Keeps-upsert_row row (lookup md5 db.records),
          ),
        )
      ]

-- A batch of one record writes the record's own title, publisher, year, languages, authors that are
-- not empty, and deletion mark, texts without NUL characters, whatever row stood under its MD5 and whatever that row's score was.
pub process_batch-overwrites :
    (u : Unicode) (r : NormalizedRecord) (stats : ImportStats) (db : Db)
    → (stats' : ImportStats) × (db' : Db) × (row : Row) × (process_batch u (r ∷ []) stats db
        ≡ ok (stats', db'))
      × (lookup r.md5 db'.records ≡ some row)
      × (row.title ≡ strip_nul r.title)
      × (row.publisher ≡ strip_nul? r.publisher)
      × (row.publication_year ≡ r.publication_year)
      × (row.languages ≡ map strip_nul r.languages)
      × (row.authors ≡ map strip_nul (filter nonempty r.authors))
      × (row.deleted ≡ r.deleted)
      × (row.removed_reason ≡ r.removed_reason)
unfolding process_batch fold_batch final_rows upsert_rows record_to_params lookup insert
process_batch-overwrites u r stats db = (
  _,
  _,
  upsert_row (record_to_params u r) (lookup r.md5 db.records),
  refl,
  lookup-insert r.md5 r.md5 _ db.records ∙ ground arith,
  ground arith,
  ground arith,
  ground arith,
  ground arith,
  ground arith,
  ground arith,
  ground arith,
)
