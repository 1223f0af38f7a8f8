-- ===== src/Examples/Import.antt =====
-- Imports of a payload of five lines, one of which cannot be parsed.
use aa_metadata_worker.Prelude.{
  ◌+◌, ◌*◌, ◌≤◌, ◌<◌, ◌≡◌, ◌⊎◌, refl, map, filter, nonempty, true, false, some, List, [], ◌∷◌,
  arith, contains, Distinct, text_eq, text_discrete, nat_discrete, keys, length, lookup, insert,
}
use aa_metadata_worker.Result.{Result, ok}
use aa_metadata_worker.Unicode.{ascii}
use aa_metadata_worker.Records.{
  NormalizedRecord, quality_score, merge_records, prefer_scalar, newer,
}
use aa_metadata_worker.Database.{Row, Db, zero_counters}
use aa_metadata_worker.State.Releases.{add_counters}
use aa_metadata_worker.State.Releases.Counts.{release_counters}
use aa_metadata_worker.Importer.Params.{strip_nul, strip_nul?}
use aa_metadata_worker.Importer.Batch.{ImportStats, fold_entry, fold_batch, process_batch}
use aa_metadata_worker.Importer.Batch.Fold.{md5s}
use aa_metadata_worker.Importer.Batch.Rows.{
  Keeps, process_batch-rows, process_batch-counts, process_batch-overwrites,
}
use aa_metadata_worker.Importer.Loop.{
  empty_stats, counters_of, flush, take_line, flush_if_full, on_event, import_loop, finish,
  import_release, start,
}
use aa_metadata_worker.Importer.Loop.Accounts.{
  is_failure, is_skip, count_lines, import_release-accounts,
}
use aa_metadata_worker.Importer.Loop.Bounds.{IsBounded}
use aa_metadata_worker.Importer.Loop.Persist.{import_release-counters}
use aa_metadata_worker.Examples.{value_or, book, richer_book, parse, lines, half, one_release}

abbrev run : Result ImportStats × Db
run = import_release ascii 1 half parse 40 lines one_release

abbrev run_stats : ImportStats
run_stats = value_or empty_stats run.0

run-ok : run.0 ≡ ok run_stats
unfolding import_release import_loop finish on_event flush_if_full take_line nat_discrete flush
    process_batch fold_batch lookup
run-ok = refl

one_release-counters : release_counters 1 one_release ≡ some zero_counters
unfolding release_counters nat_discrete
one_release-counters = refl

import_release-counters_example :
    release_counters 1 run.1 ≡ some (add_counters zero_counters (counters_of run_stats))
import_release-counters_example =
    import_release-counters ascii 1 half parse 40 lines one_release {base = zero_counters}
      {stats = run_stats} one_release-counters run-ok

import_release-accounts_example :
    (run_stats.seen ≡ length lines)
    × (0 < length lines)
    × (run_stats.failures ≡ count_lines is_failure parse lines)
    × (run_stats.skipped ≡ count_lines is_skip parse lines)
    × (count_lines is_failure parse lines * 2 ≤ 1 * length lines)
import_release-accounts_example =
    import_release-accounts ascii 1 half parse 40 lines one_release run_stats run-ok

loop_start-IsBounded : IsBounded half (start 1 40 one_release)
loop_start-IsBounded = (omega arith, omega arith)

loop-ok : (import_loop ascii 1 half parse 40 lines (start 1 40 one_release)).0 ≡ ok tt
unfolding import_loop on_event flush_if_full take_line nat_discrete flush process_batch fold_batch
    lookup
loop-ok = refl

-- A batch with two records of one MD5.
abbrev batch : List NormalizedRecord
batch = book ∷ richer_book ∷ []

abbrev written : ImportStats × Db
written = value_or (empty_stats, one_release) (process_batch ascii batch empty_stats one_release)

batch-ok : process_batch ascii batch empty_stats one_release ≡ ok (written.0, written.1)
unfolding process_batch fold_batch fold_entry lookup insert nat_discrete text_discrete merge_records
    prefer_scalar newer quality_score
batch-ok = refl

process_batch-rows_example :
    ((contains book.md5 (md5s batch) ≡ false)
      × (lookup book.md5 written.1.records ≡ lookup book.md5 one_release.records))
    ⊎ ((contains book.md5 (md5s batch) ≡ true)
        × ((row : Row) × (lookup book.md5 written.1.records ≡ some row)
            × Keeps (lookup book.md5 one_release.records) row))
process_batch-rows_example =
    process_batch-rows ascii batch empty_stats one_release {stats' = written.0} {db' = written.1}
      batch-ok book.md5

process_batch-counts_example :
    (length written.1.records + 0 ≡ 0 + written.0.inserted) × Distinct (keys written.1.records)
process_batch-counts_example =
    process_batch-counts ascii batch empty_stats one_release {stats' = written.0} {db' = written.1}
      batch-ok tt

process_batch-overwrites_example :
    (stats' : ImportStats) × (db' : Db) × (row : Row) × (process_batch ascii
        (book ∷ [])
        empty_stats
        written.1
      ≡ ok (stats', db'))
    × (lookup book.md5 db'.records ≡ some row)
    × (row.title ≡ strip_nul book.title)
    × (row.publisher ≡ strip_nul? book.publisher)
    × (row.publication_year ≡ book.publication_year)
    × (row.languages ≡ map strip_nul book.languages)
    × (row.authors ≡ map strip_nul (filter nonempty book.authors))
    × (row.deleted ≡ book.deleted)
    × (row.removed_reason ≡ book.removed_reason)
process_batch-overwrites_example = process_batch-overwrites ascii book empty_stats written.1
