-- ===== src/Examples.antt =====
-- Test data, runs on it, and the theorems applied to it.
pub mod Records
pub mod Import
pub mod Tables
pub mod Passes
pub mod Fields
pub mod Scans
pub mod Routes
pub mod Adapters
pub mod Upkeep
use aa_metadata_worker.Prelude.{
  ℕ, Text, Bool, true, false, none, some, List, [], ◌∷◌, codes, if◌then◌else◌, ◌==◌, nat_eq,
}
use aa_metadata_worker.Result.{Result, ok, err, error}
use aa_metadata_worker.Records.{NormalizedRecord, blank}
use aa_metadata_worker.Database.{Release, Db, empty_db, downloading}
use aa_metadata_worker.State.Releases.{new_release}
use aa_metadata_worker.Importer.Loop.{Event, ImportSettings}

-- The value of a result, or a default.
abbrev pub value_or {ℓ} : {A : Type ℓ} → A → Result A → A
value_or d (ok a) = a
value_or d (err e) = d

abbrev pub book : NormalizedRecord
book = record (blank (1 ∷ 2 ∷ [])) {
  title = codes "Faust";
  authors = codes "Goethe" ∷ [];
  publication_year = some 1808;
  source_timestamp = some 10;
}

abbrev pub richer_book : NormalizedRecord
richer_book = record (blank (1 ∷ 2 ∷ [])) {
  title = codes "Faust I";
  authors = codes "Goethe" ∷ [];
  publisher = some (codes "Cotta");
  source_timestamp = some 20;
}

abbrev pub gone_book : NormalizedRecord
gone_book = record (blank (1 ∷ 2 ∷ [])) {
  title = codes "Faust";
  deleted = true;
  removed_reason = some (codes "duplicate");
  source_timestamp = some 30;
}

-- A line is the MD5 of its record; the empty line has no record, and `!` cannot be parsed.
abbrev pub parse : Text → Result (List NormalizedRecord)
parse [] = ok []
parse (c ∷ s) =
    if c == 33
    then err (error (codes "ValueError") (codes "bad line"))
    else ok (record (blank (c ∷ s)) { title = c ∷ s } ∷ [])

abbrev pub line : Text → Event
line t = record { line = t; progress = none; stop = false }

abbrev pub lines : List Event
lines = line (codes "a") ∷ line [] ∷ line (codes "!") ∷ line (codes "b") ∷ line (codes "a") ∷ []

-- Batches of two lines, and at most half of the lines may fail.
abbrev pub half : ImportSettings
half = record { sync_batch_size = 2; abort_num = 1; abort_den = 2 }

abbrev pub release : Release
release = new_release 1 0 (codes "zlib3_records") (codes "r1") none none none

abbrev pub one_release : Db
one_release = record (empty_db 600) { releases = release ∷ []; release_seq = 2 }
