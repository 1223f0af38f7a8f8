-- ===== src/Cli/Purge.antt =====
-- sync/cli.py: `purge-sources`. The migrations have been applied. A backup is the rows that its `COPY`
-- writes; writing one and the `VACUUM` may raise. The answer is the line that `input` returns, which
-- is asked for only where it matters.
pub mod Safe
use aa_metadata_worker.Prelude.{
  ℕ, zero, suc, Text, Bool, true, false, Option, none, some, List, [], ◌∷◌, ◌++◌, ◌&&◌, ◌||◌, not,
  codes, ◌==◌, text_eq, nat_eq, nonempty, contains, any, filter, length, Dict, if◌then◌else◌,
}
use aa_metadata_worker.Result.{Exception, error, Result, ok, err}
use aa_metadata_worker.Unicode.{Unicode}
use aa_metadata_worker.Normalize.{strip}
use aa_metadata_worker.Database.{Release, ModeRow, Row, Job, Bucket, Stat, Db}
use aa_metadata_worker.Cli.Names.{split_names}

-- The three backups of a call, as far as they have been written.
pub record Backups : Type 0 where
  pub records : Option (Dict Text Row)
  pub releases : Option (List Release)
  pub modes : Option (Dict Text ModeRow)

abbrev pub no_backups : Backups
no_backups = record { records = none; releases = none; modes = none }

pub record Store : Type 0 where
  pub db : Db
  pub locked : Bool
  pub backups : Backups

-- `<> ALL(keep)`
abbrev pub is_dropped : List Text → Text → Bool
is_dropped keep collection = not (contains collection keep)

abbrev pub row_dropped : List Text → Text × Row → Bool
row_dropped keep p = is_dropped keep p.1.source_collection

abbrev pub release_dropped : List Text → Release → Bool
release_dropped keep r = is_dropped keep r.collection

abbrev pub mode_dropped : List Text → Text × ModeRow → Bool
mode_dropped keep p = is_dropped keep p.0

-- `ON DELETE CASCADE`: whether the release of a row is deleted.
abbrev pub of_dropped : List Text → List Release → ℕ → Bool
of_dropped keep releases release_id =
    any (λ r. r.id == release_id && release_dropped keep r) releases

-- The three `DELETE` statements.
unfoldable pub delete_sources : List Text → Db → Db
delete_sources keep db = record db {
  records = filter (λ p. not (row_dropped keep p)) db.records;
  releases = filter (λ r. not (release_dropped keep r)) db.releases;
  modes = filter (λ p. not (mode_dropped keep p)) db.modes;
  buckets = filter (λ b. not (of_dropped keep db.releases b.0.0)) db.buckets;
  jobs = filter (λ j. not (of_dropped keep db.releases j.release_id)) db.jobs;
  stats = filter (λ s. not (of_dropped keep db.releases s.0.0)) db.stats;
}

abbrev pub verification_failed : Exception
verification_failed =
    error (codes "RuntimeError") (codes "Purge verification failed; unexpected sources remain")

-- Writing the backup of a table, by its name, and the `VACUUM`.
pub record Medium : Type 0 where
  pub write : Text → Result (Unit {0})
  pub vacuum : Result (Unit {0})

-- The answer to the prompt.
abbrev pub is_yes : Unicode → Text → Bool
is_yes u answer = u.lower (strip u.is_space answer) == codes "yes"

module _ (m : Medium) where
  -- The three backups, one after another.
  unfoldable pub write_backups : List Text → Store → Result (Unit {0}) × Store
  write_backups keep s = elim (m.write (codes "metadata_records")) [
    | err e ↦ (err e, s)
    | ok _ ↦
        let s1 = record s {
          backups = record (s.backups) { records = some (filter (row_dropped keep) s.db.records) };
        } in
        elim (m.write (codes "sync_releases")) [
          | err e ↦ (err e, s1)
          | ok _ ↦
              let s2 = record s1 {
                backups = record (s1.backups) {
                  releases = some (filter (release_dropped keep) s.db.releases);
                };
              } in
              elim (m.write (codes "collection_sync_modes")) [
                | err e ↦ (err e, s2)
                | ok _ ↦ (
                  ok tt,
                  record s2 {
                    backups = record (s2.backups) {
                      modes = some (filter (mode_dropped keep) s.db.modes);
                    };
                  },
                )
              ]
        ]
  ]

  -- The deletion, the `VACUUM` and the verification.
  unfoldable pub delete_and_verify : List Text → Store → Result ℕ × Store
  delete_and_verify keep s =
      let s' = record s { db = delete_sources keep s.db } in
      elim m.vacuum [
        | err e ↦ (err e, s')
        | ok _ ↦
            if any (row_dropped keep) s'.db.records
            then (err verification_failed, s')
            else (ok 0, s')
      ]

  -- What runs with the lock.
  unfoldable pub purge_locked : Unicode → List Text → Bool → Text → Store → Result ℕ × Store
  purge_locked u keep yes_given answer s =
      if not (any (row_dropped keep) s.db.records)
      then (ok 0, s)
      else if not yes_given && not (is_yes u answer)
      then (ok 0, s)
      else (let (r, s') = write_backups keep s in
          elim r [ err e ↦ (err e, s') | ok _ ↦ delete_and_verify keep s' ])

  -- `cmd_purge_sources`
  unfoldable pub cmd_purge_sources : Unicode → Text → Bool → Text → Store → Result ℕ × Store
  cmd_purge_sources u keep_arg yes_given answer s =
      let keep = split_names u keep_arg in
      if not (nonempty keep)
      then (ok 2, s)
      else if s.locked
      then (ok 3, s)
      else (let (r, s') = purge_locked u keep yes_given answer (record s { locked = true }) in
          (r, record s' { locked = false }))
