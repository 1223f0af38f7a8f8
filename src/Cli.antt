-- ===== src/Cli.antt =====
-- sync/cli.py: the arguments of the commands, and the commands that change state. What a command
-- prints is left out, but not its exit code.
pub mod Names
pub mod Purge
use aa_metadata_worker.Prelude.{
  ℕ, Text, Bool, true, false, Option, none, some, List, [], ◌∷◌, ◌++◌, ◌||◌, not, codes, ◌==◌,
  nat_eq, text_eq, nonempty, map, filter, is_some, Dict, lookup, insert, update_where,
  if◌then◌else◌,
}
use aa_metadata_worker.Result.{Exception, error, Result, ok, err, ◌>>=◌}
use aa_metadata_worker.Unicode.{Unicode}
use aa_metadata_worker.Normalize.{strip}
use aa_metadata_worker.State.Releases.{find_release, by_id}
use aa_metadata_worker.Cli.Names.{split_names}
use aa_metadata_worker.Database.{Db, discovered}
use aa_metadata_worker.Discovery.{Entry}
use aa_metadata_worker.Run.{World, Env, Summary}
use aa_metadata_worker.Run.Download.{PoolStep}
use aa_metadata_worker.Run.Sync.{run_sync}

-- `s.partition("=")`, without the separator
unfoldable pub partition : Text → Text × Text
partition [] = ([], [])
partition (c ∷ s) = let (a, b) = partition s in if c == 61 then ([], s) else (c ∷ a, b)

abbrev pub system_exit : Text → Exception
system_exit message = error (codes "SystemExit") message

abbrev pub invalid_spec : Text → Exception
invalid_spec spec =
    system_exit
      (codes "Invalid --release spec '" ++ spec ++ codes "', expected 'collection=suffix'.")

abbrev pub duplicate_spec : Text → Exception
duplicate_spec collection =
    system_exit (codes "Duplicate --release for collection '" ++ collection ++ codes "'.")

-- The exit code of a pass.
abbrev pub exit_code : Summary → ℕ
exit_code summary = if nonempty summary.failures then 1 else 0

module _ (u : Unicode) where
  -- The loop of `_release_overrides`.
  unfoldable pub add_overrides : Dict Text Text → List Text → Result (Dict Text Text)
  unfolding partition
  add_overrides overrides [] = ok overrides
  add_overrides overrides (spec ∷ specs) =
      let (collection, suffix) = partition spec in
      let rest =
        add_overrides (insert (strip u.is_space collection) (strip u.is_space suffix) overrides)
          specs in
      if not (nonempty collection) || not (nonempty suffix)
      then err (invalid_spec spec)
      else if is_some (lookup collection overrides)
      then err (duplicate_spec collection)
      else rest

  unfoldable pub release_overrides : List Text → Result (Dict Text Text)
  unfolding add_overrides
  release_overrides specs = add_overrides [] specs

-- The `UPDATE` of `cmd_retry`.
unfoldable pub reset_release : ℕ → Db → Db
reset_release release_id db = record db {
  releases =
      update_where (by_id release_id) (λ r. record r { status = discovered; error_message = none })
        db.releases;
}

module _ (env : Env) where
  -- `_run_sync`: the manifest and the steps of the pool are those of the pass.
  unfoldable pub run_command :
      Bool → List PoolStep → Result (List Entry) → List Text → List Text → World → Result ℕ × World
  unfolding release_overrides
  run_command force pool fetched collections specs w = elim (release_overrides env.unicode specs) [
    | err e ↦ (err e, w)
    | ok overrides ↦
        let (r, w') = run_sync env force pool fetched collections overrides w in
        elim r [ err e ↦ (err e, w') | ok summary ↦ (ok (exit_code summary), w') ]
  ]

  -- `cmd_run`
  unfoldable pub cmd_run :
      Text → Bool → List Text → List PoolStep → Result (List Entry) → World → Result ℕ × World
  unfolding run_command split_names
  cmd_run collections force specs pool fetched w =
      run_command force pool fetched (split_names env.unicode collections) specs w

  -- `cmd_retry`: the release is reset before the pass, whatever the pass does then.
  unfoldable pub cmd_retry : ℕ → List PoolStep → Result (List Entry) → World → Result ℕ × World
  unfolding run_command
  cmd_retry release_id pool fetched w = elim (find_release release_id w.db) [
    | none ↦ (ok 2, w)
    | some release ↦
        run_command false pool fetched (release.collection ∷ []) []
          (record w { db = reset_release release_id w.db })
  ]
