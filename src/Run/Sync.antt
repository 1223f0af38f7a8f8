-- ===== src/Run/Sync.antt =====
-- sync/run.py: `run_sync`. The manifest and the steps of the pool are parameters; the migrations have
-- been applied.
pub mod Lock
pub mod Accounts
use aa_metadata_worker.Prelude.{
  ℕ, Text, Bool, true, false, Option, none, some, List, [], ◌∷◌, ◌&&◌, codes, Dict, text_eq,
  contains, lookup, insert, if◌then◌else◌, ltb, length, nonempty,
}
use aa_metadata_worker.Result.{Exception, error, Result, ok, err, ◌>>=◌}
use aa_metadata_worker.State.Modes.{get_collection_modes}
use aa_metadata_worker.Discovery.{ReleaseInfo, Entry, latest_releases, find_release}
use aa_metadata_worker.Run.{PayloadFile, in_prev, World, Env, Info, Summary, empty_summary}
use aa_metadata_worker.Run.Payload.{import_payload}
use aa_metadata_worker.Run.Download.{PoolStep, download_sequential, download_pool}
use aa_metadata_worker.Run.Plan.{Plan, plan_loop}

abbrev pub lock_busy : Exception
lock_busy =
    error (codes "SyncLockBusy")
      (codes "Another sync process holds the advisory lock; refusing parallel run.")

module _ (env : Env) where
  -- The loop over `release_overrides`.
  unfoldable pub apply_overrides :
      List Entry
      → List Text
      → Dict Text Text
      → Dict Text ReleaseInfo
      → Result (Dict Text ReleaseInfo)
  apply_overrides manifest wanted [] releases = ok releases
  apply_overrides manifest wanted ((collection, suffix) ∷ rest) releases =
      if contains collection wanted
      then (do
        release ← find_release env.unicode manifest collection suffix
        apply_overrides manifest wanted rest (insert collection release releases))
      else apply_overrides manifest wanted rest releases

  -- The second phase.
  unfoldable pub import_retained :
      Dict Text (Info × PayloadFile) → World → Result (Unit {0}) × World
  import_retained [] w = (ok tt, w)
  import_retained ((collection, (info, _)) ∷ rest) w =
      let (r, w') = import_payload env collection (in_prev collection) info false w in
      elim r [ err e ↦ (err e, w') | ok _ ↦ import_retained rest w' ]

  -- The third phase.
  unfoldable pub download_all : List PoolStep → Dict Text Info → World → Result (Unit {0}) × World
  download_all pool to_download w =
      if ltb 1 env.settings.sync_max_downloads && ltb 1 (length to_download)
      then download_pool env to_download pool w
      else download_sequential env to_download w

  -- The three phases, from the releases that were chosen.
  unfoldable pub run_phases :
      Bool → List PoolStep → List Text → Dict Text ReleaseInfo → World → Result (Unit {0}) × World
  run_phases force pool wanted releases w =
      let modes = get_collection_modes w.db in
      let start : Plan = record { to_download = []; to_import = []; world = w } in
      let (r, plan) = plan_loop env force releases modes wanted start in
      elim r [
        | err e ↦ (err e, plan.world)
        | ok _ ↦
            let (r2, w2) = import_retained plan.to_import plan.world in
            elim r2 [ err e ↦ (err e, w2) | ok _ ↦ download_all pool plan.to_download w2 ]
      ]

  -- What runs while the lock is held.
  unfoldable pub run_locked :
      Bool
      → List PoolStep
      → Result (List Entry)
      → List Text
      → Dict Text Text
      → World
      → Result (Unit {0}) × World
  run_locked force pool fetched wanted overrides w =
      elim (do
        manifest ← fetched
        apply_overrides manifest wanted overrides (latest_releases env.unicode manifest wanted)) [
          | err e ↦ (err e, w)
          | ok releases ↦ run_phases force pool wanted releases w
        ]

  abbrev pub wanted_of : List Text → List Text
  wanted_of collections = if nonempty collections then collections else env.settings.aa_collections

  unfoldable pub run_sync :
      Bool
      → List PoolStep
      → Result (List Entry)
      → List Text
      → Dict Text Text
      → World
      → Result Summary × World
  run_sync force pool fetched collections overrides w =
      if w.locked
      then (err lock_busy, w)
      else (let (r, w') =
            run_locked force pool fetched (wanted_of collections) overrides
              (record w { locked = true; summary = empty_summary }) in
          let released = record w' { locked = false } in
          elim r [ err e ↦ (err e, released) | ok _ ↦ (ok released.summary, released) ])
