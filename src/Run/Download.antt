-- ===== src/Run/Download.antt =====
-- sync/run.py: the downloads, one after the other or in a pool of threads. Of a pool the steps are a
-- sequence: the reports of progress of the threads, and the downloads as they finish.
pub mod Entries
pub mod Handled
use aa_metadata_worker.Prelude.{
  ℕ, Text, Bool, true, false, Option, none, some, List, [], ◌∷◌, Dict, text_eq, lookup, insert,
  if◌then◌else◌,
}
use aa_metadata_worker.Result.{Exception, graceful_shutdown, error, Result, ok, err}
use aa_metadata_worker.Database.{downloading, failed, Db}
use aa_metadata_worker.State.Releases.{set_release_status, update_download_progress}
use aa_metadata_worker.Run.{
  PayloadFile, in_work, Fetched, complete, partial, broken, World, Env, Info, delete_payload,
  failure_text, add_failed,
}
use aa_metadata_worker.Run.Payload.{import_payload}

-- The calls of `on_progress`.
unfoldable pub report_progress : ℕ → List (ℕ × ℕ) → Db → Db
report_progress release_id [] db = db
report_progress release_id ((done_bytes, total_bytes) ∷ rest) db =
    report_progress release_id rest (update_download_progress release_id done_bytes total_bytes db)

-- The `except Exception` clause of a download.
unfoldable pub download_failed : Text → Info → Exception → World → World
download_failed collection info e w = delete_payload (in_work info.release.identifier) (
    add_failed collection e (record w {
      db = set_release_status info.release_id failed (some (failure_text e)) false w.db;
    }))

abbrev pub store : Info → PayloadFile → World → World
store info p w = record w { work = insert info.release.identifier p w.work }

module _ (env : Env) where
  -- A download that has ended, and its import.
  unfoldable pub on_fetched : Text → Info → Fetched → World → Result (Unit {0}) × World
  on_fetched collection info (complete p) w =
      import_payload env collection (in_work info.release.identifier) info false (store info p w)
  on_fetched collection info (partial p) w =
      import_payload env collection (in_work info.release.identifier) info true (store info p w)
  on_fetched collection info (broken name message) w =
      (ok tt, download_failed collection info (error name message) w)

  -- The body of the loop of `_download_sequential`.
  unfoldable pub download_next : Text → Info → World → Result (Unit {0}) × World
  download_next collection info w =
      let w1 = record w { db = set_release_status info.release_id downloading none true w.db } in
      let (reports, fetched) = env.torrent info.release w1 in
      on_fetched collection info fetched
        (record w1 { db = report_progress info.release_id reports w1.db })

  unfoldable pub download_sequential : Dict Text Info → World → Result (Unit {0}) × World
  download_sequential [] w = (ok tt, w)
  download_sequential ((collection, info) ∷ rest) w =
      let (r, w') = download_next collection info w in
      elim r [ err e ↦ (err e, w') | ok _ ↦ download_sequential rest w' ]

-- A step of the pool: a thread reports progress, or the download of a collection finishes.
pub data PoolStep : Type 0 where
  progress : ℕ → ℕ → ℕ → PoolStep
  finished : Text → Fetched → PoolStep

module _ (env : Env) (to_download : Dict Text Info) where
  -- The loop over `as_completed`, with the reports of progress between its rounds. Each download that
  -- finishes is one of `to_download`.
  unfoldable pub download_pool : List PoolStep → World → Result (Unit {0}) × World
  download_pool [] w = (ok tt, w)
  download_pool (progress release_id done_bytes total_bytes ∷ steps) w =
      download_pool steps
        (record w { db = update_download_progress release_id done_bytes total_bytes w.db })
  download_pool (finished collection fetched ∷ steps) w = elim (lookup collection to_download) [
    | none ↦ download_pool steps w
    | some info ↦
        let (r, w') = on_fetched env collection info fetched w in
        elim r [ err e ↦ (err e, w') | ok _ ↦ download_pool steps w' ]
  ]
