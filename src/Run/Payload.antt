-- ===== src/Run/Payload.antt =====
-- sync/run.py: `_import_payload`. Its storage decision is only logged, so it has no part here. Neither
-- have the blocked subcollections that it computes: they reach `import_release`, which takes the
-- adapter that was built with the settings of the environment when its module was loaded.
pub mod Outcome
use aa_metadata_worker.Prelude.{
  ℕ, Text, Bool, true, false, Option, none, some, List, [], ◌++◌, codes, ◌==◌, text_eq,
  if◌then◌else◌, lookup, insert,
}
use aa_metadata_worker.Result.{Exception, graceful_shutdown, error, Result, ok, err}
use aa_metadata_worker.Database.{Status, completed, failed, discovered, Db}
use aa_metadata_worker.State.Releases.{set_release_status, update_download_progress}
use aa_metadata_worker.State.Modes.{record_imported_release}
use aa_metadata_worker.State.Filters.{effective_upload_blocked_subcollections}
use aa_metadata_worker.Importer.Loop.{import_release, validate_import}
use aa_metadata_worker.Run.{
  PayloadFile, Place, in_work, World, Env, Settings, Info, payload_at, delete_payload, keep_payload,
  failure_text, add_processed, add_failed,
}

abbrev pub file_not_found : Exception
file_not_found = error (codes "FileNotFoundError") (codes "No such file or directory")

abbrev pub no_adapter : Exception
no_adapter = error (codes "KeyError") (codes "No adapter for the collection")

abbrev pub note : Bool → Text
note resilient =
    if resilient then codes "imported (partial — some pieces missing)" else codes "imported"

module _ (env : Env) where
  -- `import_release` and `validate_import`
  unfoldable pub run_import : Text → PayloadFile → ℕ → Bool → Db → Result (Unit {0}) × Db
  run_import collection p release_id resilient db = elim (env.adapter collection) [
    | none ↦ (err no_adapter, db)
    | some parse ↦
        let events = if resilient then p.resilient else p.strict in
        let (r, db1) =
          import_release env.unicode release_id env.settings.importing parse p.size events db in
        elim r [ err e ↦ (err e, db1) | ok stats ↦ validate_import release_id stats db1 ]
  ]

  -- What the import of a payload comes to: whether the file is there, and what the importer says.
  abbrev pub import_result : Text → Place → ℕ → Bool → World → Result (Unit {0})
  import_result collection place release_id resilient w = elim (payload_at place w) [
    | none ↦ err file_not_found
    | some p ↦ (run_import collection p release_id resilient w.db).0
  ]

  -- What follows a successful import.
  unfoldable pub settle : Text → Place → PayloadFile → Info → Bool → World → World
  settle collection place p info resilient w =
      let done = set_release_status info.release_id completed (some (note resilient)) false w.db in
      let recorded = record_imported_release collection info.release.identifier done in
      let db = update_download_progress info.release_id p.size p.size recorded in
      let w1 = record w { db = db } in
      let w2 =
        if env.settings.sync_reuse_prev_payload
        then keep_payload place collection p w1
        else delete_payload place w1 in
      add_processed collection info.release.identifier w2

  -- The two `except` clauses.
  unfoldable pub recover : Text → Info → Exception → World → Result (Unit {0}) × World
  recover collection info graceful_shutdown w = (
    err graceful_shutdown,
    record w {
      db =
          set_release_status info.release_id discovered
            (some (codes "Interrupted by shutdown (resumable).")) false w.db;
    },
  )
  recover collection info (error name message) w = (
    ok tt,
    delete_payload (in_work info.release.identifier) (
        add_failed collection (error name message) (record w {
          db =
              set_release_status info.release_id failed (some (failure_text (error name message)))
                false w.db;
        })),
  )

  unfoldable pub import_payload : Text → Place → Info → Bool → World → Result (Unit {0}) × World
  import_payload collection place info resilient w = elim (payload_at place w) [
    | none ↦ recover collection info file_not_found w
    | some p ↦
        let (r, db) = run_import collection p info.release_id resilient w.db in
        let w1 = record w { db = db } in
        elim r [
          | err e ↦ recover collection info e w1
          | ok _ ↦ (ok tt, settle collection place p info resilient w1)
        ]
  ]
