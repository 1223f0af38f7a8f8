-- ===== src/Run/Payload/Outcome.antt =====
-- sync/run.py: what `_import_payload` leaves of the release, the summary and the files.
use aa_metadata_worker.Prelude.{
  ℕ, ◌≡◌, inl, inr, refl, Text, Bool, true, false, Option, some, List, [], ◌∷◌, ◌++◌, arith, nat_eq,
  text_eq, All, lookup-insert, Option-cases, update_where, if◌then◌else◌,
}
use aa_metadata_worker.Result.{Exception, graceful_shutdown, error, Result, ok, err, Result-cases}
use aa_metadata_worker.Database.{Status, completed, failed, discovered, Release, auto, Db}
use aa_metadata_worker.State.Releases.{
  by_id, status_row, set_release_status, update_download_progress,
}
use aa_metadata_worker.State.Modes.{get_collection_mode, record_imported_release}
use aa_metadata_worker.Run.{
  PayloadFile, Place, in_work, in_prev, World, Env, Info, payload_at, delete_payload, keep_payload,
}
use aa_metadata_worker.Run.Payload.{
  file_not_found, note, run_import, import_result, settle, recover, import_payload,
}

-- Each row of this id has this status.
abbrev pub HasStatus : ℕ → Status → Db → Type 0
HasStatus release_id status db = All (λ r. r.id ≡ release_id → r.status ≡ status) db.releases

set_rows-HasStatus :
    (i now : ℕ) (s : Status) (m : Option Text) (reset : Bool) (rows : List Release)
    → All (λ r. r.id ≡ i → r.status ≡ s) (update_where (by_id i) (status_row now s m reset) rows)
set_rows-HasStatus i now s m reset [] = tt
set_rows-HasStatus i now s m reset (r ∷ rows) =
    ((λ e. ground arith), set_rows-HasStatus i now s m reset rows)

pub set_release_status-HasStatus :
    (i : ℕ) (s : Status) (m : Option Text) (reset : Bool) (db : Db)
    → HasStatus i s (set_release_status i s m reset db)
unfolding set_release_status
set_release_status-HasStatus i s m reset db = set_rows-HasStatus i db.now s m reset db.releases

progress_rows-HasStatus :
    (i j done total : ℕ) (s : Status) (rows : List Release)
    → All (λ r. r.id ≡ i → r.status ≡ s) rows
    → All
        (λ r. r.id ≡ i → r.status ≡ s)
        (update_where
          (by_id j)
          (λ r. record r { download_done_bytes = done; download_total_bytes = total })
          rows)
progress_rows-HasStatus i j done total s [] h = tt
progress_rows-HasStatus i j done total s (r ∷ rows) h =
    ((λ e. ground arith), progress_rows-HasStatus i j done total s rows h.1)

-- The three ways in which the import of a payload ends, by the result of the import proper.
pub data Outcome (collection : Text) (info : Info) (before after : World)
    : Result (Unit {0}) → Result (Unit {0}) → Type 0 where
  imported :
      HasStatus info.release_id completed after.db
      → after.summary ≡ record (before.summary) {
        processed = before.summary.processed ++ ((collection, info.release.identifier) ∷ []);
      }
      → (get_collection_mode collection after.db).last_imported_identifier
        ≡ some info.release.identifier
      → Outcome collection info before after (ok tt) (ok tt)
  refused :
      (name message : Text)
      → HasStatus info.release_id failed after.db
      → after.summary ≡ record (before.summary) {
        failures = before.summary.failures ++ ((collection, message) ∷ []);
      }
      → after.prev ≡ before.prev
      → Outcome collection info before after (err (error name message)) (ok tt)
  interrupted :
      HasStatus info.release_id discovered after.db
      → after.summary ≡ before.summary
      → after.work ≡ before.work
      → after.prev ≡ before.prev
      → Outcome collection info before after (err graceful_shutdown) (err graceful_shutdown)

-- Moving and deleting files leaves the database and the summary alone.
abbrev SameRest : World → World → Type 0
SameRest w v = (v.db ≡ w.db) × (v.summary ≡ w.summary)

keep_payload-SameRest :
    (place : Place) (collection : Text) (p : PayloadFile) (w : World)
    → SameRest w (keep_payload place collection p w)
unfolding keep_payload
keep_payload-SameRest (in_work i) collection p w = (refl, refl)
keep_payload-SameRest (in_prev i) collection p w = (refl, refl)

delete_payload-SameRest : (place : Place) (w : World) → SameRest w (delete_payload place w)
unfolding delete_payload
delete_payload-SameRest (in_work i) w = (refl, refl)
delete_payload-SameRest (in_prev i) w = (refl, refl)

file_away : Bool → Place → Text → PayloadFile → World → World
file_away reuse place collection p w =
    if reuse then keep_payload place collection p w else delete_payload place w

file_away-SameRest :
    (reuse : Bool) (place : Place) (collection : Text) (p : PayloadFile) (w : World)
    → SameRest w (file_away reuse place collection p w)
unfolding file_away
file_away-SameRest true place collection p w = keep_payload-SameRest place collection p w
file_away-SameRest false place collection p w = delete_payload-SameRest place w

last_imported :
    (collection identifier : Text) (db : Db)
    → (get_collection_mode collection
        (record_imported_release collection identifier db)).last_imported_identifier
      ≡ some identifier
unfolding get_collection_mode record_imported_release
last_imported collection identifier db = ground (
  arith,
  lookup-insert collection collection
      (record { mode = auto; last_imported_identifier = some identifier }) db.modes,
)

-- The database after a successful import.
abbrev settled : Text → PayloadFile → Info → Bool → Db → Db
settled collection p info resilient db = update_download_progress info.release_id p.size p.size (
    record_imported_release collection info.release.identifier
      (set_release_status info.release_id completed (some (note resilient)) false db))

settled-HasStatus :
    (collection : Text) (p : PayloadFile) (info : Info) (resilient : Bool) (db : Db)
    → HasStatus info.release_id completed (settled collection p info resilient db)
unfolding update_download_progress record_imported_release set_release_status
settled-HasStatus collection p info resilient db =
    progress_rows-HasStatus info.release_id info.release_id p.size p.size completed _ (
      set_rows-HasStatus info.release_id db.now completed (some (note resilient)) false db.releases)

settled-mode :
    (collection : Text) (p : PayloadFile) (info : Info) (resilient : Bool) (db : Db)
    → (get_collection_mode collection
        (settled collection p info resilient db)).last_imported_identifier
      ≡ some info.release.identifier
unfolding update_download_progress get_collection_mode
settled-mode collection p info resilient db =
    last_imported collection info.release.identifier
      (set_release_status info.release_id completed (some (note resilient)) false db)

module _ (env : Env) (collection : Text) (info : Info) where
  recover-Outcome :
      (e : Exception) (w : World) (db : Db)
      → Outcome collection info w
          (recover env collection info e (record w { db = db })).1
          (err e)
          (recover env collection info e (record w { db = db })).0
  unfolding recover delete_payload
  recover-Outcome graceful_shutdown w db =
      interrupted (set_release_status-HasStatus info.release_id discovered _ false db) refl refl
        refl
  recover-Outcome (error name message) w db =
      refused name message (set_release_status-HasStatus info.release_id failed _ false db) refl
        refl

  settle-Outcome :
      (place : Place) (p : PayloadFile) (resilient : Bool) (w : World) (db : Db)
      → Outcome collection info w
          (settle env collection place p info resilient (record w { db = db }))
          (ok tt)
          (ok tt)
  unfolding settle file_away
  settle-Outcome place p resilient w db =
      let base = record w { db = settled collection p info resilient db } in
      let (same_db, same_summary) =
        file_away-SameRest env.settings.sync_reuse_prev_payload place collection p base in
      imported (rw same_db (settled-HasStatus collection p info resilient db))
        (rw same_summary refl) (rw same_db (settled-mode collection p info resilient db))

  -- What the import of a payload leaves is decided by the result of the import proper. If that
  -- returns, so does the call, the release is completed, the summary lists it as processed and the
  -- collection records it as its last import. If it raises an error, or the payload is missing, the
  -- call returns, the release has failed, the summary lists the failure with its message and the
  -- retained payloads are untouched. If it is stopped, the call passes the shutdown on, the release
  -- can be taken up again, and neither the summary nor a file has changed.
  pub import_payload-Outcome :
      (place : Place) (resilient : Bool) (w : World)
      → Outcome collection info w
          (import_payload env collection place info resilient w).1
          (import_result env collection place info.release_id resilient w)
          (import_payload env collection place info resilient w).0
  unfolding import_payload
  import_payload-Outcome place resilient w = elim (Option-cases (payload_at place w)) [
    | inl e ↦
        let result : import_result env collection place info.release_id resilient w
            ≡ err file_not_found =
          ground (arith, e) in
        rw (result, e, import_payload) (recover-Outcome file_not_found w w.db)
    | inr (p, e) ↦
        let ran = run_import env collection p info.release_id resilient w.db in
        let result : import_result env collection place info.release_id resilient w ≡ ran.0 =
          ground (arith, e) in
        elim (Result-cases ran.0) [
          | inl (_, k) ↦ rw (result, e, k, import_payload) (settle-Outcome place p resilient w _)
          | inr (x, k) ↦ rw (result, e, k, import_payload) (recover-Outcome x w _)
        ]
  ]
