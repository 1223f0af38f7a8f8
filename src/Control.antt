-- ===== src/Control.antt =====
-- app/routes/control.py: the handlers of the control routes. A handler gets a request that FastAPI has
-- validated. The retained payloads are their sizes by collection.
pub mod Snapshot
pub mod Payloads
use aa_metadata_worker.Prelude.{
  ℕ, Text, Bool, true, false, Option, none, some, List, [], ◌∷◌, ◌++◌, codes, Dict, lookup, insert,
  text_eq, ◌==◌, nat_eq, ◌&&◌, ◌||◌, not, keys, contains, any, filter, find?, if◌then◌else◌, sorted,
  leb, length, nonempty, is_some,
}
use aa_metadata_worker.Database.{Command, run_now, pause, resume, Mode, ModeRow, Release, Job, Db}
use aa_metadata_worker.State.Commands.{enqueue_command, set_paused}
use aa_metadata_worker.State.Modes.{
  get_collection_mode, set_collection_mode, clear_retained_payload_identifier,
}
use aa_metadata_worker.State.Filters.{
  to_set, add, get_subcollection_filter_overrides, set_subcollection_filter, apply_overrides,
}
use aa_metadata_worker.State.Jobs.{is_active, enqueue_filter_analysis}
use aa_metadata_worker.Discovery.{is_collection_char}
use aa_metadata_worker.FilterAnalysis.{upload_records, is_identifier}
use aa_metadata_worker.Unicode.{Unicode}

-- An answer, or an `HTTPException` with its status and detail.
pub data Response {ℓ} (A : Type ℓ) : Type ℓ where
  answer : A → Response A
  refuse : ℕ → Text → Response A

-- The database and the retained payloads.
pub record Site : Type 0 where
  pub db : Db
  pub payloads : Dict Text ℕ

pub record ApiSettings : Type 0 where
  pub aa_collections : List Text
  pub sync_enabled : Bool
  pub upload_blocked_subcollections : List Text

abbrev pub set_collection_sync_mode :
    ApiSettings → Text → Mode → Site → Response (Text × Mode) × Site
set_collection_sync_mode settings collection mode site =
    if not (contains collection settings.aa_collections)
    then (
      refuse 400 (codes "Collection '" ++ collection ++ codes "' is not active (AA_COLLECTIONS)."),
      site,
    )
    else (
      answer (collection, mode),
      record site { db = set_collection_mode collection mode site.db },
    )

-- `^[a-z0-9_]{1,80}$`, as a full match
abbrev pub all_name_chars : Unicode → Text → Bool
all_name_chars u [] = true
all_name_chars u (c ∷ s) = is_collection_char u c && all_name_chars u s

abbrev pub is_subcollection : Unicode → Text → Bool
is_subcollection u s = nonempty s && leb (length s) 80 && all_name_chars u s

unfoldable pub set_upload_subcollection_filter :
    Unicode → Text → Bool → Site → Response (Text × Bool) × Site
set_upload_subcollection_filter u subcollection blocked site =
    if not (is_subcollection u subcollection)
    then (refuse 400 (codes "Invalid subcollection name."), site)
    else (
      answer (subcollection, blocked),
      record site { db = set_subcollection_filter subcollection blocked site.db },
    )

-- `set(defaults) | set(overrides)`
abbrev pub union : List Text → List Text → List Text
union [] names = names
union (name ∷ rest) names = add name (union rest names)

-- `{name: name in blocked_names for name in sorted(names)}`
abbrev pub mark_names : List Text → List Text → Dict Text Bool
mark_names blocked [] = []
mark_names blocked (name ∷ names) = insert name (contains name blocked) (mark_names blocked names)

unfoldable pub filters_snapshot : List Text → Db → Dict Text Bool
unfolding get_subcollection_filter_overrides to_set
filters_snapshot defaults db =
    let overrides = get_subcollection_filter_overrides db in
    mark_names (apply_overrides overrides (to_set defaults))
      (sorted (union defaults (keys overrides)))

abbrev pub is_upload : ℕ → Release → Bool
is_upload release_id r = r.id == release_id && r.collection == upload_records

-- The id of the job, and whether it is new.
unfoldable pub queue_filter_analysis : ApiSettings → ℕ → Site → Response (ℕ × Bool) × Site
queue_filter_analysis settings release_id site =
    elim (find? (is_upload release_id) site.db.releases) [
      | none ↦ (refuse 404 (codes "upload_records release not found."), site)
      | some release ↦ elim (lookup upload_records site.payloads) [
        | none ↦
            (refuse 409 (codes "The retained payload for this release is not available."), site)
        | some size ↦
            if not (
              is_identifier release.identifier
                (get_collection_mode upload_records site.db).last_imported_identifier)
            then (
              refuse 409 (codes "The retained payload for this release is not available."),
              site,
            )
            else (let (queued, db) =
                  enqueue_filter_analysis release.id
                    (filters_snapshot settings.upload_blocked_subcollections site.db) size
                    site.db in
                (answer queued, record site { db = db }))
      ]
    ]

-- An active job whose release is of the collection (the `JOIN`).
abbrev pub in_collection : Text → List Release → Job → Bool
in_collection collection releases j =
    is_active j.status && any (λ r. r.id == j.release_id && r.collection == collection) releases

-- The number of bytes that were deleted.
unfoldable pub delete_retained_payload : ApiSettings → Text → Site → Response ℕ × Site
delete_retained_payload settings collection site =
    if not (contains collection settings.aa_collections)
    then (refuse 400 (codes "Collection is not active."), site)
    else if any (in_collection collection site.db.releases) site.db.jobs
    then (refuse 409 (codes "The payload is currently used by a filter analysis."), site)
    else elim (lookup collection site.payloads) [
      | none ↦ (refuse 404 (codes "No retained payload found."), site)
      | some size ↦ (
        answer size,
        record {
          db = clear_retained_payload_identifier collection site.db;
          payloads = filter (λ p. not (p.0 == collection)) site.payloads;
        },
      )
    ]

abbrev pub apply_action : Command → Db → Db
apply_action run_now db = db
apply_action pause db = set_paused true db
apply_action resume db = set_paused false db

unfoldable pub post_command : ApiSettings → Command → Option Text → Site → Response ℕ × Site
post_command settings action remark site =
    if not settings.sync_enabled
    then (refuse 409 (codes "Worker disabled via SYNC_ENABLED=false"), site)
    else (let (id, db) = enqueue_command action remark site.db in
        (answer id, record site { db = apply_action action db }))
