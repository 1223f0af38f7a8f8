-- ===== src/State/Releases/Counts.antt =====
-- The counters of a release row, under each operation on the releases.
use aa_metadata_worker.Prelude.{
  ℕ, ◌≡◌, refl, Text, false, Option, none, some, List, [], ◌∷◌, arith, ◌==◌, nat_eq, Dict, find?,
  update_where, if◌then◌else◌,
}
use aa_metadata_worker.Database.{Status, Counters, Sample, Release, Db}
use aa_metadata_worker.State.Releases.{
  by_id, set_release_status, update_release_counters, record_import_sample, add_counters,
  update_discard_analysis, update_import_progress, status_row, add_reasons, merge_samples,
}

abbrev pub map_release : (Release → Release) → Option Release → Option Release
map_release f none = none
map_release f (some r) = some (f r)

-- An `UPDATE ... WHERE id = …` that leaves the id changes the row that is found, and no other.
pub find?-update_where :
    (i j : ℕ) (f : Release → Release) (rows : List Release)
    → ((r : Release) → (f r).id ≡ r.id)
    → find? (by_id i) (update_where (by_id j) f rows)
      ≡ (if i == j then map_release f (find? (by_id i) rows) else find? (by_id i) rows)
find?-update_where i j f [] h = ground arith
find?-update_where i j f (r ∷ rows) h = ground (arith, h r, find?-update_where i j f rows h)

-- The counters of a release, if there is one of this id.
abbrev counters_in : Option Release → Option Counters
counters_in none = none
counters_in (some r) = some r.counters

unfoldable pub release_counters : ℕ → Db → Option Counters
release_counters release_id db = counters_in (find? (by_id release_id) db.releases)

abbrev pub add_to : Counters → Option Counters → Option Counters
add_to d none = none
add_to d (some c) = some (add_counters c d)

module _ (i : ℕ) (db : Db) where
  counters-record_import_sample : (record_import_sample i db).releases ≡ db.releases
  unfolding record_import_sample
  counters-record_import_sample = ground arith

pub release_counters-update_release_counters :
    (i : ℕ) (d : Counters) (db : Db)
    → release_counters i (update_release_counters i d db) ≡ add_to d (release_counters i db)
unfolding release_counters update_release_counters
release_counters-update_release_counters i d db = ground (
  arith,
  find?-update_where i i (λ r. record r { counters = add_counters r.counters d }) db.releases
      (λ r. refl),
)

pub release_counters-update_discard_analysis :
    (i : ℕ) (deltas : Dict Text ℕ) (samples : Dict Text (List Sample)) (db : Db)
    → release_counters i (update_discard_analysis i deltas samples db) ≡ release_counters i db
unfolding release_counters update_discard_analysis
release_counters-update_discard_analysis i deltas samples db = ground (
  arith,
  find?-update_where i i
      (λ r. record r {
        discard_reasons = add_reasons deltas r.discard_reasons;
        discard_samples = merge_samples r.discard_samples samples;
      })
      db.releases (λ r. refl),
)

pub release_counters-update_import_progress :
    (i done total : ℕ) (db : Db)
    → release_counters i (update_import_progress i done total db) ≡ release_counters i db
unfolding release_counters update_import_progress
release_counters-update_import_progress i done total db = ground (
  arith,
  find?-update_where i i (λ r. record r { import_done_bytes = done; import_total_bytes = total })
      db.releases (λ r. refl),
)

-- A change of status that resets nothing leaves the counters.
pub release_counters-set_release_status :
    (i : ℕ) (st : Status) (message : Option Text) (db : Db)
    → release_counters i (set_release_status i st message false db) ≡ release_counters i db
unfolding release_counters set_release_status
release_counters-set_release_status i st message db =
    ground
      (arith, find?-update_where i i (status_row db.now st message false) db.releases (λ r. refl))
