-- ===== src/Control/Snapshot.antt =====
-- app/routes/control.py: the snapshot of the filters that an analysis is queued with.
use aa_metadata_worker.Prelude.{
  ◌≡◌, refl, Text, ◌||◌, none, some, List, [], ◌∷◌, arith, lookup, lookup-insert, lookup-nil,
  text_eq, contains, keys, if◌then◌else◌, sorted, contains-sorted,
}
use aa_metadata_worker.Database.{Db}
use aa_metadata_worker.State.Filters.{
  to_set, apply_overrides, effective_upload_blocked_subcollections,
}
use aa_metadata_worker.Control.{union, mark_names, filters_snapshot}

contains-union :
    (x : Text) (xs ys : List Text) → contains x (union xs ys) ≡ (contains x xs || contains x ys)
contains-union x [] ys = refl
contains-union x (y ∷ xs) ys = ground (arith, contains-union x xs ys)

lookup-mark_names :
    (x : Text) (blocked names : List Text)
    → lookup x (mark_names blocked names)
      ≡ (if contains x names then some (contains x blocked) else none)
lookup-mark_names x blocked [] = lookup-nil x
lookup-mark_names x blocked (name ∷ names) = ground (
  arith,
  lookup-insert x name (contains name blocked) (mark_names blocked names),
  lookup-mark_names x blocked names,
)

-- The snapshot has an entry for exactly the subcollections that the defaults or the overrides name,
-- and marks as blocked those that `effective_upload_blocked_subcollections` returns for the same
-- defaults and database.
pub filters_snapshot-effective :
    (defaults : List Text) (db : Db) (x : Text)
    → lookup x (filters_snapshot defaults db) ≡ (
        if contains x defaults || contains x (keys db.filters)
        then some (contains x (effective_upload_blocked_subcollections db defaults))
        else none)
unfolding filters_snapshot effective_upload_blocked_subcollections
filters_snapshot-effective defaults db x =
    let blocked = apply_overrides db.filters (to_set defaults) in
    let names = union defaults (keys db.filters) in
    ground (
      arith,
      lookup-mark_names x blocked (sorted names),
      contains-sorted x names,
      contains-sorted x blocked,
      contains-union x defaults (keys db.filters),
    )
