-- ===== src/State/Filters/Effective.antt =====
-- The effective block list of sync/state.py: an override decides, and the defaults decide the rest.
use aa_metadata_worker.Prelude.{
  ◌≡◌, refl, ◌∙◌, ap, Text, Bool, true, false, ◌&&◌, not, List, [], ◌∷◌, arith, ◌==◌, text_eq,
  contains, Dict, insert, keys, get_or, contains-keys, Distinct, if◌then◌else◌, contains-sorted,
  IsSorted, sorted-IsSorted, lookup-insert, Distinct-insert,
}
use aa_metadata_worker.Database.{Db}
use aa_metadata_worker.State.Filters.{
  to_set, add, discard, apply_overrides, effective_upload_blocked_subcollections,
  set_subcollection_filter,
}

contains-discard :
    (x name : Text) (xs : List Text)
    → contains x (discard name xs) ≡ (contains x xs && not (x == name))
contains-discard x name [] = refl
contains-discard x name (y ∷ xs) = ground (arith, contains-discard x name xs)

contains-apply_overrides :
    (x : Text) (overrides : Dict Text Bool) (blocked : List Text)
    → Distinct (keys overrides)
    → contains x (apply_overrides overrides blocked) ≡ get_or x (contains x blocked) overrides
unfolding apply_overrides get_or
contains-apply_overrides x [] blocked d = refl
contains-apply_overrides x ((name, true) ∷ overrides) blocked d = ground (
  arith,
  contains-apply_overrides x overrides (add name blocked) d.1,
  contains-keys name overrides,
)
contains-apply_overrides x ((name, false) ∷ overrides) blocked d = ground (
  arith,
  contains-apply_overrides x overrides (discard name blocked) d.1,
  contains-keys name overrides,
  contains-discard x name blocked,
)

pub contains-to_set : (x : Text) (names : List Text) → contains x (to_set names) ≡ contains x names
unfolding to_set
contains-to_set x [] = refl
contains-to_set x (name ∷ names) =
    ground (arith, contains-to_set x names, contains-to_set name names)

-- A subcollection is blocked exactly if its override says so, or if it has none and is blocked by
-- default. The list is in order.
pub effective-overrides :
    (db : Db) (defaults : List Text)
    → Distinct (keys db.filters)
    → ((x : Text)
        → contains x (effective_upload_blocked_subcollections db defaults)
          ≡ get_or x (contains x defaults) db.filters)
      × IsSorted (effective_upload_blocked_subcollections db defaults)
unfolding effective_upload_blocked_subcollections
effective-overrides db defaults d = (
  λ x.
      contains-sorted x (apply_overrides db.filters (to_set defaults))
      ∙ contains-apply_overrides x db.filters (to_set defaults) d
      ∙ ap (λ b. get_or x b db.filters) (contains-to_set x defaults),
  sorted-IsSorted (apply_overrides db.filters (to_set defaults)),
)

-- Setting a filter decides its own subcollection at once, whatever the defaults, and no other.
pub effective-set_subcollection_filter :
    (db : Db) (defaults : List Text) (name : Text) (blocked : Bool) (x : Text)
    → Distinct (keys db.filters)
    → contains x (
        effective_upload_blocked_subcollections (set_subcollection_filter name blocked db) defaults)
      ≡ (if x == name
          then blocked
          else contains x (effective_upload_blocked_subcollections db defaults))
unfolding set_subcollection_filter get_or
effective-set_subcollection_filter db defaults name blocked x d = ground (
  arith,
  (effective-overrides (record db { filters = insert name blocked db.filters }) defaults
        (Distinct-insert name blocked db.filters d)).0
      x,
  (effective-overrides db defaults d).0 x,
  lookup-insert x name blocked db.filters,
)
