-- ===== src/State/Filters.antt =====
-- sync/state.py: the filters on the subcollections of upload_records.
pub mod Effective
use aa_metadata_worker.Prelude.{
  Text, Bool, List, [], ◌∷◌, not, ◌==◌, text_eq, contains, filter, Dict, insert, if◌then◌else◌,
  sorted,
}
use aa_metadata_worker.Database.{Db}

unfoldable pub get_subcollection_filter_overrides : Db → Dict Text Bool
get_subcollection_filter_overrides db = db.filters

-- `blocked.add(name)` and `blocked.discard(name)`, on a set kept as a list.
abbrev pub add : Text → List Text → List Text
add name blocked = if contains name blocked then blocked else name ∷ blocked

abbrev pub discard : Text → List Text → List Text
discard name = filter (λ other. not (other == name))

-- `set(names)`
unfoldable pub to_set : List Text → List Text
to_set [] = []
to_set (name ∷ names) = add name (to_set names)

unfoldable pub apply_overrides : Dict Text Bool → List Text → List Text
apply_overrides [] blocked = blocked
apply_overrides ((name, is_blocked) ∷ overrides) blocked =
    apply_overrides overrides (if is_blocked then add name blocked else discard name blocked)

unfoldable pub effective_upload_blocked_subcollections : Db → List Text → List Text
unfolding apply_overrides to_set sorted get_subcollection_filter_overrides
effective_upload_blocked_subcollections db defaults =
    sorted (apply_overrides (get_subcollection_filter_overrides db) (to_set defaults))

unfoldable pub set_subcollection_filter : Text → Bool → Db → Db
set_subcollection_filter subcollection blocked db = record db {
  filters = insert subcollection blocked db.filters;
}
