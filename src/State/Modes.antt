-- ===== src/State/Modes.antt =====
-- sync/state.py: the mode of each collection, and the release that its retained payload is.
use aa_metadata_worker.Prelude.{Text, Option, none, some, Dict, text_eq, lookup, insert}
use aa_metadata_worker.Database.{Mode, auto, ModeRow, Db}

abbrev pub default_mode : ModeRow
default_mode = record { mode = auto; last_imported_identifier = none }

unfoldable pub get_collection_mode : Text → Db → ModeRow
get_collection_mode collection db = elim (lookup collection db.modes) [
  | none ↦ default_mode
  | some row ↦ row
]

unfoldable pub get_collection_modes : Db → Dict Text ModeRow
get_collection_modes db = db.modes

abbrev with_mode : Mode → Option ModeRow → ModeRow
with_mode mode none = record { mode = mode; last_imported_identifier = none }
with_mode mode (some row) = record row { mode = mode }

unfoldable pub set_collection_mode : Text → Mode → Db → Db
set_collection_mode collection mode db = record db {
  modes = insert collection (with_mode mode (lookup collection db.modes)) db.modes;
}

unfoldable pub record_imported_release : Text → Text → Db → Db
record_imported_release collection identifier db = record db {
  modes =
      insert collection (record { mode = auto; last_imported_identifier = some identifier })
        db.modes;
}

-- An `UPDATE`: it creates no row.
unfoldable pub clear_retained_payload_identifier : Text → Db → Db
clear_retained_payload_identifier collection db = elim (lookup collection db.modes) [
  | none ↦ db
  | some row ↦ record db { modes = insert collection default_mode db.modes }
]
