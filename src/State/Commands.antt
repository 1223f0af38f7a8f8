-- ===== src/State/Commands.antt =====
-- sync/state.py: the queue of control commands and the paused flag.
pub mod Queue
use aa_metadata_worker.Prelude.{
  ℕ, ◌+◌, Text, Bool, true, false, Option, none, some, List, [], ◌∷◌, ◌++◌, ◌&&◌, not, codes, ◌==◌,
  text_eq, nat_eq, contains, lookup, insert, filter, update_where, if◌then◌else◌, is_some,
}
use aa_metadata_worker.Database.{Command, CommandRow, Db}

unfoldable pub enqueue_command : Command → Option Text → Db → ℕ × Db
enqueue_command command note db = (
  db.command_seq,
  record db {
    commands =
        db.commands
        ++ (record {
          id = db.command_seq;
          command = command;
          note = note;
          created_at = db.now;
          picked_at = none;
        }
            ∷ []);
    command_seq = db.command_seq + 1;
  },
)

-- `picked_at IS NULL` on a row that no other transaction holds (`FOR UPDATE SKIP LOCKED`).
abbrev pub claimable : (ℕ → Bool) → CommandRow → Bool
claimable locked c = not (is_some c.picked_at) && not (locked c.id)

abbrev pub id_and_command : List CommandRow → List (ℕ × Command)
id_and_command [] = []
id_and_command (c ∷ rest) = (c.id, c.command) ∷ id_and_command rest

abbrev pub mark_picked : ℕ → CommandRow → CommandRow
mark_picked now c = record c { picked_at = some now }

abbrev pub ids : List (ℕ × Command) → List ℕ
ids [] = []
ids ((id, _) ∷ rest) = id ∷ ids rest

unfoldable pub pop_pending_commands : (ℕ → Bool) → Db → List (ℕ × Command) × Db
pop_pending_commands locked db =
    let rows = id_and_command (filter (claimable locked) db.commands) in
    (
      rows,
      record db {
        commands = update_where (λ c. contains c.id (ids rows)) (mark_picked db.now) db.commands;
      },
    )

abbrev pub paused_key : Text
paused_key = codes "paused"

unfoldable pub is_paused : Db → Bool
is_paused db = elim (lookup paused_key db.control) [ none ↦ false | some v ↦ v == codes "true" ]

unfoldable pub set_paused : Bool → Db → Db
set_paused paused db = record db {
  control = insert paused_key (if paused then codes "true" else codes "false") db.control;
}

abbrev last : List CommandRow → Option CommandRow
last [] = none
last (c ∷ rest) = elim (last rest) [ none ↦ some c | some d ↦ some d ]

-- The newest command, when it was created, and whether it was picked up.
unfoldable pub last_command : Db → Option (Command × ℕ × Bool)
last_command db = elim (last db.commands) [
  | none ↦ none
  | some c ↦ some (c.command, c.created_at, is_some c.picked_at)
]
