-- ===== src/State/Commands/Queue.antt =====
-- The command queue of sync/state.py: a command is claimed once, and the paused flag is read back.
use aa_metadata_worker.Prelude.{
  if◌then◌else◌, ◌==◌, ◌<◌, All, All-append, is_some, Bool-cases, inl, inr, ℕ, ◌≡◌, refl, Text,
  Bool, true, false, Option, List, [], ◌∷◌, ◌++◌, arith, codes, nat_eq, text_eq, text_discrete,
  contains, filter, update_where, lookup-insert,
}
use aa_metadata_worker.Database.{Command, CommandRow, Db}
use aa_metadata_worker.State.Commands.{
  enqueue_command, claimable, id_and_command, mark_picked, ids, pop_pending_commands, paused_key,
  is_paused, set_paused,
}

-- What other processes and later polls do to the queue: a command is queued, a poll takes the pending
-- ones, or the rest of the database changes, the clock with it.
pub data QueueStep : Db → Db → Type 0 where
  queues :
      (command : Command) (remark : Option Text) (db : Db)
      → QueueStep db (enqueue_command command remark db).1
  polls : (locked : ℕ → Bool) (db : Db) → QueueStep db (pop_pending_commands locked db).1
  others :
      (db db' : Db)
      → db'.commands ≡ db.commands
      → db'.command_seq ≡ db.command_seq
      → QueueStep db db'

pub data QueueReach (db : Db) : Db → Type 0 where
  start : QueueReach db db
  further : {a b : Db} → QueueReach db a → QueueStep a b → QueueReach db b

-- The command of this id has been taken: its number is used, and its row is marked.
abbrev pub IsTaken : ℕ → Db → Type 0
IsTaken id db =
    (id < db.command_seq) × All (λ c. c.id ≡ id → is_some c.picked_at ≡ true) db.commands

marked-All :
    (id now : ℕ) (claimed : List ℕ) (rows : List CommandRow)
    → All (λ c. c.id ≡ id → is_some c.picked_at ≡ true) rows
    → All
        (λ c. c.id ≡ id → is_some c.picked_at ≡ true)
        (update_where (λ c. contains c.id claimed) (mark_picked now) rows)
marked-All id now claimed [] h = tt
marked-All id now claimed (c ∷ rows) h =
    (λ e. ground (arith, h.0), marked-All id now claimed rows h.1)

QueueStep-IsTaken : {a b : Db} (id : ℕ) → QueueStep a b → IsTaken id a → IsTaken id b
unfolding enqueue_command pop_pending_commands
QueueStep-IsTaken id (queues command remark db) h = (
  omega (arith, h.0),
  All-append _ db.commands _ h.1 ((λ same. absurd (omega (arith, h.0, same))), tt),
)
QueueStep-IsTaken id (polls locked db) h = (h.0, marked-All id db.now _ db.commands h.1)
QueueStep-IsTaken id (others db db' e f) h = (rw f h.0, rw e h.1)

QueueReach-IsTaken : {a b : Db} (id : ℕ) → QueueReach a b → IsTaken id a → IsTaken id b
QueueReach-IsTaken id start h = h
QueueReach-IsTaken id (further r step) h = QueueStep-IsTaken id step (QueueReach-IsTaken id r h)

-- A row that is marked is not handed out.
not_handed :
    (locked : ℕ → Bool) (id : ℕ) (rows : List CommandRow)
    → All (λ c. c.id ≡ id → is_some c.picked_at ≡ true) rows
    → contains id (ids (id_and_command (filter (claimable locked) rows))) ≡ false
not_handed locked id [] h = refl
not_handed locked id (c ∷ rows) h = elim (Bool-cases (id == c.id)) [
  | inl e ↦
      let same : c.id ≡ id = ground (arith, e) in
      ground (arith, h.0 same, not_handed locked id rows h.1)
  | inr e ↦ ground (arith, e, not_handed locked id rows h.1)
]

-- The rows that are handed out are marked.
handed_row :
    (id now : ℕ) (claimed : List ℕ) (c : CommandRow)
    → contains id claimed ≡ true
    → (if contains c.id claimed then mark_picked now c else c).id ≡ id
    → is_some (if contains c.id claimed then mark_picked now c else c).picked_at ≡ true
handed_row id now claimed c h e = ground (arith, h, e)

handed-marked :
    (id now : ℕ) (claimed : List ℕ) (rows : List CommandRow)
    → contains id claimed ≡ true
    → All
        (λ c. c.id ≡ id → is_some c.picked_at ≡ true)
        (update_where (λ c. contains c.id claimed) (mark_picked now) rows)
handed-marked id now claimed [] h = tt
handed-marked id now claimed (c ∷ rows) h =
    (λ e. handed_row id now claimed c h e, handed-marked id now claimed rows h)

handed-below :
    (locked : ℕ → Bool) (id n : ℕ) (rows : List CommandRow)
    → All (λ c. c.id < n) rows
    → contains id (ids (id_and_command (filter (claimable locked) rows))) ≡ true
    → id < n
handed-below locked id n [] b h = absurd (cc)
handed-below locked id n (c ∷ rows) b h = elim (Bool-cases (claimable locked c)) [
  | inr skipped ↦ handed-below locked id n rows b.1 (ground (arith, skipped, h))
  | inl taken ↦ elim (Bool-cases (id == c.id)) [
    | inl e ↦ ground (arith, e, b.0)
    | inr e ↦ handed-below locked id n rows b.1 (ground (arith, taken, e, h))
  ]
]

-- A command that a poll has handed out is handed out by no later poll, whatever commands are queued,
-- polls are made and other changes of the database happen in between, and whichever rows are locked.
pub pop_pending_commands-once :
    (locked later : ℕ → Bool) (id : ℕ) (db db' : Db)
    → All (λ c. c.id < db.command_seq) db.commands
    → contains id (ids (pop_pending_commands locked db).0) ≡ true
    → QueueReach (pop_pending_commands locked db).1 db'
    → contains id (ids (pop_pending_commands later db').0) ≡ false
unfolding pop_pending_commands
pop_pending_commands-once locked later id db db' below h r =
    let taken : IsTaken id (pop_pending_commands locked db).1 = (
      handed-below locked id db.command_seq db.commands below h,
      handed-marked id db.now _ db.commands h,
    ) in
    not_handed later id db'.commands (QueueReach-IsTaken id r taken).1

filter-append :
    (p : CommandRow → Bool) (xs ys : List CommandRow)
    → filter p (xs ++ ys) ≡ filter p xs ++ filter p ys
filter-append p [] ys = refl
filter-append p (x ∷ xs) ys = ground (arith, filter-append p xs ys)

id_and_command-append :
    (xs ys : List CommandRow) → id_and_command (xs ++ ys) ≡ id_and_command xs ++ id_and_command ys
id_and_command-append [] ys = refl
id_and_command-append (x ∷ xs) ys = cc (id_and_command-append xs ys)

-- A queued command that no transaction holds is claimed by the next poll, behind all that were
-- pending before it and with the id that the caller was given.
pub pop_pending_commands-enqueue :
    (locked : ℕ → Bool) (command : Command) (remark : Option Text) (db : Db)
    → locked (enqueue_command command remark db).0 ≡ false
    → (pop_pending_commands locked (enqueue_command command remark db).1).0
      ≡ (pop_pending_commands locked db).0
        ++ (((enqueue_command command remark db).0, command) ∷ [])
unfolding pop_pending_commands enqueue_command
pop_pending_commands-enqueue locked command remark db h =
    rw filter-append (rw id_and_command-append (rw h))

-- The flag that was set is the flag that is read.
pub is_paused-set_paused : (paused : Bool) (db : Db) → is_paused (set_paused paused db) ≡ paused
unfolding is_paused set_paused text_discrete
is_paused-set_paused true db =
    ground (arith, lookup-insert paused_key paused_key (codes "true") db.control)
is_paused-set_paused false db =
    ground (arith, lookup-insert paused_key paused_key (codes "false") db.control)
