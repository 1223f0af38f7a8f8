-- ===== src/Migrations.antt =====
-- common/db.py: the migrations. A directory is the names of its files, and the SQL of a file is a
-- function on the schema that may raise; its transaction leaves nothing behind then.
pub mod Applied
pub mod Order
use aa_metadata_worker.Prelude.{
  ℕ, ◌+◌, ◌*◌, ◌-◌, Text, Bool, true, false, Option, none, some, List, [], ◌∷◌, ◌++◌, ◌&&◌, not,
  codes, ◌==◌, nat_eq, text_eq, nonempty, leb, ltb, max, map, sorted, take, drop, if◌then◌else◌,
  any, ◌||◌,
}
use aa_metadata_worker.Result.{Exception, error, Result, ok, err}
use aa_metadata_worker.Unicode.{Unicode}
use aa_metadata_worker.Normalize.{four_digits}
use aa_metadata_worker.Discovery.{removesuffix}

-- `[a-z0-9_]+\.sql`, of which a character has been read if the flag says so; `$` also stands before
-- a last newline.
abbrev pub is_name_char : ℕ → Bool
is_name_char c = (leb 97 c && leb c 122) || (leb 48 c && leb c 57) || c == 95

unfoldable pub is_sql_name : Bool → Text → Bool
is_sql_name read [] = false
is_sql_name read (c ∷ s) =
    let more = is_sql_name true s in
    let tail : Text = c ∷ s in
    if is_name_char c
    then more
    else read && (tail == codes ".sql" || tail == codes ".sql" ++ (10 ∷ []))

-- `_MIGRATION_RE.match`: the version
unfoldable pub migration_version : Unicode → Text → Option ℕ
unfolding is_sql_name four_digits
migration_version u name = elim (drop 4 name) [
  | [] ↦ none
  | c ∷ s ↦ if c == 95 && is_sql_name false s then four_digits u name else none
]

-- The files that are migrations, in their order.
abbrev pub matching : Unicode → List Text → List (ℕ × Text)
matching u [] = []
matching u (name ∷ names) = elim (migration_version u name) [
  | none ↦ matching u names
  | some version ↦ (version, name) ∷ matching u names
]

-- `found.sort(key=lambda item: item[0])`: stable
unfoldable pub insert_version : ℕ × Text → List (ℕ × Text) → List (ℕ × Text)
insert_version m [] = m ∷ []
insert_version m (n ∷ ms) = if ltb n.0 m.0 then n ∷ insert_version m ms else m ∷ n ∷ ms

unfoldable pub sort_versions : List (ℕ × Text) → List (ℕ × Text)
unfolding insert_version
sort_versions [] = []
sort_versions (m ∷ ms) = insert_version m (sort_versions ms)

unfoldable pub list_migrations : Unicode → List Text → List (ℕ × Text)
unfolding sort_versions
list_migrations u directory = sort_versions (matching u (sorted directory))

-- `schema_migrations`, and what the statements of the migrations have made.
pub record Schema (S : Type 0) : Type 0 where
  pub versions : List (ℕ × Text)
  pub tables : S

-- `COALESCE(MAX(version), 0)`
abbrev pub max_version : List (ℕ × Text) → ℕ
max_version [] = 0
max_version ((version, _) ∷ rest) = max version (max_version rest)

abbrev pub unique_violation : Exception
unique_violation =
    error (codes "UniqueViolation")
      (codes "duplicate key value violates unique constraint \"schema_migrations_pkey\"")

abbrev pub has_version : ℕ → List (ℕ × Text) → Bool
has_version version rows = any (λ row. row.0 == version) rows

-- `done.append(version)`, before the versions that follow
abbrev pub then_done : ℕ → Result (List ℕ) → Result (List ℕ)
then_done version (ok done) = ok (version ∷ done)
then_done version (err e) = err e

module _ {S : Type 0} (run : Text → S → Result S) where
  -- One migration, in a transaction.
  unfoldable pub migrate : ℕ → Text → Schema S → Result (Schema S)
  migrate version name schema = elim (run name schema.tables) [
    | err e ↦ err e
    | ok tables ↦
        if has_version version schema.versions
        then err unique_violation
        else ok (record { versions = schema.versions ++ ((version, name) ∷ []); tables = tables })
  ]

  -- The loop over the migrations, with the largest version that was applied before it.
  unfoldable pub apply_loop : ℕ → List (ℕ × Text) → Schema S → Result (List ℕ) × Schema S
  apply_loop applied_max [] schema = (ok [], schema)
  apply_loop applied_max ((version, name) ∷ rest) schema = elim (leb version applied_max) [
    | true ↦ apply_loop applied_max rest schema
    | false ↦ elim (migrate version name schema) [
      | err e ↦ (err e, schema)
      | ok schema' ↦
          let (done, last) = apply_loop applied_max rest schema' in (then_done version done, last)
    ]
  ]

  unfoldable pub apply_migrations : Unicode → List Text → Schema S → Result (List ℕ) × Schema S
  unfolding list_migrations apply_loop
  apply_migrations u directory schema =
      apply_loop (max_version schema.versions) (list_migrations u directory) schema
