-- ===== src/Cli/Purge/Safe.antt =====
-- sync/cli.py: a purge deletes nothing that it has not backed up, and gives the lock back.
use aa_metadata_worker.Prelude.{
  ℕ, ◌≡◌, refl, Text, Bool, true, false, none, some, List, [], ◌∷◌, ◌&&◌, not, codes, text_eq,
  contains, any, filter, nonempty, ◌==◌, nat_eq, ap, ◌∙◌, Dict, keys, lookup, Distinct,
  if◌then◌else◌, ◌⊎◌, inl, inr, arith, Bool-cases,
}
use aa_metadata_worker.Result.{Exception, Result, ok, err, Result-cases}
use aa_metadata_worker.Unicode.{Unicode}
use aa_metadata_worker.Database.{Db, Row, Release}
use aa_metadata_worker.Cli.Names.{split_names}
use aa_metadata_worker.Cli.Purge.{
  Backups, Store, Medium, is_yes, row_dropped, release_dropped, mode_dropped, delete_sources,
  write_backups, delete_and_verify, purge_locked, cmd_purge_sources,
}

-- A release of this id is of a collection that is kept, or there is none.
abbrev pub keeps_release : List Text → List Release → ℕ → Bool
keeps_release keep releases release_id =
    not (any (λ r. r.id == release_id && not (contains r.collection keep)) releases)

-- What is left of each table, and what the backups hold: of records, releases and modes a row stays or
-- is in the backup, by its collection; of the tables that refer to releases the rows of a deleted one
-- are gone, and no backup has them; the other tables are as they were.
pub record IsPurged (keep : List Text) (before after : Db) (backups : Backups) : Type 0 where
  pub records : after.records ≡ filter (λ p. contains p.1.source_collection keep) before.records
  pub saved_records :
      backups.records
      ≡ some (filter (λ p. not (contains p.1.source_collection keep)) before.records)
  pub releases : after.releases ≡ filter (λ r. contains r.collection keep) before.releases
  pub saved_releases :
      backups.releases ≡ some (filter (λ r. not (contains r.collection keep)) before.releases)
  pub modes : after.modes ≡ filter (λ p. contains p.0 keep) before.modes
  pub saved_modes : backups.modes ≡ some (filter (λ p. not (contains p.0 keep)) before.modes)
  pub buckets :
      after.buckets ≡ filter (λ b. keeps_release keep before.releases b.0.0) before.buckets
  pub jobs : after.jobs ≡ filter (λ j. keeps_release keep before.releases j.release_id) before.jobs
  pub stats : after.stats ≡ filter (λ p. keeps_release keep before.releases p.0.0) before.stats
  pub commands : after.commands ≡ before.commands
  pub control : after.control ≡ before.control
  pub filters : after.filters ≡ before.filters

-- The database is as it was, or purged.
abbrev pub IsBackedUp : List Text → Store → Store → Type 0
IsBackedUp keep s t = (t.db ≡ s.db) ⊎ IsPurged keep s.db t.db t.backups

filter-same :
    {A : Type 0} (p q : A → Bool) (xs : List A) → ((x : A) → p x ≡ q x) → filter p xs ≡ filter q xs
filter-same p q [] h = refl
filter-same p q (x ∷ xs) h = ground (arith, h x, filter-same p q xs h)

not-not : (b : Bool) → not (not b) ≡ b
not-not true = refl
not-not false = refl

-- The three statements after the three backups.
delete_sources-IsPurged :
    (keep : List Text) (s t : Store)
    → t.db ≡ delete_sources keep s.db
    → (t.backups.records ≡ some (filter (row_dropped keep) s.db.records))
      × (t.backups.releases ≡ some (filter (release_dropped keep) s.db.releases))
      × (t.backups.modes ≡ some (filter (mode_dropped keep) s.db.modes))
    → IsPurged keep s.db t.db t.backups
unfolding delete_sources
delete_sources-IsPurged keep s t h (records, releases, modes) = record {
  records =
      ap (λ (d : Db). d.records) h
      ∙ filter-same _ _ s.db.records (λ p. not-not (contains p.1.source_collection keep));
  saved_records = records;
  releases =
      ap (λ (d : Db). d.releases) h
      ∙ filter-same _ _ s.db.releases (λ r. not-not (contains r.collection keep));
  saved_releases = releases;
  modes =
      ap (λ (d : Db). d.modes) h ∙ filter-same _ _ s.db.modes (λ p. not-not (contains p.0 keep));
  saved_modes = modes;
  buckets = ap (λ (d : Db). d.buckets) h;
  jobs = ap (λ (d : Db). d.jobs) h;
  stats = ap (λ (d : Db). d.stats) h;
  commands = ap (λ (d : Db). d.commands) h;
  control = ap (λ (d : Db). d.control) h;
  filters = ap (λ (d : Db). d.filters) h;
}

-- An exception that writing a backup or the `VACUUM` has raised.
abbrev pub OfMedium : Medium → Exception → Type 0
OfMedium m e = (m.vacuum ≡ err e) ⊎ ((table : Text) × (m.write table ≡ err e))

any-filter-not :
    (p : Text × Row → Bool) (rows : Dict Text Row) → any p (filter (λ r. not (p r)) rows) ≡ false
any-filter-not p [] = refl
any-filter-not p (r ∷ rows) = ground (arith, any-filter-not p rows)

module _ (m : Medium) (keep : List Text) (s : Store) where
  write_backups-ok :
      (write_backups m keep s).0 ≡ ok tt
      → ((write_backups m keep s).1.backups.records ≡ some (filter (row_dropped keep) s.db.records))
        × ((write_backups m keep s).1.backups.releases
            ≡ some (filter (release_dropped keep) s.db.releases))
        × ((write_backups m keep s).1.backups.modes ≡ some (filter (mode_dropped keep) s.db.modes))
  unfolding write_backups
  write_backups-ok h = ground (arith, h)

  write_backups-keeps :
      ((write_backups m keep s).1.db ≡ s.db) × ((write_backups m keep s).1.locked ≡ s.locked)
  unfolding write_backups
  write_backups-keeps = ground arith

  write_backups-OfMedium : (e : Exception) → (write_backups m keep s).0 ≡ err e → OfMedium m e
  unfolding write_backups
  write_backups-OfMedium e h = elim (Result-cases (m.write (codes "metadata_records"))) [
    | inr (x, f) ↦ inr (codes "metadata_records", ground (arith, f, h))
    | inl (_, f) ↦ elim (Result-cases (m.write (codes "sync_releases"))) [
      | inr (x, g) ↦ inr (codes "sync_releases", ground (arith, f, g, h))
      | inl (_, g) ↦ inr (codes "collection_sync_modes", ground (arith, f, g, h))
    ]
  ]

  delete_and_verify_lem :
      ((delete_and_verify m keep s).1 ≡ record s { db = delete_sources keep s.db })
      × ((e : Exception) → (delete_and_verify m keep s).0 ≡ err e → m.vacuum ≡ err e)
  unfolding delete_and_verify delete_sources
  delete_and_verify_lem =
      (ground arith, λ e h. ground (arith, h, any-filter-not (row_dropped keep) s.db.records))

abbrev IsSafe : Medium → List Text → Store → Result ℕ × Store → Type 0
IsSafe m keep s out =
    (out.1.locked ≡ s.locked)
    × IsBackedUp keep s out.1
    × ((e : Exception) → out.0 ≡ err e → OfMedium m e)

module _ (m : Medium) (u : Unicode) (keep : List Text) (yes_given : Bool) (answer : Text)
    (s : Store) where
  written :
      (write_backups m keep s).0 ≡ ok tt
      → IsSafe m keep s (delete_and_verify m keep (write_backups m keep s).1)
  written h =
      let t = (write_backups m keep s).1 in
      let after = delete_and_verify_lem m keep t in
      let saved = write_backups-ok m keep s h in
      let kept = write_backups-keeps m keep s in
      (
        ground (arith, after.0, kept.1),
        inr (
            delete_sources-IsPurged keep s (delete_and_verify m keep t).1
              (ground (arith, after.0, kept.0))
              (
                ground (arith, after.0, saved.0),
                ground (arith, after.0, saved.1),
                ground (arith, after.0, saved.2),
              )),
        λ e f. inl (after.1 e f),
      )

  purge_locked-IsSafe : IsSafe m keep s (purge_locked m u keep yes_given answer s)
  unfolding purge_locked
  purge_locked-IsSafe = elim (Bool-cases (any (row_dropped keep) s.db.records)) [
    | inr none_dropped ↦ (
      ground (arith, none_dropped),
      inl (ground (arith, none_dropped)),
      λ e f. absurd (ground (arith, none_dropped, f)),
    )
    | inl some_dropped ↦ elim (Bool-cases (not yes_given && not (is_yes u answer))) [
      | inl refused ↦ (
        ground (arith, some_dropped, refused),
        inl (ground (arith, some_dropped, refused)),
        λ e f. absurd (ground (arith, some_dropped, refused, f)),
      )
      | inr agreed ↦ elim (Result-cases (write_backups m keep s).0) [
        | inl (_, h) ↦ rw (some_dropped, agreed, h) (written h)
        | inr (x, h) ↦
            let kept = write_backups-keeps m keep s in
            rw (some_dropped, agreed, h)
              (kept.1, inl kept.0, λ e f. write_backups-OfMedium m keep s e (ground (arith, h, f)))
      ]
    ]
  ]

-- A purge leaves the database as it is; or exactly the records, releases and modes of the collections
-- that are not kept are deleted, which the three backups hold, and with the releases go the rows of
-- buckets, analysis jobs and statistics that refer to them, which no backup holds. Other tables are as
-- they were, and so is the lock. An exception comes from writing a backup or from the VACUUM, never from
-- the verification.
pub cmd_purge_sources-IsBackedUp :
    (m : Medium) (u : Unicode) (keep_arg : Text) (yes_given : Bool) (answer : Text) (s : Store)
    → ((cmd_purge_sources m u keep_arg yes_given answer s).1.locked ≡ s.locked)
      × IsBackedUp (split_names u keep_arg) s (cmd_purge_sources m u keep_arg yes_given answer s).1
      × ((e : Exception)
          → (cmd_purge_sources m u keep_arg yes_given answer s).0 ≡ err e
          → OfMedium m e)
unfolding cmd_purge_sources
cmd_purge_sources-IsBackedUp m u keep_arg yes_given answer s =
    let keep = split_names u keep_arg in
    elim (Bool-cases (nonempty keep)) [
      | inr e ↦ (ground (arith, e), inl (ground (arith, e)), λ x f. absurd (ground (arith, e, f)))
      | inl e ↦ elim (Bool-cases s.locked) [
        | inl l ↦ (
          ground (arith, e, l),
          inl (ground (arith, e, l)),
          λ x f. absurd (ground (arith, e, l, f)),
        )
        | inr l ↦
            let held = record s { locked = true } in
            let safe = purge_locked-IsSafe m u keep yes_given answer held in
            (
              ground (arith, e, l),
              elim (safe.1) [
                | inl same ↦ inl (ground (arith, e, l, same))
                | inr purged ↦ inr (rw (e, l) purged)
              ],
              λ x f. safe.2 x (ground (arith, e, l, f)),
            )
      ]
    ]

lookup-filter :
    (keep : List Text) (k : Text) (rows : Dict Text Row)
    → contains k (keys rows) ≡ false
    → lookup k (filter (λ p. not (row_dropped keep p)) rows) ≡ none
unfolding lookup
lookup-filter keep k [] h = refl
lookup-filter keep k ((j, row) ∷ rows) h = ground (arith, h, lookup-filter keep k rows)

remains :
    (keep : List Text) (k : Text) (row : Row) (rows : Dict Text Row)
    → Distinct (keys rows)
    → lookup k rows ≡ some row
    → lookup k (filter (λ p. not (row_dropped keep p)) rows)
      ≡ (if contains row.source_collection keep then some row else none)
unfolding lookup
remains keep k row [] d h = absurd (cc)
remains keep k row ((j, r) ∷ rows) d h =
    ground (arith, h, lookup-filter keep k rows, d.0, remains keep k row rows d.1)

-- What a purge leaves of the records: those whose source is kept, unchanged.
pub delete_sources-records :
    (keep : List Text) (db : Db) (k : Text) (row : Row)
    → Distinct (keys db.records)
    → lookup k db.records ≡ some row
    → lookup k (delete_sources keep db).records
      ≡ (if contains row.source_collection keep then some row else none)
unfolding delete_sources
delete_sources-records keep db k row d h = remains keep k row db.records d h
