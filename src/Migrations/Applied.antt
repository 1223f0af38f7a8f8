-- ===== src/Migrations/Applied.antt =====
-- common/db.py: which migrations `apply_migrations` applies.
use aa_metadata_worker.Prelude.{
  ℕ, ◌≡◌, refl, Text, true, false, List, [], ◌∷◌, ◌++◌, append_assoc, append-nil, ap, sym, subst,
  ◌∙◌, leb, ltb, map, filter, arith, Bool-cases, inl, inr, ◌⊎◌,
}
use aa_metadata_worker.Result.{Exception, Result, ok, err, Result-cases}
use aa_metadata_worker.Migrations.{
  Schema, then_done, unique_violation, has_version, migrate, apply_loop,
}

-- The migrations above a version.
abbrev pub pending : ℕ → List (ℕ × Text) → List (ℕ × Text)
pending applied_max migrations = filter (λ m. ltb applied_max m.0) migrations

-- The SQL of migrations, one after another, on the tables.
abbrev pub run_each : {S : Type 0} → (Text → S → Result S) → List (ℕ × Text) → S → Result S
run_each run [] tables = ok tables
run_each run (m ∷ ms) tables = elim (run m.1 tables) [
  | err e ↦ err e
  | ok tables' ↦ run_each run ms tables'
]

-- The migration at the head cannot be applied: its SQL raises, or its version is recorded already.
abbrev pub Refuses :
    {S : Type 0} → (Text → S → Result S) → List (ℕ × Text) → Schema S → Exception → Type 0
Refuses run [] schema e = ⊥
Refuses run (m ∷ ms) schema e =
    (run m.1 schema.tables ≡ err e)
    ⊎ ((e ≡ unique_violation) × (has_version m.0 schema.versions ≡ true))

-- `applied` stands at the head of `left`: its SQL has been run on the tables, and it has been added to
-- the versions. A call that returns has applied all of it, and one that raises has come to a
-- migration that cannot be applied.
pub record IsApplied {S : Type 0} (run : Text → S → Result S) (left : List (ℕ × Text))
    (schema : Schema S) (outcome : Result (List ℕ) × Schema S) : Type 0 where
  pub applied : List (ℕ × Text)
  pub remaining : List (ℕ × Text)
  pub split : left ≡ applied ++ remaining
  pub versions : outcome.1.versions ≡ schema.versions ++ applied
  pub tables : run_each run applied schema.tables ≡ ok outcome.1.tables
  pub stopped : (e : Exception) → outcome.0 ≡ err e → Refuses run remaining outcome.1 e
  pub complete :
      (done : List ℕ) → outcome.0 ≡ ok done → (remaining ≡ []) × (done ≡ map (λ m. m.0) applied)

module _ {S : Type 0} (run : Text → S → Result S) where
  migrate-versions :
      (version : ℕ) (name : Text) (schema schema' : Schema S)
      → migrate run version name schema ≡ ok schema'
      → (schema'.versions ≡ schema.versions ++ ((version, name) ∷ []))
        × (run name schema.tables ≡ ok schema'.tables)
  unfolding migrate
  migrate-versions version name schema schema' h = elim (Result-cases (run name schema.tables)) [
    | inl (tables, e) ↦ elim (Bool-cases (has_version version schema.versions)) [
      | inl seen ↦ absurd (ground (arith, e, seen, h))
      | inr new ↦
          let same : record {
            versions = schema.versions ++ ((version, name) ∷ []);
            tables = tables;
          }
              ≡ schema' =
            ground (arith, e, new, h) in
          (
            ap (λ (s : Schema S). s.versions) (sym same),
            e ∙ ap (λ (s : Schema S). ok s.tables) same,
          )
    ]
    | inr (x, e) ↦ ground (arith, e, h)
  ]

  migrate-Refuses :
      (version : ℕ) (name : Text) (rest : List (ℕ × Text)) (schema : Schema S) (e : Exception)
      → migrate run version name schema ≡ err e
      → Refuses run ((version, name) ∷ rest) schema e
  unfolding migrate
  migrate-Refuses version name rest schema e h = elim (Result-cases (run name schema.tables)) [
    | inr (x, f) ↦ inl (ground (arith, f, h))
    | inl (tables, f) ↦ elim (Bool-cases (has_version version schema.versions)) [
      | inl seen ↦ inr (ground (arith, f, seen, h), seen)
      | inr new ↦ absurd (ground (arith, f, new, h))
    ]
  ]

  module _ (applied_max version : ℕ) (name : Text) (rest : List (ℕ × Text))
      (schema : Schema S) where
    apply_loop-old :
        leb version applied_max ≡ true
        → (apply_loop run applied_max ((version, name) ∷ rest) schema
            ≡ apply_loop run applied_max rest schema)
          × (pending applied_max ((version, name) ∷ rest) ≡ pending applied_max rest)
    unfolding apply_loop
    apply_loop-old old = (ground (arith, old), ground (arith, old))

    pending-new :
        leb version applied_max ≡ false
        → pending applied_max ((version, name) ∷ rest) ≡ (version, name) ∷ pending applied_max rest
    pending-new new = ground (arith, new)

    apply_loop-fails :
        (e : Exception)
        → leb version applied_max ≡ false
        → migrate run version name schema ≡ err e
        → apply_loop run applied_max ((version, name) ∷ rest) schema ≡ (err e, schema)
    unfolding apply_loop
    apply_loop-fails e new h = ground (arith, new, h)

    apply_loop-runs :
        (schema' : Schema S)
        → leb version applied_max ≡ false
        → migrate run version name schema ≡ ok schema'
        → apply_loop run applied_max ((version, name) ∷ rest) schema ≡ (
          then_done version (apply_loop run applied_max rest schema').0,
          (apply_loop run applied_max rest schema').1,
        )
    unfolding apply_loop
    apply_loop-runs schema' new h = ground (arith, new, h)

  -- A migration before those that follow.
  IsApplied-next :
      (version : ℕ) (name : Text) (left : List (ℕ × Text)) (schema schema' : Schema S)
      (outcome : Result (List ℕ) × Schema S)
      → (schema'.versions ≡ schema.versions ++ ((version, name) ∷ []))
        × (run name schema.tables ≡ ok schema'.tables)
      → IsApplied run left schema' outcome
      → IsApplied run ((version, name) ∷ left) schema (then_done version outcome.0, outcome.1)
  IsApplied-next version name left schema schema' outcome h later = record {
    applied = (version, name) ∷ later.applied;
    remaining = later.remaining;
    split = ap (λ (ms : List (ℕ × Text)). (version, name) ∷ ms) later.split;
    versions =
        later.versions
        ∙ (ap (λ (ms : List (ℕ × Text)). ms ++ later.applied) h.0
            ∙ append_assoc schema.versions ((version, name) ∷ []) later.applied);
    tables = ground (arith, h.1, later.tables);
    stopped = λ e f. elim (Result-cases outcome.0) [
      | inl (ds, g) ↦ absurd (ground (arith, f, g))
      | inr (x, g) ↦ later.stopped e (ground (arith, f, g))
    ];
    complete = λ done e. elim (Result-cases outcome.0) [
      | inl (ds, f) ↦ let facts = later.complete ds f in (facts.0, ground (arith, e, f, facts.1))
      | inr (x, f) ↦ absurd (ground (arith, e, f))
    ];
  }

  transfer :
      {left left' : List (ℕ × Text)} (schema : Schema S)
      {outcome outcome' : Result (List ℕ) × Schema S}
      → left ≡ left'
      → outcome ≡ outcome'
      → IsApplied run left' schema outcome'
      → IsApplied run left schema outcome
  transfer {left} {left'} schema {outcome} {outcome'} e f h =
      subst (λ l. IsApplied run l schema outcome) (sym e)
        (subst (λ o. IsApplied run left' schema o) (sym f) h)

  pub apply_loop-IsApplied :
      (applied_max : ℕ) (migrations : List (ℕ × Text)) (schema : Schema S)
      → IsApplied run
          (pending applied_max migrations)
          schema
          (apply_loop run applied_max migrations schema)
  unfolding apply_loop
  apply_loop-IsApplied applied_max [] schema = record {
    applied = [];
    remaining = [];
    split = refl;
    versions = sym (append-nil schema.versions);
    tables = refl;
    stopped = λ e f. absurd (cc);
    complete = λ done e. (refl, cc);
  }
  apply_loop-IsApplied applied_max ((version, name) ∷ rest) schema =
      elim (Bool-cases (leb version applied_max)) [
        | inl old ↦
            let same = apply_loop-old applied_max version name rest schema old in
            transfer schema same.1 same.0 (apply_loop-IsApplied applied_max rest schema)
        | inr new ↦ elim (Result-cases (migrate run version name schema)) [
          | inl (schema', e) ↦
              transfer schema (pending-new applied_max version name rest schema new)
                (apply_loop-runs applied_max version name rest schema schema' new e)
                (IsApplied-next version name (pending applied_max rest) schema schema'
                  (apply_loop run applied_max rest schema')
                  (migrate-versions version name schema schema' e)
                  (apply_loop-IsApplied applied_max rest schema'))
          | inr (x, e) ↦
              transfer schema (pending-new applied_max version name rest schema new)
                (apply_loop-fails applied_max version name rest schema x new e)
                (record {
                  applied = [];
                  remaining = (version, name) ∷ pending applied_max rest;
                  split = refl;
                  versions = sym (append-nil schema.versions);
                  tables = refl;
                  stopped = λ y f.
                      migrate-Refuses version name (pending applied_max rest) schema y
                        (ground (arith, e, f));
                  complete = λ done f. absurd (cc);
                })
        ]
      ]
