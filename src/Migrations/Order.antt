-- ===== src/Migrations/Order.antt =====
-- common/db.py: the order of the migrations, and that applying them twice changes nothing.
use aa_metadata_worker.Prelude.{
  ℕ, ◌≤◌, ◌≡◌, refl, Text, true, List, [], ◌∷◌, ◌++◌, append-nil, ap, sym, ◌∙◌, leb, ltb, max, All,
  sorted, arith, Bool-cases, inl, inr,
}
use aa_metadata_worker.Result.{Result, ok}
use aa_metadata_worker.Unicode.{Unicode}
use aa_metadata_worker.Migrations.{
  insert_version, sort_versions, list_migrations, Schema, max_version, apply_loop, apply_migrations,
  matching,
}
use aa_metadata_worker.Migrations.Applied.{pending, IsApplied, apply_loop-IsApplied}

abbrev pub IsAscending : List (ℕ × Text) → Type 0
IsAscending [] = Unit
IsAscending (m ∷ ms) = All (λ n. m.0 ≤ n.0) ms × IsAscending ms

All-insert_version :
    (a : ℕ) (m : ℕ × Text) (ms : List (ℕ × Text))
    → a ≤ m.0
    → All (λ n. a ≤ n.0) ms
    → All (λ n. a ≤ n.0) (insert_version m ms)
unfolding insert_version
All-insert_version a m [] h k = (h, tt)
All-insert_version a m (n ∷ ms) h k = elim (Bool-cases (ltb n.0 m.0)) [
  | inl e ↦ rw e (k.0, All-insert_version a m ms h k.1)
  | inr e ↦ rw e (h, k)
]

All-le_trans :
    (a b : ℕ) (ms : List (ℕ × Text)) → a ≤ b → All (λ n. b ≤ n.0) ms → All (λ n. a ≤ n.0) ms
All-le_trans a b [] h k = tt
All-le_trans a b (n ∷ ms) h k = (omega (arith, k.0), All-le_trans a b ms h k.1)

insert_version-IsAscending :
    (m : ℕ × Text) (ms : List (ℕ × Text)) → IsAscending ms → IsAscending (insert_version m ms)
unfolding insert_version
insert_version-IsAscending m [] h = (tt, tt)
insert_version-IsAscending m (n ∷ ms) h = elim (Bool-cases (ltb n.0 m.0)) [
  | inl e ↦
      rw e
        (All-insert_version n.0 m ms (ground (arith, e)) h.0, insert_version-IsAscending m ms h.1)
  | inr e ↦
      let first : m.0 ≤ n.0 = ground (arith, e) in
      rw e ((first, All-le_trans m.0 n.0 ms first h.0), h)
]

sort_versions-IsAscending : (ms : List (ℕ × Text)) → IsAscending (sort_versions ms)
unfolding sort_versions
sort_versions-IsAscending [] = tt
sort_versions-IsAscending (m ∷ ms) =
    insert_version-IsAscending m (sort_versions ms) (sort_versions-IsAscending ms)

max_version-append :
    (xs ys : List (ℕ × Text)) → max_version (xs ++ ys) ≡ max (max_version xs) (max_version ys)
max_version-append [] ys = omega arith
max_version-append (x ∷ xs) ys = omega (arith, max_version-append xs ys)

covered :
    (a k : ℕ) (ms : List (ℕ × Text))
    → a ≤ k
    → max_version (pending a ms) ≤ k
    → All (λ m. leb m.0 k ≡ true) ms
covered a k [] h p = tt
covered a k (m ∷ ms) h p = elim (Bool-cases (ltb a m.0)) [
  | inl e ↦
      let q : max m.0 (max_version (pending a ms)) ≤ k = ground (arith, e, p) in
      (ground (arith, q), covered a k ms h (omega (arith, q)))
  | inr e ↦
      let q : max_version (pending a ms) ≤ k = ground (arith, e, p) in
      (ground (arith, e, h), covered a k ms h q)
]

module _ {S : Type 0} (run : Text → S → Result S) where
  apply_loop_idle :
      (k : ℕ) (ms : List (ℕ × Text)) (schema : Schema S)
      → All (λ m. leb m.0 k ≡ true) ms
      → apply_loop run k ms schema ≡ (ok [], schema)
  unfolding apply_loop
  apply_loop_idle k [] schema h = refl
  apply_loop_idle k (m ∷ ms) schema h = ground (arith, h.0, apply_loop_idle k ms schema h.1)

  -- The migrations are taken in the order of their versions. Those above the largest version of the
  -- schema are applied up to the first whose SQL raises or whose version is recorded already: the tables
  -- are those that the SQL of the applied ones makes, one after another, and the versions have them
  -- appended, whether the call returns or raises. A call that returns has applied all of them, and
  -- returns their versions.
  pub apply_migrations-IsApplied :
      (u : Unicode) (directory : List Text) (schema : Schema S)
      → IsAscending (list_migrations u directory)
        × IsApplied run
            (pending (max_version schema.versions) (list_migrations u directory))
            schema
            (apply_migrations run u directory schema)
  unfolding apply_migrations
  apply_migrations-IsApplied u directory schema = (
    sort_versions-IsAscending (matching u (sorted directory)),
    apply_loop-IsApplied run (max_version schema.versions) (list_migrations u directory) schema,
  )

  -- Once a call has returned, another one applies nothing and changes nothing.
  pub apply_migrations-idempotent :
      (u : Unicode) (directory : List Text) (schema : Schema S) (done : List ℕ)
      → (apply_migrations run u directory schema).0 ≡ ok done
      → apply_migrations run u directory (apply_migrations run u directory schema).1
        ≡ (ok [], (apply_migrations run u directory schema).1)
  unfolding apply_migrations
  apply_migrations-idempotent u directory schema done h =
      let a = max_version schema.versions in
      let ms = list_migrations u directory in
      let facts = apply_loop-IsApplied run a ms schema in
      let all : pending a ms ≡ facts.applied =
        facts.split
        ∙ (ap (λ (r : List (ℕ × Text)). facts.applied ++ r) (facts.complete done h).0
            ∙ append-nil facts.applied) in
      let now : max_version (apply_loop run a ms schema).1.versions
          ≡ max a (max_version (pending a ms)) =
        ap max_version facts.versions
        ∙ (max_version-append schema.versions facts.applied
            ∙ ap (λ (l : List (ℕ × Text)). max a (max_version l)) (sym all)) in
      apply_loop_idle (max_version (apply_loop run a ms schema).1.versions) ms
        (apply_loop run a ms schema).1
        (covered a (max_version (apply_loop run a ms schema).1.versions) ms (omega (arith, now))
          (omega (arith, now)))
