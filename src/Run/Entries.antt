-- ===== src/Run/Entries.antt =====
-- sync/run.py: the entries of the summary that are about one collection.
use aa_metadata_worker.Prelude.{
  ℕ, ◌+◌, ◌≡◌, Text, none, List, [], ◌∷◌, ◌++◌, arith, ◌==◌, text_eq, Dict, lookup, insert,
  if◌then◌else◌,
}
use aa_metadata_worker.Run.{Summary}

-- How often a list of labelled values has this label, and a list of names this name.
abbrev pub labelled : {V : Type 0} → Text → List (Text × V) → ℕ
labelled c [] = 0
labelled c ((k, _) ∷ ps) = (if c == k then 1 else 0) + labelled c ps

abbrev pub named : Text → List Text → ℕ
named c [] = 0
named c (k ∷ ks) = (if c == k then 1 else 0) + named c ks

-- The entries of a collection: processed, skipped, blocked or failed.
abbrev pub entries : Text → Summary → ℕ
entries c s =
    labelled c s.processed
    + named c s.skipped_completed
    + labelled c s.blocked
    + labelled c s.failures

pub labelled-append :
    {V : Type 0} (c k : Text) (v : V) (ps : List (Text × V))
    → labelled c (ps ++ ((k, v) ∷ [])) ≡ labelled c ps + (if c == k then 1 else 0)
labelled-append c k v [] = omega arith
labelled-append c k v ((j, w) ∷ ps) = omega (arith, labelled-append c k v ps)

pub named-append :
    (c k : Text) (ks : List Text)
    → named c (ks ++ (k ∷ [])) ≡ named c ks + (if c == k then 1 else 0)
named-append c k [] = omega arith
named-append c k (j ∷ ks) = omega (arith, named-append c k ks)

pub labelled-insert :
    {V : Type 0} (c k : Text) (v : V) (d : Dict Text V)
    → lookup k d ≡ none
    → labelled c (insert k v d) ≡ labelled c d + (if c == k then 1 else 0)
unfolding insert lookup
labelled-insert c k v [] h = omega arith
labelled-insert c k v ((j, w) ∷ d) h = ground (arith, h, labelled-insert c k v d)
