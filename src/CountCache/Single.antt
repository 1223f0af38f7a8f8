-- ===== src/CountCache/Single.antt =====
-- app/routes/dashboard.py: one refresh at a time, and the counts of the key that was asked for.
use aa_metadata_worker.Prelude.{
  ℕ, ◌+◌, ◌<◌, ◌≡◌, refl, Bool, true, false, Option, none, some, List, [], ◌∷◌, ◌++◌, ◌==◌,
  if◌then◌else◌, arith, ◌⊎◌, inl, inr, Bool-cases,
}
use aa_metadata_worker.CountCache.{
  CacheKey, key_eq, option_key_eq, Snapshot, CountState, is_fresh, ttl, ask_refresh, current_counts,
  finish_refresh, CountStep, asks, finishes, CountReach, here, next,
}

-- No thread runs, or the one of the key that is being refreshed.
abbrev pub IsSingle : CountState → Type 0
IsSingle s =
    ((s.refresh_key ≡ none) × (s.running ≡ []))
    ⊎ ((key : CacheKey) × (s.refresh_key ≡ some key) × (s.running ≡ key ∷ []))

alone :
    (k key : CacheKey) (before after : List CacheKey)
    → k ∷ [] ≡ before ++ (key ∷ after)
    → (k ≡ key) × (before ++ after ≡ [])
alone k key [] [] h = (cc, refl)
alone k key [] (a ∷ after) h = absurd (cc)
alone k key (b ∷ []) after h = absurd (cc)
alone k key (b ∷ c ∷ before) after h = absurd (cc)

nobody : (key : CacheKey) (before after : List CacheKey) → [] ≡ before ++ (key ∷ after) → ⊥
nobody key [] after h = cc
nobody key (b ∷ before) after h = cc

ask_refresh-IsSingle :
    (can_start : Bool) (key : CacheKey) (s : CountState)
    → IsSingle s
    → IsSingle (ask_refresh can_start key s)
unfolding ask_refresh
ask_refresh-IsSingle true key s (inl (idle, nobody_runs)) =
    inr (key, ground (arith, idle), ground (arith, idle, nobody_runs))
ask_refresh-IsSingle false key s (inl (idle, nobody_runs)) =
    inl (ground (arith, idle), ground (arith, idle, nobody_runs))
ask_refresh-IsSingle can_start key s (inr (k, busy, one_runs)) =
    inr (k, ground (arith, busy), ground (arith, busy, one_runs))

current_counts-IsSingle :
    (can_start : Bool) (key : CacheKey) (now : ℕ) (s : CountState)
    → IsSingle s
    → IsSingle (current_counts can_start key now s).1
unfolding current_counts
current_counts-IsSingle can_start key now s h = elim (Bool-cases (is_fresh key now s.cache)) [
  | inl e ↦ rw e h
  | inr e ↦ rw e (ask_refresh-IsSingle can_start key s h)
]

finish_refresh-IsSingle :
    (key : CacheKey) (now : ℕ) (result : Option Snapshot) (before after : List CacheKey)
    (s : CountState)
    → s.running ≡ before ++ (key ∷ after)
    → IsSingle s
    → IsSingle (finish_refresh key now result before after s)
unfolding finish_refresh
finish_refresh-IsSingle key now result before after s e (inl (idle, nobody_runs)) =
    let none_left : [] ≡ before ++ (key ∷ after) = cc in absurd (nobody key before after none_left)
finish_refresh-IsSingle key now result before after s e (inr (k, busy, one_runs)) =
    let one_left : k ∷ [] ≡ before ++ (key ∷ after) = cc in
    let facts = alone k key before after one_left in
    inl (ground (arith, busy, facts.0), ground (arith, busy, facts.0, facts.1))

CountStep-IsSingle : {s t : CountState} → CountStep s t → IsSingle s → IsSingle t
CountStep-IsSingle (asks can_start key now s) h = current_counts-IsSingle can_start key now s h
CountStep-IsSingle (finishes key now result before after s e) h =
    finish_refresh-IsSingle key now result before after s e h

-- However requests and the ends of threads follow one another, no more than one refresh thread runs,
-- and it is the one of the key that is being refreshed.
pub CountReach-IsSingle : {s : CountState} → CountReach s → IsSingle s
CountReach-IsSingle here = inl (refl, refl)
CountReach-IsSingle (next r step) = CountStep-IsSingle step (CountReach-IsSingle r)

-- When the refresh of a key ends with counts, requests for this key get these counts, and start no
-- other refresh for a minute. A request for another key gets none.
pub finish_refresh-current :
    (can_start : Bool) (key other : CacheKey) (done now : ℕ) (snapshot : Snapshot)
    (before after : List CacheKey) (s : CountState)
    → s.refresh_key ≡ some key
    → ((current_counts can_start other now
          (finish_refresh key done (some snapshot) before after s)).0
        ≡ (if other == key then some snapshot else none))
      × (now < done + ttl
          → (current_counts can_start key now
              (finish_refresh key done (some snapshot) before after s)).1
            ≡ finish_refresh key done (some snapshot) before after s)
unfolding current_counts finish_refresh
finish_refresh-current can_start key other done now snapshot before after s e =
    (ground (arith, e), λ h. ground (arith, e, h))
