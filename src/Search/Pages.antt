-- ===== src/Search/Pages.antt =====
-- app/search.py: what following the cursors shows.
use aa_metadata_worker.Prelude.{
  length-take, length-append, ◌∙◌, sym, min, ap, ℕ, zero, suc, ◌+◌, ◌≤◌, ◌<◌, ◌≡◌, refl, true,
  false, Option, none, some, List, [], ◌∷◌, ◌++◌, arith, nat_eq, length, take, filter, ltb, min,
  Bool-cases, inl, inr, ap, if◌then◌else◌, text_lt_irrefl, text_lt_asymm, All, append_assoc,
}
use aa_metadata_worker.Search.{
  Hit, cursor_of, precedes, after_cursor, last_hit, select_rows, fetch_search_page,
}

-- Each row precedes all that come after it.
abbrev pub IsOrdered : List Hit → Type 0
IsOrdered [] = Unit
IsOrdered (h ∷ rest) = All (λ l. precedes h l ≡ true) rest × IsOrdered rest

-- The pages that a client sees that follows the cursors; the first argument bounds their number.
unfoldable pub follow : (ℕ → ℕ) → ℕ → List Hit → ℕ → Option Hit → List Hit
follow through zero rows limit cursor = []
follow through (suc fuel) rows limit cursor =
    let (page, next) = fetch_search_page through rows limit cursor in
    elim next [ none ↦ page | some c ↦ page ++ follow through fuel rows limit (some c) ]

precedes_asymm : (a b : Hit) → precedes a b ≡ true → precedes b a ≡ false
precedes_asymm a b h = ground (arith, text_lt_asymm a.md5 b.md5)

precedes_irrefl : (a : Hit) → precedes a a ≡ false
precedes_irrefl a = ground (arith, text_lt_irrefl a.md5)

filter-All :
    (c : Hit) (rows : List Hit)
    → All (λ l. precedes c l ≡ true) rows
    → filter (precedes c) rows ≡ rows
filter-All c [] h = refl
filter-All c (l ∷ rows) h = ground (arith, filter-All c rows h.1, h.0)

All-middle :
    (P : Hit → Type 0) (front : List Hit) (c : Hit) (back : List Hit)
    → All P (front ++ (c ∷ back))
    → P c
All-middle P [] c back h = h.0
All-middle P (l ∷ front) c back h = All-middle P front c back h.1

-- After a row that stands in the list come exactly the rows behind it.
filter-after :
    (front : List Hit) (c : Hit) (back : List Hit)
    → IsOrdered (front ++ (c ∷ back))
    → filter (precedes c) (front ++ (c ∷ back)) ≡ back
filter-after [] c back h = ground (arith, precedes_irrefl c, filter-All c back h.0)
filter-after (l ∷ front) c back h = ground (
  arith,
  filter-after front c back h.1,
  precedes_asymm l c,
  All-middle (λ m. precedes l m ≡ true) front c back h.0,
)

take-take : (n : ℕ) (xs : List Hit) → take n (take (suc n) xs) ≡ take n xs
take-take zero xs = refl
take-take (suc n) [] = refl
take-take (suc n) (x ∷ xs) = ap (λ t. x ∷ t) (take-take n xs)

take-short : (n : ℕ) (xs : List Hit) → length xs ≤ n → take n xs ≡ xs
take-short zero [] h = refl
take-short zero (x ∷ xs) h = absurd (omega (arith, h))
take-short (suc n) [] h = refl
take-short (suc n) (x ∷ xs) h = ap (λ t. x ∷ t) (take-short n xs (omega (arith, h)))

last_hit-append : (init : List Hit) (l : Hit) → last_hit (init ++ (l ∷ [])) ≡ some l
last_hit-append [] l = refl
last_hit-append (h ∷ init) l = rw (last_hit-append init l) refl

-- A page that is not the last ends with a row, and the rest stands behind it.
abbrev Cut : ℕ → List Hit → Type 0
Cut n xs =
    (init : List Hit) × (l : Hit) × (rest : List Hit) × (xs ≡ init ++ (l ∷ rest))
    × (take (suc n) xs ≡ init ++ (l ∷ []))

cut : (n : ℕ) (xs : List Hit) → n < length xs → Cut n xs
cut n [] h = absurd (omega (arith, h))
cut zero (x ∷ xs) h = ([], x, xs, refl, refl)
cut (suc n) (x ∷ xs) h =
    let (init, l, rest, e, t) = cut n xs (omega (arith, h)) in
    (x ∷ init, l, rest, ap (λ t. x ∷ t) e, ap (λ t. x ∷ t) t)

ltb-min : (n m : ℕ) → ltb n (min (n + 1) m) ≡ ltb n m
ltb-min n m = ground arith

suc_is : (n : ℕ) → n + 1 ≡ suc n
suc_is n = omega arith

module _ (through : ℕ → ℕ) (rows : List Hit) (n : ℕ) (cursor : Option Hit) (back : List Hit)
    (e : filter (after_cursor cursor) rows ≡ back) where
  page-take : (fetch_search_page through rows n cursor).0 ≡ take n back
  unfolding fetch_search_page select_rows
  page-take = rw e (rw (suc_is n) (take-take n back))

  page-next :
      (fetch_search_page through rows n cursor).1
      ≡ (if ltb n (length back) then cursor_of through (last_hit (take n back)) else none)
  unfolding fetch_search_page select_rows
  page-next =
      let same : take n (take (n + 1) back) ≡ take n back = rw (suc_is n) (take-take n back) in
      rw (e, same, length-take (n + 1) back, ltb-min n (length back)) refl

-- The rank of each row comes back as it was.
abbrev pub Survives : (ℕ → ℕ) → List Hit → Type 0
Survives through rows = All (λ h. through h.rank ≡ h.rank) rows

follow-back :
    (through : ℕ → ℕ) (fuel : ℕ) (rows : List Hit) (n : ℕ) (cursor : Option Hit)
    (front back : List Hit)
    → IsOrdered rows
    → Survives through rows
    → rows ≡ front ++ back
    → filter (after_cursor cursor) rows ≡ back
    → length back < fuel
    → follow through fuel rows (suc n) cursor ≡ back
unfolding follow
follow-back through zero rows n cursor front back o k r f h = absurd (omega (arith, h))
follow-back through (suc fuel) rows n cursor front back o k r f h =
    elim (Bool-cases (ltb (suc n) (length back))) [
      | inr e ↦
          rw
            (
              follow,
              page-next through rows (suc n) cursor back f,
              e,
              page-take through rows (suc n) cursor back f,
            )
            (take-short (suc n) back (ground (arith, e)))
      | inl e ↦
          let (init, l, rest, b, t) = cut n back (ground (arith, e)) in
          let parts : rows ≡ (front ++ init) ++ (l ∷ rest) =
            r ∙ ap (λ t. front ++ t) b ∙ sym (append_assoc front init (l ∷ rest)) in
          let ahead : rows ≡ ((front ++ init) ++ (l ∷ [])) ++ rest =
            parts ∙ sym (append_assoc (front ++ init) (l ∷ []) rest) in
          let same : through l.rank ≡ l.rank =
            All-middle (λ m. through m.rank ≡ m.rank) (front ++ init) l rest (rw parts at k) in
          let behind : filter (precedes l) rows ≡ rest =
            rw parts (filter-after (front ++ init) l rest (rw parts at o)) in
          let fewer : length rest < fuel =
            let size : length back ≡ length init + suc (length rest) =
              ap length b ∙ length-append init (l ∷ rest) in
            omega (arith, size, h) in
          let again =
            follow-back through fuel rows n (some l) ((front ++ init) ++ (l ∷ [])) rest o k ahead
              behind fewer in
          rw
            (
              follow,
              page-next through rows (suc n) cursor back f,
              e,
              t,
              last_hit-append init l,
              same,
              page-take through rows (suc n) cursor back f,
              t,
              again,
            )
            (append_assoc init (l ∷ []) rest ∙ sym b)
    ]

filter-true : (rows : List Hit) → filter (after_cursor none) rows ≡ rows
filter-true [] = refl
filter-true (h ∷ rows) = ap (λ t. h ∷ t) (filter-true rows)

-- Where the rank of each row survives the way through the cursor, following the cursors from the start,
-- with a page that holds at least one row, shows all rows, each once and in order; as many pages as
-- there are rows, and one, are enough.
pub follow-all :
    (through : ℕ → ℕ) (rows : List Hit) (limit : ℕ)
    → IsOrdered rows
    → Survives through rows
    → follow through (length rows + 1) rows (suc limit) none ≡ rows
follow-all through rows limit h k =
    follow-back through (length rows + 1) rows limit none [] rows h k refl (filter-true rows)
      (omega arith)
