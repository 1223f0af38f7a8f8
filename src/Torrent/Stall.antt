-- ===== src/Torrent/Stall.antt =====
-- sync/torrent_client.py: what the stall detection guarantees.
use aa_metadata_worker.Prelude.{
  ℕ, ◌+◌, ◌-◌, ◌≤◌, ◌<◌, ◌≡◌, refl, ◌⊎◌, inl, inr, false, List, [], ◌∷◌, ◌++◌, Bool-cases, arith,
  max, ltb, All, nat_eq,
}
use aa_metadata_worker.Torrent.{
  adaptive_stall_timeout, Sample, Watch, running, stalled, observe, on_sample, watch,
}

-- Whatever window is configured for the last pieces, a download is given up no sooner than after the
-- base timeout, and no later than after the largest of the base, half an hour and that window.
pub adaptive_stall_timeout-bounds :
    (progress base at_99_s : ℕ)
    → (base ≤ adaptive_stall_timeout progress base at_99_s)
      × (adaptive_stall_timeout progress base at_99_s ≤ max (max base 1800) at_99_s)
unfolding adaptive_stall_timeout
adaptive_stall_timeout-bounds progress base at_99_s = ground arith

-- A sample that shows no new byte of a download that is not complete.
abbrev pub IsIdle : ℕ → Sample → Type 0
IsIdle total s = (s.total_done ≡ total) × (s.is_seeding ≡ false) × (s.progress < 1000000)

-- The activity that the loop remembers is not after the grace that began at `t`.
abbrev pub IsQuiet : ℕ → ℕ → ℕ → Watch → Type 0
IsQuiet grace t total w =
    (w.last_total_done ≡ total) × (w.last_check_start ≤ t) × (w.last_progress_change ≤ t + grace)

module _ (grace at_99_s t total : ℕ) where
  observe-IsQuiet :
      (s : Sample) (w : Watch)
      → s.total_done ≡ total
      → IsQuiet grace t total w
      → IsQuiet grace t total (observe grace at_99_s s w)
  unfolding observe
  observe-IsQuiet s w e q = ground arith

  on_sample-IsQuiet :
      (s : Sample) (w : Watch)
      → IsIdle total s
      → IsQuiet grace t total w
      → (on_sample grace at_99_s s w ≡ stalled)
        ⊎ ((w' : Watch) × (on_sample grace at_99_s s w ≡ running w') × IsQuiet grace t total w')
  unfolding on_sample
  on_sample-IsQuiet s w i q =
      let w' = observe grace at_99_s s w in
      let q' = observe-IsQuiet s w i.0 q in
      elim (Bool-cases
        (ltb (adaptive_stall_timeout s.progress 900 at_99_s) (s.now - w'.last_progress_change))) [
          | inl late ↦ inl (ground (arith, late))
          | inr early ↦ inr (w', ground (arith, early), q')
        ]

  on_sample-late :
      (s : Sample) (w : Watch)
      → IsIdle total s
      → IsQuiet grace t total w
      → t + grace + max (max 900 1800) at_99_s < s.now
      → on_sample grace at_99_s s w ≡ stalled
  unfolding on_sample
  on_sample-late s w i q far =
      ground
        (arith, observe-IsQuiet s w i.0 q, adaptive_stall_timeout-bounds s.progress 900 at_99_s)

  -- A download that shows no new byte after `t` is declared stalled at the latest by a sample that is
  -- taken later than the grace and the longest timeout after `t`, even if libtorrent claims all the
  -- time to be checking the data.
  pub watch-stalls :
      (samples : List Sample) (late : Sample) (w : Watch)
      → All (IsIdle total) samples
      → IsIdle total late
      → t + grace + max (max 900 1800) at_99_s < late.now
      → IsQuiet grace t total w
      → watch grace at_99_s (samples ++ (late ∷ [])) w ≡ stalled
  unfolding watch
  watch-stalls [] late w i l far q = ground (arith, on_sample-late late w l q far)
  watch-stalls (s ∷ samples) late w i l far q = elim (on_sample-IsQuiet s w i.0 q) [
    | inl e ↦ rw (e, watch) refl
    | inr (w', e, q') ↦ rw (e, watch) (watch-stalls samples late w' i.1 l far q')
  ]
