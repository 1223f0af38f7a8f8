-- ===== src/Torrent.antt =====
-- sync/torrent_client.py: the stall detection of a download. What libtorrent reports is a sequence of
-- samples. Times are seconds of the monotonic clock, and progress is in parts per million. Log lines
-- and re-announcements are left out, which change nothing that the loop tests.
pub mod Stall
use aa_metadata_worker.Prelude.{
  ℕ, ◌+◌, ◌-◌, Bool, true, false, List, [], ◌∷◌, ◌||◌, ◌==◌, not, nat_eq, max, ltb, leb,
  if◌then◌else◌,
}

-- `_STALL_AT_99_PROGRESS`
abbrev pub stall_at_99_progress : ℕ
stall_at_99_progress = 990000

unfoldable pub adaptive_stall_timeout : ℕ → ℕ → ℕ → ℕ
adaptive_stall_timeout progress base at_99_s =
    if leb stall_at_99_progress progress
    then max base at_99_s
    else if leb 950000 progress
    then max base 1800
    else if leb 900000 progress
    then max base 1200
    else base

-- One `handle.status()`, and when it was taken.
pub record Sample : Type 0 where
  pub now : ℕ
  pub total_done : ℕ
  pub progress : ℕ
  pub checking : Bool
  pub is_seeding : Bool

-- The variables of `_download_with_handle` that the stall detection keeps.
pub record Watch : Type 0 where
  pub last_total_done : ℕ
  pub last_progress_change : ℕ
  pub last_check_start : ℕ

pub data Verdict : Type 0 where
  running : Watch → Verdict
  finished : Verdict
  stalled : Verdict

-- `total_done != last_total_done`
abbrev pub not_same : Sample → Watch → Bool
not_same s w = not (s.total_done == w.last_total_done)

module _ (checking_grace_s stall_at_99_s : ℕ) where
  -- Progress, and below 99 % a check of existing data within the grace, counts as activity.
  unfoldable pub observe : Sample → Watch → Watch
  observe s w =
      if not_same s w
      then record {
        last_total_done = s.total_done;
        last_progress_change = s.now;
        last_check_start = s.now;
      }
      else if s.checking
      then (if leb stall_at_99_progress s.progress
          then w
          else if ltb checking_grace_s (s.now - w.last_check_start)
          then w
          else record w { last_progress_change = s.now })
      else w

  -- The body of the loop. The stall timeout has its default base.
  unfoldable pub on_sample : Sample → Watch → Verdict
  on_sample s w =
      let w' = observe s w in
      if s.is_seeding || leb 1000000 s.progress
      then finished
      else if ltb (adaptive_stall_timeout s.progress 900 stall_at_99_s)
          (s.now - w'.last_progress_change)
      then stalled
      else running w'

  unfoldable pub watch : List Sample → Watch → Verdict
  watch [] w = running w
  watch (s ∷ samples) w = elim (on_sample s w) [
    | finished ↦ finished
    | stalled ↦ stalled
    | running w' ↦ watch samples w'
  ]
