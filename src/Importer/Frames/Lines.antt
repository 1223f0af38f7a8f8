-- ===== src/Importer/Frames/Lines.antt =====
-- sync/importer.py: the lines of a frame and the lines of a stream.
use aa_metadata_worker.Prelude.{
  ℕ, ◌≡◌, refl, Text, Bool, List, [], ◌∷◌, All, arith, ap, map, filter, nonempty,
}
use aa_metadata_worker.Unicode.{Unicode}
use aa_metadata_worker.Normalize.{strip}
use aa_metadata_worker.Importer.Frames.{
  split_where, is_newline, is_boundary, lines_of, strict_lines, frame_lines,
}

split_where-same :
    (p q : ℕ → Bool) (s : Text) → All (λ c. p c ≡ q c) s → split_where p s ≡ split_where q s
unfolding split_where
split_where-same p q [] h = refl
split_where-same p q (c ∷ s) h = ground (arith, h.0, split_where-same p q s h.1)

-- A text in which every boundary of `splitlines` is a newline or a carriage return has the same lines
-- as a frame of a resilient import and as a stream of a strict one.
pub frame_lines-strict :
    (u : Unicode) (text : Text)
    → All (λ c. is_boundary c ≡ is_newline c) text
    → frame_lines u text ≡ strict_lines u text
unfolding lines_of
frame_lines-strict u text h =
    ap (λ (parts : List Text). filter nonempty (map (strip u.is_space) parts))
      (split_where-same is_boundary is_newline text h)
