-- ===== src/Importer/Frames/Total.antt =====
-- sync/importer.py: the scan for frames reaches the end of the payload.
use aa_metadata_worker.Prelude.{
  ℕ, zero, suc, ◌+◌, ◌-◌, ◌<◌, ◌≤◌, ◌≡◌, Text, true, none, some, List, [], ◌∷◌, ◌++◌, arith, length,
  take, drop, length-take, Option-cases, Bool-cases, inl, inr,
}
use aa_metadata_worker.Result.{ok, Result-cases}
use aa_metadata_worker.Importer.Frames.{
  Decompressor, read_scan, read_chunk, find_magic, chunks, feed_chunks, decode_frame, frames_loop,
  iter_frames,
}

length-drop : (n : ℕ) (s : Text) → length (drop n s) ≡ length s - n
length-drop zero s = omega arith
length-drop (suc n) [] = omega arith
length-drop (suc n) (c ∷ s) = omega (arith, length-drop n s)

find_magic-inside : (s : Text) (k : ℕ) → find_magic s ≡ some k → k < length s
unfolding find_magic
find_magic-inside [] k h = absurd (cc)
find_magic-inside (c ∷ s) k h = elim (Option-cases (find_magic s)) [
  | inl e ↦ ground (arith, e)
  | inr (n, e) ↦ ground (arith, e, find_magic-inside s n e)
]

take-within : (n : ℕ) (s : Text) → length (take n s) ≤ length s
take-within n s = omega (arith, length-take n s)

read_scan-within : (rest : Text) → length (read_scan rest) ≤ length rest
unfolding read_scan
read_scan-within rest = take-within read_chunk rest

read_scan-reads : (b : ℕ) (bytes : Text) → 0 < length (read_scan (b ∷ bytes))
unfolding read_scan
read_scan-reads b bytes = omega arith

module _ (d : Decompressor) where
  open d use {Obj, fresh, decompress, eof, unused_data}

  -- A chunk that completes a frame leaves less unused than it holds.
  module _
      (final : (obj obj' : Obj) (chunk out : Text)
        → decompress obj chunk ≡ ok (out, obj')
        → eof obj' ≡ true
        → length (unused_data obj') < length chunk) where
    feed_chunks-consumes :
        (obj : Obj) (fed : ℕ) (out : Text) (parts : List Text) (frame : Text × ℕ)
        → feed_chunks d obj fed out parts ≡ some frame
        → 0 < frame.1
    unfolding feed_chunks
    feed_chunks-consumes obj fed out [] frame h = absurd (cc)
    feed_chunks-consumes obj fed out (chunk ∷ parts) frame h =
        elim (Result-cases (decompress obj chunk)) [
          | inr (e, failed) ↦ ground (arith, failed)
          | inl ((more, obj'), read) ↦ elim (Bool-cases (eof obj')) [
            | inl done ↦ ground (arith, read, done, final obj obj' chunk more read done)
            | inr open_yet ↦ ground (
              arith,
              read,
              open_yet,
              feed_chunks-consumes obj' (fed + length chunk) (out ++ more) parts frame,
            )
          ]
        ]

    decode_frame-consumes :
        (bytes : Text) (frame : Text × ℕ) → decode_frame d bytes ≡ some frame → 0 < frame.1
    unfolding decode_frame
    decode_frame-consumes bytes frame h = feed_chunks-consumes fresh 0 [] (chunks bytes) frame h

    frames_loop-ends :
        (fuel pos : ℕ) (rest : Text) → length rest < fuel → ¬ (frames_loop d fuel pos rest ≡ none)
    unfolding frames_loop
    frames_loop-ends zero pos rest enough h = ground arith
    frames_loop-ends (suc fuel) pos [] enough h = absurd (cc)
    frames_loop-ends (suc fuel) pos (b ∷ bytes) enough h =
        let rest : Text = b ∷ bytes in
        elim (Option-cases (find_magic (read_scan rest))) [
          | inl missing ↦
              let scanned = length (read_scan rest) in
              frames_loop-ends fuel (pos + scanned) (drop scanned rest)
                (omega (arith, enough, length-drop scanned rest, read_scan-reads b bytes))
                (ground (arith, h, missing))
          | inr (k, found) ↦ elim (Option-cases (decode_frame d (drop k rest))) [
            | inl corrupt ↦
                frames_loop-ends fuel (pos + k + 1) (drop 1 (drop k rest))
                  (omega (
                    arith,
                    enough,
                    length-drop 1 (drop k rest),
                    length-drop k rest,
                    find_magic-inside (read_scan rest) k found,
                    read_scan-within rest,
                  ))
                  (ground (arith, h, found, corrupt))
            | inr ((out, consumed), decoded) ↦
                frames_loop-ends fuel (pos + k + consumed) (drop consumed (drop k rest))
                  (omega (
                    arith,
                    enough,
                    length-drop consumed (drop k rest),
                    length-drop k rest,
                    find_magic-inside (read_scan rest) k found,
                    read_scan-within rest,
                    decode_frame-consumes (drop k rest) (out, consumed) decoded,
                  ))
                  (elim (Option-cases
                    (frames_loop d fuel (pos + k + consumed) (drop consumed (drop k rest)))) [
                      | inl stuck ↦ stuck
                      | inr (more, ended) ↦ ground (arith, h, found, decoded, ended)
                    ])
          ]
        ]

    -- The scan of a payload ends, whichever bytes it holds and whichever frames cannot be decoded, if
    -- a chunk that completes a frame gives at least one byte to it.
    pub iter_frames-ends :
        (bytes : Text) → (frames : List (ℕ × Text)) × (iter_frames d bytes ≡ some frames)
    unfolding iter_frames
    iter_frames-ends bytes = elim (Option-cases (frames_loop d (suc (length bytes)) 0 bytes)) [
      | inl stuck ↦ absurd (frames_loop-ends (suc (length bytes)) 0 bytes (omega arith) stuck)
      | inr found ↦ found
    ]
