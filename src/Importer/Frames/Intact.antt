-- ===== src/Importer/Frames/Intact.antt =====
-- sync/importer.py: a resilient import reads an intact payload to its end.
use aa_metadata_worker.Prelude.{
  ℕ, zero, suc, ◌+◌, ◌-◌, ◌<◌, ◌≡◌, refl, Text, true, some, List, [], ◌∷◌, ◌++◌, arith, length,
  Option, drop, nonempty, All, ap, sym, subst, false, ◌⊎◌, inl, inr, ◌∙◌, append_assoc,
  nat_discrete, length-append,
}
use aa_metadata_worker.Result.{ok}
use aa_metadata_worker.Discovery.{strip_prefix}
use aa_metadata_worker.Importer.Frames.{
  Decompressor, zstd_magic, read_scan, read_chunk, find_magic, chunks, chunk_loop, feed_chunks,
  decode_frame, frames_loop, iter_frames,
}

drop-append : (a b : Text) → drop (length a) (a ++ b) ≡ b
drop-append [] b = refl
drop-append (x ∷ a) b = drop-append a b

-- The chunks hold the bytes, in order.
abbrev joins : List Text → Text
joins [] = []
joins (chunk ∷ rest) = chunk ++ joins rest

chunk_loop-joins : (n : ℕ) (chunk s : Text) → joins (chunk_loop n chunk s) ≡ chunk ++ s
unfolding chunk_loop
chunk_loop-joins n [] [] = refl
chunk_loop-joins n (b ∷ chunk) [] = refl
chunk_loop-joins zero chunk (c ∷ s) =
    ap (λ (t : Text). chunk ++ t) (chunk_loop-joins (read_chunk - 1) (c ∷ []) s)
chunk_loop-joins (suc n) chunk (c ∷ s) =
    chunk_loop-joins n (chunk ++ (c ∷ [])) s ∙ append_assoc chunk (c ∷ []) s

-- Of two ways to cut a text the first cut comes before the second, or not.
cut :
    (a b c e : Text)
    → a ++ b ≡ c ++ e
    → ((m : Text) × (nonempty m ≡ true) × (c ≡ a ++ m) × (b ≡ m ++ e)) ⊎ ((m : Text) × (a ≡ c ++ m))
cut [] b [] e h = inr ([], refl)
cut [] b (x ∷ c) e h = inl (x ∷ c, refl, refl, h)
cut (x ∷ a) b [] e h = inr (x ∷ a, refl)
cut (x ∷ a) b (y ∷ c) e h =
    let same : x ≡ y = cc in
    let tails : a ++ b ≡ c ++ e = cc in
    elim (cut a b c e tails) [
      | inl (m, full, f, g) ↦ inl (m, full, cc, g)
      | inr (m, f) ↦ inr (m, cc)
    ]

drop-frame : (body after : Text) → drop (4 + length body) (zstd_magic ++ (body ++ after)) ≡ after
drop-frame body after =
    ap (λ (n : ℕ). drop n (zstd_magic ++ (body ++ after))) {y = length (zstd_magic ++ body)}
      (omega arith)
    ∙ drop-append (zstd_magic ++ body) after

-- That a decompressor reads a frame piece by piece: `State obj rest content` says that `obj` is inside a
-- frame of which the bytes `rest` are to come, and `content` is what it still has to give. Bytes that do
-- not complete the frame give a part of the content; the rest of it, with any bytes after it, completes
-- the frame and leaves these bytes unused.
pub record Streams (d : Decompressor) (State : d.Obj → Text → Text → Type 0) : Type 0 where
  pub part :
      (obj : d.Obj) (some_bytes rest content : Text)
      → State obj (some_bytes ++ rest) content
      → nonempty rest ≡ true
      → (obj' : d.Obj) × (out : Text) × (left : Text) × (d.decompress obj some_bytes
          ≡ ok (out, obj'))
        × (d.eof obj' ≡ false)
        × (content ≡ out ++ left)
        × State obj' rest left
  pub last :
      (obj : d.Obj) (rest content after : Text)
      → State obj rest content
      → (obj' : d.Obj) × (d.decompress obj (rest ++ after) ≡ ok (content, obj'))
        × (d.eof obj' ≡ true)
        × (d.unused_data obj' ≡ after)

same_frame :
    {a a' : Text} {m n : ℕ}
    → a ≡ a'
    → m ≡ n
    → ◌≡◌ {A = Option (Text × ℕ)} (some (a, m)) (some (a', n))
same_frame h k = cc

-- The payload of frames, and what is read of it from a position.
abbrev pub joined : List (Text × Text) → Text
joined [] = []
joined (frame ∷ frames) = zstd_magic ++ (frame.0 ++ joined frames)

abbrev pub ends : ℕ → List (Text × Text) → List (ℕ × Text)
ends pos [] = []
ends pos (frame ∷ frames) = let end = pos + (4 + length frame.0) in (end, frame.1) ∷ ends end frames

module _ (d : Decompressor) (State : d.Obj → Text → Text → Type 0) (streams : Streams d State) where
  open d use {Obj, fresh, decompress, eof, unused_data}

  -- A frame is its bytes behind the magic, and what it holds: a fresh decompressor is inside it.
  abbrev pub IsFrame : Text × Text → Type 0
  IsFrame (body, content) = State fresh (zstd_magic ++ body) content

  feed_chunks-part :
      (obj obj' : Obj) (fed : ℕ) (out more chunk : Text) (rest : List Text)
      → decompress obj chunk ≡ ok (more, obj')
      → eof obj' ≡ false
      → feed_chunks d obj fed out (chunk ∷ rest)
        ≡ feed_chunks d obj' (fed + length chunk) (out ++ more) rest
  unfolding feed_chunks
  feed_chunks-part obj obj' fed out more chunk rest read going = ground (arith, read, going)

  feed_chunks-last :
      (obj obj' : Obj) (fed : ℕ) (out content bytes after : Text) (rest : List Text)
      → decompress obj (bytes ++ after) ≡ ok (content, obj')
      → eof obj' ≡ true
      → unused_data obj' ≡ after
      → feed_chunks d obj fed out ((bytes ++ after) ∷ rest)
        ≡ some (out ++ content, fed + length bytes)
  unfolding feed_chunks
  feed_chunks-last obj obj' fed out content bytes after rest read done unused =
      ground (arith, read, done, unused, length-append bytes after)

  -- However the bytes of a frame and those after it are cut into chunks, they give the frame.
  feed_chunks-frame :
      (parts : List Text) (obj : Obj) (fed : ℕ) (out rest content after : Text)
      → State obj rest content
      → nonempty rest ≡ true
      → joins parts ≡ rest ++ after
      → feed_chunks d obj fed out parts ≡ some (out ++ content, fed + length rest)
  feed_chunks-frame [] obj fed out [] content after st full h = absurd (cc)
  feed_chunks-frame [] obj fed out (x ∷ rest) content after st full h = absurd (cc)
  feed_chunks-frame (chunk ∷ parts) obj fed out rest content after st full h =
      elim (cut chunk (joins parts) rest after h) [
        | inr (m, e) ↦
            let (obj', read, done, unused) = streams.last obj rest content m st in
            rw e (feed_chunks-last obj obj' fed out content rest m parts read done unused)
        | inl (m, more, e, f) ↦
            let (obj', given, left, read, going, whole, st') =
              streams.part obj chunk m content (subst (λ (t : Text). State obj t content) e st)
                more in
            feed_chunks-part obj obj' fed out given chunk parts read going
            ∙ (feed_chunks-frame parts obj' (fed + length chunk) (out ++ given) m left after st'
                  more f
                ∙ same_frame (append_assoc out given left ∙ ap (λ (t : Text). out ++ t) (sym whole))
                    (omega (arith, ap length e, length-append chunk m)))
      ]

  decode_frame-IsFrame :
      (body content after : Text)
      → IsFrame (body, content)
      → decode_frame d (zstd_magic ++ (body ++ after)) ≡ some (content, 4 + length body)
  unfolding decode_frame
  decode_frame-IsFrame body content after h =
      feed_chunks-frame (chunks (zstd_magic ++ (body ++ after))) fresh 0 [] (zstd_magic ++ body)
        content after h refl (chunk_loop-joins read_chunk [] (zstd_magic ++ (body ++ after)))
      ∙ ap (λ (n : ℕ). some (content, n)) (omega arith)

  find_magic-first : (s : Text) → find_magic (read_scan (zstd_magic ++ s)) ≡ some 0
  unfolding find_magic read_scan strip_prefix nat_discrete
  find_magic-first s = refl

  -- A frame that is found where the scan stands.
  frames_loop-found :
      (fuel pos b : ℕ) (bytes out : Text) (consumed : ℕ) (more : List (ℕ × Text))
      → find_magic (read_scan (b ∷ bytes)) ≡ some 0
      → decode_frame d (b ∷ bytes) ≡ some (out, consumed)
      → frames_loop d fuel (pos + consumed) (drop consumed (b ∷ bytes)) ≡ some more
      → frames_loop d (suc fuel) pos (b ∷ bytes) ≡ some ((pos + consumed, out) ∷ more)
  unfolding frames_loop
  frames_loop-found fuel pos b bytes out consumed more found decoded rest =
      ground (arith, found, decoded, rest)

  frames_loop-joined :
      (fuel pos : ℕ) (frames : List (Text × Text))
      → All IsFrame frames
      → length (joined frames) < fuel
      → frames_loop d fuel pos (joined frames) ≡ some (ends pos frames)
  unfolding frames_loop
  frames_loop-joined zero pos frames h enough = absurd (omega (arith, enough))
  frames_loop-joined (suc fuel) pos [] h enough = refl
  frames_loop-joined (suc fuel) pos ((body, content) ∷ frames) h enough =
      let after = joined frames in
      let end = pos + (4 + length body) in
      let shorter : length after < fuel = omega (arith, enough, length-append body after) in
      frames_loop-found fuel pos 40 (181 ∷ 47 ∷ 253 ∷ (body ++ after)) content (4 + length body)
        (ends end frames) (find_magic-first (body ++ after))
        (decode_frame-IsFrame body content after h.0)
        (ap (frames_loop d fuel end) (drop-frame body after)
          ∙ frames_loop-joined fuel end frames h.1 shorter)

  -- With such a decompressor a payload of frames that are intact, whatever their sizes, is read frame by
  -- frame, each with what it holds and in order.
  pub iter_frames-joined :
      (frames : List (Text × Text))
      → All IsFrame frames
      → iter_frames d (joined frames) ≡ some (ends 0 frames)
  unfolding iter_frames
  iter_frames-joined frames h =
      frames_loop-joined (suc (length (joined frames))) 0 frames h (omega arith)
