-- ===== src/Importer/Frames.antt =====
-- sync/importer.py: `_iter_jsonl_frames` and `iter_jsonl`, over the bytes of the payload file. The
-- decompressor of zstandard and the UTF-8 decoder are parameters.
pub mod Intact
pub mod Total
pub mod Lines
use aa_metadata_worker.Prelude.{
  ℕ, zero, suc, ◌+◌, ◌-◌, Text, Bool, true, false, Option, none, some, List, [], ◌∷◌, ◌++◌, ◌||◌,
  ◌==◌, nat_eq, nonempty, length, take, drop, map, filter, is_some, leb, if◌then◌else◌,
}
use aa_metadata_worker.Result.{Result, ok, err}
use aa_metadata_worker.Unicode.{Unicode}
use aa_metadata_worker.Normalize.{strip}
use aa_metadata_worker.Discovery.{strip_prefix}

-- `zstandard.ZstdDecompressor(…).decompressobj()`
pub record Decompressor : Type 1 where
  pub Obj : Type 0
  pub fresh : Obj
  pub decompress : Obj → Text → Result (Text × Obj)
  pub eof : Obj → Bool
  pub unused_data : Obj → Text

-- `_ZSTD_MAGIC`
abbrev pub zstd_magic : Text
zstd_magic = 40 ∷ 181 ∷ 47 ∷ 253 ∷ []

abbrev pub read_chunk : ℕ
read_chunk = 1048576

-- `raw_file.read(min(total - pos, read_chunk))`, of the bytes that follow a position
unfoldable pub read_scan : Text → Text
read_scan rest = take read_chunk rest

-- `scan.find(_ZSTD_MAGIC)`
unfoldable pub find_magic : Text → Option ℕ
unfolding strip_prefix
find_magic [] = none
find_magic (c ∷ s) =
    let later = find_magic s in
    if is_some (strip_prefix zstd_magic (c ∷ s))
    then some 0
    else elim later [ none ↦ none | some n ↦ some (suc n) ]

-- The chunks that are read one after another, with the room left in the one being read.
unfoldable pub chunk_loop : ℕ → Text → Text → List Text
chunk_loop room chunk [] = if nonempty chunk then chunk ∷ [] else []
chunk_loop zero chunk (c ∷ s) = chunk ∷ chunk_loop (read_chunk - 1) (c ∷ []) s
chunk_loop (suc room) chunk (c ∷ s) = chunk_loop room (chunk ++ (c ∷ [])) s

abbrev pub chunks : Text → List Text
chunks bytes = chunk_loop read_chunk [] bytes

module _ (d : Decompressor) where
  open d use {Obj, fresh, decompress, eof, unused_data}

  -- The inner loop: what the frame holds, and how many bytes it takes.
  unfoldable pub feed_chunks : Obj → ℕ → Text → List Text → Option (Text × ℕ)
  feed_chunks dobj fed out [] = none
  feed_chunks dobj fed out (chunk ∷ rest) = elim (decompress dobj chunk) [
    | err e ↦ none
    | ok (more, dobj') ↦ elim (eof dobj') [
      | true ↦ some (out ++ more, fed + (length chunk - length (unused_data dobj')))
      | false ↦ feed_chunks dobj' (fed + length chunk) (out ++ more) rest
    ]
  ]

  unfoldable pub decode_frame : Text → Option (Text × ℕ)
  unfolding feed_chunks chunk_loop
  decode_frame bytes = feed_chunks fresh 0 [] (chunks bytes)

  -- The outer loop, from a position and the bytes that follow it: the end of each frame that can be
  -- decoded, which is reported, and what it holds. `none` means that the fuel ran out.
  unfoldable pub frames_loop : ℕ → ℕ → Text → Option (List (ℕ × Text))
  frames_loop zero pos rest = none
  frames_loop (suc fuel) pos [] = some []
  frames_loop (suc fuel) pos (b ∷ bytes) =
      let rest : Text = b ∷ bytes in
      let scan = read_scan rest in
      elim (find_magic scan) [
        | none ↦ frames_loop fuel (pos + length scan) (drop (length scan) rest)
        | some k ↦
            let start = drop k rest in
            elim (decode_frame start) [
              | none ↦ frames_loop fuel (pos + k + 1) (drop 1 start)
              | some (out, consumed) ↦
                  elim (frames_loop fuel (pos + k + consumed) (drop consumed start)) [
                    | none ↦ none
                    | some more ↦ some ((pos + k + consumed, out) ∷ more)
                  ]
            ]
      ]

  unfoldable pub iter_frames : Text → Option (List (ℕ × Text))
  unfolding frames_loop read_scan
  iter_frames bytes = frames_loop (suc (length bytes)) 0 bytes

-- The parts of a text between separators.
unfoldable pub split_where : (ℕ → Bool) → Text → List Text
split_where p [] = [] ∷ []
split_where p (c ∷ s) = elim (split_where p s) [
  | [] ↦ []
  | part ∷ parts ↦ if p c then [] ∷ part ∷ parts else (c ∷ part) ∷ parts
]

-- The separators of a text file, and of `str.splitlines`. A carriage return with a newline is one
-- separator; as two it gives one empty line more, which is dropped.
abbrev pub is_newline : ℕ → Bool
is_newline c = c == 10 || c == 13

abbrev pub is_boundary : ℕ → Bool
is_boundary c =
    is_newline c
    || c == 11
    || c == 12
    || c == 28
    || c == 29
    || c == 30
    || c == 133
    || c == 8232
    || c == 8233

-- The lines that are yielded: stripped, and not empty.
unfoldable pub lines_of : Unicode → (ℕ → Bool) → Text → List Text
unfolding split_where strip
lines_of u p text = filter nonempty (map (strip u.is_space) (split_where p text))

-- What `iter_jsonl` yields of a whole stream, and of a frame.
abbrev pub strict_lines : Unicode → Text → List Text
strict_lines u text = lines_of u is_newline text

abbrev pub frame_lines : Unicode → Text → List Text
frame_lines u text = lines_of u is_boundary text
