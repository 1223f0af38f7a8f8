-- ===== src/Sources/FileName.antt =====
-- The parts of a `PurePosixPath` that the adapters read, and `str.split` at one character.
use aa_metadata_worker.Prelude.{
  ℕ, ◌+◌, Text, Option, none, some, List, [], ◌∷◌, ◌&&◌, not, ◌==◌, nat_eq, text_eq, nonempty,
  length, ltb, take, drop, if◌then◌else◌,
}

-- `s.split(sep)`
unfoldable pub split_on : ℕ → Text → List Text
split_on sep [] = [] ∷ []
split_on sep (c ∷ s) = elim (split_on sep s) [
  | [] ↦ []
  | part ∷ parts ↦ if c == sep then [] ∷ part ∷ parts else (c ∷ part) ∷ parts
]

-- The last part that is neither empty nor a dot.
abbrev pub last_part : Text → List Text → Text
last_part found [] = found
last_part found (part ∷ parts) =
    last_part (if nonempty part && not (part == 46 ∷ []) then part else found) parts

abbrev pub name_of_path : Text → Text
name_of_path path = last_part [] (split_on 47 path)

-- `name.rfind(".")`
unfoldable pub last_dot : ℕ → Option ℕ → Text → Option ℕ
last_dot at found [] = found
last_dot at found (c ∷ s) = last_dot (at + 1) (if c == 46 then some at else found) s

-- Where the suffix begins: a dot that is neither the first nor the last character.
abbrev pub suffix_at : Text → Option ℕ
suffix_at name = elim (last_dot 0 none name) [
  | none ↦ none
  | some at ↦ if ltb 0 at && ltb (at + 1) (length name) then some at else none
]

unfoldable pub suffix : Text → Text
unfolding split_on last_dot
suffix path =
    let name = name_of_path path in elim (suffix_at name) [ none ↦ [] | some at ↦ drop at name ]

unfoldable pub stem : Text → Text
unfolding split_on last_dot
stem path =
    let name = name_of_path path in elim (suffix_at name) [ none ↦ name | some at ↦ take at name ]
