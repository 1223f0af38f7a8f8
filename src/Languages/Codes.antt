-- ===== src/Languages/Codes.antt =====
-- common/languages.py: the codes that come out.
use aa_metadata_worker.Prelude.{
  ◌&&◌, ◌≡◌, refl, Text, Bool, true, false, none, some, [], ◌∷◌, Dict, lookup, text_eq, length,
  arith, ◌==◌, nat_eq, ◌⊎◌, inl, inr, Option-cases, text_discrete, nat_discrete,
}
use aa_metadata_worker.Unicode.{Unicode}
use aa_metadata_worker.Languages.{strip, table, region_base, all_alpha, language_to_iso639_3}

-- A code of three letters that the table maps to itself.
abbrev is_fixed : Text → Bool
is_fixed code = length code == 3 && elim (lookup code table) [ none ↦ false | some c ↦ c == code ]

abbrev every : (Text → Bool) → Dict Text Text → Bool
every p [] = true
every p ((_, v) ∷ d) = p v && every p d

table_fixed : every is_fixed table ≡ true
unfolding table lookup text_discrete nat_discrete
table_fixed = refl

lookup-every :
    (p : Text → Bool) (k v : Text) (d : Dict Text Text)
    → every p d ≡ true
    → lookup k d ≡ some v
    → p v ≡ true
unfolding lookup
lookup-every p k v [] h e = cc
lookup-every p k v ((j, w) ∷ d) h e = ground (arith, lookup-every p k v d)

table-fixed : (k v : Text) → lookup k table ≡ some v → (length v ≡ 3) × (lookup v table ≡ some v)
table-fixed k v e = let f = lookup-every is_fixed k v table table_fixed e in ground (arith, f)

-- What comes out has three letters. It is a code that the table maps to itself, or one that the table
-- does not know and that consists of letters.
pub language_to_iso639_3-fixed :
    (u : Unicode) (value code : Text)
    → language_to_iso639_3 u value ≡ some code
    → (length code ≡ 3)
      × ((lookup code table ≡ some code) ⊎ ((lookup code table ≡ none) × (all_alpha u code ≡ true)))
unfolding language_to_iso639_3
language_to_iso639_3-fixed u value code h =
    let key = u.lower (strip u.is_space value) in
    elim (Option-cases (lookup key table)) [
      | inr (v, e) ↦ ground (arith, e, table-fixed key v e)
      | inl e ↦ elim (Option-cases (region_base key)) [
        | inl b ↦ ground (arith, e, b)
        | inr (base, b) ↦ elim (Option-cases (lookup base table)) [
          | inl k ↦ ground (arith, e, b, k)
          | inr (v, k) ↦ ground (arith, e, b, k, table-fixed base v k)
        ]
      ]
    ]
