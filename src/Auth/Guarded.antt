-- ===== src/Auth/Guarded.antt =====
-- app/main.py: a guarded path is not served without the token.
use aa_metadata_worker.Prelude.{
  ◌≡◌, Text, true, false, some, [], ◌∷◌, ◌++◌, ◌&&◌, codes, text_eq, nat_eq, text_discrete,
  nonempty, ◌⊎◌, inl, inr, arith, Bool-cases, Option-cases,
}
use aa_metadata_worker.Result.{Result, ok, err}
use aa_metadata_worker.Unicode.{Unicode}
use aa_metadata_worker.Normalize.{strip}
use aa_metadata_worker.Discovery.{strip_prefix}
use aa_metadata_worker.Control.{Response}
use aa_metadata_worker.Auth.{
  Request, auth_exempt, is_ascii, not_ascii, compare_digest, provided_token, unauthorized,
  bearer_auth,
}

strip_prefix_lem : (prefix s rest : Text) → strip_prefix prefix s ≡ some rest → s ≡ prefix ++ rest
unfolding strip_prefix
strip_prefix_lem [] s rest h = cc
strip_prefix_lem (p ∷ prefix) [] rest h = absurd (cc)
strip_prefix_lem (p ∷ prefix) (c ∷ s) rest h = ground (arith, h, strip_prefix_lem prefix s rest)

-- The header carries the token, with blanks around it at most.
abbrev pub Carries : Unicode → Text → Text → Type 0
Carries u expected authorization =
    (token : Text) × (authorization ≡ codes "Bearer " ++ token)
    × (strip u.is_space token ≡ expected)

provided_token-Carries :
    (u : Unicode) (authorization expected : Text)
    → nonempty expected ≡ true
    → provided_token u authorization ≡ expected
    → Carries u expected authorization
unfolding provided_token
provided_token-Carries u authorization expected full h =
    elim (Option-cases (strip_prefix (codes "Bearer ") authorization)) [
      | inl e ↦ absurd (ground (arith, e, h, full))
      | inr (token, e) ↦
          (token, strip_prefix_lem (codes "Bearer ") authorization token e, ground (arith, e, h))
    ]

compare_digest-cases :
    (a b : Text)
    → (compare_digest a b ≡ err not_ascii)
      ⊎ ((compare_digest a b ≡ ok false) ⊎ ((compare_digest a b ≡ ok true) × (a ≡ b)))
unfolding compare_digest
compare_digest-cases a b = elim (Bool-cases (is_ascii a && is_ascii b)) [
  | inr e ↦ inl (rw e)
  | inl e ↦ elim (text_discrete a b) [
    | yes same ↦ inr (inr (ground (arith, e, same), same))
    | no other ↦ inr (inl (ground (arith, e, other)))
  ]
]

module _ {A : Type 0} where
  -- With a key configured, a request for a path that is not exempt is answered with 401 or with an
  -- exception of the comparison, unless its header carries the key; then it is passed on.
  pub bearer_auth-guards :
      (u : Unicode) (expected : Text) (call_next : Request → Result (Response A))
      (request : Request)
      → nonempty expected ≡ true
      → auth_exempt request.path ≡ false
      → (bearer_auth u expected call_next request ≡ ok unauthorized)
        ⊎ ((bearer_auth u expected call_next request ≡ err not_ascii)
            ⊎ ((bearer_auth u expected call_next request ≡ call_next request)
                × Carries u expected request.authorization))
  unfolding bearer_auth
  bearer_auth-guards u expected call_next request full guarded =
      let provided = provided_token u request.authorization in
      elim (Bool-cases (nonempty provided)) [
        | inr e ↦ inl (ground (arith, full, guarded, e))
        | inl e ↦ elim (compare_digest-cases provided expected) [
          | inl x ↦ inr (inl (ground (arith, full, guarded, e, x)))
          | inr equal ↦ elim equal [
            | inl x ↦ inl (ground (arith, full, guarded, e, x))
            | inr (x, same) ↦ inr (
                inr (
                  ground (arith, full, guarded, e, x),
                  provided_token-Carries u request.authorization expected full same,
                ))
          ]
        ]
      ]
