-- ===== src/LaunchAuth/Authorization/Secrets.antt =====
-- No secret of a request goes into its digest.
use yokai.Prelude.{
  ◌≡◌, refl, ap, sym, ◌∙◌, String, true, ◌⊎◌, inl, inr, List, [], ◌∷◌, map, starts_with,
}
use yokai.LaunchAuth.Types.{Request, Codec}
use yokai.LaunchAuth.Authorization.{scrub_arg, scrubbed, candidate_digest}

-- The same arguments, but for the values of API keys.
abbrev pub IsSameButKeys : List String → List String → Type 0
IsSameButKeys [] [] = Unit
IsSameButKeys (a ∷ xs) [] = ⊥
IsSameButKeys [] (b ∷ ys) = ⊥
IsSameButKeys (a ∷ xs) (b ∷ ys) =
    ((a ≡ b) ⊎ ((starts_with a "--api-key=" ≡ true) × (starts_with b "--api-key=" ≡ true)))
    × IsSameButKeys xs ys

scrub_arg-same :
    (a b : String)
    → (a ≡ b) ⊎ ((starts_with a "--api-key=" ≡ true) × (starts_with b "--api-key=" ≡ true))
    → scrub_arg a ≡ scrub_arg b
unfolding scrub_arg
scrub_arg-same a b (inl same) = ap scrub_arg same
scrub_arg-same a b (inr (h, k)) = rw h (rw k refl)

scrubbed_args : (xs ys : List String) → IsSameButKeys xs ys → map scrub_arg xs ≡ map scrub_arg ys
scrubbed_args [] [] h = refl
scrubbed_args [] (b ∷ ys) h = absurd h
scrubbed_args (a ∷ xs) [] h = absurd h
scrubbed_args (a ∷ xs) (b ∷ ys) (first, rest) =
    ap (λ z. z ∷ map scrub_arg xs) (scrub_arg-same a b first)
    ∙ ap (λ l. scrub_arg b ∷ l) (scrubbed_args xs ys rest)

-- Two requests that differ only in the values of API keys among their arguments and in the HF
-- token have the same digest, so neither is derived from such a secret.
pub candidate_digest-same :
    (codec : Codec) (r : Request) (args : List String) (hf_token : String)
    → IsSameButKeys r.args args
    → candidate_digest codec (record r { args = args; hf_token = hf_token })
      ≡ candidate_digest codec r
unfolding candidate_digest scrubbed
candidate_digest-same codec r args hf_token h =
    ap (λ l. codec.hash (record r { args = l; hf_token = "" })) (sym (scrubbed_args r.args args h))
