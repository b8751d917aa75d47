-- ===== src/LaunchAuth/Authorization/Example.antt =====
-- The token of the sample, verified and made.
use yokai.Prelude.{pos, ◌≡◌, refl, inr, true, false, [], ◌∷◌, any_char, trim_space, concat, arith}
use yokai.Deployments.Errors.{ok}
use yokai.LaunchAuth.Clock.{unix, earlier, is_before, unix_of, later_sec, unix_sec, earlier_sec}
use yokai.LaunchAuth.Sample.{
  public_key, private_key, payload, at_second, claims, request, codec, token,
}
use yokai.LaunchAuth.Authorization.{
  verify, open_token, check_claims, sign, new_claims, bad_lifetime, too_long, candidate_digest,
  scrubbed, scrub_arg, is_dot, split_dots, is_incomplete,
}
use yokai.LaunchAuth.Authorization.Checked.{IsCurrent, verify-IsCurrent}
use yokai.LaunchAuth.Authorization.RoundTrip.{IsFaithful, verify-new_claims}
use yokai.LaunchAuth.Authorization.Secrets.{candidate_digest-same}

verified : verify codec public_key token (at_second 1060) ≡ ok claims
unfolding verify open_token check_claims split_dots is_dot is_incomplete bad_lifetime too_long
    is_before unix_sec earlier_sec concat trim_space
verified = refl

verify-IsCurrent_example :
    (open_token codec public_key token ≡ ok claims) × IsCurrent claims (at_second 1060)
verify-IsCurrent_example = verify-IsCurrent codec public_key token (at_second 1060) claims verified

-- A lifetime of ten thousand million seconds passes the test.
wrapped_lifetime : bad_lifetime (pos 1000) (pos 10000001000) ≡ false
unfolding bad_lifetime too_long
wrapped_lifetime = refl

candidate_digest-same_example :
    candidate_digest codec (record request { args = "--api-key=other" ∷ []; hf_token = "hf_1" })
    ≡ candidate_digest codec request
candidate_digest-same_example =
    candidate_digest-same codec request ("--api-key=other" ∷ []) "hf_1" (inr (refl, refl), tt)

made :
    new_claims codec
      (at_second 1000)
      (ok (1 ∷ []))
      request
      "spark-1"
      "dep-1"
      (pos 1)
      "yokai-dep-1"
      "head"
      "qwen3-8-flash-next-nvfp4-dual-gb10"
      "r1"
      "s1"
      "d1"
    ≡ ok claims
unfolding new_claims candidate_digest scrubbed scrub_arg unix_of later_sec trim_space
made = refl

signed : sign codec private_key claims ≡ ok token
unfolding sign concat
signed = refl

faithful : IsFaithful codec private_key public_key claims payload
unfolding any_char is_dot concat
faithful = record {
  private_size = refl;
  public_size = refl;
  marshalled = refl;
  unmarshalled = refl;
  decoded_payload = refl;
  no_dots_payload = refl;
  signature_size = refl;
  verified = refl;
  decoded_signature = refl;
  no_dots_signature = refl;
}

begun : is_before (at_second 990) (earlier 15 (unix (pos 1000))) ≡ false
unfolding is_before unix_sec earlier_sec
begun = refl

unexpired : is_before (at_second 990) (unix (pos 1120)) ≡ true
unfolding is_before unix_sec
unexpired = refl

complete : is_incomplete claims ≡ false
unfolding is_incomplete trim_space
complete = refl

verify-new_claims_example : verify codec public_key token (at_second 990) ≡ ok claims
verify-new_claims_example =
    verify-new_claims codec (at_second 1000) (ok (1 ∷ [])) request "spark-1" "dep-1" (pos 1)
      "yokai-dep-1" "head" "qwen3-8-flash-next-nvfp4-dual-gb10" "r1" "s1" "d1" private_key
      public_key payload claims token 1000 (at_second 990) refl (omega arith) (omega arith) made
      refl refl complete refl faithful signed begun unexpired
