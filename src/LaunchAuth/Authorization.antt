-- ===== src/LaunchAuth/Authorization.antt =====
-- internal/launchauth/authorization.go: NewClaims, CandidateDigest, Sign and Verify.
pub mod Checked
pub mod RoundTrip
pub mod Secrets
mod Example
use Prim.Native.Char.{Char, code}
use Prim.Native.String.{len}
use Prim.Native.String
use yokai.Prelude.{
  ℕ, ◌+◌, ◌-◌, ◌*◌, ◌%◌, ◌^◌, ℤ, pos, negsuc, int_eq, int_lt, String, ◌==◌, trim_space, concat,
  starts_with, Bool, true, false, not, ◌&&◌, ◌||◌, Option, none, some, List, [], ◌∷◌, map, length,
  ltb, leb, eqb, if◌then◌else◌,
}
use yokai.Checks.{◌>>◌, ◌>>=◌, fail_if, refuse_if}
use yokai.Deployments.Errors.{
  Err, sentinel, launch_invalid, launch_expired, wrapped, Result, ok, err,
}
use yokai.LaunchAuth.Clock.{Time, unix, unix_of, later, earlier, is_before}
use yokai.LaunchAuth.Types.{Bytes, Request, Claims, Codec}

abbrev pub token_prefix : String
token_prefix = "yokai-launch-v1"

abbrev pub audience : String
audience = "yokai-agent-coordinated-qwen-launch"

-- Lifetime and maxSkew, in seconds
abbrev pub lifetime : ℕ
lifetime = 120

abbrev pub max_skew : ℕ
max_skew = 15

-- fmt.Errorf("%w: ...", ErrInvalid)
abbrev pub invalid : String → Err
invalid m = wrapped "" (sentinel launch_invalid) (concat (": " ∷ m ∷ []))

abbrev pub with_cause : {A : Type 0} → String → Result A → Result A
with_cause m (ok a) = ok a
with_cause m (err e) = err (wrapped m e "")

-- The loop over the arguments: an API key is replaced.
unfoldable pub scrub_arg : String → String
scrub_arg arg = if starts_with arg "--api-key=" then "--api-key=<request-scoped>" else arg

-- What of a request is hashed.
unfoldable pub scrubbed : Request → Request
unfolding scrub_arg
scrubbed r = record r { args = map scrub_arg r.args; hf_token = "" }

-- strings.Split at every dot.
unfoldable pub is_dot : Char → Bool
is_dot c = eqb (code c) 46

abbrev pub onto_first : Char → List String → List String
onto_first c [] = String.◌∷◌ c "" ∷ []
onto_first c (part ∷ parts) = String.◌∷◌ c part ∷ parts

unfoldable pub split_dots : String → List String
unfolding is_dot
split_dots String.[] = "" ∷ []
split_dots (String.◌∷◌ c s) =
    let parts = split_dots s in if is_dot c then "" ∷ parts else onto_first c parts

abbrev pub three_parts : List String → Result (String × String × String)
three_parts (a ∷ b ∷ c ∷ []) = ok (a, b, c)
three_parts _ = err (invalid "malformed token")

abbrev pub decoded : {A : Type 0} → String → Option A → Result A
decoded m none = err (invalid m)
decoded m (some a) = ok a

-- time.Duration(n) * time.Second > Lifetime for a number of seconds: the product wraps on 64 bits.
unfoldable pub too_long : ℕ → Bool
too_long n =
    let product = (n * 1000000000) % 2 ^ 64 in
    ltb product (2 ^ 63) && ltb (lifetime * 1000000000) product

-- The test of the lifetime; the difference is of two positive numbers.
unfoldable pub bad_lifetime : ℤ → ℤ → Bool
unfolding too_long
bad_lifetime (pos issued) (pos expires) =
    eqb issued 0 || leb expires issued || too_long (expires - issued)
bad_lifetime (pos issued) (negsuc n) = true
bad_lifetime (negsuc n) expires = true

unfoldable pub is_incomplete : Claims → Bool
is_incomplete c =
    trim_space c.target_device_id == ""
    || not (int_lt (pos 0) c.generation)
    || c.deployment_id == ""
    || c.candidate_name == ""
    || c.role == ""
    || c.bkc_id == ""
    || c.model_name == ""
    || c.model_revision == ""
    || c.source_revision == ""
    || c.image == ""
    || c.image_digest == ""
    || not (eqb (len c.candidate_digest) 64)

module _ (codec : Codec) where
  -- CandidateDigest
  unfoldable pub candidate_digest : Request → Result String
  unfolding scrubbed
  candidate_digest r = codec.hash (scrubbed r)

  -- Sign
  unfoldable pub sign : Bytes → Claims → Result String
  sign private_key c =
      fail_if (not (eqb (length private_key) 64))
        (invalid "coordinator signing key has invalid length")
      >> (with_cause "marshal launch authorization: " (codec.marshal c) >>= λ payload.
          let message = concat (token_prefix ∷ "." ∷ codec.encode payload ∷ []) in
          ok (concat (message ∷ "." ∷ codec.encode (codec.sign private_key message) ∷ [])))

  -- What Verify checks of the claims that it has decoded.
  unfoldable pub check_claims : Claims → Time → Result Claims
  unfolding is_incomplete bad_lifetime is_before
  check_claims c now =
      fail_if
        (not (int_eq c.version (pos 1)) || not (c.audience == audience) || not (eqb (len c.id) 32))
        (invalid "unsupported claims")
      >> (fail_if (not (codec.is_hex c.id)) (invalid "invalid authorization ID")
          >> (fail_if (is_incomplete c) (invalid "incomplete candidate claims")
              >> (fail_if (not (codec.is_hex c.candidate_digest))
                    (invalid "invalid candidate digest")
                  >> (fail_if (bad_lifetime c.issued_at c.expires_at) (invalid "invalid lifetime")
                      >> (fail_if (is_before now (earlier max_skew (unix c.issued_at)))
                            (invalid "issued in the future")
                          >> (fail_if (not (is_before now (unix c.expires_at)))
                                (sentinel launch_expired)
                              >> ok c))))))

  -- The claims of a token whose signature is right.
  unfoldable pub open_token : Bytes → String → Result Claims
  unfolding split_dots
  open_token public_key token = three_parts (split_dots token) >>= λ parts.
      fail_if (not (parts.0 == token_prefix)) (invalid "malformed token")
      >> (decoded "malformed payload" (codec.decode parts.1) >>= λ payload.
          decoded "malformed signature" (codec.decode parts.2) >>= λ signature.
          fail_if (not (eqb (length signature) 64)) (invalid "malformed signature")
          >> (fail_if
                (not (codec.verify public_key (concat (parts.0 ∷ "." ∷ parts.1 ∷ [])) signature))
                (invalid "signature verification failed")
              >> decoded "invalid claims" (codec.unmarshal payload)))

  -- Verify
  unfoldable pub verify : Bytes → String → Time → Result Claims
  unfolding open_token check_claims
  verify public_key token now =
      fail_if (not (eqb (length public_key) 32))
        (invalid "coordinator verification key is not configured")
      >> (open_token public_key token >>= λ c. check_claims c now)

  -- NewClaims; `random` is what rand.Read gives, 16 bytes or an error.
  unfoldable pub new_claims :
      Time
      → Result Bytes
      → Request
      → String
      → String
      → ℤ
      → String
      → String
      → String
      → String
      → String
      → String
      → Result Claims
  unfolding candidate_digest
  new_claims now random r target deployment generation name role bkc model_revision source_revision
        image_digest =
      fail_if (trim_space target == "") (invalid "target device identity is required")
      >> (with_cause "generate authorization ID: " random >>= λ id_bytes.
          candidate_digest r >>= λ digest. ok (record {
            version = pos 1;
            audience = audience;
            id = codec.hex id_bytes;
            target_device_id = target;
            deployment_id = deployment;
            generation = generation;
            candidate_name = name;
            role = role;
            bkc_id = bkc;
            model_name = r.model_name;
            model_revision = model_revision;
            source_revision = source_revision;
            image = r.image;
            image_digest = image_digest;
            candidate_digest = digest;
            issued_at = unix_of now.sec;
            expires_at = unix_of (later lifetime now).sec;
          }))
