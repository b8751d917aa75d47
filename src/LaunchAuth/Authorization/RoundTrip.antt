-- ===== src/LaunchAuth/Authorization/RoundTrip.antt =====
-- A token that was signed is verified.
use Prim.Native.String.{len}
use Prim.Native.String
use text.Mathlib.TextLemmas.{nil-append, cons-append, append-nil, append_assoc}
use yokai.Prelude.{
  ℕ, ◌+◌, ◌-◌, ◌^◌, ◌<◌, ◌≡◌, refl, ap, sym, subst, ◌∙◌, ℤ, pos, String, ◌==◌, concat, any_char,
  trim_space, true, false, some, [], ◌∷◌, length, arith,
}
use yokai.Checks.{unfailed, answered}
use yokai.Deployments.Errors.{Result, ok}
use yokai.LaunchAuth.Clock.{Time, unix, unix_of, unix_offset, later_sec, earlier, is_before}
use yokai.LaunchAuth.Types.{Bytes, Request, Claims, Codec}
use yokai.LaunchAuth.Authorization.{
  token_prefix, audience, lifetime, max_skew, is_dot, split_dots, invalid, is_incomplete,
  bad_lifetime, too_long, too_long, sign, check_claims, open_token, verify, new_claims,
  candidate_digest, with_cause,
}

-- No dot stands in a text.
split_dots-one : (s : String) → any_char is_dot s ≡ false → split_dots s ≡ s ∷ []
unfolding split_dots any_char
split_dots-one String.[] h = refl
split_dots-one (String.◌∷◌ c s) h =
    let rest : split_dots s ≡ s ∷ [] = split_dots-one s (ground (arith, h)) in
    rw rest (ground (arith, h))

-- The part before the first dot.
split_dots-first :
    (s t : String)
    → any_char is_dot s ≡ false
    → split_dots (String.◌++◌ s (String.◌++◌ "." t)) ≡ s ∷ split_dots t
unfolding split_dots any_char
split_dots-first String.[] t h =
    rw (nil-append (String.◌++◌ "." t)) (rw (cons-append "." "" t) (rw (nil-append t) refl))
split_dots-first (String.◌∷◌ c s) t h =
    let rest : split_dots (String.◌++◌ s (String.◌++◌ "." t)) ≡ s ∷ split_dots t =
      split_dots-first s t (ground (arith, h)) in
    rw (cons-append c s (String.◌++◌ "." t)) (rw rest (ground (arith, h)))

-- The message that is signed for a payload, and the token of a message and a signature.
abbrev message_of : String → String
message_of encoded = concat (token_prefix ∷ "." ∷ encoded ∷ [])

abbrev token_of : String → String → String
token_of encoded signature = concat (message_of encoded ∷ "." ∷ signature ∷ [])

token_of-parts :
    (encoded signature : String)
    → token_of encoded signature
      ≡ String.◌++◌ token_prefix (String.◌++◌ "." (String.◌++◌ encoded (String.◌++◌ "." signature)))
unfolding concat
token_of-parts encoded signature = rw (append-nil encoded) (
    rw (append-nil signature) (
      append_assoc token_prefix (String.◌++◌ "." encoded) (String.◌++◌ "." signature)
      ∙ ap (String.◌++◌ token_prefix) (append_assoc "." encoded (String.◌++◌ "." signature))))

token_prefix-no_dots : any_char is_dot token_prefix ≡ false
unfolding any_char is_dot
token_prefix-no_dots = refl

split_dots-token :
    (encoded signature : String)
    → any_char is_dot encoded ≡ false
    → any_char is_dot signature ≡ false
    → split_dots (token_of encoded signature) ≡ token_prefix ∷ encoded ∷ signature ∷ []
split_dots-token encoded signature h k =
    ap split_dots (token_of-parts encoded signature)
    ∙ split_dots-first token_prefix (String.◌++◌ encoded (String.◌++◌ "." signature))
        token_prefix-no_dots
    ∙ ap (λ l. token_prefix ∷ l)
        (split_dots-first encoded signature h ∙ ap (λ l. encoded ∷ l) (split_dots-one signature k))

-- What the packages promise of one token: the encodings have no dot and are decoded to what was
-- encoded, the claims' JSON is read back, and the signature of the message has 64 bytes and
-- is verified.
pub record IsFaithful (codec : Codec) (private_key public_key : Bytes) (c : Claims)
    (payload : Bytes) : Type 0 where
  pub private_size : length private_key ≡ 64
  pub public_size : length public_key ≡ 32
  pub marshalled : codec.marshal c ≡ ok payload
  pub unmarshalled : codec.unmarshal payload ≡ some c
  pub decoded_payload : codec.decode (codec.encode payload) ≡ some payload
  pub no_dots_payload : any_char is_dot (codec.encode payload) ≡ false
  pub signature_size : length (codec.sign private_key (message_of (codec.encode payload))) ≡ 64
  pub verified :
      codec.verify public_key
        (message_of (codec.encode payload))
        (codec.sign private_key (message_of (codec.encode payload)))
      ≡ true
  pub decoded_signature :
      codec.decode (codec.encode (codec.sign private_key (message_of (codec.encode payload))))
      ≡ some (codec.sign private_key (message_of (codec.encode payload)))
  pub no_dots_signature :
      any_char is_dot (codec.encode (codec.sign private_key (message_of (codec.encode payload))))
      ≡ false

module _ (codec : Codec) (private_key public_key : Bytes) (c : Claims) (payload : Bytes)
    (faithful : IsFaithful codec private_key public_key c payload) where
  signature : Bytes
  signature = codec.sign private_key (message_of (codec.encode payload))

  sign-token :
      sign codec private_key c ≡ ok (token_of (codec.encode payload) (codec.encode signature))
  unfolding sign signature
  sign-token = rw faithful.private_size (rw faithful.marshalled refl)

  open_token-signed :
      open_token codec public_key (token_of (codec.encode payload) (codec.encode signature)) ≡ ok c
  unfolding open_token signature
  open_token-signed =
      rw
        (split_dots-token (codec.encode payload) (codec.encode signature) faithful.no_dots_payload
          faithful.no_dots_signature)
        (rw faithful.decoded_payload (
          rw faithful.decoded_signature
            (rw faithful.signature_size (rw faithful.verified (rw faithful.unmarshalled refl)))))

  verify-signed :
      (now : Time)
      → verify codec public_key (token_of (codec.encode payload) (codec.encode signature)) now
        ≡ check_claims codec c now
  unfolding verify
  verify-signed now = rw faithful.public_size (rw open_token-signed refl)

-- The lifetime of two minutes after a second of 1970 or later.
fresh_lifetime : (s : ℕ) → 0 < s → bad_lifetime (pos s) (pos (s + lifetime)) ≡ false
unfolding bad_lifetime too_long
fresh_lifetime s h =
    let same : s + lifetime - s ≡ lifetime = omega arith in
    let short : too_long (s + lifetime - s) ≡ false = ap too_long same in ground (arith, h, short)

unix_of-later :
    (s : ℕ)
    → s + unix_offset + lifetime < 2 ^ 63
    → (unix_of (pos (s + unix_offset)) ≡ pos s)
      × (unix_of (later_sec lifetime (pos (s + unix_offset))) ≡ pos (s + lifetime))
unfolding unix_of later_sec
unix_of-later s h = (ground (arith, h), ground (arith, h))

-- What claims made in a second of the clock say of it.
pub record IsGrant (c : Claims) (issued : ℕ) : Type 0 where
  pub issued_at : c.issued_at ≡ pos issued
  pub expires_at : c.expires_at ≡ pos (issued + lifetime)
  pub version : c.version ≡ pos 1
  pub for_agent : c.audience ≡ audience

check_claims-granted :
    (codec : Codec) (c : Claims) (issued : ℕ) (now : Time)
    → IsGrant c issued
    → 0 < issued
    → len c.id ≡ 32
    → codec.is_hex c.id ≡ true
    → is_incomplete c ≡ false
    → codec.is_hex c.candidate_digest ≡ true
    → is_before now (earlier max_skew (unix (pos issued))) ≡ false
    → is_before now (unix (pos (issued + lifetime))) ≡ true
    → check_claims codec c now ≡ ok c
unfolding check_claims
check_claims-granted codec c issued now g begins size hex complete digest begun unexpired =
    rw g.version (
      rw g.for_agent (
        rw size (
          rw hex (
            rw complete (
              rw digest (
                rw g.issued_at (
                  rw g.expires_at
                    (rw (fresh_lifetime issued begins) (rw begun (rw unexpired refl))))))))))

same_token : (a b : String) → ◌≡◌ {A = Result String} (ok a) (ok b) → a ≡ b
same_token a b h = cc

same-IsGrant :
    (a b : Claims) (issued : ℕ)
    → ◌≡◌ {A = Result Claims} (ok a) (ok b)
    → IsGrant a issued
    → IsGrant b issued
same-IsGrant a b issued h g = let same : a ≡ b = cc in subst (λ c. IsGrant c issued) same g

module _ (codec : Codec) (clock : Time) (random : Result Bytes) (r : Request)
    (target deployment : String) (generation : ℤ)
    (name role bkc model_revision source_revision image_digest : String) where
  new_claims-IsGrant :
      (c : Claims) (issued : ℕ)
      → clock.sec ≡ pos (issued + unix_offset)
      → issued + unix_offset + lifetime < 2 ^ 63
      → new_claims codec clock random r target deployment generation name role bkc model_revision
          source_revision image_digest
        ≡ ok c
      → IsGrant c issued
  unfolding new_claims
  new_claims-IsGrant c issued at bound h =
      let (now, expiry) = unix_of-later issued bound in
      let (named, h1) =
        unfailed (trim_space target == "") (invalid "target device identity is required") _ c h in
      let (id_bytes, drawn, h2) =
        answered (with_cause "generate authorization ID: " random) _ c h1 in
      let (digest, hashed, h3) = answered (candidate_digest codec r) _ c h2 in
      same-IsGrant _ c issued h3 (record {
        issued_at = ap unix_of at ∙ now;
        expires_at = ap (λ s. unix_of (later_sec lifetime s)) at ∙ expiry;
        version = refl;
        for_agent = refl;
      })

  -- The claims that the coordinator makes in some second, signed with its key, are the claims that an
  -- agent with the matching key gets back from the token, at every time from 15 seconds before
  -- that second to two minutes after it. It is assumed of the packages that they read back
  -- what they wrote and verify what they signed, and of the claims that no text in them is missing and that the
  -- identifier and the digest are hexadecimal, of their length.
  pub verify-new_claims :
      (private_key public_key payload : Bytes) (c : Claims) (token : String) (issued : ℕ)
      (now : Time)
      → clock.sec ≡ pos (issued + unix_offset)
      → 0 < issued
      → issued + unix_offset + lifetime < 2 ^ 63
      → new_claims codec clock random r target deployment generation name role bkc model_revision
          source_revision image_digest
        ≡ ok c
      → len c.id ≡ 32
      → codec.is_hex c.id ≡ true
      → is_incomplete c ≡ false
      → codec.is_hex c.candidate_digest ≡ true
      → IsFaithful codec private_key public_key c payload
      → sign codec private_key c ≡ ok token
      → is_before now (earlier max_skew (unix (pos issued))) ≡ false
      → is_before now (unix (pos (issued + lifetime))) ≡ true
      → verify codec public_key token now ≡ ok c
  verify-new_claims private_key public_key payload c token issued now at begins bound made size hex
        complete digest faithful signed begun unexpired =
      let made_token = sign-token codec private_key public_key c payload faithful in
      ap (λ t. verify codec public_key t now) (same_token token _ (sym signed ∙ made_token))
      ∙ verify-signed codec private_key public_key c payload faithful now
      ∙ check_claims-granted codec c issued now (new_claims-IsGrant c issued at bound made) begins
          size hex complete digest begun unexpired
