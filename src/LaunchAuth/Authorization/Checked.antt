-- ===== src/LaunchAuth/Authorization/Checked.antt =====
-- What a verified authorization says.
use Prim.Native.String.{len}
use yokai.Prelude.{
  ℕ, ◌+◌, ◌-◌, ◌*◌, ◌^◌, ◌<◌, ◌≤◌, ◌≡◌, refl, ap, sym, subst, ◌∙◌, ◌⊎◌, inl, inr, ℤ, pos, negsuc,
  int_eq, String, ◌==◌, true, false, not, ◌||◌, Bool-cases, length, ltb, eqb, arith,
}
use yokai.Checks.{unfailed, answered}
use yokai.Deployments.Errors.{sentinel, launch_expired, Result, ok}
use yokai.LaunchAuth.Clock.{Time, unix, earlier, is_before}
use yokai.LaunchAuth.Types.{Bytes, Claims, Codec}
use yokai.LaunchAuth.Authorization.{
  audience, lifetime, max_skew, is_incomplete, bad_lifetime, too_long, check_claims, open_token,
  verify, invalid,
}

-- What the checks promise of claims at a time. The number of seconds is that of a signed word: a
-- product that is out of the range of 64 bits wraps, so a token that claims to live for more than
-- 292 years can pass.
pub record IsCurrent (c : Claims) (now : Time) : Type 0 where
  pub issued : ℕ
  pub expires : ℕ
  pub issued_at : c.issued_at ≡ pos issued
  pub expires_at : c.expires_at ≡ pos expires
  pub ordered : issued < expires
  pub short : (expires ≤ issued + lifetime) ⊎ (2 ^ 63 ≤ (expires - issued) * 1000000000)
  pub begun : is_before now (earlier max_skew (unix (pos issued))) ≡ false
  pub unexpired : is_before now (unix (pos expires)) ≡ true
  pub complete : is_incomplete c ≡ false
  pub for_agent : (c.audience == audience) ≡ true

within_lifetime : (n : ℕ) → n * 1000000000 < 2 ^ 63 → too_long n ≡ false → n ≤ lifetime
unfolding too_long
within_lifetime n small h = ground (arith, small, h)

short_or_wrapped :
    (i e : ℕ)
    → i < e
    → too_long (e - i) ≡ false
    → (e ≤ i + lifetime) ⊎ (2 ^ 63 ≤ (e - i) * 1000000000)
unfolding too_long
short_or_wrapped i e ordered h = elim (Bool-cases (ltb ((e - i) * 1000000000) (2 ^ 63))) [
  | inl k ↦
      let few : e - i ≤ lifetime = within_lifetime (e - i) (ground (arith, k)) h in
      inl (omega (arith, few, ordered))
  | inr k ↦ inr (ground (arith, k))
]

lifetime_bounds :
    (i e : ℤ)
    → bad_lifetime i e ≡ false
    → (issued expires : ℕ) × (i ≡ pos issued)
      × (e ≡ pos expires)
      × (issued < expires)
      × ((expires ≤ issued + lifetime) ⊎ (2 ^ 63 ≤ (expires - issued) * 1000000000))
unfolding bad_lifetime too_long
lifetime_bounds (pos i) (pos e) h =
    let ordered : i < e = ground (arith, h) in
    (i, e, refl, refl, ordered, short_or_wrapped i e ordered (ground (arith, h)))
lifetime_bounds (pos i) (negsuc n) h = absurd (ground (arith, h))
lifetime_bounds (negsuc n) e h = absurd (ground (arith, h))

same_claims : (a b : Claims) → ◌≡◌ {A = Result Claims} (ok a) (ok b) → a ≡ b
same_claims a b h = cc

module _ (codec : Codec) where
  check_claims-IsCurrent :
      (given c : Claims) (now : Time)
      → check_claims codec given now ≡ ok c
      → (given ≡ c) × IsCurrent c now
  unfolding check_claims
  check_claims-IsCurrent given c now h =
      let (known, h1) =
        unfailed
          (not (int_eq given.version (pos 1))
            || not (given.audience == audience)
            || not (eqb (len given.id) 32))
          (invalid "unsupported claims") _ c h in
      let (named, h2) =
        unfailed (not (codec.is_hex given.id)) (invalid "invalid authorization ID") _ c h1 in
      let (complete, h3) =
        unfailed (is_incomplete given) (invalid "incomplete candidate claims") _ c h2 in
      let (digested, h4) =
        unfailed (not (codec.is_hex given.candidate_digest)) (invalid "invalid candidate digest") _
          c h3 in
      let (bounded, h5) =
        unfailed (bad_lifetime given.issued_at given.expires_at) (invalid "invalid lifetime") _ c
          h4 in
      let (begun, h6) =
        unfailed (is_before now (earlier max_skew (unix given.issued_at)))
          (invalid "issued in the future") _ c h5 in
      let (unexpired, h7) =
        unfailed (not (is_before now (unix given.expires_at))) (sentinel launch_expired) _ c h6 in
      let same : given ≡ c = same_claims given c h7 in
      let (issued, expires, issued_at, expires_at, ordered, short) =
        lifetime_bounds given.issued_at given.expires_at bounded in
      (
        same,
        subst (λ claims. IsCurrent claims now) same
            (record {
              issued = issued;
              expires = expires;
              issued_at = issued_at;
              expires_at = expires_at;
              ordered = ordered;
              short = short;
              begun = ap (λ t. is_before now (earlier max_skew (unix t))) (sym issued_at) ∙ begun;
              unexpired =
                  ap (λ t. is_before now (unix t)) (sym expires_at) ∙ ground (arith, unexpired);
              complete = complete;
              for_agent = ground (arith, known);
            }),
      )

  -- The claims that Verify returns stand in a token whose signature the coordinator's key
  -- verifies, were issued at most 15 seconds after now, are not expired, are complete, and have a
  -- lifetime of at most two minutes, but for one so long, of 292 years and more, that its number of nanoseconds
  -- does not fit in a signed word of 64 bits.
  pub verify-IsCurrent :
      (public_key : Bytes) (token : String) (now : Time) (c : Claims)
      → verify codec public_key token now ≡ ok c
      → (open_token codec public_key token ≡ ok c) × IsCurrent c now
  unfolding verify
  verify-IsCurrent public_key token now c h =
      let (key, h1) =
        unfailed (not (eqb (length public_key) 32))
          (invalid "coordinator verification key is not configured") _ c h in
      let (given, opened, checks) = answered (open_token codec public_key token) _ c h1 in
      let (same, current) = check_claims-IsCurrent given c now checks in
      (opened ∙ ap ok same, current)
