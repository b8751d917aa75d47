-- ===== src/Checks.antt =====
-- Chains of checks: Go's early returns as a sequence of results, and what an answer at the end
-- of a chain says of every check before it.
use yokai.Prelude.{String, Bool, true, false, ◌≡◌, refl, arith}
use yokai.Deployments.Errors.{Err, plain, Result, ok, err}

abbrev pub complain {ℓ} : {A : Type ℓ} → String → Result A
complain m = err (plain m)

infixl 5 ◌>>◌ ◌>>=◌
-- A check, and what follows it.
abbrev pub ◌>>◌ {ℓ} : {A : Type ℓ} → Result (Unit {0}) → Result A → Result A
err e >> rest = err e
ok checked >> rest = rest

abbrev pub ◌>>=◌ {κ ℓ} : {B : Type κ} {A : Type ℓ} → Result B → (B → Result A) → Result A
err e >>= rest = err e
ok value >>= rest = rest value

-- Go on unless the test holds.
abbrev pub fail_if : Bool → Err → Result (Unit {0})
fail_if true e = err e
fail_if false e = ok tt

abbrev pub refuse_if : Bool → String → Result (Unit {0})
refuse_if true m = complain m
refuse_if false m = ok tt

pub unfailed :
    {A : Type 0} (b : Bool) (e : Err) (rest : Result A) (a : A)
    → (fail_if b e >> rest) ≡ ok a
    → (b ≡ false) × (rest ≡ ok a)
unfailed true e rest a h = ground (arith, h)
unfailed false e rest a h = (refl, h)

-- A check that was passed, and what followed it.
pub passed :
    {A : Type 0} (b : Bool) (m : String) (rest : Result A) (a : A)
    → (refuse_if b m >> rest) ≡ ok a
    → (b ≡ false) × (rest ≡ ok a)
passed true m rest a h = ground (arith, h)
passed false m rest a h = (refl, h)

pub checked :
    {A : Type 0} (r : Result (Unit {0})) (rest : Result A) (a : A)
    → (r >> rest) ≡ ok a
    → rest ≡ ok a
checked (ok done) rest a h = h
checked (err e) rest a h = ground (arith, h)

pub ended :
    {A : Type 0} (r : Result (Unit {0})) (rest : Result A) (a : A)
    → (r >> rest) ≡ ok a
    → (Unit {0}) × (r ≡ ok tt) × (rest ≡ ok a)
ended (ok done) rest a h = (tt, refl, h)
ended (err e) rest a h = ground (arith, h)

pub answered :
    {B A : Type 0} (r : Result B) (rest : B → Result A) (a : A)
    → (r >>= rest) ≡ ok a
    → (b : B) × (r ≡ ok b) × (rest b ≡ ok a)
answered (ok b) rest a h = (b, refl, h)
answered (err e) rest a h = ground (arith, h)
