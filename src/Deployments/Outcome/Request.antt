-- ===== src/Deployments/Outcome/Request.antt =====
-- What validateCreateRequest promises of the bindings.
use Prim.Native.String.{len}
use yokai.Bkc.Catalog.{lookup_id}
use yokai.Prelude.{
  ℕ, not, ltb, any_char, is_control, String, ◌==◌, eq_iff, ap, subst, ◌≡◌, refl, true, false, ◌||◌,
  List, [], ◌∷◌, map, All, length, eqb, eq_refl, arith,
}
use yokai.Bkc.Types.{Config, MultiDeviceDeployment, MultiDeviceRole}
use yokai.Checks.{passed, checked, ended, answered}
use yokai.Deployments.Errors.{Result, ok}
use yokai.Deployments.Types.{Binding, CreateRequest}
use yokai.Deployments.Env.{Env}
use yokai.Deployments.Members.{contains}
use yokai.Deployments.Members.Evidence.{IsDistinct}
use yokai.Deployments.Engine.Request.{
  Seen, nothing_seen, check_path, find_config, plan_of, check_snapshot, check_credentials,
  usable_ip, check_fabric, check_service, check_binding, check_bindings, has_roles, check_roles,
  validate_create_request,
}

ok_plan :
    {A B : Type 0} {a a' : A} {b b' : B}
    → ◌≡◌ {A = Result (A × B)} (ok (a, b)) (ok (a', b'))
    → b ≡ b'
ok_plan h = cc

-- Each rank has a device and a role of its own, and every role of the recipe has a rank.
pub record IsSpread (md : MultiDeviceDeployment) (bindings : List Binding) : Type 0 where
  pub one_rank_per_role : length bindings ≡ length md.roles
  pub distinct_devices : IsDistinct (map (λ b. b.device_id) bindings)
  pub distinct_roles : IsDistinct (map (λ b. b.role) bindings)
  pub every_role : All (λ r. contains r.name (map (λ b. b.role) bindings) ≡ true) md.roles

-- No value is known, or comes twice.
abbrev IsFresh : (Binding → String) → List String → List Binding → Type 0
IsFresh f known [] = Unit
IsFresh f known (b ∷ bs) = (contains (f b) known ≡ false) × IsFresh f (f b ∷ known) bs

fresh-unknown :
    (f : Binding → String) (v : String) (known : List String) (bs : List Binding)
    → IsFresh f known bs
    → contains v known ≡ true
    → contains v (map f bs) ≡ false
unfolding contains
fresh-unknown f v known [] h k = refl
fresh-unknown f v known (b ∷ bs) (n, h) k =
    ground (arith, fresh-unknown f v (f b ∷ known) bs h, eq_iff (f b) v)

fresh-IsDistinct :
    (f : Binding → String) (known : List String) (bs : List Binding)
    → IsFresh f known bs
    → IsDistinct (map f bs)
unfolding contains
fresh-IsDistinct f known [] h = tt
fresh-IsDistinct f known (b ∷ bs) (n, h) = (
  fresh-unknown f (f b) (f b ∷ known) bs h (ground (arith, eq_refl (f b))),
  fresh-IsDistinct f (f b ∷ known) bs h,
)

module _ (env : Env) (md : MultiDeviceDeployment) where
  -- What one round of the loop checks, and what it adds.
  check_binding-added :
      (seen out : Seen) (b : Binding)
      → check_binding env md seen b ≡ ok out
      → (contains b.role seen.roles ≡ false)
        × (contains b.device_id seen.devices ≡ false)
        × (out.roles ≡ b.role ∷ seen.roles)
        × (out.devices ≡ b.device_id ∷ seen.devices)
  unfolding check_binding
  check_binding-added seen out b h =
      let (named, h1) =
        passed (b.role == "" || b.device_id == "" || b.fabric_address == "")
          "every binding requires role, device_id, and fabric_address" _ out h in
      let (role, h2) = passed (contains b.role seen.roles) "duplicate role" _ out h1 in
      let (device, h3) =
        passed (contains b.device_id seen.devices) "role bindings must use two distinct devices" _
          out h2 in
      let (ip, parsed, h4) = answered (usable_ip (env.parse_ip b.fabric_address)) _ out h3 in
      let (address, h5) =
        passed (contains ip.text seen.addresses) "role bindings must use distinct fabric addresses"
          _ out h4 in
      let h6 = checked (check_fabric md b) _ out h5 in
      let (service, endpoint, h7) =
        answered (check_service env md seen.service_address b) _ out h6 in
      (role, device, ground (arith, h7), ground (arith, h7))

  -- The first round, and the others.
  check_bindings-next :
      (seen out : Seen) (b : Binding) (bs : List Binding)
      → check_bindings env md seen (b ∷ bs) ≡ ok out
      → (next : Seen) × (check_binding env md seen b ≡ ok next)
        × (check_bindings env md next bs ≡ ok out)
  unfolding check_bindings
  check_bindings-next seen out b bs h = answered _ _ out h

  check_bindings-IsFresh :
      (seen out : Seen) (bs : List Binding)
      → check_bindings env md seen bs ≡ ok out
      → IsFresh (λ b. b.role) seen.roles bs × IsFresh (λ b. b.device_id) seen.devices bs
  check_bindings-IsFresh seen out [] h = (tt, tt)
  check_bindings-IsFresh seen out (b ∷ bs) h =
      let (next, first, rest) = check_bindings-next seen out b bs h in
      let (role, device, roles, devices) = check_binding-added seen next b first in
      let (fresh_roles, fresh_devices) = check_bindings-IsFresh next out bs rest in
      (
        (role, subst (λ known. IsFresh (λ b'. b'.role) known bs) roles fresh_roles),
        (device, subst (λ known. IsFresh (λ b'. b'.device_id) known bs) devices fresh_devices),
      )

  -- Every role that the loop has met is that of a binding.
  check_bindings-met :
      (seen out : Seen) (bs : List Binding) (v : String)
      → check_bindings env md seen bs ≡ ok out
      → contains v out.roles ≡ true
      → (contains v (map (λ b. b.role) bs) || contains v seen.roles) ≡ true
  unfolding contains check_bindings
  check_bindings-met seen out [] v h k = grind arith
  check_bindings-met seen out (b ∷ bs) v h k =
      let (next, first, rest) = check_bindings-next seen out b bs h in
      let (role, device, roles, devices) = check_binding-added seen next b first in
      let met = check_bindings-met next out bs v rest k in
      let split : contains v next.roles ≡ contains v (b.role ∷ seen.roles) =
        ap (contains v) roles in
      ground (arith, met, split)

  has_roles-every :
      (met known : List String) (roles : List MultiDeviceRole)
      → ((v : String) → contains v met ≡ true → contains v known ≡ true)
      → has_roles met roles ≡ true
      → All (λ r. contains r.name known ≡ true) roles
  unfolding has_roles
  has_roles-every met known [] f h = tt
  has_roles-every met known (r ∷ rs) f h =
      (f r.name (ground (arith, h)), has_roles-every met known rs f (ground (arith, h)))

  same_number : (m n : ℕ) → not (eqb m n) ≡ false → m ≡ n
  same_number m n h = ground arith

  check_roles-IsSpread :
      (bindings : List Binding) → check_roles env md bindings ≡ ok tt → IsSpread md bindings
  unfolding check_roles contains
  check_roles-IsSpread bindings h =
      let (number, h1) =
        passed (not (eqb (length bindings) (length md.roles)))
          "one binding for each role is required" _ tt h in
      let (seen, loop, h2) = answered (check_bindings env md nothing_seen bindings) _ tt h1 in
      let (service, h3) =
        passed (contains seen.service_address seen.addresses)
          "head service_address must be distinct from the private fabric addresses" _ tt h2 in
      let every : has_roles seen.roles md.roles ≡ true = grind arith in
      let (roles, devices) = check_bindings-IsFresh nothing_seen seen bindings loop in
      let met : (v : String)
          → contains v seen.roles ≡ true
          → contains v (map (λ b. b.role) bindings) ≡ true =
        λ v k. ground (arith, check_bindings-met nothing_seen seen bindings v loop k) in
      record {
        one_rank_per_role = same_number (length bindings) (length md.roles) number;
        distinct_devices = fresh-IsDistinct (λ b. b.device_id) [] bindings devices;
        distinct_roles = fresh-IsDistinct (λ b. b.role) [] bindings roles;
        every_role = has_roles-every seen.roles _ md.roles met every;
      }

-- A request that is found valid for a recipe binds each role of the recipe to a device: there are
-- as many bindings as roles, every role is bound, and no device and no role is bound twice.
pub validate_create_request-IsSpread :
    (env : Env) (r : CreateRequest) (cfg : Config) (md : MultiDeviceDeployment)
    → validate_create_request env r ≡ ok (cfg, md)
    → IsSpread md r.bindings
unfolding validate_create_request
validate_create_request-IsSpread env r cfg md h =
    let (id, h1) = passed (r.bkc_id == "") "bkc_id is required" _ _ h in
    let (key, h2) =
      passed (r.idempotency_key == "" || ltb 128 (len r.idempotency_key))
        "idempotency_key must be 1-128 characters" _ _ h1 in
    let (plain_key, h3) =
      passed (any_char is_control r.idempotency_key) "idempotency_key contains control characters" _
        _ h2 in
    let h4 = checked (check_path env r.local_model_path) _ _ h3 in
    let (cfg', found, h5) = answered (find_config (lookup_id env.catalog r.bkc_id)) _ _ h4 in
    let (md', planned, h6) = answered (plan_of env cfg') _ _ h5 in
    let h7 = checked (check_snapshot env md' r.local_model_path) _ _ h6 in
    let h8 = checked (check_credentials cfg' r) _ _ h7 in
    let (done, roles, h9) = ended (check_roles env md' r.bindings) _ _ h8 in
    subst (λ md''. IsSpread md'' r.bindings) (ok_plan h9)
      (check_roles-IsSpread env md' r.bindings roles)
