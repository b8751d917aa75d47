-- ===== src/Deployments/Engine/Request.antt =====
-- The request of a create: normalizeRequest, validateCreateRequest, requestHash and
-- orderedBindings.
use Prim.Native.Char.{Char, code}
use Prim.Native.String.{len}
use yokai.Prelude.{
  ℤ, pos, int_eq, int_lt, String, ◌==◌, trim_space, any_char, is_control, starts_with, text_lt,
  Bool, true, false, not, ◌&&◌, ◌||◌, Option, none, some, List, [], ◌∷◌, if◌then◌else◌, map, ltb,
  leb, eqb, is_none, length,
}
use yokai.Bkc.Types.{
  Config, MultiDeviceDeployment, MultiDeviceRole, head_role, workload_tensor_fold,
}
use yokai.Bkc.Catalog.{lookup_id}
use yokai.Bkc.MultiDevice.{validate_multi_device_recipe}
use yokai.Checks.{complain, ◌>>◌, ◌>>=◌, refuse_if}
use yokai.Deployments.Errors.{Err, Result, ok, err}
use yokai.Deployments.Types.{Binding, CreateRequest}
use yokai.Deployments.Env.{Env, IpAddress}
use yokai.Deployments.Members.{contains}
use yokai.Deployments.Engine.Readiness.{validate_api_key}

trim_binding : Binding → Binding
trim_binding b = record b {
  role = trim_space b.role;
  device_id = trim_space b.device_id;
  fabric_address = trim_space b.fabric_address;
  fabric_interface = trim_space b.fabric_interface;
  fabric_hca = trim_space b.fabric_hca;
  service_address = trim_space b.service_address;
  observed_container_id = trim_space b.observed_container_id;
}

-- normalizeRequest
unfoldable pub normalize_request : CreateRequest → CreateRequest
unfolding trim_binding
normalize_request r = record r {
  bkc_id = trim_space r.bkc_id;
  idempotency_key = trim_space r.idempotency_key;
  local_model_path = trim_space r.local_model_path;
  bindings = map trim_binding r.bindings;
}

-- What the loop over the bindings has met so far: the maps `roles`, `devices` and `addresses`,
-- and the head's service address.
pub record Seen : Type 0 where
  pub roles : List String
  pub devices : List String
  pub addresses : List String
  pub service_address : String

unfoldable pub usable_ip : Option IpAddress → Result IpAddress
usable_ip none = complain "invalid address"
usable_ip (some ip) =
    if ip.is_unspecified || ip.is_loopback || ip.is_multicast
    then complain "invalid address"
    else ok ip

fabric_char : Char → Bool
fabric_char ch =
    let c = code ch in
    (leb 65 c && leb c 90)
    || (leb 97 c && leb c 122)
    || (leb 48 c && leb c 57)
    || eqb c 95
    || eqb c 46
    || eqb c 58
    || eqb c 45

-- fabricNamePattern: 1 to 64 letters, digits, `_`, `.`, `:` or `-`.
unfoldable pub fabric_name : String → Bool
unfolding fabric_char
fabric_name s = not (s == "") && leb (len s) 64 && not (any_char (λ c. not (fabric_char c)) s)

valid_gid : Option ℤ → Bool
valid_gid none = false
valid_gid (some g) = not (int_lt g (pos 0)) && not (int_lt (pos 255) g)

-- The fabric settings of one binding.
unfoldable pub check_fabric : MultiDeviceDeployment → Binding → Result (Unit {0})
unfolding valid_gid
check_fabric md b =
    if md.requires_fabric_config
    then (do
      refuse_if
          (not (fabric_name b.fabric_interface)
            || not (fabric_name b.fabric_hca)
            || starts_with b.fabric_hca "=")
          "role requires valid fabric_interface and fabric_hca names"
      refuse_if (not (valid_gid b.fabric_gid_index)) "fabric_gid_index must be between 0 and 255")
    else refuse_if
        (not (b.fabric_interface == "")
          || not (b.fabric_hca == "")
          || not (is_none b.fabric_gid_index))
        "BKC does not accept explicit fabric interface settings"

-- The service endpoint of one binding: the service address so far, or the head's.
unfoldable pub check_service : Env → MultiDeviceDeployment → String → Binding → Result String
check_service env md so_far b =
    if b.role == head_role
    then (do
      ip ← usable_ip (env.parse_ip b.service_address)
      refuse_if (not (int_eq b.service_port md.service_port))
          "head service_port must be that of the BKC"
      ok ip.text)
    else do
      refuse_if (not (b.service_address == "") || not (int_eq b.service_port (pos 0)))
          "only the head binding may define a service endpoint"
      ok so_far

-- One round of the loop over the bindings.
unfoldable pub check_binding : Env → MultiDeviceDeployment → Seen → Binding → Result Seen
check_binding env md seen b = do
  refuse_if (b.role == "" || b.device_id == "" || b.fabric_address == "")
      "every binding requires role, device_id, and fabric_address"
  refuse_if (contains b.role seen.roles) "duplicate role"
  refuse_if (contains b.device_id seen.devices) "role bindings must use two distinct devices"
  ip ← usable_ip (env.parse_ip b.fabric_address)
  refuse_if (contains ip.text seen.addresses) "role bindings must use distinct fabric addresses"
  check_fabric md b
  service ← check_service env md seen.service_address b
  ok (record {
    roles = b.role ∷ seen.roles;
    devices = b.device_id ∷ seen.devices;
    addresses = ip.text ∷ seen.addresses;
    service_address = service;
  })

unfoldable pub check_bindings : Env → MultiDeviceDeployment → Seen → List Binding → Result Seen
check_bindings env md seen [] = ok seen
check_bindings env md seen (b ∷ bs) = do
  seen' ← check_binding env md seen b
  check_bindings env md seen' bs

unfoldable pub has_roles : List String → List MultiDeviceRole → Bool
has_roles roles [] = true
has_roles roles (r ∷ rs) = contains r.name roles && has_roles roles rs

abbrev pub nothing_seen : Seen
nothing_seen = record { roles = []; devices = []; addresses = []; service_address = "" }

-- The checks of local_model_path: its form, and for a recipe that needs it the standard cache.
unfoldable pub check_path : Env → String → Result (Unit {0})
check_path env path =
    if path == ""
    then ok tt
    else let clean = env.clean_path path in
      refuse_if (not (env.is_abs clean) || clean == "/" || not (clean == path))
        "local_model_path must be an explicit clean absolute path"

unfoldable pub check_snapshot : Env → MultiDeviceDeployment → String → Result (Unit {0})
check_snapshot env md path =
    if md.requires_local_model
    then (do
      refuse_if (path == "") "BKC requires local_model_path for the exact pre-staged snapshot"
      refuse_if
          (not (env.base_name path == md.model_revision)
            || not (env.base_name (env.dir_name path) == "snapshots")
            || not (
                env.base_name (env.dir_name (env.dir_name path))
                == "models--nvidia--Qwen3.8-Flash-Next-NVFP4"))
          "local_model_path must be the standard Hugging Face cache snapshot")
    else ok tt

unfoldable pub check_credentials : Config → CreateRequest → Result (Unit {0})
check_credentials cfg r =
    if cfg.workload == workload_tensor_fold
    then (do
      refuse_if (not (r.api_key == "")) "api_key is not supported by the pinned TensorFold recipe"
      refuse_if (not (r.local_model_path == ""))
          "local_model_path is not supported by the pinned TensorFold recipe; it owns exact offline snapshot paths")
    else elim (validate_api_key r.api_key) [ none ↦ ok tt | some e ↦ err e ]

-- From the number of bindings to the missing roles.
unfoldable pub check_roles : Env → MultiDeviceDeployment → List Binding → Result (Unit {0})
check_roles env md bindings = do
  refuse_if (not (eqb (length bindings) (length md.roles))) "one binding for each role is required"
  seen ← check_bindings env md nothing_seen bindings
  refuse_if (contains seen.service_address seen.addresses)
      "head service_address must be distinct from the private fabric addresses"
  refuse_if (not (has_roles seen.roles md.roles)) "missing exact role"

unfoldable pub find_config : Option Config → Result Config
find_config none = complain "unknown BKC"
find_config (some cfg) = ok cfg

-- ValidateMultiDeviceRecipe, and the plan that it has then found.
unfoldable pub plan_of : Env → Config → Result MultiDeviceDeployment
plan_of env cfg = elim (validate_multi_device_recipe env.pinned cfg) [
  | some e ↦ complain e
  | none ↦ elim cfg.multi_device [ none ↦ err Err.panicked | some md ↦ ok md ]
]

-- validateCreateRequest. The plan is returned beside its config.
unfoldable pub validate_create_request :
    Env → CreateRequest → Result (Config × MultiDeviceDeployment)
validate_create_request env r = do
  refuse_if (r.bkc_id == "") "bkc_id is required"
  refuse_if (r.idempotency_key == "" || ltb 128 (len r.idempotency_key))
      "idempotency_key must be 1-128 characters"
  refuse_if (any_char is_control r.idempotency_key) "idempotency_key contains control characters"
  check_path env r.local_model_path
  cfg ← find_config (lookup_id env.catalog r.bkc_id)
  md ← plan_of env cfg
  check_snapshot env md r.local_model_path
  check_credentials cfg r
  check_roles env md r.bindings
  ok (cfg, md)

insert_binding : Binding → List Binding → List Binding
insert_binding b [] = b ∷ []
insert_binding b (c ∷ rest) =
    if text_lt c.role b.role then c ∷ insert_binding b rest else b ∷ c ∷ rest

sort_bindings : List Binding → List Binding
unfolding insert_binding
sort_bindings [] = []
sort_bindings (b ∷ rest) = insert_binding b (sort_bindings rest)

-- requestHash: the API key is left out, and the bindings are sorted by role.
unfoldable pub request_hash : Env → CreateRequest → Result String
unfolding sort_bindings
request_hash env r = env.hash (record {
  bkc_id = r.bkc_id;
  idempotency_key = r.idempotency_key;
  bindings = sort_bindings r.bindings;
  local_model_path = r.local_model_path;
})

abbrev pub no_binding : Binding
no_binding = record {
  role = "";
  device_id = "";
  fabric_address = "";
  fabric_interface = "";
  fabric_hca = "";
  fabric_gid_index = none;
  service_address = "";
  service_port = pos 0;
  observed_container_id = "";
}

-- bindingByRole
unfoldable pub binding_by_role : List Binding → String → Binding
binding_by_role [] role = no_binding
binding_by_role (b ∷ bs) role = if b.role == role then b else binding_by_role bs role

last_binding : Binding → List Binding → String → Binding
last_binding found [] role = found
last_binding found (b ∷ bs) role = last_binding (if b.role == role then b else found) bs role

-- orderedBindings: a later binding of a role replaces an earlier one in the map.
unfoldable pub ordered_bindings : List Binding → List MultiDeviceRole → List Binding
unfolding last_binding
ordered_bindings bindings [] = []
ordered_bindings bindings (r ∷ rs) =
    last_binding no_binding bindings r.name ∷ ordered_bindings bindings rs
