-- ===== src/Deployments/Engine/Candidate.antt =====
-- buildCandidate and the provenance that a deployment records. A map is an association list
-- with one entry for a key.
use yokai.Prelude.{
  ℤ, negsuc, String, ◌==◌, concat, join, trim_space, trim_prefix, cut_after, replace_all,
  contains_text, itoa, not, Option, none, some, List, [], ◌∷◌, ◌++◌, if◌then◌else◌, map, is_empty,
}
use yokai.Bkc.Types.{
  Config, MultiDeviceDeployment, MultiDeviceRole, MultiDeviceRuntimePatch, RuntimeOptions,
  head_role, worker_role, driver_head_recipe,
}
use yokai.Deployments.Types.{
  Binding, CreateRequest, Deployment, Candidate, RecipeCandidate, RecipeProvenance,
  RuntimePatchProvenance, Member, ObservedContainer, Ownership,
}
use yokai.Deployments.Env.{Env}
use yokai.Deployments.Engine.Readiness.{fixed_local_model_path}
use yokai.Deployments.Engine.Request.{binding_by_role}

-- roleRank; -1 for a role that the recipe lacks.
unfoldable pub role_rank : List MultiDeviceRole → String → ℤ
role_rank [] role = negsuc 0
role_rank (r ∷ rs) role = if r.name == role then r.rank else role_rank rs role

-- m[k] = v
abbrev pub set_key : String → String → List (String × String) → List (String × String)
set_key key value [] = (key, value) ∷ []
set_key key value ((other, old) ∷ rest) =
    if other == key then (other, value) ∷ rest else (other, old) ∷ set_key key value rest

role_args : String → List (String × List String) → List String
role_args role [] = []
role_args role ((r, args) ∷ rest) = if r == role then args else role_args role rest

abbrev head_placeholder : String
head_placeholder = "{HEAD_FABRIC_ADDRESS}"

-- renderCandidateArgs
unfoldable pub render_candidate_args : List String → String → String → List String
render_candidate_args [] head service = []
render_candidate_args (a ∷ rest) head service =
    replace_all (replace_all a head_placeholder head) "{SERVICE_ADDRESS}" service
    ∷ render_candidate_args rest head service

-- recipeLaunchOrder
unfoldable pub recipe_launch_order : MultiDeviceDeployment → List String
recipe_launch_order md =
    if not (is_empty md.launch_order) then md.launch_order else map (λ r. r.name) md.roles

patch_provenance : MultiDeviceRuntimePatch → RuntimePatchProvenance
patch_provenance p = record {
  label = p.label;
  source_path = p.source_path;
  original_sha256 = p.original_sha256;
  patched_sha256 = p.patched_sha256;
}

-- runtimePatchProvenance
unfoldable pub runtime_patch_provenance : MultiDeviceDeployment → List RuntimePatchProvenance
unfolding patch_provenance
runtime_patch_provenance md = map patch_provenance md.runtime_patches

-- recipeProvenance
unfoldable pub recipe_provenance : MultiDeviceDeployment → Option RecipeProvenance
recipe_provenance md = elim md.recipe [
  | none ↦ none
  | some r ↦ some (record {
    repository = r.repository;
    commit = r.commit;
    image_digest = r.image_digest;
    model_revision = md.model_revision;
    drafter_revision = r.drafter_revision;
    context_tokens = r.context_tokens;
    parallel_requests = r.parallel_requests;
    kv_cache = r.kv_cache;
    drafter = r.drafter;
  })
]

-- pinnedImageDigest
unfoldable pub pinned_image_digest : String → String
pinned_image_digest image = elim (cut_after image "@sha256:") [ none ↦ "" | some d ↦ d ]

-- The image's reference behind the first `@`, or all of it.
after_at : String → String
after_at image = elim (cut_after image "@") [ none ↦ image | some rest ↦ rest ]

-- RuntimePatchSetLabel
patch_set_label : List MultiDeviceRuntimePatch → String
patch_set_label patches = join "+" (map (λ p. p.label) patches)

service_labels : Config → Binding → List (String × String) → List (String × String)
service_labels cfg b labels =
    if b.role == head_role
    then set_key "io.yokai.service.port" cfg.port
        (set_key "io.yokai.service.address" b.service_address labels)
    else labels

revision_labels : MultiDeviceDeployment → List (String × String) → List (String × String)
unfolding patch_set_label
revision_labels md labels =
    let sourced =
      if not (md.source_revision == "")
      then set_key "io.yokai.source.revision" md.source_revision labels
      else labels in
    if not (is_empty md.runtime_patches)
    then set_key "io.yokai.runtime.patch" (patch_set_label md.runtime_patches) sourced
    else sourced

candidate_labels : Deployment → Config → MultiDeviceDeployment → Binding → List (String × String)
unfolding service_labels revision_labels after_at
candidate_labels d cfg md b = service_labels cfg b (
    revision_labels md (
      ("io.yokai.managed", "true")
      ∷ ("io.yokai.ownership", "managed")
      ∷ ("io.yokai.deployment.id", d.id)
      ∷ ("io.yokai.deployment.generation", itoa d.generation)
      ∷ ("io.yokai.deployment.role", b.role)
      ∷ ("io.yokai.bkc.id", cfg.id)
      ∷ ("io.yokai.model.revision", md.model_revision)
      ∷ ("io.yokai.image.digest", trim_prefix (after_at cfg.image) "sha256:")
      ∷ []))

fabric_env : MultiDeviceDeployment → Binding → List (String × String) → List (String × String)
fabric_env md b env =
    if md.requires_fabric_config
    then set_key "VLLM_HOST_IP" b.fabric_address (
        set_key "NCCL_IB_GID_INDEX" (elim b.fabric_gid_index [ none ↦ "" | some g ↦ itoa g ])
          (set_key "NCCL_IB_HCA" (concat ("=" ∷ b.fabric_hca ∷ [])) (
            set_key "TP_SOCKET_IFNAME" b.fabric_interface (
              set_key "NCCL_SOCKET_IFNAME" b.fabric_interface
                (set_key "GLOO_SOCKET_IFNAME" b.fabric_interface env)))))
    else env

-- ExtraArgs with the placeholders filled in, and the bind address where there are no common args.
extra_args : Config → MultiDeviceDeployment → Binding → ℤ → String → String
extra_args cfg md b rank head =
    let filled =
      replace_all (replace_all cfg.extra_args "{ROLE_RANK}" (itoa rank)) head_placeholder head in
    let address = if b.role == head_role then b.service_address else b.fabric_address in
    if is_empty md.common_args
    then trim_space
        (concat (filled ∷ " --host " ∷ address ∷ " --port " ∷ itoa md.service_port ∷ []))
    else filled

structured_args : MultiDeviceDeployment → CreateRequest → Binding → String → List String
unfolding role_args
structured_args md r b head =
    let common = render_candidate_args md.common_args head b.service_address in
    let own = render_candidate_args (role_args b.role md.role_args) head b.service_address in
    let key = if b.role == head_role then concat ("--api-key=" ∷ r.api_key ∷ []) ∷ [] else [] in
    common ++ (own ++ key)

abbrev qwen_id : String
qwen_id = "qwen3-8-flash-next-nvfp4-dual-gb10"

abbrev qwen_root : String
qwen_root = "/models/yokai-qwen38-repository"

candidate_model : Config → CreateRequest → String → String
candidate_model cfg r qwen_revision =
    if cfg.id == qwen_id
    then concat (qwen_root ∷ "/snapshots/" ∷ qwen_revision ∷ [])
    else if not (r.local_model_path == "")
    then fixed_local_model_path
    else cfg.model_id

candidate_volumes : Env → Config → CreateRequest → List (String × String)
candidate_volumes env cfg r =
    if cfg.id == qwen_id
    then set_key (env.dir_name (env.dir_name r.local_model_path)) (concat (qwen_root ∷ ":ro" ∷ []))
        cfg.volumes
    else if not (r.local_model_path == "")
    then set_key r.local_model_path (concat (fixed_local_model_path ∷ ":ro" ∷ [])) cfg.volumes
    else cfg.volumes

candidate_runtime : Config → MultiDeviceDeployment → RuntimeOptions
candidate_runtime cfg md = record cfg.runtime {
  shm_size = if md.requires_fabric_config then "" else "32g";
  ulimits = ("memlock", "-1") ∷ ("stack", "67108864") ∷ [];
  restart_policy = "no";
}

recipe_candidate : CreateRequest → MultiDeviceDeployment → String → String → RecipeCandidate
recipe_candidate r md repository commit =
    let worker = binding_by_role r.bindings worker_role in
    let head = binding_by_role r.bindings head_role in
    record {
      repository = repository;
      commit = commit;
      worker_device_id = worker.device_id;
      worker_address = worker.fabric_address;
      head_fabric_address = head.fabric_address;
      service_address = head.service_address;
      service_port = md.service_port;
    }

-- A recipe that the head runs gets only typed inputs.
as_head_recipe : CreateRequest → MultiDeviceDeployment → Candidate → Candidate
unfolding recipe_candidate
as_head_recipe r md c = record c {
  driver = driver_head_recipe;
  model = "GLM-5.3-Flash-EXL3";
  extra_args = "";
  args = [];
  env = [];
  volumes = [];
  network_mode = "";
  devices = [];
  cap_add = [];
  gpu_ids = "";
  recipe = elim md.recipe [
    | none ↦ none
    | some p ↦ some (recipe_candidate r md p.repository p.commit)
  ];
}

-- The deterministic name of a rank's container.
unfoldable pub candidate_name : Deployment → String → String
candidate_name d role =
    concat ("yokai-deployment-" ∷ d.id ∷ "-g" ∷ itoa d.generation ∷ "-" ∷ role ∷ [])

-- buildCandidate
unfoldable pub build_candidate :
    Env → Deployment → CreateRequest → Config → MultiDeviceDeployment → Binding → String → Candidate
unfolding candidate_labels fabric_env extra_args structured_args candidate_model candidate_volumes
    candidate_runtime as_head_recipe
build_candidate env d r cfg md b head_address =
    let rank = role_rank md.roles b.role in
    let head =
      if contains_text head_address ":"
      then concat ("[" ∷ head_address ∷ "]" ∷ [])
      else head_address in
    let plain : Candidate = record {
      role = b.role;
      rank = rank;
      name = candidate_name d b.role;
      image = cfg.image;
      model = candidate_model cfg r "fc694b54fb0174e0913e6adf86691ef85a4ead47";
      port = cfg.port;
      extra_args = extra_args cfg md b rank head;
      args = structured_args md r b head;
      env = fabric_env md b cfg.env;
      volumes = candidate_volumes env cfg r;
      runtime = candidate_runtime cfg md;
      labels = candidate_labels d cfg md b;
      network_mode = "host";
      devices = "/dev/infiniband:/dev/infiniband" ∷ [];
      cap_add = (if md.requires_fabric_config then "SYS_NICE" else "IPC_LOCK") ∷ [];
      gpu_ids = "0";
      driver = "";
      recipe = none;
    } in
    if md.driver == driver_head_recipe then as_head_recipe r md plain else plain

-- plannedMember
unfoldable pub planned_member : Binding → Candidate → ℤ → Member
planned_member b c generation = record {
  role = b.role;
  rank = c.rank;
  device_id = b.device_id;
  fabric_address = b.fabric_address;
  service_address = b.service_address;
  service_port = b.service_port;
  container_id = c.name;
  name = c.name;
  status = "planned";
  ownership = Ownership.managed;
  generation = generation;
}

-- memberFromObserved
unfoldable pub member_from_observed : Binding → ℤ → ObservedContainer → Member
member_from_observed b rank o = record {
  role = b.role;
  rank = rank;
  device_id = b.device_id;
  fabric_address = b.fabric_address;
  service_address = b.service_address;
  service_port = b.service_port;
  container_id = o.id;
  name = o.name;
  status = o.status;
  ownership = o.ownership;
  generation = o.generation;
}
