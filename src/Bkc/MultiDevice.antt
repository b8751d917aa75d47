-- ===== src/Bkc/MultiDevice.antt =====
-- ValidateMultiDeviceRecipe of internal/bkc/multi_device.go, up to the provenance that it pins for
-- the GLM and the Qwen recipe: `pinned` makes those checks.
use yokai.Bkc.Qwen.{qwen_id}
use yokai.Prelude.{
  ℕ, ℤ, pos, int_eq, int_lt, String, ◌==◌, itoa, trim_space, Bool, true, false, not, ◌&&◌, ◌||◌,
  Option, none, some, List, [], ◌∷◌, if◌then◌else◌, length, eqb, is_empty,
}
use yokai.Bkc.Types.{
  Config, MultiDeviceDeployment, MultiDeviceRole, MultiDeviceRecipe, head_role, worker_role,
  driver_head_recipe, workload_tensor_fold,
}

-- The ids of the two recipes whose provenance is pinned flag by flag.
abbrev glm_id : String
glm_id = "glm-5-3-flash-nvfp4-dual-gb10"

member : String → List String → Bool
member v [] = false
member v (x ∷ xs) = x == v || member v xs

all_distinct : List String → List String → Bool
unfolding member
all_distinct seen [] = true
all_distinct seen (x ∷ xs) = not (member x seen) && all_distinct (x ∷ seen) xs

all_in : List String → List String → Bool
unfolding member
all_in l [] = true
all_in l (x ∷ xs) = member x l && all_in l xs

-- sameRoleSet
unfoldable pub same_role_set : List String → List String → Bool
unfolding all_distinct all_in
same_role_set left right =
    eqb (length left) (length right) && all_distinct [] left && all_in left right

-- equalStrings
unfoldable pub equal_strings : List String → List String → Bool
equal_strings [] [] = true
equal_strings [] (y ∷ ys) = false
equal_strings (x ∷ xs) [] = false
equal_strings (x ∷ xs) (y ∷ ys) = x == y && equal_strings xs ys

abbrev is_role : MultiDeviceRole → String → ℕ → Bool → Bool
is_role r name rank api =
    r.name == name && int_eq r.rank (pos rank) && (if api then r.api else not r.api)

-- Exactly the head at rank 0, with the API, and then the worker at rank 1.
unfoldable pub head_and_worker : List MultiDeviceRole → Bool
head_and_worker (a ∷ b ∷ []) = is_role a head_role 0 true && is_role b worker_role 1 false
head_and_worker [] = false
head_and_worker (a ∷ []) = false
head_and_worker (a ∷ b ∷ c ∷ r) = false

abbrev one_gpu_nodes : MultiDeviceDeployment → Bool
one_gpu_nodes md =
    int_eq md.world_size (pos 2)
    && int_eq md.tensor_parallel_size (pos 2)
    && int_eq md.gpus_per_node (pos 1)

abbrev valid_port : ℤ → Bool
valid_port p = not (int_lt p (pos 1)) && not (int_lt (pos 65535) p)

abbrev pub tensor_fold_capabilities : List String
tensor_fold_capabilities =
    "deployments.v1" ∷ "deployments.preflight.v1" ∷ "deployments.recipe.tensorfold.v1"
    ∷ "deployments.recipe.reservations.v1" ∷ "deployments.recipe.logs.v1" ∷ []

-- The four checks of validateTensorFoldRecipe on the recipe itself.
tensor_fold_recipe : Option MultiDeviceRecipe → Option String
tensor_fold_recipe none = some "immutable TensorFold recipe source mismatch"
tensor_fold_recipe (some r) =
    if not (
      r.repository == "https://github.com/MiaAI-Lab/GLM-5.3-Flash-EXL3-2x-DGX-Sparks-TensorFold.git"
      && r.commit == "cf28cc4f8038be322cdeda220c6f1c8ace8f27d1"
      && r.image_tag == "v0.6.0-5e01f1bb74d8"
      && r.image_digest == "14f15591eae5d6a540f09218d3852068962fe5381371bbfefe0e9194cd834529")
    then some "immutable TensorFold recipe source mismatch"
    else if not (
        r.drafter_model == "incoai/GLM-5.3-Flash-DFlash2"
        && r.drafter_revision == "bf582e4eacc1810f76656d1811693ff6c6737d2a")
    then some "immutable DFlash2 provenance mismatch"
    else if not (
        int_eq r.context_tokens (pos 1048576)
        && int_eq r.parallel_requests (pos 4)
        && r.kv_cache == "fp8"
        && r.dense == "q4"
        && r.drafter == "dflash2"
        && r.vision)
    then some "TensorFold serving policy drifted"
    else if not (
        r.memory_reserve_gib == "14.5"
        && r.kv_pool_gib == "12.5"
        && int_eq r.nccl_rails (pos 1)
        && int_eq r.readiness_timeout_sec (pos 14400))
    then some "TensorFold memory, rail, or readiness policy drifted"
    else none

no_inputs : Config → Option String
no_inputs cfg =
    if not (trim_space cfg.extra_args == "" && is_empty cfg.env && is_empty cfg.volumes)
    then some "must leave execution inputs to the pinned upstream recipe"
    else none

-- validateTensorFoldRecipe; a text is the complaint, without the id.
unfoldable pub validate_tensor_fold_recipe : Config → MultiDeviceDeployment → Option String
unfolding tensor_fold_recipe no_inputs head_and_worker equal_strings
validate_tensor_fold_recipe cfg md =
    if not (
      cfg.id == "glm-5-3-flash-exl3-tensorfold-dual-gb10"
      && cfg.model_id == "Mia-AiLab/GLM-5.3-Flash-EXL3-4bpw-TensorFold"
      && cfg.image
        == "ghcr.io/miaai-lab/glm-5.3-flash-exl3-2x-dgx-sparks-tensorfold@sha256:14f15591eae5d6a540f09218d3852068962fe5381371bbfefe0e9194cd834529")
    then some "immutable TensorFold provenance mismatch"
    else if not (md.driver == driver_head_recipe && md.backend == "tensorfold_recipe")
    then some "requires the TensorFold head-recipe driver"
    else if not (one_gpu_nodes md)
    then some "requires two one-GPU nodes with TP=2"
    else if not (
        int_eq md.rendezvous_port (pos 29551)
        && int_eq md.service_port (pos 8888)
        && cfg.port == "8888")
    then some "TensorFold ports drifted"
    else if not (
        md.model_revision == "078455ffe6472f9a52fbc1139f58b9db2881b25c"
        && md.served_model_name == "GLM-5.3-Flash-EXL3"
        && is_empty md.runtime_patches)
    then some "TensorFold model provenance drifted"
    else if not (equal_strings md.launch_order (worker_role ∷ head_role ∷ []))
    then some "must reserve the worker before launching the head recipe"
    else if not (md.source_revision == "")
        || md.requires_local_model
        || md.requires_fabric_config
        || not (is_empty md.common_args)
        || not (is_empty md.role_args)
    then some "must leave execution inputs to the pinned upstream recipe"
    else if not (head_and_worker md.roles)
    then some "must define ordered head and worker roles"
    else if not (equal_strings md.required_capabilities tensor_fold_capabilities)
    then some "TensorFold capabilities mismatch"
    else elim (tensor_fold_recipe md.recipe) [ some e ↦ some e | none ↦ no_inputs cfg ]

module _ (pinned : Config → Option String) where
  pinned_checks : Config → MultiDeviceDeployment → Option String
  pinned_checks cfg md =
      if cfg.id == qwen_id
      then pinned cfg
      else if not (cfg.id == glm_id)
      then (if not (is_empty md.runtime_patches)
          then some "must not declare the GLM runtime patches"
          else none)
      else pinned cfg

  container_checks : Config → MultiDeviceDeployment → Option String
  unfolding pinned_checks head_and_worker same_role_set
  container_checks cfg md =
      if not (cfg.workload == "sglang" && md.backend == "torch_distributed")
        && not (cfg.workload == "vllm" && md.backend == "vllm_multi_node")
      then some "has an unsupported coordinated runtime"
      else if not (one_gpu_nodes md)
      then some "requires two one-GPU nodes with TP=2"
      else if not (valid_port md.rendezvous_port)
      then some "has invalid rendezvous port"
      else if not (valid_port md.service_port && cfg.port == itoa md.service_port)
      then some "has inconsistent service port"
      else if not (head_and_worker md.roles)
      then some "must define ordered head and worker roles"
      else if not (is_empty md.launch_order)
          && not (same_role_set md.launch_order (head_role ∷ worker_role ∷ []))
      then some "launch order must contain head and worker exactly once"
      else pinned_checks cfg md

  -- ValidateMultiDeviceRecipe.
  unfoldable pub validate_multi_device_recipe : Config → Option String
  unfolding validate_tensor_fold_recipe container_checks
  validate_multi_device_recipe cfg = elim cfg.multi_device [
    | none ↦ some "is not a multi-device recipe"
    | some md ↦
        if cfg.workload == workload_tensor_fold
        then validate_tensor_fold_recipe cfg md
        else container_checks cfg md
  ]
