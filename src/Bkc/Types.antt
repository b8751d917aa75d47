-- ===== src/Bkc/Types.antt =====
-- The records of internal/bkc/catalog.go. A float64 amount of VRAM is a number of thousandths
-- of a GB; a map is an association list.
use yokai.Prelude.{ℕ, ℤ, String, Bool, Option, List}

-- config.RuntimeOptions, as far as a candidate's container uses it.
pub record RuntimeOptions : Type 0 where
  pub ipc_mode : String
  pub shm_size : String
  pub ulimits : List (String × String)
  pub restart_policy : String

pub record MultiDeviceRole : Type 0 where
  pub name : String
  pub rank : ℤ
  pub api : Bool

pub record MultiDeviceRuntimePatch : Type 0 where
  pub label : String
  pub source_path : String
  pub original_line : String
  pub replacement_line : String
  pub original_sha256 : String
  pub patched_sha256 : String

pub record MultiDeviceRecipe : Type 0 where
  pub repository : String
  pub commit : String
  pub image_tag : String
  pub image_digest : String
  pub drafter_model : String
  pub drafter_revision : String
  pub context_tokens : ℤ
  pub parallel_requests : ℤ
  pub kv_cache : String
  pub dense : String
  pub drafter : String
  pub vision : Bool
  pub memory_reserve_gib : String
  pub kv_pool_gib : String
  pub nccl_rails : ℤ
  pub readiness_timeout_sec : ℤ

pub record MultiDeviceDeployment : Type 0 where
  pub world_size : ℤ
  pub tensor_parallel_size : ℤ
  pub backend : String
  pub gpus_per_node : ℤ
  pub rendezvous_port : ℤ
  pub service_port : ℤ
  pub model_revision : String
  pub served_model_name : String
  pub source_revision : String
  pub requires_local_model : Bool
  pub requires_fabric_config : Bool
  pub common_args : List String
  pub role_args : List (String × List String)
  pub launch_order : List String
  pub runtime_patches : List MultiDeviceRuntimePatch
  pub roles : List MultiDeviceRole
  pub required_capabilities : List String
  pub driver : String
  pub recipe : Option MultiDeviceRecipe

pub record Config : Type 0 where
  pub id : String
  pub name : String
  pub workload : String
  pub model_id : String
  pub image : String
  pub port : String
  pub extra_args : String
  pub env : List (String × String)
  pub volumes : List (String × String)
  pub plugins : List String
  pub runtime : RuntimeOptions
  pub description : String
  pub source : String
  pub notes : List String
  pub multi_device : Option MultiDeviceDeployment
  pub target_devices : List String
  pub min_vram_gb_per_gpu : ℕ
  pub min_gpu_count : ℤ
  pub quantization : String
  pub arch : String

abbrev pub head_role : String
head_role = "head"

abbrev pub worker_role : String
worker_role = "worker"

abbrev pub driver_head_recipe : String
driver_head_recipe = "head_recipe"

abbrev pub workload_tensor_fold : String
workload_tensor_fold = "tensorfold"
