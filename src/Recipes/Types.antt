-- ===== src/Recipes/Types.antt =====
-- internal/recipes/types.go. An amount of memory is a number of thousandths of a GB.
use yokai.Prelude.{ℤ, String, Option, List}
use yokai.Bkc.Types.{MultiDeviceDeployment}
use yokai.LaunchAuth.Types.{StringMap}

-- Status
pub data RecipeStatus : Type 0 where
  proposed validated superseded : RecipeStatus

-- Provenance
pub record Provenance : Type 0 where
  pub agent : String
  pub source : String
  pub source_url : String
  pub research_note : String
  pub reported_on : List String

-- RecipeConfig
pub record RecipeConfig : Type 0 where
  pub id : String
  pub name : String
  pub workload : String
  pub model_id : String
  pub image : String
  pub port : String
  pub extra_args : String
  pub env : StringMap
  pub volumes : StringMap
  pub plugins : List String
  pub description : String
  pub target_devices : List String
  pub min_vram_gb_per_gpu : ℤ
  pub min_gpu_count : ℤ
  pub quantization : String
  pub arch : String
  pub multi_device : Option MultiDeviceDeployment

-- Recipe, but for its swap history and the record of its last trial.
pub record Recipe : Type 0 where
  pub id : String
  pub status : RecipeStatus
  pub config : RecipeConfig
  pub provenance : Provenance
  pub validated_on : List String
  pub fingerprint : String
  pub proposed_by : String
  pub supersedes : String
  pub created_at : String
  pub updated_at : String
