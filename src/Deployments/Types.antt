-- ===== src/Deployments/Types.antt =====
-- The records of internal/deployments/types.go. Times are numbers; the JSON form is not modelled.
use yokai.Prelude.{ℕ, ℤ, String, Bool, Option, List}
use yokai.Bkc.Types.{RuntimeOptions}

pub data State : Type 0 where
  pending starting running stopping stopped failed rolled_back rollback_failed : State
  -- any other text in a stored document
  unsupported : String → State

pub data Phase : Type 0 where
  planned pulling cutover launching readiness running stopping starting rollback complete : Phase
  -- any other text in a stored document
  unsupported : String → Phase

pub data Ownership : Type 0 where
  managed adopted observed : Ownership
  -- any other text, such as that of a missing label
  unknown : String → Ownership

pub record Binding : Type 0 where
  pub role : String
  pub device_id : String
  pub fabric_address : String
  pub fabric_interface : String
  pub fabric_hca : String
  pub fabric_gid_index : Option ℤ
  pub service_address : String
  pub service_port : ℤ
  pub observed_container_id : String

pub record CreateRequest : Type 0 where
  pub bkc_id : String
  pub idempotency_key : String
  pub bindings : List Binding
  pub api_key : String
  pub local_model_path : String

pub record Member : Type 0 where
  pub role : String
  pub rank : ℤ
  pub device_id : String
  pub fabric_address : String
  pub service_address : String
  pub service_port : ℤ
  pub container_id : String
  pub name : String
  pub status : String
  pub ownership : Ownership
  pub generation : ℤ

pub record RankLogTail : Type 0 where
  pub role : String
  pub rank : ℤ
  pub device_id : String
  pub container_id : String
  pub name : String
  pub status : String
  pub tail : String
  pub truncated : Bool
  pub error : String
  pub captured_at : ℕ

pub record RollbackResult : Type 0 where
  pub attempted : Bool
  pub removed_candidates : List String
  pub restarted_containers : List String
  pub log_tails : List RankLogTail
  pub errors : List String
  pub completed_at : ℕ

pub record LogTailCapture : Type 0 where
  pub tail : String
  pub truncated : Bool

pub record RuntimePatchProvenance : Type 0 where
  pub label : String
  pub source_path : String
  pub original_sha256 : String
  pub patched_sha256 : String

pub record TestResult : Type 0 where
  pub ok : Bool
  pub metrics_ready : Bool
  pub message : String
  pub model : String
  pub response : String
  pub tested_at : ℕ

pub record Progress : Type 0 where
  pub phase : Phase
  pub action : String
  pub role : String
  pub status : String
  pub detail : String
  pub at : ℕ

pub record RecipeProvenance : Type 0 where
  pub repository : String
  pub commit : String
  pub image_digest : String
  pub model_revision : String
  pub drafter_revision : String
  pub context_tokens : ℤ
  pub parallel_requests : ℤ
  pub kv_cache : String
  pub drafter : String

pub record Deployment : Type 0 where
  pub id : String
  pub bkc_id : String
  pub idempotency_key : String
  pub request_hash : String
  pub state : State
  pub phase : Phase
  pub generation : ℤ
  pub previous_generation : ℤ
  pub bindings : List Binding
  pub members : List Member
  pub previous_members : List Member
  pub uses_local_model_snapshot : Bool
  pub recipe_source : String
  pub recipe_revision : String
  pub model_revision : String
  pub image_digest : String
  pub launch_order : List String
  pub runtime_patches : List RuntimePatchProvenance
  pub recipe : Option RecipeProvenance
  pub error : String
  pub rollback : Option RollbackResult
  pub last_test : Option TestResult
  pub progress : List Progress
  pub created_at : ℕ
  pub updated_at : ℕ

pub record RecipeCandidate : Type 0 where
  pub repository : String
  pub commit : String
  pub worker_device_id : String
  pub worker_address : String
  pub head_fabric_address : String
  pub service_address : String
  pub service_port : ℤ

pub record Candidate : Type 0 where
  pub role : String
  pub rank : ℤ
  pub name : String
  pub image : String
  pub model : String
  pub port : String
  pub extra_args : String
  pub args : List String
  pub env : List (String × String)
  pub volumes : List (String × String)
  pub runtime : RuntimeOptions
  pub labels : List (String × String)
  pub network_mode : String
  pub devices : List String
  pub cap_add : List String
  pub gpu_ids : String
  pub driver : String
  pub recipe : Option RecipeCandidate

pub record PreflightRequest : Type 0 where
  pub binding : Binding
  pub candidate_name : String
  pub local_model_path : String
  pub service_port : ℤ
  pub rendezvous_port : ℤ
  pub head : Bool
  pub bkc_id : String
  pub model_revision : String
  pub driver : String
  pub recipe : Option RecipeCandidate

pub record ObservedContainer : Type 0 where
  pub id : String
  pub name : String
  pub status : String
  pub ownership : Ownership
  pub managed : Bool
  pub generation : ℤ
  pub deployment_id : String
  pub role : String
