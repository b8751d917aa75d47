-- ===== src/Deployments/Members.antt =====
-- The helpers of internal/deployments/engine.go on members, bindings and rollback results.
pub mod Order
pub mod Evidence
use yokai.Prelude.{
  ℕ, zero, suc, ◌+◌, ℤ, pos, negsuc, int_eq, String, ◌==◌, concat, trim_space, Bool, true, false,
  not, ◌&&◌, ◌||◌, Option, none, some, List, [], ◌∷◌, ◌++◌, if◌then◌else◌, is_empty, get_or,
  get_elem?,
}
use mathlib.Core.List.{reverse, filter_map}
use yokai.Bkc.Types.{Config, MultiDeviceDeployment, head_role, worker_role, driver_head_recipe}
use yokai.Bkc.Catalog.{lookup_id}
use yokai.Deployments.Errors.{Err, plain}
use yokai.Deployments.Types.{
  State, Phase, Ownership, Binding, Member, Deployment, ObservedContainer, RankLogTail,
  RollbackResult, managed,
}

abbrev pub is_managed : Ownership → Bool
is_managed managed = true
is_managed _ = false

abbrev pub is_observed : Ownership → Bool
is_observed Ownership.observed = true
is_observed _ = false

-- validateManagedMemberIdentity
unfoldable pub validate_managed_member_identity :
    Deployment → Member → ObservedContainer → Option Err
validate_managed_member_identity d m o =
    if not (is_managed m.ownership) || not o.managed || not (is_managed o.ownership)
    then some (plain (concat (m.role ∷ " member is not managed by Yokai" ∷ [])))
    else if not (o.deployment_id == d.id)
        || not (int_eq o.generation m.generation)
        || not (o.role == m.role)
    then some (plain (concat (m.role ∷ " member provenance does not match deployment" ∷ [])))
    else if trim_space m.name == "" || not (o.name == m.name)
    then some
        (plain (concat (m.role ∷ " member deterministic name does not match deployment" ∷ [])))
    else none

unfoldable pub contains : String → List String → Bool
contains v [] = false
contains v (x ∷ xs) = x == v || contains v xs

-- appendUniqueStrings: the map `seen` holds the elements of the list built so far.
unfoldable pub append_unique_strings : List String → List String → List String
unfolding contains
append_unique_strings existing [] = existing
append_unique_strings existing (v ∷ vs) =
    append_unique_strings (if contains v existing then existing else existing ++ v ∷ []) vs

-- upsertRankLogTail
unfoldable pub upsert_rank_log_tail : List RankLogTail → RankLogTail → List RankLogTail
upsert_rank_log_tail [] v = v ∷ []
upsert_rank_log_tail (t ∷ ts) v =
    if t.role == v.role && int_eq t.rank v.rank
    then if t.status == "captured" && v.status == "failed" then t ∷ ts else v ∷ ts
    else t ∷ upsert_rank_log_tail ts v

-- candidateMayExist
unfoldable pub candidate_may_exist : String → Bool
candidate_may_exist status =
    not (status == "planned" || status == "pulling" || status == "pulled" || status == "removed")

-- memberLocator
unfoldable pub member_locator : Member → String
member_locator m = if not (m.container_id == "") then m.container_id else m.name

-- memberIndexByRole; `none` is -1.
unfoldable pub member_index_by_role : List Member → String → Option ℕ
member_index_by_role [] role = none
member_index_by_role (m ∷ ms) role =
    if m.role == role
    then some 0
    else elim (member_index_by_role ms role) [ none ↦ none | some i ↦ some (suc i) ]

-- memberByRole
unfoldable pub member_by_role : List Member → String → Option Member
unfolding member_index_by_role
member_by_role ms role = elim (member_index_by_role ms role) [
  | none ↦ none
  | some i ↦ get_elem? ms i
]

-- isHeadRecipeBKC
unfoldable pub is_head_recipe_bkc : List Config → String → Bool
is_head_recipe_bkc catalog id = elim (lookup_id catalog id) [
  | none ↦ false
  | some cfg ↦ elim cfg.multi_device [ none ↦ false | some md ↦ md.driver == driver_head_recipe ]
]

-- deploymentLaunchOrder
unfoldable pub deployment_launch_order : List Config → Deployment → List String
deployment_launch_order catalog d =
    if not (is_empty d.launch_order) then d.launch_order else elim (lookup_id catalog d.bkc_id) [
      | none ↦ head_role ∷ worker_role ∷ []
      | some cfg ↦ elim cfg.multi_device [
        | none ↦ head_role ∷ worker_role ∷ []
        | some md ↦
            if not (is_empty md.launch_order) then md.launch_order else head_role ∷ worker_role ∷ []
      ]
    ]

indexes_of : List Member → List String → List ℕ
unfolding member_index_by_role
indexes_of ms [] = []
indexes_of ms (role ∷ rest) = elim (member_index_by_role ms role) [
  | none ↦ indexes_of ms rest
  | some i ↦ i ∷ indexes_of ms rest
]

-- reverseLaunchMemberIndexes
unfoldable pub reverse_launch_member_indexes : List Config → Deployment → List ℕ
unfolding indexes_of
reverse_launch_member_indexes catalog d =
    indexes_of d.members (reverse (deployment_launch_order catalog d))

-- The zero value of a member.
abbrev pub no_member : Member
no_member = record {
  role = "";
  rank = pos 0;
  device_id = "";
  fabric_address = "";
  service_address = "";
  service_port = pos 0;
  container_id = "";
  name = "";
  status = "";
  ownership = Ownership.unknown "";
  generation = pos 0;
}

-- The zero value of a rollback result.
abbrev pub no_result : RollbackResult
no_result = record {
  attempted = false;
  removed_candidates = [];
  restarted_containers = [];
  log_tails = [];
  errors = [];
  completed_at = 0;
}

-- The zero value of a deployment.
abbrev pub no_deployment : Deployment
no_deployment = record {
  id = "";
  bkc_id = "";
  idempotency_key = "";
  request_hash = "";
  state = State.unsupported "";
  phase = Phase.unsupported "";
  generation = pos 0;
  previous_generation = pos 0;
  bindings = [];
  members = [];
  previous_members = [];
  uses_local_model_snapshot = false;
  recipe_source = "";
  recipe_revision = "";
  model_revision = "";
  image_digest = "";
  launch_order = [];
  runtime_patches = [];
  recipe = none;
  error = "";
  rollback = none;
  last_test = none;
  progress = [];
  created_at = 0;
  updated_at = 0;
}
