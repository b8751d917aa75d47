-- ===== src/Deployments/Engine/Create.antt =====
-- CreateWithOutcome.
pub mod Effects
pub mod Planning
pub mod Replay
pub mod Types
unfoldable pub use Types.*
unfoldable pub use Replay.*
unfoldable pub use Planning.*
unfoldable pub use Effects.*
use yokai.Prelude.{
  ℕ, suc, ℤ, pos, int_lt, int_suc, String, ◌==◌, concat, Bool, true, false, not, Option, none, some,
  List, [], ◌∷◌, ◌++◌, if◌then◌else◌, indexes, get_or, modify,
}
use yokai.Bkc.Types.{Config, MultiDeviceDeployment, head_role}
use yokai.Deployments.Errors.{
  Err, Result, ok, err, plain, sentinel, wrapped, ErrorKind, validation, conflict, dependency,
  wrap_error, error_kind_of, error_text, idempotency_conflict, recovery_performed,
}
use yokai.Deployments.Types.{
  State, Phase, Ownership, Binding, CreateRequest, Member, Deployment, ObservedContainer,
  PreflightRequest,
}
use yokai.Deployments.Env.{
  Env, M, ◌>>=◌, pure, caller, cleanup, call_preflight, call_pull, call_inspect, call_stop,
  call_launch, call_now, call_new_id, call_request_error,
}
use yokai.Deployments.Store.{find_idempotency}
use yokai.Deployments.Members.{member_index_by_role, no_deployment}
use yokai.Deployments.Engine.Journal.{
  member_at, previous_at, persist_progress, before_member_action, after_member_action,
  before_previous_action, after_previous_action,
}
use yokai.Deployments.Engine.Rollback.{rollback_locked}
use yokai.Deployments.Engine.Recovery.{reconcile_unsafe_state_locked}
use yokai.Deployments.Engine.Readiness.{
  Readiness, wait_ready, expected_model, readiness_operation_error,
}
use yokai.Deployments.Engine.Request.{
  normalize_request, validate_create_request, request_hash, ordered_bindings, binding_by_role,
  no_binding,
}
use yokai.Deployments.Engine.Candidate.{
  role_rank, recipe_launch_order, runtime_patch_provenance, recipe_provenance, pinned_image_digest,
  build_candidate, planned_member, member_from_observed,
}

module _ (env : Env) where
  unfoldable pub create_promoted : Plan → Deployment × Option Err → M Returned
  create_promoted p (d, some e) =
      create_rollback env d e "persist promotion failed" p.request.api_key
  create_promoted p (d, none) = pure (record { deployment = d; created = true }, none)

  unfoldable pub create_ready : Plan → Deployment × Option Err → M Returned
  create_ready p (d, some e) =
      create_rollback env d e "persist readiness completion failed" p.request.api_key
  create_ready p (d, none) = do
    promoted ←
        persist_progress env (record d { state = State.running }) Phase.running "promote" ""
          "completed" "both ranks running and semantic gates passed"
    create_promoted p promoted

  unfoldable pub create_judged : Plan → Deployment → Readiness → Option Err → M Returned
  create_judged p d r (some e) =
      create_rollback env (record d { members = r.members }) (readiness_operation_error e)
        "candidate readiness failed" p.request.api_key
  create_judged p d r none = do
    let tested = record d { members = r.members; last_test = some r.result }
    ready ←
        persist_progress env tested Phase.readiness "readiness" "" "completed"
          "both ranks running and semantic gates passed"
    create_ready p ready

  unfoldable pub create_waited : Plan → Deployment → Readiness → M Returned
  create_waited p d r = create_judged p d r r.error

  unfoldable pub create_readiness : Plan → Deployment × Option Err → M Returned
  create_readiness p (d, some e) =
      create_rollback env d e "persist readiness intent failed" p.request.api_key
  create_readiness p (d, none) = do
    let expected = expected_model p.config (not (p.request.local_model_path == ""))
    r ← wait_ready env caller d.members p.request.api_key expected d.bkc_id
    create_waited p d r

  unfoldable pub execute_readiness : Plan → Stage → M Returned
  execute_readiness p (over r) = pure r
  execute_readiness p (going d) = do
    recorded ←
        persist_progress env d Phase.readiness "readiness" "" "started"
          "waiting for both ranks and semantic gates"
    create_readiness p recorded

  unfoldable pub execute_launch : Plan → Stage → M Returned
  execute_launch p (over r) = pure r
  execute_launch p (going d) = do
    launched ← launch_each env p (recipe_launch_order p.multi_device) d
    execute_readiness p launched

  unfoldable pub execute_cutover : Plan → Stage → M Returned
  execute_cutover p (over r) = pure r
  execute_cutover p (going d) = do
    stopped ← stop_each env p (indexes 0 d.previous_members) d
    execute_launch p stopped

  -- From the pulls to the promotion, at a journaled deployment.
  unfoldable pub execute : Plan → Deployment → M Returned
  execute p d = do pulled ← pull_each env p 0 p.ordered d; execute_cutover p pulled

  unfoldable pub create_journaled : Plan → Deployment × Option Err → M Returned
  create_journaled p (d, some e) =
      pure (nothing, some (wrap_error dependency "journal pending deployment" e))
  create_journaled p (d, none) = execute p d

  unfoldable pub create_preflighted : Plan → Deployment → Option Err → M Returned
  create_preflighted p d (some e) = pure (nothing, some e)
  create_preflighted p d none = do
    recorded ←
        persist_progress env d Phase.planned "journal" "" "completed"
          "candidate and previous members selected"
    create_journaled p recorded

  unfoldable pub create_planned : Plan → Selection → String → String → M Returned
  create_planned p sel id hash = do
    now ← call_now env
    let d = plan_deployment env p sel id hash now
    refused ← preflight_each env p d 0 p.ordered
    create_preflighted p d refused

  unfoldable pub create_selected :
      CreateRequest
      → Config
      → MultiDeviceDeployment
      → String
      → String
      → Result Selection
      → M Returned
  create_selected r cfg md hash id (err e) = pure (nothing, some e)
  create_selected r cfg md hash id (ok s) =
      create_planned (record { request = r; config = cfg; multi_device = md; ordered = s.ordered })
        s id hash

  unfoldable pub create_new : CreateRequest → Config → MultiDeviceDeployment → String → M Returned
  create_new r cfg md hash = do
    let ordered = ordered_bindings r.bindings md.roles
    id ← call_new_id env
    sel ←
        select_previous env md ordered (record { ordered = []; previous = []; generation = pos 0 })
    create_selected r cfg md hash id sel

  -- The prior deployment with the request's idempotency key, if there is one.
  unfoldable pub create_keyed :
      CreateRequest → Config × MultiDeviceDeployment → String → Option Deployment → M Returned
  create_keyed r plan hash (some prior) = replay env hash prior
  create_keyed r (cfg, md) hash none = create_new r cfg md hash

  -- CreateWithOutcome at a valid, normalized request and its hash.
  unfoldable pub create_valid : CreateRequest → Config × MultiDeviceDeployment → String → M Returned
  create_valid r plan hash s = create_keyed r plan hash (find_idempotency r.idempotency_key s.doc) s

  unfoldable pub create_hashed :
      CreateRequest → Result (Config × MultiDeviceDeployment) → Result String → M Returned
  create_hashed r (err e) h = pure (nothing, some (wrap_error validation "validate deployment" e))
  create_hashed r (ok plan) (err e) =
      pure (nothing, some (wrap_error validation "hash deployment request" e))
  create_hashed r (ok plan) (ok hash) = create_valid r plan hash

  -- CreateWithOutcome
  unfoldable pub create_with_outcome : CreateRequest → M Returned
  create_with_outcome request =
      let r = normalize_request request in
      create_hashed r (validate_create_request env r) (request_hash env r)
