-- ===== src/Deployments/Outcome/Create.antt =====
-- What a create reports.
use yokai.Prelude.{String, ◌==◌, ◌≡◌, refl, true, false, not, Option, none, some, All, arith}
use yokai.Bkc.Types.{Config, MultiDeviceDeployment}
use yokai.Deployments.Errors.{Err, Result, ok, err}
use yokai.Deployments.Types.{Phase, State, TestResult, CreateRequest, Deployment}
use yokai.Deployments.Env.{Env, Sys, caller}
use yokai.Deployments.Engine.Journal.{persist_progress}
use yokai.Deployments.Engine.Readiness.{Readiness, validate_promotion_result, expected_model}
use yokai.Deployments.Engine.Create.{
  Plan, Selection, Stage, going, over, Returned, create_rollback, replay, create_promoted,
  create_ready, create_judged, create_waited, create_readiness, execute_readiness, execute_launch,
  execute_cutover, execute, create_journaled, create_preflighted, create_planned, create_selected,
  create_new, create_keyed, create_valid,
}
use yokai.Deployments.Outcome.Readiness.{IsRunning, IsReady, wait_ready-IsReady}
use yokai.Deployments.Outcome.Stages.{
  IsUnmade, create_rollback-unmade, replay-unmade, pull_each-IsUnmade, stop_each-IsUnmade,
  launch_each-IsUnmade,
}

-- The deployment runs, and was tested as the model that is expected.
abbrev pub IsPromoted : String → Deployment → Type 0
IsPromoted expected d =
    (d.state ≡ State.running)
    × All IsRunning d.members
    × (r : TestResult) × (d.last_test ≡ some r)
    × (validate_promotion_result r expected ≡ none)

-- What is reported as created is promoted, and comes with no error.
abbrev pub IsHonest : String → Returned → Type 0
IsHonest expected (outcome, e) =
    outcome.created ≡ true → (e ≡ none) × IsPromoted expected outcome.deployment

unmade-IsHonest : (expected : String) (r : Returned) → r.0.created ≡ false → IsHonest expected r
unmade-IsHonest expected r h = ground arith

module _ (env : Env) where
  persist_progress-IsPromoted :
      (expected : String) (d : Deployment) (phase : Phase) (action role status detail : String)
      → (s : Sys) → IsPromoted expected d
      → IsPromoted expected (persist_progress env d phase action role status detail s).0.0
  unfolding persist_progress
  persist_progress-IsPromoted expected d phase action role status detail s h = h

  rolled-IsHonest :
      (expected : String) (d : Deployment) (cause : Err) (safe_cause key : String) (s : Sys)
      → IsHonest expected (create_rollback env d cause safe_cause key s).0
  rolled-IsHonest expected d cause safe_cause key s =
      unmade-IsHonest expected (create_rollback env d cause safe_cause key s).0
        (create_rollback-unmade env d cause safe_cause key s)

  -- The deployment would be promoted in the state running.
  abbrev IsTested : String → Deployment → Type 0
  IsTested expected d = IsPromoted expected (record d { state = State.running })

  module _ (p : Plan) where
    abbrev expected : String
    expected = expected_model p.config (not (p.request.local_model_path == ""))

    create_promoted-IsHonest :
        (t : Deployment × Option Err) (s : Sys)
        → IsPromoted expected t.0
        → IsHonest expected (create_promoted env p t s).0
    unfolding create_promoted
    create_promoted-IsHonest (d, some e) s h = rolled-IsHonest expected d e _ _ s
    create_promoted-IsHonest (d, none) s h = λ k. (refl, h)

    create_ready-IsHonest :
        (t : Deployment × Option Err) (s : Sys)
        → IsTested expected t.0
        → IsHonest expected (create_ready env p t s).0
    unfolding create_ready
    create_ready-IsHonest (d, some e) s h = rolled-IsHonest expected d e _ _ s
    create_ready-IsHonest (d, none) s h =
        create_promoted-IsHonest _ _ (persist_progress-IsPromoted expected _ _ _ _ _ _ s h)

    create_judged-IsHonest :
        (d : Deployment) (r : Readiness) (e : Option Err) (s : Sys)
        → (e ≡ none → IsReady expected r)
        → IsHonest expected (create_judged env p d r e s).0
    unfolding create_judged persist_progress
    create_judged-IsHonest d r none s h =
        let (running, passed) = h refl in
        create_ready-IsHonest _ _ (refl, running, r.result, refl, passed)
    create_judged-IsHonest d r (some x) s h = rolled-IsHonest expected _ _ _ _ s

    create_readiness-IsHonest :
        (t : Deployment × Option Err) (s : Sys) → IsHonest expected (create_readiness env p t s).0
    unfolding create_readiness create_waited
    create_readiness-IsHonest (d, some e) s = rolled-IsHonest expected d e _ _ s
    create_readiness-IsHonest (d, none) s =
        create_judged-IsHonest d _ _ _
          (wait_ready-IsReady env caller d.members p.request.api_key expected d.bkc_id s)

    execute_readiness-IsHonest :
        (g : Stage) (s : Sys) → IsUnmade g → IsHonest expected (execute_readiness env p g s).0
    unfolding execute_readiness
    execute_readiness-IsHonest (over r) s h = unmade-IsHonest expected r h
    execute_readiness-IsHonest (going d) s h = create_readiness-IsHonest _ _

    execute_launch-IsHonest :
        (g : Stage) (s : Sys) → IsUnmade g → IsHonest expected (execute_launch env p g s).0
    unfolding execute_launch
    execute_launch-IsHonest (over r) s h = unmade-IsHonest expected r h
    execute_launch-IsHonest (going d) s h =
        execute_readiness-IsHonest _ _ (launch_each-IsUnmade env p _ d s)

    execute_cutover-IsHonest :
        (g : Stage) (s : Sys) → IsUnmade g → IsHonest expected (execute_cutover env p g s).0
    unfolding execute_cutover
    execute_cutover-IsHonest (over r) s h = unmade-IsHonest expected r h
    execute_cutover-IsHonest (going d) s h =
        execute_launch-IsHonest _ _ (stop_each-IsUnmade env p _ d s)

    create_journaled-IsHonest :
        (t : Deployment × Option Err) (s : Sys) → IsHonest expected (create_journaled env p t s).0
    unfolding create_journaled execute
    create_journaled-IsHonest (d, some e) s = ground arith
    create_journaled-IsHonest (d, none) s =
        execute_cutover-IsHonest _ _ (pull_each-IsUnmade env p 0 p.ordered d s)

    create_preflighted-IsHonest :
        (d : Deployment) (e : Option Err) (s : Sys)
        → IsHonest expected (create_preflighted env p d e s).0
    unfolding create_preflighted
    create_preflighted-IsHonest d (some e) s = ground arith
    create_preflighted-IsHonest d none s = create_journaled-IsHonest _ _

  create_selected-IsHonest :
      (r : CreateRequest) (cfg : Config) (md : MultiDeviceDeployment) (hash id : String)
      → (sel : Result Selection) (s : Sys)
      → IsHonest
          (expected_model cfg (not (r.local_model_path == "")))
          (create_selected env r cfg md hash id sel s).0
  unfolding create_selected create_planned
  create_selected-IsHonest r cfg md hash id (err e) s = ground arith
  create_selected-IsHonest r cfg md hash id (ok sel) s = create_preflighted-IsHonest _ _ _ _

  create_keyed-IsHonest :
      (r : CreateRequest) (cfg : Config) (md : MultiDeviceDeployment) (hash : String)
      → (prior : Option Deployment) (s : Sys)
      → IsHonest
          (expected_model cfg (not (r.local_model_path == "")))
          (create_keyed env r (cfg, md) hash prior s).0
  unfolding create_keyed create_new
  create_keyed-IsHonest r cfg md hash (some prior) s =
      unmade-IsHonest (expected_model cfg (not (r.local_model_path == "")))
        (replay env hash prior s).0 (replay-unmade env hash prior s)
  create_keyed-IsHonest r cfg md hash none s = create_selected-IsHonest r cfg md hash _ _ _

  -- Where a create of a valid request reports a deployment as created, it returns no error, and
  -- the deployment is in the state running, every member of it runs, and its last test passed
  -- for the model that the recipe or the request expects.
  pub create_valid-IsHonest :
      (r : CreateRequest) (cfg : Config) (md : MultiDeviceDeployment) (hash : String) (s : Sys)
      → IsHonest
          (expected_model cfg (not (r.local_model_path == "")))
          (create_valid env r (cfg, md) hash s).0
  unfolding create_valid
  create_valid-IsHonest r cfg md hash s = create_keyed-IsHonest r cfg md hash _ s
