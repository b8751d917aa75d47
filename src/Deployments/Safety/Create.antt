-- ===== src/Deployments/Safety/Create.antt =====
-- A create, from the request to the promotion.
use yokai.Prelude.{
  ℕ, suc, refl, String, ◌==◌, Bool-cases, inl, inr, Option, none, some, List, [], ◌∷◌, arith,
}
use yokai.Bkc.Types.{Config, MultiDeviceDeployment}
use yokai.Deployments.Errors.{Err, Result, ok, err}
use yokai.Deployments.Types.{State, Binding, CreateRequest, Deployment}
use yokai.Deployments.Env.{Env, Sys, caller, call_inspect}
use yokai.Deployments.Engine.Readiness.{Readiness}
use yokai.Deployments.Engine.Create.{
  Plan, Selection, Stage, going, over, replay_state, replay, select_previous, preflight_each,
  create_promoted, create_ready, create_judged, create_waited, create_readiness, execute_readiness,
  execute_launch, execute_cutover, execute, create_preflighted, create_selected, create_journaled,
  create_planned, create_new, create_keyed, create_valid, create_hashed, create_with_outcome,
}
use yokai.Deployments.Safety.{IsSafe}
use yokai.Deployments.Safety.Journal.{persist_progress-IsSafe}
use yokai.Deployments.Safety.Restoration.{rollback_locked-IsSafe}
use yokai.Deployments.Safety.Readiness.{wait_ready-IsSafe}
use yokai.Deployments.Safety.Recovery.{reconcile_unsafe_state_locked-IsSafe}
use yokai.Deployments.Engine.Journal.{persist_progress}
use yokai.Deployments.Safety.Roles.{IsPaired, plan_deployment-IsPaired}
use yokai.Deployments.Safety.Stages.{IsOrdered, pull_each-IsOrdered, stop_each-IsOrdered}
use yokai.Deployments.Safety.Effects.{
  create_rollback-IsSafe, pull_each-IsSafe, stop_each-IsSafe, launch_each-IsSafe,
}

module _ (env : Env) where
  replay_state-IsSafe :
      (state : State) (d : Deployment) (s : Sys)
      → IsSafe s.events
      → IsSafe (replay_state env state d s).1.events
  unfolding replay_state
  replay_state-IsSafe state d s h = grind (
    arith,
    reconcile_unsafe_state_locked-IsSafe env d s h,
    rollback_locked-IsSafe env caller d "incomplete idempotent request recovered" "" s h,
  )

  pub replay-IsSafe :
      (hash : String) (d : Deployment) (s : Sys)
      → IsSafe s.events
      → IsSafe (replay env hash d s).1.events
  unfolding replay
  replay-IsSafe hash d s h = elim (Bool-cases (d.request_hash == hash)) [
    | inl e ↦ rw e (replay_state-IsSafe d.state d s h)
    | inr e ↦ rw e h
  ]

  module _ (p : Plan) where
    create_promoted-IsSafe :
        (t : Deployment × Option Err) (s : Sys)
        → IsSafe s.events
        → IsSafe (create_promoted env p t s).1.events
    unfolding create_promoted
    create_promoted-IsSafe (d, some e) s h = create_rollback-IsSafe env d e _ _ s h
    create_promoted-IsSafe (d, none) s h = h

    create_ready-IsSafe :
        (t : Deployment × Option Err) (s : Sys)
        → IsSafe s.events
        → IsSafe (create_ready env p t s).1.events
    unfolding create_ready
    create_ready-IsSafe (d, some e) s h = create_rollback-IsSafe env d e _ _ s h
    create_ready-IsSafe (d, none) s h =
        create_promoted-IsSafe _ _ (persist_progress-IsSafe env _ _ _ _ _ _ s h)

    create_judged-IsSafe :
        (d : Deployment) (r : Readiness) (e : Option Err) (s : Sys)
        → IsSafe s.events
        → IsSafe (create_judged env p d r e s).1.events
    unfolding create_judged
    create_judged-IsSafe d r none s h =
        create_ready-IsSafe _ _ (persist_progress-IsSafe env _ _ _ _ _ _ s h)
    create_judged-IsSafe d r (some x) s h = create_rollback-IsSafe env _ _ _ _ s h

    create_readiness-IsSafe :
        (t : Deployment × Option Err) (s : Sys)
        → IsSafe s.events
        → IsSafe (create_readiness env p t s).1.events
    unfolding create_readiness create_waited
    create_readiness-IsSafe (d, some e) s h = create_rollback-IsSafe env d e _ _ s h
    create_readiness-IsSafe (d, none) s h =
        create_judged-IsSafe d _ _ _ (wait_ready-IsSafe env caller d.members _ _ d.bkc_id s h)

    execute_readiness-IsSafe :
        (g : Stage) (s : Sys) → IsSafe s.events → IsSafe (execute_readiness env p g s).1.events
    unfolding execute_readiness
    execute_readiness-IsSafe (over r) s h = h
    execute_readiness-IsSafe (going d) s h =
        create_readiness-IsSafe _ _ (persist_progress-IsSafe env _ _ _ _ _ _ s h)

    execute_launch-IsSafe :
        (g : Stage) (s : Sys)
        → IsSafe s.events
        → IsOrdered p g
        → IsSafe (execute_launch env p g s).1.events
    unfolding execute_launch
    execute_launch-IsSafe (over r) s h o = h
    execute_launch-IsSafe (going d) s h o =
        execute_readiness-IsSafe _ _ (launch_each-IsSafe env p _ d s h o)

    execute_cutover-IsSafe :
        (g : Stage) (s : Sys)
        → IsSafe s.events
        → IsOrdered p g
        → IsSafe (execute_cutover env p g s).1.events
    unfolding execute_cutover
    execute_cutover-IsSafe (over r) s h o = h
    execute_cutover-IsSafe (going d) s h o =
        execute_launch-IsSafe _ _ (stop_each-IsSafe env p _ d s h)
          (stop_each-IsOrdered env p _ d s o)

    create_journaled-IsSafe :
        (t : Deployment × Option Err) (s : Sys)
        → IsSafe s.events
        → IsPaired p t.0
        → IsSafe (create_journaled env p t s).1.events
    unfolding create_journaled execute
    create_journaled-IsSafe (d, some e) s h paired = h
    create_journaled-IsSafe (d, none) s h paired =
        execute_cutover-IsSafe _ _ (pull_each-IsSafe env p 0 p.ordered d s h paired refl)
          (pull_each-IsOrdered env p 0 p.ordered d s paired)

    preflight_each-IsSafe :
        (d : Deployment) (i : ℕ) (bs : List Binding) (s : Sys)
        → IsSafe s.events
        → IsSafe (preflight_each env p d i bs s).1.events
    unfolding preflight_each
    preflight_each-IsSafe d i [] s h = h
    preflight_each-IsSafe d i (b ∷ bs) s h = grind (arith, preflight_each-IsSafe d (suc i) bs)

    create_preflighted-IsSafe :
        (d : Deployment) (e : Option Err) (s : Sys)
        → IsSafe s.events
        → IsPaired p d
        → IsSafe (create_preflighted env p d e s).1.events
    unfolding create_preflighted persist_progress
    create_preflighted-IsSafe d (some e) s h paired = h
    create_preflighted-IsSafe d none s h paired =
        create_journaled-IsSafe _ _ (persist_progress-IsSafe env d _ _ _ _ _ s h) paired

  select_previous-IsSafe :
      (md : MultiDeviceDeployment) (bs : List Binding) (sel : Selection) (s : Sys)
      → IsSafe s.events
      → IsSafe (select_previous env md bs sel s).1.events
  unfolding select_previous
  select_previous-IsSafe md [] sel s h = h
  select_previous-IsSafe md (b ∷ bs) sel s h =
      let k : (sel' : Selection) → IsSafe (select_previous env md bs sel' s).1.events =
        λ sel'. select_previous-IsSafe md bs sel' s h in
      let s' = (call_inspect env caller b.device_id b.observed_container_id s).1 in
      let k' : (sel' : Selection) → IsSafe (select_previous env md bs sel' s').1.events =
        λ sel'. select_previous-IsSafe md bs sel' s' (tt, h) in
      grind (arith, k, k')

  create_selected-IsSafe :
      (r : CreateRequest) (cfg : Config) (md : MultiDeviceDeployment) (hash id : String)
      → (sel : Result Selection) (s : Sys) → IsSafe s.events
      → IsSafe (create_selected env r cfg md hash id sel s).1.events
  unfolding create_selected create_planned
  create_selected-IsSafe r cfg md hash id (err e) s h = h
  create_selected-IsSafe r cfg md hash id (ok sel) s h =
      create_preflighted-IsSafe _ _ _ _ (preflight_each-IsSafe _ _ 0 _ s h) (
        plan_deployment-IsPaired env
          (record { request = r; config = cfg; multi_device = md; ordered = sel.ordered }) sel id
          hash _)

  create_keyed-IsSafe :
      (r : CreateRequest) (plan : Config × MultiDeviceDeployment) (hash : String)
      → (prior : Option Deployment) (s : Sys) → IsSafe s.events
      → IsSafe (create_keyed env r plan hash prior s).1.events
  unfolding create_keyed create_new
  create_keyed-IsSafe r plan hash (some prior) s h = replay-IsSafe hash prior s h
  create_keyed-IsSafe r (cfg, md) hash none s h =
      create_selected-IsSafe r cfg md hash _ _ _ (select_previous-IsSafe md _ _ s h)

  create_hashed-IsSafe :
      (r : CreateRequest) (plan : Result (Config × MultiDeviceDeployment))
      → (hash : Result String) (s : Sys) → IsSafe s.events
      → IsSafe (create_hashed env r plan hash s).1.events
  unfolding create_hashed create_valid
  create_hashed-IsSafe r (err e) hash s h = h
  create_hashed-IsSafe r (ok plan) (err e) s h = h
  create_hashed-IsSafe r (ok plan) (ok hash) s h = create_keyed-IsSafe r plan hash _ s h

  pub create_with_outcome-IsSafe :
      (r : CreateRequest) (s : Sys)
      → IsSafe s.events
      → IsSafe (create_with_outcome env r s).1.events
  unfolding create_with_outcome
  create_with_outcome-IsSafe r s h = create_hashed-IsSafe _ _ _ s h
