-- ===== src/Deployments/Safety/Recovery.antt =====
-- Rollback, Reconcile and Test touch no container but the deployment's own.
use yokai.Prelude.{String, List, [], ◌∷◌, arith}
use yokai.Deployments.Types.{State, Deployment}
use yokai.Deployments.Env.{Env, Sys, caller, cleanup}
use yokai.Deployments.Engine.Recovery.{
  UnsafeStateRecovery, incomplete_create, interrupted_start, interrupted_stop,
  failed_running_verification, recover, reconcile_unsafe_state_locked, reconcile_state,
  reconcile_each, reconcile, rollback_state, rollback, test_found, test,
}
use yokai.Deployments.Safety.{IsSafe}
use yokai.Deployments.Safety.Journal.{put-IsSafe}
use yokai.Deployments.Safety.Stop.{stop_locked-IsSafe, fail_start-IsSafe}
use yokai.Deployments.Safety.Restoration.{rollback_locked-IsSafe}

module _ (env : Env) where
  recover-IsSafe :
      (r : UnsafeStateRecovery) (d : Deployment) (s : Sys)
      → IsSafe s.events
      → IsSafe (recover env r d s).1.events
  unfolding recover
  recover-IsSafe interrupted_start d s h = fail_start-IsSafe env d _ s h
  recover-IsSafe interrupted_stop d s h = stop_locked-IsSafe env cleanup d s h
  recover-IsSafe failed_running_verification d s h = stop_locked-IsSafe env cleanup d s h
  recover-IsSafe incomplete_create d s h = rollback_locked-IsSafe env cleanup d _ _ s h

  pub reconcile_unsafe_state_locked-IsSafe :
      (d : Deployment) (s : Sys)
      → IsSafe s.events
      → IsSafe (reconcile_unsafe_state_locked env d s).1.events
  unfolding reconcile_unsafe_state_locked
  reconcile_unsafe_state_locked-IsSafe d s h = recover-IsSafe _ d s h

  reconcile_state-IsSafe :
      (state : State) (d : Deployment) (s : Sys)
      → IsSafe s.events
      → IsSafe (reconcile_state env state d s).1.events
  unfolding reconcile_state
  reconcile_state-IsSafe state d s h = grind (
    arith,
    reconcile_unsafe_state_locked-IsSafe d s h,
    rollback_locked-IsSafe env caller d "daemon restart reconciliation" "" s h,
  )

  reconcile_each-IsSafe :
      (ds : List Deployment) (s : Sys) → IsSafe s.events → IsSafe (reconcile_each env ds s).1.events
  unfolding reconcile_each
  reconcile_each-IsSafe [] s h = h
  reconcile_each-IsSafe (d ∷ ds) s h =
      reconcile_each-IsSafe ds _ (reconcile_state-IsSafe d.state d s h)

  pub reconcile-IsSafe : (s : Sys) → IsSafe s.events → IsSafe (reconcile env s).1.events
  unfolding reconcile
  reconcile-IsSafe s h = reconcile_each-IsSafe _ s h

  rollback_state-IsSafe :
      (state : State) (d : Deployment) (s : Sys)
      → IsSafe s.events
      → IsSafe (rollback_state env state d s).1.events
  unfolding rollback_state
  rollback_state-IsSafe state d s h =
      grind (arith, rollback_locked-IsSafe env caller d "rollback requested" "" s h)

  pub rollback-IsSafe :
      (id : String) (s : Sys) → IsSafe s.events → IsSafe (rollback env id s).1.events
  unfolding rollback
  rollback-IsSafe id s h = grind (arith, rollback_state-IsSafe)

  pub test-IsSafe :
      (id key : String) (s : Sys) → IsSafe s.events → IsSafe (test env id key s).1.events
  unfolding test test_found
  test-IsSafe id key s h = grind (arith, put-IsSafe)
