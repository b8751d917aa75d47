-- ===== src/Deployments/Engine/Recovery.antt =====
-- Rollback, Reconcile and Test, and the choice of a recovery after a restart of the daemon.
use yokai.Prelude.{String, ◌==◌, concat, ◌||◌, Option, none, some, List, [], ◌∷◌, if◌then◌else◌}
use mathlib.Core.List.{reverse}
use yokai.Bkc.Types.{head_role}
use yokai.Deployments.Errors.{
  Err, Result, ok, err, plain, sentinel, wrapped, validation, conflict, dependency, wrap_error,
  recovery_performed,
}
use yokai.Deployments.Types.{State, Phase, Progress, Member, Deployment, TestResult}
use yokai.Deployments.Env.{Env, M, ◌>>=◌, pure, caller, cleanup, call_test, call_now}
use yokai.Deployments.Store.{get, put, list}
use yokai.Deployments.Members.{member_locator, member_by_role, no_deployment}
use yokai.Deployments.Engine.Rollback.{rollback_locked}
use yokai.Deployments.Engine.Stop.{is_stopped, stop_locked, fail_start}
use yokai.Deployments.Engine.Readiness.{
  expected_stored_deployment_model, validate_deployment_api_key, validate_promotion_result,
}

-- unsafeStateRecovery
pub data UnsafeStateRecovery : Type 0 where
  incomplete_create interrupted_start interrupted_stop failed_running_verification :
      UnsafeStateRecovery

-- What the action of one progress record says, if anything.
unfoldable pub action_recovery : String → Option UnsafeStateRecovery
action_recovery a =
    if a == "start_group"
    then some interrupted_start
    else if a == "stop_group"
    then some interrupted_stop
    else if a == "verify_running"
    then some failed_running_verification
    else if a == "rollback"
        || a == "promote"
        || a == "readiness"
        || a == "launch"
        || a == "stop_previous"
        || a == "pull"
        || a == "journal"
    then some incomplete_create
    else none

-- The loop over the records, the latest first.
unfoldable pub latest_recovery : List Progress → Option UnsafeStateRecovery
latest_recovery [] = none
latest_recovery (p ∷ ps) = elim (action_recovery p.action) [
  | some r ↦ some r
  | none ↦ latest_recovery ps
]

unfoldable pub phase_recovery : Phase → UnsafeStateRecovery
phase_recovery Phase.starting = interrupted_start
phase_recovery Phase.stopping = interrupted_stop
phase_recovery _ = incomplete_create

unfoldable pub progress_recovery : Deployment → UnsafeStateRecovery
progress_recovery d = elim (latest_recovery (reverse d.progress)) [
  | some r ↦ r
  | none ↦ phase_recovery d.phase
]

unfoldable pub state_recovery : State → Deployment → UnsafeStateRecovery
state_recovery State.starting d = interrupted_start
state_recovery State.stopping d = interrupted_stop
state_recovery _ d = progress_recovery d

-- unsafeStateRecoveryFor
unfoldable pub unsafe_state_recovery_for : Deployment → UnsafeStateRecovery
unsafe_state_recovery_for d = state_recovery d.state d

module _ (env : Env) where
  unfoldable pub start_reconciled : Deployment × Option Err → Deployment × Option Err
  start_reconciled (d, e) = if is_stopped d.state then (d, none) else (d, e)

  unfoldable pub recover : UnsafeStateRecovery → Deployment → M (Deployment × Option Err)
  unfolding start_reconciled
  recover interrupted_start d = do
    r ← fail_start env d (wrap_error conflict "reconcile start" (sentinel recovery_performed))
    pure (start_reconciled r)
  recover interrupted_stop d = stop_locked env cleanup d
  recover failed_running_verification d = stop_locked env cleanup d
  recover incomplete_create d = rollback_locked env cleanup d "daemon restart reconciliation" ""

  -- reconcileUnsafeStateLocked
  unfoldable pub reconcile_unsafe_state_locked : Deployment → M (Deployment × Option Err)
  reconcile_unsafe_state_locked d = recover (unsafe_state_recovery_for d) d

  unfoldable pub reconcile_state : State → Deployment → M (Deployment × Option Err)
  reconcile_state State.pending d = rollback_locked env caller d "daemon restart reconciliation" ""
  reconcile_state State.rollback_failed d =
      rollback_locked env caller d "daemon restart reconciliation" ""
  reconcile_state State.starting d = reconcile_unsafe_state_locked d
  reconcile_state State.stopping d = reconcile_unsafe_state_locked d
  reconcile_state State.failed d = reconcile_unsafe_state_locked d
  reconcile_state _ d = pure (d, none)

  joined : Deployment → Option Err → List Err → List Err
  joined d none rest = rest
  joined d (some e) rest = wrapped (concat ("reconcile " ∷ d.id ∷ ": " ∷ [])) e "" ∷ rest

  unfoldable pub reconcile_each : List Deployment → M (List Err)
  unfolding joined
  reconcile_each [] = pure []
  reconcile_each (d ∷ rest) = do
    (d', e) ← reconcile_state d.state d
    errors ← reconcile_each rest
    pure (joined d e errors)

  -- Reconcile; errors.Join of no error is nil.
  unfoldable pub reconcile : M (List Err)
  reconcile s = reconcile_each (list s.doc) s

  unfoldable pub rollback_state : State → Deployment → M (Deployment × Option Err)
  rollback_state State.rolled_back d = pure (d, none)
  rollback_state _ d = rollback_locked env caller d "rollback requested" ""

  -- Rollback
  unfoldable pub rollback : String → M (Deployment × Option Err)
  rollback id s = elim (get id s.doc) [
    | err e ↦ ((no_deployment, some e), s)
    | ok d ↦ rollback_state d.state d s
  ]

  test_put : Deployment → Option Err → Deployment × Option Err
  test_put d none = (d, none)
  test_put d (some e) = (no_deployment, some e)

  test_passed : Deployment → TestResult → M (Deployment × Option Err)
  unfolding test_put
  test_passed d r = do
    now ← call_now env
    let d' = record d { last_test = some (record r { tested_at = now }); updated_at = now }
    e ← put env d'
    pure (test_put d' e)

  test_judged : Deployment → Result TestResult → M (Deployment × Option Err)
  unfolding test_passed
  test_judged d (err e) = pure (no_deployment, some e)
  test_judged d (ok r) = elim (expected_stored_deployment_model env.catalog d) [
    | err e ↦ pure (no_deployment, some e)
    | ok expected ↦ elim (validate_promotion_result r expected) [
      | some e ↦
          pure (no_deployment, some (wrap_error dependency "test rank-0 API/model/metrics" e))
      | none ↦ test_passed d r
    ]
  ]

  unfoldable pub test_found : String → Deployment → Option Member → M (Deployment × Option Err)
  unfolding test_judged
  test_found key d none = pure (
    no_deployment,
    some (wrap_error conflict "test deployment" (plain "deployment has no rank-0 member")),
  )
  test_found key d (some head) = do
    r ← call_test env caller head.device_id (member_locator head) key
    test_judged d r

  -- Test
  unfoldable pub test : String → String → M (Deployment × Option Err)
  test id key s = elim (get id s.doc) [
    | err e ↦ ((no_deployment, some e), s)
    | ok d ↦ elim (validate_deployment_api_key env.catalog d.bkc_id key) [
      | some e ↦ ((no_deployment, some (wrap_error validation "validate api key" e)), s)
      | none ↦ test_found key d (member_by_role d.members head_role) s
    ]
  ]
