-- ===== src/Deployments/Engine/Start.antt =====
-- Start and markUnsafeRunning.
use yokai.Prelude.{
  ℕ, String, ◌==◌, concat, Bool, true, false, not, ◌||◌, Option, none, some, List, [], ◌∷◌,
  if◌then◌else◌, indexes,
}
use yokai.Deployments.Errors.{
  Err, Result, ok, err, plain, wrapped, validation, conflict, wrap_error, is_error, error_text,
  container_not_found,
}
use yokai.Deployments.Types.{State, Phase, Member, Deployment, ObservedContainer}
use yokai.Deployments.Env.{Env, M, ◌>>=◌, pure, call_inspect, call_restart_managed, caller}
use yokai.Deployments.Store.{get}
use yokai.Deployments.Members.{
  validate_managed_member_identity, member_locator, member_index_by_role, deployment_launch_order,
  no_deployment,
}
use yokai.Deployments.Engine.Journal.{
  with_member_status, member_at, persist_progress, before_member_action, after_member_action,
}
use yokai.Deployments.Engine.Stop.{is_stopped, is_down, fail_start}
use yokai.Deployments.Engine.Readiness.{
  Readiness, wait_ready, readiness_operation_error, expected_stored_deployment_model,
  validate_deployment_api_key,
}

-- A loop goes on with a value, or the function returns.
pub data Flow {ℓ} (A : Type ℓ) : Type ℓ where
  next : A → Flow A
  leave : Deployment × Option Err → Flow A

-- The deployment, and whether a rank exited (in the check of a running group) or a restart may
-- have happened (in the loop of Start).
pub record Course : Type 0 where
  pub deployment : Deployment
  pub flag : Bool

abbrev pub is_running : State → Bool
is_running State.running = true
is_running _ = false

abbrev pub can_start : State → Bool
can_start State.stopped = true
can_start State.starting = true
can_start _ = false

module _ (env : Env) where
  unfoldable pub unsafe_recorded : Err → Deployment × Option Err → Deployment × Option Err
  unsafe_recorded cause (d, some e) =
      (d, some (wrapped "" cause (concat ("; persist unsafe running state: " ∷ error_text e ∷ []))))
  unsafe_recorded cause (d, none) =
      (d, some (wrap_error conflict "verify running deployment" cause))

  -- markUnsafeRunning
  unfoldable pub mark_unsafe_running : Deployment → Err → M (Deployment × Option Err)
  mark_unsafe_running d cause = do
    let text : String = "running deployment member verification failed"
    let broken = record d { state = State.failed; error = text }
    recorded ← persist_progress env broken Phase.complete "verify_running" "" "failed" text
    pure (unsafe_recorded cause recorded)

  unfoldable pub verify_observed : ℕ → Course → Member → Result ObservedContainer → M (Flow Course)
  verify_observed i c m (err e) = do
    r ←
        mark_unsafe_running c.deployment
          (wrapped (concat ("inspect " ∷ m.role ∷ " rank: " ∷ [])) e "")
    pure (leave r)
  verify_observed i c m (ok o) = elim (validate_managed_member_identity c.deployment m o) [
    | some e ↦ do r ← mark_unsafe_running c.deployment e; pure (leave r)
    | none ↦
        let d = with_member_status c.deployment i o.status in
        if o.status == "running"
        then pure (next (record c { deployment = d }))
        else if is_down o.status
        then pure (next (record { deployment = d; flag = true }))
        else (do
          r ←
              mark_unsafe_running d
                (plain (concat ("managed " ∷ m.role ∷ " rank is " ∷ o.status ∷ [])))
          pure (leave r))
  ]

  -- The check of every member of a running group.
  unfoldable pub verify_running : List ℕ → Course → M (Flow Course)
  verify_running [] c = pure (next c)
  verify_running (i ∷ rest) c = do
    let m = member_at c.deployment i
    observed ← call_inspect env caller m.device_id (member_locator m)
    flow ← verify_observed i c m observed
    elim flow [ leave r ↦ pure (leave r) | next c' ↦ verify_running rest c' ]

  -- An error in the loop of Start: cleaned up if a restart may have happened, else returned.
  give_up : Course → Err → M (Flow Course)
  give_up c e =
      if c.flag
      then (do r ← fail_start env c.deployment e; pure (leave r))
      else pure (leave (no_deployment, some e))

  start_failed : Deployment → Err → M (Flow Course)
  start_failed d e = do r ← fail_start env d e; pure (leave r)

  start_recorded : Bool → Deployment × Option Err → M (Flow Course)
  unfolding give_up
  start_recorded flag (d, none) = pure (next (record { deployment = d; flag = flag }))
  start_recorded flag (d, some e) = give_up (record { deployment = d; flag = flag }) e

  start_restarted : ℕ → Course → Option Err → M (Flow Course)
  unfolding start_recorded start_failed
  start_restarted i c (some e) = start_failed c.deployment e
  start_restarted i c none = do
    recorded ← after_member_action env c.deployment i Phase.starting "restart" "running"
    start_recorded c.flag recorded

  unfoldable pub start_observed : ℕ → Course → Member → Result ObservedContainer → M (Flow Course)
  unfolding give_up start_failed start_restarted
  start_observed i c m (err e) =
      if is_error e container_not_found
      then start_failed c.deployment (
          wrap_error conflict "start deployment"
            (plain (concat ("managed " ∷ m.role ∷ " member is absent" ∷ []))))
      else give_up c e
  start_observed i c m (ok o) = elim (validate_managed_member_identity c.deployment m o) [
    | some e ↦ start_failed c.deployment (wrap_error conflict "start deployment" e)
    | none ↦
        if not (o.status == "running") || m.status == "stopping"
        then (do
          e ← call_restart_managed env caller c.deployment m
          start_restarted i (record c { flag = true }) e)
        else start_restarted i c none
  ]

  start_intended : ℕ → Member → Bool → Deployment × Option Err → M (Flow Course)
  unfolding give_up
  start_intended i m flag (d, some e) = give_up (record { deployment = d; flag = flag }) e
  start_intended i m flag (d, none) = do
    observed ← call_inspect env caller m.device_id (member_locator m)
    start_observed i (record { deployment = d; flag = flag }) m observed

  -- One round of the loop of Start.
  unfoldable pub start_role : String → Course → M (Flow Course)
  unfolding give_up start_intended
  start_role role c = elim (member_index_by_role c.deployment.members role) [
    | none ↦ give_up c (
        wrap_error conflict "start deployment"
          (plain (concat ("deployment has no " ∷ role ∷ " member" ∷ []))))
    | some i ↦ do
      let m = member_at c.deployment i
      intended ← before_member_action env c.deployment i Phase.starting "restart" "starting"
      start_intended i m c.flag intended
  ]

  unfoldable pub start_roles : List String → Course → M (Flow Course)
  start_roles [] c = pure (next c)
  start_roles (role ∷ rest) c = do
    flow ← start_role role c
    elim flow [ leave r ↦ pure (leave r) | next c' ↦ start_roles rest c' ]

  unfoldable pub start_ready : Deployment × Option Err → M (Deployment × Option Err)
  start_ready (d, some e) = pure (d, some e)
  start_ready (d, none) =
      persist_progress env (record d { state = State.running }) Phase.running "start_group" ""
        "completed" "both ranks running and semantic gates passed"

  -- From the readiness loop to the promotion.
  unfoldable pub start_promote : Deployment → Readiness → M (Deployment × Option Err)
  start_promote d r = elim r.error [
    | some e ↦ fail_start env (record d { members = r.members }) (readiness_operation_error e)
    | none ↦ do
      let tested = record d { members = r.members; last_test = some r.result }
      ready ←
          persist_progress env tested Phase.readiness "readiness" "" "completed"
            "both ranks running and semantic gates passed"
      start_ready ready
  ]

  unfoldable pub start_readiness : String → Deployment × Option Err → M (Deployment × Option Err)
  start_readiness key (d, some e) = fail_start env d e
  start_readiness key (d, none) = elim (expected_stored_deployment_model env.catalog d) [
    | err e ↦ fail_start env d e
    | ok expected ↦ do r ← wait_ready env caller d.members key expected d.bkc_id; start_promote d r
  ]

  unfoldable pub start_waits : String → Flow Course → M (Deployment × Option Err)
  start_waits key (leave r) = pure r
  start_waits key (next c) = do
    recorded ←
        persist_progress env c.deployment Phase.readiness "readiness" "" "started"
          "waiting for both ranks and semantic gates"
    start_readiness key recorded

  unfoldable pub start_restarts : String → Deployment × Option Err → M (Deployment × Option Err)
  start_restarts key (d, some e) = pure (no_deployment, some e)
  start_restarts key (d, none) = do
    flow ←
        start_roles (deployment_launch_order env.catalog d)
          (record { deployment = d; flag = false })
    start_waits key flow

  -- Start from the test of the state on.
  unfoldable pub start_group : String → Deployment → M (Deployment × Option Err)
  start_group key d =
      if not (can_start d.state)
      then pure (
        no_deployment,
        some (wrap_error conflict "start deployment" (plain "deployment state cannot be started")),
      )
      else do
        let starting = record d { state = State.starting; error = "" }
        journaled ←
            persist_progress env starting Phase.starting "start_group" "" "started"
              "recipe launch order"
        start_restarts key journaled

  unfoldable pub start_recovered : String → Deployment × Option Err → M (Deployment × Option Err)
  start_recovered key (d, e) = if is_stopped d.state then start_group key d else pure (d, e)

  unfoldable pub start_verified : String → Flow Course → M (Deployment × Option Err)
  start_verified key (leave r) = pure r
  start_verified key (next c) = if not c.flag then pure (c.deployment, none) else do
    recovered ←
        fail_start env c.deployment (
          wrap_error conflict "verify running deployment"
            (plain "one or more managed ranks exited"))
    start_recovered key recovered

  -- Start at a stored deployment with a valid key.
  unfoldable pub start_found : String → Deployment → M (Deployment × Option Err)
  start_found key d =
      if is_running d.state
      then (do
        flow ← verify_running (indexes 0 d.members) (record { deployment = d; flag = false })
        start_verified key flow)
      else start_group key d

  -- Start
  unfoldable pub start : String → String → M (Deployment × Option Err)
  start id key s = elim (get id s.doc) [
    | err e ↦ ((no_deployment, some e), s)
    | ok d ↦ elim (validate_deployment_api_key env.catalog d.bkc_id key) [
      | some e ↦ ((no_deployment, some (wrap_error validation "validate api key" e)), s)
      | none ↦ start_found key d s
    ]
  ]
