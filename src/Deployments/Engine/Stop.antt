-- ===== src/Deployments/Engine/Stop.antt =====
-- Stop, stopLocked and failStart: how a group is taken down.
use yokai.Prelude.{
  ℕ, String, ◌==◌, concat, join, Bool, true, false, not, ◌&&◌, ◌||◌, Option, none, some, List, [],
  ◌∷◌, ◌++◌, if◌then◌else◌, is_empty, is_some,
}
use yokai.Bkc.Types.{worker_role}
use yokai.Deployments.Errors.{
  Err, Result, ok, err, plain, wrapped, conflict, wrap_error, error_text,
}
use yokai.Deployments.Types.{State, Phase, Member, Deployment, ObservedContainer}
use yokai.Deployments.Env.{
  Env, Context, M, ◌>>=◌, pure, call_inspect, call_stop_managed, caller, cleanup,
}
use yokai.Deployments.Store.{get}
use yokai.Deployments.Members.{
  is_observed, validate_managed_member_identity, member_locator, is_head_recipe_bkc,
  reverse_launch_member_indexes, no_deployment,
}
use yokai.Deployments.Engine.Journal.{
  with_member_status, member_at, persist_progress, before_member_action, after_member_action,
}

-- What the loops carry: the deployment, and the errors of the members so far.
pub record Teardown : Type 0 where
  pub deployment : Deployment
  pub stop_errors : List String

abbrev pub refuse : Deployment → List String → List String → Teardown
refuse d errors text = record { deployment = d; stop_errors = errors ++ concat text ∷ [] }

abbrev pub can_stop : State → Bool
can_stop State.running = true
can_stop State.stopping = true
can_stop State.starting = true
can_stop State.failed = true
can_stop _ = false

abbrev pub is_stopped : State → Bool
is_stopped State.stopped = true
is_stopped _ = false

abbrev pub is_down : String → Bool
is_down status = status == "stopped" || status == "exited" || status == "dead"

module _ (env : Env) where
  unfoldable pub stop_recorded : Member → List String → Deployment × Option Err → M Teardown
  stop_recorded m errors (d, none) = pure (record { deployment = d; stop_errors = errors })
  stop_recorded m errors (d, some e) =
      pure (refuse d errors ("persist " ∷ m.role ∷ " stop completion" ∷ []))

  unfoldable pub stop_completed : ℕ → Deployment → List String → Member → Option Err → M Teardown
  unfolding stop_recorded
  stop_completed i d errors m (some e) = pure (refuse d errors ("stop " ∷ m.role ∷ []))
  stop_completed i d errors m none = do
    recorded ← after_member_action env d i Phase.stopping "stop" "stopped"
    stop_recorded m errors recorded

  unfoldable pub stop_observed :
      Context → ℕ → Deployment → List String → Member → Result ObservedContainer → M Teardown
  stop_observed ctx i d errors m (err e) = pure (refuse d errors ("inspect " ∷ m.role ∷ []))
  stop_observed ctx i d errors m (ok o) =
      if is_some (validate_managed_member_identity d m o)
      then pure (refuse d errors ("provenance " ∷ m.role ∷ []))
      else if o.status == "stopped"
      then stop_completed i d errors m none
      else (do e ← call_stop_managed env ctx d m; stop_completed i d errors m e)

  unfoldable pub stop_intended :
      Context → ℕ → List String → Member → Deployment × Option Err → M Teardown
  stop_intended ctx i errors m (d, some e) =
      pure (refuse d errors ("persist " ∷ m.role ∷ " stop intent" ∷ []))
  stop_intended ctx i errors m (d, none) = do
    observed ← call_inspect env ctx m.device_id (member_locator m)
    stop_observed ctx i d errors m observed

  -- One round of the loop of stopLocked.
  unfoldable pub stop_member : Context → ℕ → Teardown → M Teardown
  stop_member ctx i t =
      let d = t.deployment in
      let m = member_at d i in
      if is_observed m.ownership
      then pure (refuse d t.stop_errors ("refused observed " ∷ m.role ∷ []))
      else do
        intended ← before_member_action env d i Phase.stopping "stop" "stopping"
        stop_intended ctx i t.stop_errors m intended

  -- Either loop. For a head recipe it ends at the worker once a member could not be stopped.
  unfoldable pub each_member : (ℕ → Teardown → M Teardown) → List ℕ → Teardown → M Teardown
  each_member round [] t = pure t
  each_member round (i ∷ rest) t =
      let go : Teardown → M Teardown = λ t'. each_member round rest t' in
      if is_head_recipe_bkc env.catalog t.deployment.bkc_id
        && (member_at t.deployment i).role == worker_role
        && not (is_empty t.stop_errors)
      then pure t
      else (round i t >>= go)

  unfoldable pub stop_finished : Teardown → M (Deployment × Option Err)
  stop_finished t =
      if is_empty t.stop_errors
      then (do
        let done = record t.deployment { state = State.stopped }
        (d, e) ←
            persist_progress env done Phase.complete "stop_group" "" "completed"
              "all managed members stopped"
        pure (if is_some e then (no_deployment, e) else (d, none)))
      else (do
        let text = concat ("group stop incomplete: " ∷ join ", " t.stop_errors ∷ [])
        let broken = record t.deployment { state = State.failed; error = text }
        (d, e) ← persist_progress env broken Phase.complete "stop_group" "" "failed" text
        pure (
            if is_some e
            then (d, e)
            else (d, some (wrap_error conflict "stop deployment" (plain text)))))

  unfoldable pub stop_journaled : Context → Deployment × Option Err → M (Deployment × Option Err)
  stop_journaled ctx (d, some e) = pure (no_deployment, some e)
  stop_journaled ctx (d, none) = do
    let order = reverse_launch_member_indexes env.catalog d
    t ← each_member (stop_member ctx) order (record { deployment = d; stop_errors = [] })
    stop_finished t

  -- stopLocked
  unfoldable pub stop_locked : Context → Deployment → M (Deployment × Option Err)
  stop_locked ctx d =
      if is_stopped d.state
      then pure (d, none)
      else if not (can_stop d.state)
      then pure (
        no_deployment,
        some (wrap_error conflict "stop deployment" (plain "deployment state cannot be stopped")),
      )
      else do
        let stopping = record d { state = State.stopping }
        journaled ←
            persist_progress env stopping Phase.stopping "stop_group" "" "started"
              "reverse launch order"
        stop_journaled ctx journaled

  -- Stop
  unfoldable pub stop : String → M (Deployment × Option Err)
  stop id s = elim (get id s.doc) [
    | err e ↦ ((no_deployment, some e), s)
    | ok d ↦ stop_locked caller d s
  ]

  fail_stopped : ℕ → Teardown → Member → Option Err → Teardown
  fail_stopped i t m (some e) = refuse t.deployment t.stop_errors (m.role ∷ [])
  fail_stopped i t m none = record t { deployment = with_member_status t.deployment i "stopped" }

  unfoldable pub fail_observed : ℕ → Teardown → Member → Result ObservedContainer → M Teardown
  unfolding fail_stopped
  fail_observed i t m (err e) = pure (refuse t.deployment t.stop_errors (m.role ∷ []))
  fail_observed i t m (ok o) =
      if is_some (validate_managed_member_identity t.deployment m o)
      then pure (refuse t.deployment t.stop_errors (m.role ∷ []))
      else if is_down o.status
      then pure (fail_stopped i t m none)
      else (do e ← call_stop_managed env cleanup t.deployment m; pure (fail_stopped i t m e))

  -- One round of the loop of failStart.
  unfoldable pub fail_member : ℕ → Teardown → M Teardown
  fail_member i t = do
    let m = member_at t.deployment i
    observed ← call_inspect env cleanup m.device_id (member_locator m)
    fail_observed i t m observed

  unfoldable pub fail_recorded :
      List String → Err → Deployment × Option Err → Deployment × Option Err
  fail_recorded errors cause (d, some e) =
      (d, some (wrapped "" cause (concat ("; persist failed start: " ∷ error_text e ∷ []))))
  fail_recorded errors cause (d, none) =
      if is_empty errors
      then (d, some cause)
      else (d, some (wrapped "" cause (concat ("; failed to stop roles " ∷ join "," errors ∷ []))))

  -- The state and the error that failStart decides.
  unfoldable pub fail_verdict : Teardown → Deployment
  fail_verdict t =
      if is_empty t.stop_errors
      then record t.deployment { state = State.stopped; error = "group start readiness failed" }
      else record t.deployment {
        state = State.failed;
        error = "group start failed and one or more members could not be stopped";
      }

  -- failStart, in the context of a cleanup
  unfoldable pub fail_start : Deployment → Err → M (Deployment × Option Err)
  fail_start d cause = do
    let order = reverse_launch_member_indexes env.catalog d
    t ← each_member fail_member order (record { deployment = d; stop_errors = [] })
    let verdict = fail_verdict t
    recorded ← persist_progress env verdict Phase.complete "start_group" "" "failed" verdict.error
    pure (fail_recorded t.stop_errors cause recorded)
