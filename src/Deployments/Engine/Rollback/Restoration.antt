-- ===== src/Deployments/Engine/Rollback/Restoration.antt =====
-- The loop of rollbackLocked that restores the previous members.
use yokai.Prelude.{
  ℕ, String, ◌==◌, concat, not, ◌||◌, Option, none, some, List, [], ◌∷◌, if◌then◌else◌, is_some,
}
use yokai.Deployments.Errors.{Err, Result, ok, err}
use yokai.Deployments.Types.{Phase, Member, Deployment, ObservedContainer}
use yokai.Deployments.Env.{
  Env, Context, M, ◌>>=◌, pure, call_inspect, call_restart, call_wait_running,
}
use yokai.Deployments.Members.{append_unique_strings}
use yokai.Deployments.Engine.Journal.{
  with_previous_status, previous_at, with_error, persist_progress, before_previous_action,
}
use yokai.Deployments.Engine.Rollback.Capture.{with_result}

module _ (env : Env) where
  unfoldable pub wait_restored : Context → ℕ → Deployment → Member → M Deployment
  wait_restored ctx i d m = do
    waited ← call_wait_running env ctx m.device_id m.container_id
    if is_some waited
        then pure (with_error d (concat ("wait for previous " ∷ m.role ∷ " failed" ∷ [])))
        else do
          let running = with_previous_status d i "running"
          (d', e) ←
              persist_progress env running Phase.rollback "restore_previous" m.role "completed"
                "previous member is running"
          pure (
              if is_some e
              then with_error d'
                  (concat ("persist previous " ∷ m.role ∷ " restoration failed" ∷ []))
              else d')

  -- The audit of a restart, made or reconstructed, and then the wait.
  unfoldable pub audit_restart :
      Context → ℕ → Deployment → Member → String → String → String → M Deployment
  audit_restart ctx i d m status detail failure = do
    let listed = with_result d λ r. record r {
      restarted_containers = append_unique_strings r.restarted_containers (m.container_id ∷ []);
    }
    (d', e) ←
        persist_progress env listed Phase.rollback "restore_previous_restart" m.role status detail
    if is_some e
        then pure (with_error d' (concat ("persist previous " ∷ m.role ∷ failure ∷ [])))
        else wait_restored ctx i d' m

  unfoldable pub restore_found :
      Context → ℕ → Deployment → Member → ObservedContainer → M Deployment
  restore_found ctx i d m o =
      if not (o.status == "running") || m.status == "stopping"
      then (do
        e ← call_restart env ctx m.device_id m.container_id
        if is_some e
            then pure (with_error d (concat ("restart previous " ∷ m.role ∷ " failed" ∷ [])))
            else audit_restart ctx i d m "completed" "previous member restart requested"
                " restart audit failed")
      else if m.status == "restarting"
      then audit_restart ctx i d m "recovered" "previous member restart completion reconstructed"
          " reconstructed restart audit failed"
      else wait_restored ctx i d m

  unfoldable pub restore_observed :
      Context → ℕ → Deployment → Member → Result ObservedContainer → M Deployment
  restore_observed ctx i d m (err e) =
      pure (with_error d (concat ("inspect previous " ∷ m.role ∷ " failed" ∷ [])))
  restore_observed ctx i d m (ok o) = restore_found ctx i d m o

  unfoldable pub intended_restore : Context → ℕ → Member → Deployment × Option Err → M Deployment
  intended_restore ctx i m (d, some e) =
      pure (with_error d (concat ("persist " ∷ m.role ∷ " restoration intent failed" ∷ [])))
  intended_restore ctx i m (d, none) = do
    observed ← call_inspect env ctx m.device_id m.container_id
    restore_observed ctx i d m observed

  -- One round of the restoration loop.
  unfoldable pub restore_previous : Context → ℕ → Deployment → M Deployment
  restore_previous ctx i d = do
    let m = previous_at d i
    intended ← before_previous_action env d i Phase.rollback "restore_previous" "restarting"
    intended_restore ctx i m intended

  unfoldable pub restore_all : Context → List ℕ → Deployment → M Deployment
  restore_all ctx [] d = pure d
  restore_all ctx (i ∷ rest) d = restore_previous ctx i d >>= restore_all ctx rest
