-- ===== src/Deployments/Safety/Restoration.antt =====
-- The restoration of the previous members, and rollbackLocked as a whole.
use yokai.Prelude.{
  ℕ, ◌≡◌, refl, not, ◌||◌, ◌==◌, is_some, Bool-cases, inl, inr, String, Bool, true, false, Option,
  none, some, if◌then◌else◌, List, [], ◌∷◌, arith,
}
use yokai.Deployments.Errors.{Err, Result, ok, err}
use yokai.Deployments.Types.{Phase, Member, Deployment, ObservedContainer}
use yokai.Deployments.Env.{Env, Context, Sys, pure, call_inspect, call_restart}
use yokai.Deployments.Engine.Rollback.Restoration.{
  wait_restored, audit_restart, restore_found, restore_observed, intended_restore, restore_previous,
  restore_all,
}
use yokai.Deployments.Engine.Rollback.Capture.{capture_all}
use yokai.Deployments.Engine.Rollback.{
  clean_group, settle_group, intended_rollback, run_rollback, rollback_locked,
}
use yokai.Deployments.Engine.Journal.{previous_at}
use yokai.Deployments.Safety.{IsSafe, IsSelected, IsRestorable}
use yokai.Deployments.Safety.Journal.{
  persist_progress-IsSafe, before_previous_action-IsSafe, before_previous_action-IsSelected,
}
use yokai.Deployments.Safety.Rollback.{capture_all-IsSafe, clean_candidates-IsSafe}

module _ (env : Env) (ctx : Context) where
  wait_restored-IsSafe :
      (i : ℕ) (d : Deployment) (m : Member) (s : Sys)
      → IsSafe s.events
      → IsSafe (wait_restored env ctx i d m s).1.events
  unfolding wait_restored
  wait_restored-IsSafe i d m s h = grind (arith, persist_progress-IsSafe)

  audit_restart-IsSafe :
      (i : ℕ) (d : Deployment) (m : Member) (status detail failure : String) (s : Sys)
      → IsSafe s.events
      → IsSafe (audit_restart env ctx i d m status detail failure s).1.events
  unfolding audit_restart
  audit_restart-IsSafe i d m status detail failure s h =
      grind (arith, persist_progress-IsSafe, wait_restored-IsSafe)

  restore_found-IsSafe :
      (i : ℕ) (d : Deployment) (m : Member) (o : ObservedContainer) (s : Sys)
      → IsSafe s.events
      → IsRestorable m.device_id m.container_id s.events
      → IsSafe (restore_found env ctx i d m o s).1.events
  unfolding restore_found
  restore_found-IsSafe i d m o s h j =
      let s' = (call_restart env ctx m.device_id m.container_id s).1 in
      let asked =
        audit_restart-IsSafe i d m "completed" "previous member restart requested"
          " restart audit failed" s' (j, h) in
      let rebuilt =
        audit_restart-IsSafe i d m "recovered" "previous member restart completion reconstructed"
          " reconstructed restart audit failed" s h in
      elim (Bool-cases (not (o.status == "running") || m.status == "stopping")) [
        | inl e ↦
            elim (Bool-cases (is_some (env.restart s.events ctx m.device_id m.container_id))) [
              | inl e' ↦ rw (e, e') (j, h)
              | inr e' ↦ rw (e, e') asked
            ]
        | inr e ↦ elim (Bool-cases (m.status == "restarting")) [
          | inl e' ↦ rw (e, e') rebuilt
          | inr e' ↦ rw (e, e') (wait_restored-IsSafe i d m s h)
        ]
      ]

  -- A restore that goes on at the answer to the inspection of the member.
  restore_observed-IsSafe :
      (i : ℕ) (d : Deployment) (m : Member) (o : Result ObservedContainer) (s : Sys)
      → IsSafe s.events
      → ((x : ObservedContainer) → o ≡ ok x → IsRestorable m.device_id m.container_id s.events)
      → IsSafe (restore_observed env ctx i d m o s).1.events
  unfolding restore_observed
  restore_observed-IsSafe i d m (err e) s h j = h
  restore_observed-IsSafe i d m (ok o) s h j = restore_found-IsSafe i d m o s h (j o refl)

  intended_restore-IsSafe :
      (i : ℕ) (m : Member) (t : Deployment × Option Err) (s : Sys)
      → IsSafe s.events
      → (t.1 ≡ none
          → IsSelected Phase.rollback "restore_previous" m.device_id m.container_id s.events)
      → IsSafe (intended_restore env ctx i m t s).1.events
  unfolding intended_restore
  intended_restore-IsSafe i m (d, some e) s h j = h
  intended_restore-IsSafe i m (d, none) s h j =
      restore_observed-IsSafe i d m _ (call_inspect env ctx m.device_id m.container_id s).1 (tt, h)
        (λ x e. rw e (refl, refl, j refl))

  restore_previous-IsSafe :
      (i : ℕ) (d : Deployment) (s : Sys)
      → IsSafe s.events
      → IsSafe (restore_previous env ctx i d s).1.events
  unfolding restore_previous
  restore_previous-IsSafe i d s h =
      intended_restore-IsSafe i (previous_at d i) _ _
        (before_previous_action-IsSafe env d i Phase.rollback "restore_previous" "restarting" s h)
        (before_previous_action-IsSelected env d i Phase.rollback "restore_previous" "restarting" s)

  restore_all-IsSafe :
      (is : List ℕ) (d : Deployment) (s : Sys)
      → IsSafe s.events
      → IsSafe (restore_all env ctx is d s).1.events
  unfolding restore_all
  restore_all-IsSafe [] d s h = h
  restore_all-IsSafe (i ∷ is) d s h =
      let (d', s') = restore_previous env ctx i d s in
      restore_all-IsSafe is d' s' (restore_previous-IsSafe i d s h)

  captured-IsSafe :
      (head : Bool) (redaction : String) (d : Deployment) (s : Sys)
      → IsSafe s.events
      → IsSafe ((if head then capture_all env ctx redaction d.members d else pure d) s).1.events
  captured-IsSafe true redaction d s h = capture_all-IsSafe env ctx redaction d.members d s h
  captured-IsSafe false redaction d s h = h

  restored-IsSafe :
      (is_safe : Bool) (is : List ℕ) (d : Deployment) (s : Sys)
      → IsSafe s.events
      → IsSafe ((if is_safe then restore_all env ctx is d else pure d) s).1.events
  restored-IsSafe true is d s h = restore_all-IsSafe is d s h
  restored-IsSafe false is d s h = h

  run_rollback-IsSafe :
      (redaction : String) (d : Deployment) (s : Sys)
      → IsSafe s.events
      → IsSafe (run_rollback env ctx redaction d s).1.events
  unfolding run_rollback clean_group settle_group
  run_rollback-IsSafe redaction d s h = persist_progress-IsSafe env _ _ _ _ _ _ _ (
      restored-IsSafe _ _ _ _
        (clean_candidates-IsSafe env ctx redaction _ _ _ _ (captured-IsSafe _ redaction d s h)))

  intended_rollback-IsSafe :
      (redaction : String) (r : Deployment × Option Err) (s : Sys)
      → IsSafe s.events
      → IsSafe (intended_rollback env ctx redaction r s).1.events
  unfolding intended_rollback
  intended_rollback-IsSafe redaction (d, some e) s h = h
  intended_rollback-IsSafe redaction (d, none) s h = run_rollback-IsSafe redaction d s h

  pub rollback_locked-IsSafe :
      (d : Deployment) (cause redaction : String) (s : Sys)
      → IsSafe s.events
      → IsSafe (rollback_locked env ctx d cause redaction s).1.events
  unfolding rollback_locked
  rollback_locked-IsSafe d cause redaction s h =
      intended_rollback-IsSafe redaction _ _ (persist_progress-IsSafe env _ _ _ _ _ _ s h)
