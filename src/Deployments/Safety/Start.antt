-- ===== src/Deployments/Safety/Start.antt =====
-- Start and markUnsafeRunning touch no container but the deployment's own.
use yokai.Prelude.{
  Bool-cases, Option-cases, inl, inr, ℕ, String, Option, none, some, List, [], ◌∷◌, arith,
}
use yokai.Deployments.Errors.{Err, Result}
use yokai.Deployments.Types.{Member, Deployment, ObservedContainer}
use yokai.Deployments.Env.{Env, Sys, call_inspect, caller}
use yokai.Deployments.Members.{member_locator}
use yokai.Deployments.Engine.Journal.{member_at}
use yokai.Deployments.Engine.Readiness.{Readiness}
use yokai.Deployments.Engine.Stop.{is_stopped}
use yokai.Deployments.Engine.Start.{
  Course, Flow, next, leave, can_start, is_running, mark_unsafe_running, verify_running,
  verify_observed, start_observed, start_role, start_roles, start_readiness, start_restarts,
  start_group, start_verified, start_found, start, start_promote, start_ready, start_waits,
  start_recovered,
}
use yokai.Deployments.Safety.{IsSafe, validate_managed_member_identity-Owns}
use yokai.Deployments.Safety.Journal.{
  persist_progress-IsSafe, before_member_action-IsSafe, after_member_action-IsSafe,
}
use yokai.Deployments.Safety.Stop.{fail_start-IsSafe}
use yokai.Deployments.Safety.Readiness.{wait_ready-IsSafe}

module _ (env : Env) where
  mark_unsafe_running-IsSafe :
      (d : Deployment) (cause : Err) (s : Sys)
      → IsSafe s.events
      → IsSafe (mark_unsafe_running env d cause s).1.events
  unfolding mark_unsafe_running
  mark_unsafe_running-IsSafe d cause s h = persist_progress-IsSafe env _ _ _ _ _ _ s h

  verify_observed-IsSafe :
      (i : ℕ) (c : Course) (m : Member) (o : Result ObservedContainer) (s : Sys)
      → IsSafe s.events
      → IsSafe (verify_observed env i c m o s).1.events
  unfolding verify_observed
  verify_observed-IsSafe i c m o s h = grind (arith, mark_unsafe_running-IsSafe)

  verify_running-IsSafe :
      (is : List ℕ) (c : Course) (s : Sys)
      → IsSafe s.events
      → IsSafe (verify_running env is c s).1.events
  unfolding verify_running
  verify_running-IsSafe [] c s h = h
  verify_running-IsSafe (i ∷ is) c s h =
      let m = member_at c.deployment i in
      let (o, s1) = call_inspect env caller m.device_id (member_locator m) s in
      grind (arith, verify_observed-IsSafe i c m o s1 (tt, h), verify_running-IsSafe is)

  start_observed-IsSafe :
      (i : ℕ) (c : Course) (m : Member) (s : Sys)
      → IsSafe s.events
      → (let (o, s') = call_inspect env caller m.device_id (member_locator m) s in
          IsSafe (start_observed env i c m o s').1.events)
  unfolding start_observed
  start_observed-IsSafe i c m s h =
      grind (
        arith, fail_start-IsSafe, after_member_action-IsSafe, validate_managed_member_identity-Owns,
      )

  start_role-IsSafe :
      (role : String) (c : Course) (s : Sys)
      → IsSafe s.events
      → IsSafe (start_role env role c s).1.events
  unfolding start_role
  start_role-IsSafe role c s h =
      grind (arith, fail_start-IsSafe, before_member_action-IsSafe, start_observed-IsSafe)

  start_roles-IsSafe :
      (roles : List String) (c : Course) (s : Sys)
      → IsSafe s.events
      → IsSafe (start_roles env roles c s).1.events
  unfolding start_roles
  start_roles-IsSafe [] c s h = h
  start_roles-IsSafe (role ∷ rest) c s h =
      grind (arith, start_role-IsSafe role c s h, start_roles-IsSafe rest)

  start_ready-IsSafe :
      (t : Deployment × Option Err) (s : Sys)
      → IsSafe s.events
      → IsSafe (start_ready env t s).1.events
  unfolding start_ready
  start_ready-IsSafe (d, some e) s h = h
  start_ready-IsSafe (d, none) s h = persist_progress-IsSafe env _ _ _ _ _ _ s h

  start_promote-IsSafe :
      (d : Deployment) (r : Readiness) (s : Sys)
      → IsSafe s.events
      → IsSafe (start_promote env d r s).1.events
  unfolding start_promote
  start_promote-IsSafe d r s h = elim (Option-cases r.error) [
    | inl e ↦ rw e (start_ready-IsSafe _ _ (persist_progress-IsSafe env _ _ _ _ _ _ s h))
    | inr (x, e) ↦ rw e (fail_start-IsSafe env _ _ s h)
  ]

  start_readiness-IsSafe :
      (key : String) (t : Deployment × Option Err) (s : Sys)
      → IsSafe s.events
      → IsSafe (start_readiness env key t s).1.events
  unfolding start_readiness
  start_readiness-IsSafe key (d, some e) s h = fail_start-IsSafe env d e s h
  start_readiness-IsSafe key (d, none) s h =
      grind (arith, fail_start-IsSafe, wait_ready-IsSafe, start_promote-IsSafe)

  start_waits-IsSafe :
      (key : String) (flow : Flow Course) (s : Sys)
      → IsSafe s.events
      → IsSafe (start_waits env key flow s).1.events
  unfolding start_waits
  start_waits-IsSafe key (leave r) s h = h
  start_waits-IsSafe key (next c) s h =
      start_readiness-IsSafe key _ _ (persist_progress-IsSafe env _ _ _ _ _ _ s h)

  start_restarts-IsSafe :
      (key : String) (t : Deployment × Option Err) (s : Sys)
      → IsSafe s.events
      → IsSafe (start_restarts env key t s).1.events
  unfolding start_restarts
  start_restarts-IsSafe key (d, some e) s h = h
  start_restarts-IsSafe key (d, none) s h = start_waits-IsSafe key _ _ (start_roles-IsSafe _ _ s h)

  start_group-IsSafe :
      (key : String) (d : Deployment) (s : Sys)
      → IsSafe s.events
      → IsSafe (start_group env key d s).1.events
  unfolding start_group
  start_group-IsSafe key d s h = elim (Bool-cases (can_start d.state)) [
    | inl e ↦ rw e (start_restarts-IsSafe key _ _ (persist_progress-IsSafe env _ _ _ _ _ _ s h))
    | inr e ↦ rw e h
  ]

  start_recovered-IsSafe :
      (key : String) (t : Deployment × Option Err) (s : Sys)
      → IsSafe s.events
      → IsSafe (start_recovered env key t s).1.events
  unfolding start_recovered
  start_recovered-IsSafe key (d, e) s h = elim (Bool-cases (is_stopped d.state)) [
    | inl e' ↦ rw e' (start_group-IsSafe key d s h)
    | inr e' ↦ rw e' h
  ]

  start_verified-IsSafe :
      (key : String) (flow : Flow Course) (s : Sys)
      → IsSafe s.events
      → IsSafe (start_verified env key flow s).1.events
  unfolding start_verified
  start_verified-IsSafe key (leave r) s h = h
  start_verified-IsSafe key (next c) s h = elim (Bool-cases c.flag) [
    | inl e ↦ rw e (start_recovered-IsSafe key _ _ (fail_start-IsSafe env _ _ s h))
    | inr e ↦ rw e h
  ]

  start_found-IsSafe :
      (key : String) (d : Deployment) (s : Sys)
      → IsSafe s.events
      → IsSafe (start_found env key d s).1.events
  unfolding start_found
  start_found-IsSafe key d s h = elim (Bool-cases (is_running d.state)) [
    | inl e ↦ rw e (start_verified-IsSafe key _ _ (verify_running-IsSafe _ _ s h))
    | inr e ↦ rw e (start_group-IsSafe key d s h)
  ]

  pub start-IsSafe :
      (id key : String) (s : Sys) → IsSafe s.events → IsSafe (start env id key s).1.events
  unfolding start
  start-IsSafe id key s h = grind (arith, start_found-IsSafe)
