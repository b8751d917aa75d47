-- ===== src/Deployments/Safety/Stop.antt =====
-- Stop and failStart touch no container but the deployment's own.
use yokai.Prelude.{ℕ, String, Option, none, some, List, [], ◌∷◌, arith, Bool-cases, inl, inr}
use yokai.Deployments.Errors.{Err}
use yokai.Deployments.Types.{Member, Deployment}
use yokai.Deployments.Env.{Env, Context, Sys, M, call_inspect}
use yokai.Deployments.Members.{member_locator}
use yokai.Deployments.Engine.Stop.{
  Teardown, stop_member, each_member, is_stopped, can_stop, stop_finished, stop_journaled,
  stop_locked, stop, fail_member, fail_start, stop_intended, stop_observed, stop_completed,
  fail_observed,
}
use yokai.Deployments.Safety.{IsSafe, validate_managed_member_identity-Owns}
use yokai.Deployments.Safety.Journal.{
  persist_progress-IsSafe, before_member_action-IsSafe, after_member_action-IsSafe,
}

module _ (env : Env) where
  stop_observed-IsSafe :
      (ctx : Context) (i : ℕ) (d : Deployment) (errors : List String) (m : Member) (s : Sys)
      → IsSafe s.events
      → (let (o, s') = call_inspect env ctx m.device_id (member_locator m) s in
          IsSafe (stop_observed env ctx i d errors m o s').1.events)
  unfolding stop_observed stop_completed
  stop_observed-IsSafe ctx i d errors m s h =
      grind (arith, validate_managed_member_identity-Owns, after_member_action-IsSafe)

  stop_member-IsSafe :
      (ctx : Context) (i : ℕ) (t : Teardown) (s : Sys)
      → IsSafe s.events
      → IsSafe (stop_member env ctx i t s).1.events
  unfolding stop_member stop_intended
  stop_member-IsSafe ctx i t s h = grind (arith, stop_observed-IsSafe, before_member_action-IsSafe)

  fail_member-IsSafe :
      (i : ℕ) (t : Teardown) (s : Sys) → IsSafe s.events → IsSafe (fail_member env i t s).1.events
  unfolding fail_member fail_observed
  fail_member-IsSafe i t s h = grind (arith, validate_managed_member_identity-Owns)

  each_member-IsSafe :
      (round : ℕ → Teardown → M Teardown)
      → ((i : ℕ) (t : Teardown) (s : Sys) → IsSafe s.events → IsSafe (round i t s).1.events)
      → (is : List ℕ) (t : Teardown) (s : Sys) → IsSafe s.events
      → IsSafe (each_member env round is t s).1.events
  unfolding each_member
  each_member-IsSafe round keep [] t s h = h
  each_member-IsSafe round keep (i ∷ is) t s h =
      ground (arith, keep i t s h, each_member-IsSafe round keep is (round i t s).0 (round i t s).1)

  stop_finished-IsSafe :
      (t : Teardown) (s : Sys) → IsSafe s.events → IsSafe (stop_finished env t s).1.events
  unfolding stop_finished
  stop_finished-IsSafe t s h = grind (arith, persist_progress-IsSafe)

  stop_journaled-IsSafe :
      (ctx : Context) (r : Deployment × Option Err) (s : Sys)
      → IsSafe s.events
      → IsSafe (stop_journaled env ctx r s).1.events
  unfolding stop_journaled
  stop_journaled-IsSafe ctx (d, some e) s h = h
  stop_journaled-IsSafe ctx (d, none) s h =
      stop_finished-IsSafe _ _
        (each_member-IsSafe (stop_member env ctx) (stop_member-IsSafe ctx) _ _ s h)

  pub stop_locked-IsSafe :
      (ctx : Context) (d : Deployment) (s : Sys)
      → IsSafe s.events
      → IsSafe (stop_locked env ctx d s).1.events
  unfolding stop_locked
  stop_locked-IsSafe ctx d s h = elim (Bool-cases (is_stopped d.state)) [
    | inl e ↦ rw e h
    | inr e ↦ elim (Bool-cases (can_stop d.state)) [
      | inl e' ↦
          rw (e, e') (stop_journaled-IsSafe ctx _ _ (persist_progress-IsSafe env _ _ _ _ _ _ s h))
      | inr e' ↦ rw (e, e') h
    ]
  ]

  pub stop-IsSafe : (id : String) (s : Sys) → IsSafe s.events → IsSafe (stop env id s).1.events
  unfolding stop
  stop-IsSafe id s h = grind (arith, stop_locked-IsSafe)

  pub fail_start-IsSafe :
      (d : Deployment) (cause : Err) (s : Sys)
      → IsSafe s.events
      → IsSafe (fail_start env d cause s).1.events
  unfolding fail_start
  fail_start-IsSafe d cause s h =
      grind
        (arith, persist_progress-IsSafe, each_member-IsSafe (fail_member env) fail_member-IsSafe)
