-- ===== src/Deployments/Safety/Rollback.antt =====
-- A rollback removes no container but the deployment's own candidates.
use yokai.Prelude.{ℕ, String, ◌≡◌, refl, sym, subst, Bool, true, false, List, [], ◌∷◌, arith}
use yokai.Deployments.Types.{Member, Deployment}
use yokai.Deployments.Env.{Env, Context, Sys, call_inspect}
use yokai.Deployments.Store.{put}
use yokai.Deployments.Engine.Journal.{persist_progress}
use yokai.Deployments.Engine.Rollback.Capture.{capture_candidate_logs, capture_all}
use yokai.Deployments.Engine.Rollback.Removal.{
  Cleanup, removal_recorded, remove_candidate, inspected_candidate, intended_removal,
  clean_candidate, clean_candidates,
}
use yokai.Deployments.Safety.{IsSafe, IsVouched, validate_managed_member_identity-Owns}
use yokai.Deployments.Safety.Journal.{before_member_action-IsSafe, after_member_action-IsSafe}

module _ (env : Env) (ctx : Context) (redaction : String) where
  capture-IsSafe :
      (d : Deployment) (m : Member) (s : Sys)
      → IsSafe s.events
      → IsSafe (capture_candidate_logs env ctx d m redaction s).1.events
  unfolding capture_candidate_logs persist_progress put
  capture-IsSafe d m s h = (tt, (tt, h))

  capture-IsVouched :
      (id : String) (d : Deployment) (m n : Member) (s : Sys)
      → IsVouched id n s.events
      → IsVouched id n (capture_candidate_logs env ctx d m redaction s).1.events
  unfolding capture_candidate_logs persist_progress put
  capture-IsVouched id d m n s h = h

  capture-id :
      (d : Deployment) (m : Member) (s : Sys)
      → (capture_candidate_logs env ctx d m redaction s).0.id ≡ d.id
  unfolding capture_candidate_logs persist_progress
  capture-id d m s = refl

  -- A removal and the record of it, at a member that is vouched for.
  remove_candidate-IsSafe :
      (head : Bool) (i : ℕ) (d : Deployment) (safe : Bool) (m : Member) (s : Sys)
      → IsSafe s.events
      → IsVouched d.id m s.events
      → IsSafe (remove_candidate env ctx redaction head i d safe m s).1.events
  unfolding remove_candidate removal_recorded
  remove_candidate-IsSafe true i d safe m s h v = grind (arith, after_member_action-IsSafe)
  remove_candidate-IsSafe false i d safe m s h v =
      let k =
        subst (λ id. IsVouched id m (capture_candidate_logs env ctx d m redaction s).1.events)
          (sym (capture-id d m s)) (capture-IsVouched d.id d m m s v) in
      grind (arith, after_member_action-IsSafe, capture-IsSafe d m s h)

  inspected-IsSafe :
      (head : Bool) (i : ℕ) (d : Deployment) (safe : Bool) (m : Member) (locator : String) (s : Sys)
      → IsSafe s.events
      → (let (o, s') = call_inspect env ctx m.device_id locator s in
          IsSafe (inspected_candidate env ctx redaction head i d safe m o s').1.events)
  unfolding inspected_candidate
  inspected-IsSafe head i d safe m locator s h =
      grind (arith, remove_candidate-IsSafe, validate_managed_member_identity-Owns)

  clean_candidate-IsSafe :
      (head : Bool) (i : ℕ) (c : Cleanup) (s : Sys)
      → IsSafe s.events
      → IsSafe (clean_candidate env ctx redaction head i c s).1.events
  unfolding clean_candidate intended_removal
  clean_candidate-IsSafe head i c s h = grind (arith, inspected-IsSafe, before_member_action-IsSafe)

  pub clean_candidates-IsSafe :
      (head : Bool) (is : List ℕ) (c : Cleanup) (s : Sys)
      → IsSafe s.events
      → IsSafe (clean_candidates env ctx redaction head is c s).1.events
  unfolding clean_candidates
  clean_candidates-IsSafe head [] c s h = h
  clean_candidates-IsSafe head (i ∷ is) c s h =
      let (c', s') = clean_candidate env ctx redaction head i c s in
      ground (arith, clean_candidate-IsSafe head i c s h, clean_candidates-IsSafe head is c' s')

  pub capture_all-IsSafe :
      (ms : List Member) (d : Deployment) (s : Sys)
      → IsSafe s.events
      → IsSafe (capture_all env ctx redaction ms d s).1.events
  unfolding capture_all
  capture_all-IsSafe [] d s h = h
  capture_all-IsSafe (m ∷ ms) d s h =
      let (d', s') = capture_candidate_logs env ctx d m redaction s in
      ground
        (arith, capture-IsSafe d m s h, capture_all-IsSafe ms d s h, capture_all-IsSafe ms d' s')
