-- ===== src/Deployments/Engine/Rollback/Removal.antt =====
-- The loop of rollbackLocked that removes the candidates.
use yokai.Prelude.{
  ℕ, String, ◌==◌, concat, Bool, false, not, ◌&&◌, Option, none, some, List, [], ◌∷◌, if◌then◌else◌,
  is_none,
}
use yokai.Bkc.Types.{worker_role}
use yokai.Deployments.Errors.{Err, Result, ok, err, is_error, container_not_found}
use yokai.Deployments.Types.{Phase, Member, Deployment, ObservedContainer}
use yokai.Deployments.Env.{Env, Context, M, ◌>>=◌, pure, call_inspect, call_remove_managed}
use yokai.Deployments.Members.{
  is_observed, validate_managed_member_identity, append_unique_strings, candidate_may_exist,
  member_locator,
}
use yokai.Deployments.Engine.Journal.{
  member_at, with_error, before_member_action, after_member_action,
}
use yokai.Deployments.Engine.Rollback.Capture.{with_result, capture_candidate_logs}

-- What the two loops carry: the deployment, and whether every candidate is known absent.
pub record Cleanup : Type 0 where
  pub deployment : Deployment
  pub candidates_safe : Bool

abbrev pub unsafe : Deployment → String → Cleanup
unsafe d text = record { deployment = with_error d text; candidates_safe = false }

module _ (env : Env) where
  unfoldable pub remove_failed : Option Err → Bool
  remove_failed none = false
  remove_failed (some e) = not (is_error e container_not_found)

  unfoldable pub removal_recorded : Bool → String → Deployment × Option Err → M Cleanup
  removal_recorded safe role (d, none) = pure (record { deployment = d; candidates_safe = safe })
  removal_recorded safe role (d, some e) = pure (record {
    deployment = with_error d (concat ("persist " ∷ role ∷ " candidate removal failed" ∷ []));
    candidates_safe = safe;
  })

  -- From the log capture to the end of one round of the removal loop.
  unfoldable pub remove_candidate :
      Context → String → Bool → ℕ → Deployment → Bool → Member → M Cleanup
  remove_candidate ctx redaction head_recipe i d safe m = do
    d' ← if head_recipe then pure d else capture_candidate_logs env ctx d m redaction
    e ← call_remove_managed env ctx d' m
    if remove_failed e
        then pure (unsafe d' (concat ("remove " ∷ m.role ∷ " candidate failed" ∷ [])))
        else do
          let removed = with_result d' λ r. record r {
            removed_candidates = append_unique_strings r.removed_candidates (m.name ∷ []);
          }
          recorded ← after_member_action env removed i Phase.rollback "remove_candidate" "removed"
          removal_recorded safe m.role recorded

  unfoldable pub inspected_candidate :
      Context
      → String
      → Bool
      → ℕ
      → Deployment
      → Bool
      → Member
      → Result ObservedContainer
      → M Cleanup
  inspected_candidate ctx redaction head_recipe i d safe m (err e) =
      if is_error e container_not_found
      then remove_candidate ctx redaction head_recipe i d safe m
      else pure (unsafe d (concat ("inspect " ∷ m.role ∷ " candidate failed" ∷ [])))
  inspected_candidate ctx redaction head_recipe i d safe m (ok o) =
      if is_none (validate_managed_member_identity d m o)
      then remove_candidate ctx redaction head_recipe i d safe (record m { container_id = o.id })
      else pure (unsafe d (concat ("candidate name collision for " ∷ m.role ∷ [])))

  unfoldable pub intended_removal :
      Context → String → Bool → ℕ → Bool → Member → Deployment × Option Err → M Cleanup
  intended_removal ctx redaction head_recipe i safe m (d, some e) =
      pure (unsafe d (concat ("persist " ∷ m.role ∷ " candidate removal intent failed" ∷ [])))
  intended_removal ctx redaction head_recipe i safe m (d, none) = do
    observed ← call_inspect env ctx m.device_id (if head_recipe then member_locator m else m.name)
    inspected_candidate ctx redaction head_recipe i d safe m observed

  -- One round of the removal loop, after the test that ends it.
  unfoldable pub clean_candidate : Context → String → Bool → ℕ → Cleanup → M Cleanup
  clean_candidate ctx redaction head_recipe i c =
      let d = c.deployment in
      let m = member_at d i in
      if not (candidate_may_exist m.status)
      then pure c
      else if is_observed m.ownership
      then pure (unsafe d (concat ("refused to remove observed " ∷ m.role ∷ " candidate" ∷ [])))
      else do
        intended ← before_member_action env d i Phase.rollback "remove_candidate" "removing"
        intended_removal ctx redaction head_recipe i c.candidates_safe m intended

  -- The removal loop. For a head recipe it ends at the worker once a candidate is not safe.
  unfoldable pub clean_candidates : Context → String → Bool → List ℕ → Cleanup → M Cleanup
  clean_candidates ctx redaction head_recipe [] c = pure c
  clean_candidates ctx redaction head_recipe (i ∷ rest) c =
      let round = clean_candidate ctx redaction head_recipe i c in
      let go : Cleanup → M Cleanup = λ c'. clean_candidates ctx redaction head_recipe rest c' in
      if head_recipe && (member_at c.deployment i).role == worker_role && not c.candidates_safe
      then pure c
      else (round >>= go)
