-- ===== src/Deployments/Safety/Stages.antt =====
-- A stage of a create that goes on keeps the roles of the members.
use yokai.Prelude.{ℕ, suc, String, refl, ◌∙◌, Option, none, some, List, [], ◌∷◌, arith}
use yokai.Deployments.Errors.{Err, Result, ok, err}
use yokai.Deployments.Types.{Phase, Binding, Member, Deployment, ObservedContainer}
use yokai.Deployments.Env.{Env, Sys}
use yokai.Deployments.Engine.Journal.{
  persist_progress, before_member_action, after_member_action, before_previous_action,
  after_previous_action,
}
use yokai.Deployments.Engine.Create.{
  Plan, Stage, going, over, stage_over, stage_recorded, pull_intended, pull_binding,
  cutover_intended, stop_previous, stop_each, request_ended, launched_member, launch_answered,
  launch_intended, launch_member, launch_role, pull_each,
}
use yokai.Deployments.Safety.Roles.{IsPaired, roles_of-modify}

abbrev pub IsOrdered : Plan → Stage → Type 0
IsOrdered p (going d) = IsPaired p d
IsOrdered p (over r) = Unit

module _ (env : Env) (p : Plan) where
  stage_over-IsOrdered :
      (d : Deployment) (cause : Err) (safe_cause : String) (s : Sys)
      → IsOrdered p (stage_over env p d cause safe_cause s).0
  unfolding stage_over
  stage_over-IsOrdered d cause safe_cause s = tt

  stage_recorded-IsOrdered :
      (safe_cause : String) (t : Deployment × Option Err) (s : Sys)
      → IsPaired p t.0
      → IsOrdered p (stage_recorded env p safe_cause t s).0
  unfolding stage_recorded
  stage_recorded-IsOrdered safe_cause (d, none) s h = h
  stage_recorded-IsOrdered safe_cause (d, some e) s h = stage_over-IsOrdered d e safe_cause s

  after_member-IsOrdered :
      (d : Deployment) (i : ℕ) (phase : Phase) (action status safe_cause : String) (s : Sys)
      → IsPaired p d
      → (let (t, s') = after_member_action env d i phase action status s in
          IsOrdered p (stage_recorded env p safe_cause t s').0)
  unfolding after_member_action persist_progress
  after_member-IsOrdered d i phase action status safe_cause s h =
      stage_recorded-IsOrdered safe_cause _ _ (roles_of-modify d.members i _ (λ m. refl) ∙ h)

  pull_intended-IsOrdered :
      (i : ℕ) (b : Binding) (t : Deployment × Option Err) (s : Sys)
      → IsPaired p t.0
      → IsOrdered p (pull_intended env p i b t s).0
  unfolding pull_intended
  pull_intended-IsOrdered i b (d, some e) s h = stage_over-IsOrdered d e _ s
  pull_intended-IsOrdered i b (d, none) s h =
      grind (arith, stage_over-IsOrdered, after_member-IsOrdered)

  pub pull_binding-IsOrdered :
      (i : ℕ) (b : Binding) (d : Deployment) (s : Sys)
      → IsPaired p d
      → IsOrdered p (pull_binding env p i b d s).0
  unfolding pull_binding before_member_action persist_progress
  pull_binding-IsOrdered i b d s h =
      pull_intended-IsOrdered i b _ _ (roles_of-modify d.members i _ (λ m. refl) ∙ h)

  pub pull_each-IsOrdered :
      (i : ℕ) (bs : List Binding) (d : Deployment) (s : Sys)
      → IsPaired p d
      → IsOrdered p (pull_each env p i bs d s).0
  unfolding pull_each
  pull_each-IsOrdered i [] d s h = h
  pull_each-IsOrdered i (b ∷ bs) d s h =
      grind (arith, pull_binding-IsOrdered i b d s h, pull_each-IsOrdered (suc i) bs)

  cutover_intended-IsOrdered :
      (i : ℕ) (m : Member) (t : Deployment × Option Err) (s : Sys)
      → IsPaired p t.0
      → IsOrdered p (cutover_intended env p i m t s).0
  unfolding cutover_intended after_previous_action persist_progress
  cutover_intended-IsOrdered i m (d, some e) s h = stage_over-IsOrdered d e _ s
  cutover_intended-IsOrdered i m (d, none) s h =
      grind (arith, stage_over-IsOrdered, stage_recorded-IsOrdered)

  stop_previous-IsOrdered :
      (i : ℕ) (d : Deployment) (s : Sys) → IsPaired p d → IsOrdered p (stop_previous env p i d s).0
  unfolding stop_previous before_previous_action persist_progress
  stop_previous-IsOrdered i d s h = cutover_intended-IsOrdered i _ _ _ h

  pub stop_each-IsOrdered :
      (is : List ℕ) (d : Deployment) (s : Sys)
      → IsPaired p d
      → IsOrdered p (stop_each env p is d s).0
  unfolding stop_each
  stop_each-IsOrdered [] d s h = h
  stop_each-IsOrdered (i ∷ is) d s h =
      grind (arith, stop_previous-IsOrdered i d s h, stop_each-IsOrdered is)

  request_ended-IsOrdered :
      (g : Stage) (s : Sys) → IsOrdered p g → IsOrdered p (request_ended env p g s).0
  unfolding request_ended
  request_ended-IsOrdered (over r) s h = h
  request_ended-IsOrdered (going d) s h = grind (arith, stage_over-IsOrdered)

  launch_answered-IsOrdered :
      (i : ℕ) (b : Binding) (d : Deployment) (o : Result ObservedContainer) (s : Sys)
      → IsPaired p d
      → IsOrdered p (launch_answered env p i b d o s).0
  unfolding launch_answered launched_member
  launch_answered-IsOrdered i b d (err x) s h = stage_over-IsOrdered d _ _ s
  launch_answered-IsOrdered i b d (ok c) s h =
      request_ended-IsOrdered _ _
        (after_member-IsOrdered _ i _ _ _ _ s (roles_of-modify d.members i _ (λ m. refl) ∙ h))

  launch_intended-IsOrdered :
      (i : ℕ) (b : Binding) (t : Deployment × Option Err) (s : Sys)
      → IsPaired p t.0
      → IsOrdered p (launch_intended env p i b t s).0
  unfolding launch_intended
  launch_intended-IsOrdered i b (d, some e) s h = stage_over-IsOrdered d e _ s
  launch_intended-IsOrdered i b (d, none) s h = launch_answered-IsOrdered i b d _ _ h

  launch_member-IsOrdered :
      (role : String) (d : Deployment) (at : Option ℕ) (s : Sys)
      → IsPaired p d
      → IsOrdered p (launch_member env p role d at s).0
  unfolding launch_member before_member_action persist_progress
  launch_member-IsOrdered role d none s h = tt
  launch_member-IsOrdered role d (some i) s h =
      launch_intended-IsOrdered i _ _ _ (roles_of-modify d.members i _ (λ m. refl) ∙ h)

  pub launch_role-IsOrdered :
      (role : String) (d : Deployment) (s : Sys)
      → IsPaired p d
      → IsOrdered p (launch_role env p role d s).0
  unfolding launch_role
  launch_role-IsOrdered role d s h = launch_member-IsOrdered role d _ s h
