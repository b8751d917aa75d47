-- ===== src/Deployments/Safety/Effects.antt =====
-- A create pulls, stops and launches only after the intent is on disk.
use yokai.Prelude.{
  ℕ, suc, refl, sym, subst, ◌∙◌, drop, String, ◌≡◌, Option-cases, inl, inr, Option, none, some,
  List, [], ◌∷◌, arith,
}
use yokai.Deployments.Errors.{Err, Result, ok, err}
use yokai.Deployments.Types.{Phase, Binding, Member, Deployment, ObservedContainer}
use yokai.Deployments.Env.{Env, Sys, caller, cleanup}
use yokai.Deployments.Engine.Request.{binding_by_role}
use yokai.Deployments.Engine.Journal.{member_at, previous_at, before_member_action}
use yokai.Deployments.Engine.Create.{
  Plan, Stage, going, over, create_rollback, stage_over, stage_recorded, pull_intended,
  pull_binding, pull_each, cutover_intended, stop_previous, stop_each, request_ended,
  launch_answered, launch_intended, launch_member, launch_role, launch_each,
}
use yokai.Deployments.Members.{member_index_by_role}
use yokai.Deployments.Safety.{IsSafe, IsJournaled, IsSelected}
use yokai.Deployments.Safety.Roles.{IsPaired, paired-role, paired-found}
use yokai.Deployments.Safety.Stages.{pull_binding-IsOrdered, launch_role-IsOrdered}
use yokai.Deployments.Safety.Journal.{
  after_member_action-IsSafe, before_member_action-IsSafe, before_previous_action-IsSafe,
  after_previous_action-IsSafe, before_member_action-IsJournaled, before_previous_action-IsSelected,
}
use yokai.Deployments.Safety.Restoration.{rollback_locked-IsSafe}

module _ (env : Env) where
  pub create_rollback-IsSafe :
      (d : Deployment) (cause : Err) (safe_cause key : String) (s : Sys)
      → IsSafe s.events
      → IsSafe (create_rollback env d cause safe_cause key s).1.events
  unfolding create_rollback
  create_rollback-IsSafe d cause safe_cause key s h =
      rollback_locked-IsSafe env cleanup d safe_cause key s h

  module _ (p : Plan) where
    stage_over-IsSafe :
        (d : Deployment) (cause : Err) (safe_cause : String) (s : Sys)
        → IsSafe s.events
        → IsSafe (stage_over env p d cause safe_cause s).1.events
    unfolding stage_over
    stage_over-IsSafe d cause safe_cause s h = create_rollback-IsSafe d cause safe_cause _ s h

    stage_recorded-IsSafe :
        (safe_cause : String) (t : Deployment × Option Err) (s : Sys)
        → IsSafe s.events
        → IsSafe (stage_recorded env p safe_cause t s).1.events
    unfolding stage_recorded
    stage_recorded-IsSafe safe_cause (d, none) s h = h
    stage_recorded-IsSafe safe_cause (d, some e) s h = stage_over-IsSafe d e safe_cause s h

    pull_intended-IsSafe :
        (i : ℕ) (b : Binding) (t : Deployment × Option Err) (s : Sys)
        → IsSafe s.events
        → (t.1 ≡ none → IsJournaled Phase.pulling "pull" b.role s.events)
        → IsSafe (pull_intended env p i b t s).1.events
    unfolding pull_intended
    pull_intended-IsSafe i b (d, some e) s h j = stage_over-IsSafe d e _ s h
    pull_intended-IsSafe i b (d, none) s h j =
        let j' = j refl in
        elim (Option-cases (env.pull s.events caller b p.config.image)) [
          | inl e ↦ rw e (
              stage_recorded-IsSafe _ _ _
                (after_member_action-IsSafe env d i Phase.pulling "pull" "pulled" _ (j', h)))
          | inr (x, e) ↦ rw e (stage_over-IsSafe d _ _ _ (j', h))
        ]

    pull_binding-IsSafe :
        (i : ℕ) (b : Binding) (d : Deployment) (s : Sys)
        → IsSafe s.events
        → (member_at d i).role ≡ b.role
        → IsSafe (pull_binding env p i b d s).1.events
    unfolding pull_binding
    pull_binding-IsSafe i b d s h role =
        let intended = before_member_action env d i Phase.pulling "pull" "pulling" s in
        pull_intended-IsSafe i b _ _
          (before_member_action-IsSafe env d i Phase.pulling "pull" "pulling" s h)
          (λ e.
            subst (λ r. IsJournaled Phase.pulling "pull" r intended.1.events) role
              (before_member_action-IsJournaled env d i Phase.pulling "pull" "pulling" s e))

    pub pull_each-IsSafe :
        (i : ℕ) (bs : List Binding) (d : Deployment) (s : Sys)
        → IsSafe s.events
        → IsPaired p d
        → drop i p.ordered ≡ bs
        → IsSafe (pull_each env p i bs d s).1.events
    unfolding pull_each
    pull_each-IsSafe i [] d s h paired left = h
    pull_each-IsSafe i (b ∷ bs) d s h paired left =
        let (role, rest) = paired-role p d i b bs paired left in
        grind (
          arith,
          pull_binding-IsSafe i b d s h role,
          pull_binding-IsOrdered env p i b d s paired,
          λ (d' : Deployment) (s' : Sys) (h' : IsSafe s'.events) (paired' : IsPaired p d').
              pull_each-IsSafe (suc i) bs d' s' h' paired' rest,
        )

    cutover_intended-IsSafe :
        (i : ℕ) (m : Member) (t : Deployment × Option Err) (s : Sys)
        → IsSafe s.events
        → (t.1 ≡ none
            → IsSelected Phase.cutover "stop_previous" m.device_id m.container_id s.events)
        → IsSafe (cutover_intended env p i m t s).1.events
    unfolding cutover_intended
    cutover_intended-IsSafe i m (d, some e) s h j = stage_over-IsSafe d e _ s h
    cutover_intended-IsSafe i m (d, none) s h j =
        let j' = j refl in
        elim (Option-cases (env.stop s.events caller m.device_id m.container_id)) [
          | inl e ↦ rw e (
              stage_recorded-IsSafe _ _ _ (
                after_previous_action-IsSafe env d i Phase.cutover "stop_previous" "stopped" _
                  (j', h)))
          | inr (x, e) ↦ rw e (stage_over-IsSafe d _ _ _ (j', h))
        ]

    stop_previous-IsSafe :
        (i : ℕ) (d : Deployment) (s : Sys)
        → IsSafe s.events
        → IsSafe (stop_previous env p i d s).1.events
    unfolding stop_previous
    stop_previous-IsSafe i d s h =
        cutover_intended-IsSafe i (previous_at d i) _ _
          (before_previous_action-IsSafe env d i Phase.cutover "stop_previous" "stopping" s h)
          (before_previous_action-IsSelected env d i Phase.cutover "stop_previous" "stopping" s)

    pub stop_each-IsSafe :
        (is : List ℕ) (d : Deployment) (s : Sys)
        → IsSafe s.events
        → IsSafe (stop_each env p is d s).1.events
    unfolding stop_each
    stop_each-IsSafe [] d s h = h
    stop_each-IsSafe (i ∷ is) d s h =
        grind (arith, stop_previous-IsSafe i d s h, stop_each-IsSafe is)

    request_ended-IsSafe :
        (g : Stage) (s : Sys) → IsSafe s.events → IsSafe (request_ended env p g s).1.events
    unfolding request_ended
    request_ended-IsSafe (over r) s h = h
    request_ended-IsSafe (going d) s h = elim (Option-cases (env.request_error s.events)) [
      | inl e ↦ rw e h
      | inr (x, e) ↦ rw e (stage_over-IsSafe d x _ s h)
    ]

    launch_answered-IsSafe :
        (i : ℕ) (b : Binding) (d : Deployment) (o : Result ObservedContainer) (s : Sys)
        → IsSafe s.events
        → IsSafe (launch_answered env p i b d o s).1.events
    unfolding launch_answered
    launch_answered-IsSafe i b d (err x) s h = stage_over-IsSafe d _ _ s h
    launch_answered-IsSafe i b d (ok c) s h =
        request_ended-IsSafe _ _
          (stage_recorded-IsSafe _ _ _ (after_member_action-IsSafe env _ _ _ _ _ s h))

    launch_intended-IsSafe :
        (i : ℕ) (b : Binding) (t : Deployment × Option Err) (s : Sys)
        → IsSafe s.events
        → (t.1 ≡ none → IsJournaled Phase.launching "launch" b.role s.events)
        → IsSafe (launch_intended env p i b t s).1.events
    unfolding launch_intended
    launch_intended-IsSafe i b (d, some e) s h j = stage_over-IsSafe d e _ s h
    launch_intended-IsSafe i b (d, none) s h j = launch_answered-IsSafe i b d _ _ (j refl, h)

    launch_member-IsSafe :
        (role : String) (d : Deployment) (at : Option ℕ) (s : Sys)
        → IsSafe s.events
        → IsPaired p d
        → member_index_by_role d.members role ≡ at
        → IsSafe (launch_member env p role d at s).1.events
    unfolding launch_member
    launch_member-IsSafe role d none s h paired e = h
    launch_member-IsSafe role d (some i) s h paired e =
        let (own, bound) = paired-found p d role i paired e in
        let intended = before_member_action env d i Phase.launching "launch" "launching" s in
        launch_intended-IsSafe i (binding_by_role p.ordered role) _ _
          (before_member_action-IsSafe env d i Phase.launching "launch" "launching" s h)
          (λ k.
            subst (λ r. IsJournaled Phase.launching "launch" r intended.1.events) (own ∙ sym bound)
              (before_member_action-IsJournaled env d i Phase.launching "launch" "launching" s k))

    launch_role-IsSafe :
        (role : String) (d : Deployment) (s : Sys)
        → IsSafe s.events
        → IsPaired p d
        → IsSafe (launch_role env p role d s).1.events
    unfolding launch_role
    launch_role-IsSafe role d s h paired = launch_member-IsSafe role d _ s h paired refl

    pub launch_each-IsSafe :
        (roles : List String) (d : Deployment) (s : Sys)
        → IsSafe s.events
        → IsPaired p d
        → IsSafe (launch_each env p roles d s).1.events
    unfolding launch_each
    launch_each-IsSafe [] d s h paired = h
    launch_each-IsSafe (role ∷ rest) d s h paired = grind (
      arith,
      launch_role-IsSafe role d s h paired,
      launch_role-IsOrdered env p role d s paired,
      launch_each-IsSafe rest,
    )
