-- ===== src/Deployments/Outcome/Stages.antt =====
-- Where a stage of a create returns, it reports nothing as created.
use yokai.Prelude.{ℕ, suc, String, ◌≡◌, false, Option, none, some, List, [], ◌∷◌, arith}
use yokai.Deployments.Errors.{Err}
use yokai.Deployments.Types.{State, Binding, Member, Deployment}
use yokai.Deployments.Env.{Env, Sys}
use yokai.Deployments.Engine.Create.{
  Plan, Stage, going, over, rolled_back, recovered, create_rollback, replay_state, replay,
  stage_over, stage_recorded, pull_intended, pull_binding, pull_each, cutover_intended,
  stop_previous, stop_each, request_ended, launch_answered, launch_intended, launch_member,
  launch_role, launch_each,
}

-- Where a stage returns, nothing is reported as created.
abbrev pub IsUnmade : Stage → Type 0
IsUnmade (going d) = Unit
IsUnmade (over r) = r.0.created ≡ false

module _ (env : Env) where
  pub create_rollback-unmade :
      (d : Deployment) (cause : Err) (safe_cause key : String) (s : Sys)
      → (create_rollback env d cause safe_cause key s).0.0.created ≡ false
  unfolding create_rollback rolled_back
  create_rollback-unmade d cause safe_cause key s = ground arith

  pub replay_state-unmade :
      (state : State) (d : Deployment) (s : Sys) → (replay_state env state d s).0.0.created ≡ false
  unfolding replay_state recovered
  replay_state-unmade state d s = ground arith

  pub replay-unmade :
      (hash : String) (d : Deployment) (s : Sys) → (replay env hash d s).0.0.created ≡ false
  unfolding replay
  replay-unmade hash d s = grind (arith, replay_state-unmade d.state d s)

  module _ (p : Plan) where
    stage_over-IsUnmade :
        (d : Deployment) (cause : Err) (safe_cause : String) (s : Sys)
        → IsUnmade (stage_over env p d cause safe_cause s).0
    unfolding stage_over
    stage_over-IsUnmade d cause safe_cause s = create_rollback-unmade d cause safe_cause _ s

    stage_recorded-IsUnmade :
        (safe_cause : String) (t : Deployment × Option Err) (s : Sys)
        → IsUnmade (stage_recorded env p safe_cause t s).0
    unfolding stage_recorded
    stage_recorded-IsUnmade safe_cause (d, none) s = tt
    stage_recorded-IsUnmade safe_cause (d, some e) s = stage_over-IsUnmade d e safe_cause s

    pull_intended-IsUnmade :
        (i : ℕ) (b : Binding) (t : Deployment × Option Err) (s : Sys)
        → IsUnmade (pull_intended env p i b t s).0
    unfolding pull_intended
    pull_intended-IsUnmade i b (d, some e) s = stage_over-IsUnmade d e _ s
    pull_intended-IsUnmade i b (d, none) s =
        grind (arith, stage_over-IsUnmade, stage_recorded-IsUnmade)

    pub pull_each-IsUnmade :
        (i : ℕ) (bs : List Binding) (d : Deployment) (s : Sys)
        → IsUnmade (pull_each env p i bs d s).0
    unfolding pull_each pull_binding
    pull_each-IsUnmade i [] d s = tt
    pull_each-IsUnmade i (b ∷ bs) d s =
        grind (arith, pull_intended-IsUnmade, pull_each-IsUnmade (suc i) bs)

    cutover_intended-IsUnmade :
        (i : ℕ) (m : Member) (t : Deployment × Option Err) (s : Sys)
        → IsUnmade (cutover_intended env p i m t s).0
    unfolding cutover_intended
    cutover_intended-IsUnmade i m (d, some e) s = stage_over-IsUnmade d e _ s
    cutover_intended-IsUnmade i m (d, none) s =
        grind (arith, stage_over-IsUnmade, stage_recorded-IsUnmade)

    pub stop_each-IsUnmade :
        (is : List ℕ) (d : Deployment) (s : Sys) → IsUnmade (stop_each env p is d s).0
    unfolding stop_each stop_previous
    stop_each-IsUnmade [] d s = tt
    stop_each-IsUnmade (i ∷ is) d s =
        grind (arith, cutover_intended-IsUnmade, stop_each-IsUnmade is)

    request_ended-IsUnmade :
        (g : Stage) (s : Sys) → IsUnmade g → IsUnmade (request_ended env p g s).0
    unfolding request_ended
    request_ended-IsUnmade (over r) s h = h
    request_ended-IsUnmade (going d) s h = grind (arith, stage_over-IsUnmade)

    launch_intended-IsUnmade :
        (i : ℕ) (b : Binding) (t : Deployment × Option Err) (s : Sys)
        → IsUnmade (launch_intended env p i b t s).0
    unfolding launch_intended launch_answered
    launch_intended-IsUnmade i b (d, some e) s = stage_over-IsUnmade d e _ s
    launch_intended-IsUnmade i b (d, none) s =
        grind (arith, stage_over-IsUnmade, stage_recorded-IsUnmade, request_ended-IsUnmade)

    launch_role-IsUnmade :
        (role : String) (d : Deployment) (s : Sys) → IsUnmade (launch_role env p role d s).0
    unfolding launch_role launch_member
    launch_role-IsUnmade role d s = grind (arith, launch_intended-IsUnmade)

    pub launch_each-IsUnmade :
        (roles : List String) (d : Deployment) (s : Sys) → IsUnmade (launch_each env p roles d s).0
    unfolding launch_each
    launch_each-IsUnmade [] d s = tt
    launch_each-IsUnmade (role ∷ rest) d s =
        grind (arith, launch_role-IsUnmade role d s, launch_each-IsUnmade rest)
