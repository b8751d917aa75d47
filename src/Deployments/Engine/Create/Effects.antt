-- ===== src/Deployments/Engine/Create/Effects.antt =====
-- The loops of CreateWithOutcome that pull, stop and launch.
use yokai.Prelude.{ℕ, suc, String, concat, Option, none, some, List, [], ◌∷◌, modify}
use yokai.Deployments.Errors.{Err, Result, ok, err, wrapped}
use yokai.Deployments.Types.{Phase, Ownership, Binding, Member, Deployment, ObservedContainer}
use yokai.Deployments.Env.{
  Env, M, ◌>>=◌, pure, caller, call_pull, call_stop, call_launch, call_request_error,
}
use yokai.Deployments.Members.{member_index_by_role}
use yokai.Deployments.Engine.Journal.{
  previous_at, before_member_action, after_member_action, before_previous_action,
  after_previous_action,
}
use yokai.Deployments.Engine.Request.{binding_by_role}
use yokai.Deployments.Engine.Candidate.{build_candidate}
use yokai.Deployments.Engine.Create.Types.{nothing, Stage, going, over, Plan}
use yokai.Deployments.Engine.Create.Replay.{create_rollback}
use yokai.Deployments.Engine.Create.Planning.{head_address}

module _ (env : Env) where
  unfoldable pub stage_over : Plan → Deployment → Err → String → M Stage
  stage_over p d cause safe_cause = do
    r ← create_rollback env d cause safe_cause p.request.api_key
    pure (over r)

  unfoldable pub stage_recorded : Plan → String → Deployment × Option Err → M Stage
  stage_recorded p safe_cause (d, none) = pure (going d)
  stage_recorded p safe_cause (d, some e) = stage_over p d e safe_cause

  unfoldable pub pull_intended : Plan → ℕ → Binding → Deployment × Option Err → M Stage
  pull_intended p i b (d, some e) = stage_over p d e "persist pull intent failed"
  pull_intended p i b (d, none) = do
    e ← call_pull env caller b p.config.image
    elim e [
      | some x ↦
          stage_over p d (wrapped (concat ("pull " ∷ b.role ∷ " candidate: " ∷ [])) x "")
            "candidate pull failed"
      | none ↦ do
        recorded ← after_member_action env d i Phase.pulling "pull" "pulled"
        stage_recorded p "persist pull completion failed" recorded
    ]

  -- One round of the pull loop.
  unfoldable pub pull_binding : Plan → ℕ → Binding → Deployment → M Stage
  pull_binding p i b d = do
    intended ← before_member_action env d i Phase.pulling "pull" "pulling"
    pull_intended p i b intended

  unfoldable pub pull_each : Plan → ℕ → List Binding → Deployment → M Stage
  pull_each p i [] d = pure (going d)
  pull_each p i (b ∷ bs) d = do
    stage ← pull_binding p i b d
    elim stage [ over r ↦ pure (over r) | going d' ↦ pull_each p (suc i) bs d' ]

  unfoldable pub cutover_intended : Plan → ℕ → Member → Deployment × Option Err → M Stage
  cutover_intended p i m (d, some e) = stage_over p d e "persist previous stop intent failed"
  cutover_intended p i m (d, none) = do
    e ← call_stop env caller m.device_id m.container_id
    elim e [
      | some x ↦
          stage_over p d (wrapped (concat ("stop selected " ∷ m.role ∷ " container: " ∷ [])) x "")
            "selected previous container stop failed"
      | none ↦ do
        recorded ← after_previous_action env d i Phase.cutover "stop_previous" "stopped"
        stage_recorded p "persist previous stop completion failed" recorded
    ]

  -- One round of the cutover loop.
  unfoldable pub stop_previous : Plan → ℕ → Deployment → M Stage
  stop_previous p i d = do
    let m = previous_at d i
    intended ← before_previous_action env d i Phase.cutover "stop_previous" "stopping"
    cutover_intended p i m intended

  unfoldable pub stop_each : Plan → List ℕ → Deployment → M Stage
  stop_each p [] d = pure (going d)
  stop_each p (i ∷ rest) d = do
    stage ← stop_previous p i d
    elim stage [ over r ↦ pure (over r) | going d' ↦ stop_each p rest d' ]

  unfoldable pub launched_member : Deployment → ℕ → ObservedContainer → Deployment
  launched_member d i o = record d {
    members =
        modify d.members i
          λ m. record m { container_id = o.id; name = o.name; ownership = Ownership.managed };
  }

  unfoldable pub request_ended : Plan → Stage → M Stage
  request_ended p (over r) = pure (over r)
  request_ended p (going d) = do
    e ← call_request_error env
    elim e [
      | none ↦ pure (going d)
      | some x ↦ stage_over p d x "deployment request ended after candidate launch"
    ]

  unfoldable pub launch_answered :
      Plan → ℕ → Binding → Deployment → Result ObservedContainer → M Stage
  unfolding launched_member
  launch_answered p i b d (err x) =
      stage_over p d (wrapped (concat ("launch " ∷ b.role ∷ " candidate: " ∷ [])) x "")
        "candidate launch failed"
  launch_answered p i b d (ok c) = do
    recorded ← after_member_action env (launched_member d i c) i Phase.launching "launch" c.status
    stage ← stage_recorded p "persist launch completion failed" recorded
    request_ended p stage

  unfoldable pub launch_intended : Plan → ℕ → Binding → Deployment × Option Err → M Stage
  launch_intended p i b (d, some e) = stage_over p d e "persist launch intent failed"
  launch_intended p i b (d, none) = do
    o ←
        call_launch env caller b
          (build_candidate env d p.request p.config p.multi_device b (head_address p.ordered))
    launch_answered p i b d o

  -- A role with no member would be an index out of range.
  unfoldable pub launch_member : Plan → String → Deployment → Option ℕ → M Stage
  launch_member p role d none = pure (over (nothing, some Err.panicked))
  launch_member p role d (some i) = do
    intended ← before_member_action env d i Phase.launching "launch" "launching"
    launch_intended p i (binding_by_role p.ordered role) intended

  -- One round of the launch loop.
  unfoldable pub launch_role : Plan → String → Deployment → M Stage
  launch_role p role d = launch_member p role d (member_index_by_role d.members role)

  unfoldable pub launch_each : Plan → List String → Deployment → M Stage
  launch_each p [] d = pure (going d)
  launch_each p (role ∷ rest) d = do
    stage ← launch_role p role d
    elim stage [ over r ↦ pure (over r) | going d' ↦ launch_each p rest d' ]
