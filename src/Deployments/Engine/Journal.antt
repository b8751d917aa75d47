-- ===== src/Deployments/Engine/Journal.antt =====
-- persistProgress and the actions around an external effect.
use yokai.Prelude.{ℕ, String, Option, none, some, [], ◌∷◌, ◌++◌, get_or, modify}
use yokai.Deployments.Errors.{Err}
use yokai.Deployments.Types.{Phase, Member, Deployment, RollbackResult}
use yokai.Deployments.Env.{Env, M, ◌>>=◌, pure, call_now}
use yokai.Deployments.Store.{put}
use yokai.Deployments.Members.{no_member, no_result}

abbrev pub with_progress : Deployment → Phase → String → String → String → String → ℕ → Deployment
with_progress d phase action role status detail now = record d {
  phase = phase;
  updated_at = now;
  progress =
      d.progress
      ++ record {
        phase = phase;
        action = action;
        role = role;
        status = status;
        detail = detail;
        at = now;
      }
        ∷ [];
}

abbrev pub with_member_status : Deployment → ℕ → String → Deployment
with_member_status d i status = record d {
  members = modify d.members i (λ m. record m { status = status });
}

abbrev pub with_previous_status : Deployment → ℕ → String → Deployment
with_previous_status d i status = record d {
  previous_members = modify d.previous_members i (λ m. record m { status = status });
}

abbrev pub member_at : Deployment → ℕ → Member
member_at d i = get_or d.members i no_member

abbrev pub previous_at : Deployment → ℕ → Member
previous_at d i = get_or d.previous_members i no_member

-- `deployment.Rollback` and the local `result` of a rollback are one object.
abbrev pub result_of : Deployment → RollbackResult
result_of d = elim d.rollback [ none ↦ no_result | some r ↦ r ]

abbrev pub with_error : Deployment → String → Deployment
with_error d text =
    let r = result_of d in
    record d { rollback = some (record r { errors = r.errors ++ text ∷ [] }) }

module _ (env : Env) where
  -- persistProgress
  unfoldable pub persist_progress :
      Deployment → Phase → String → String → String → String → M (Deployment × Option Err)
  persist_progress d phase action role status detail = do
    now ← call_now env
    let d' = with_progress d phase action role status detail now
    e ← put env d'
    pure (d', e)

  -- beforeMemberAction
  unfoldable pub before_member_action :
      Deployment → ℕ → Phase → String → String → M (Deployment × Option Err)
  before_member_action d i phase action status =
      persist_progress (with_member_status d i status) phase action (member_at d i).role "started"
        ""

  -- afterMemberAction
  unfoldable pub after_member_action :
      Deployment → ℕ → Phase → String → String → M (Deployment × Option Err)
  after_member_action d i phase action status =
      persist_progress (with_member_status d i status) phase action (member_at d i).role "completed"
        ""

  -- beforePreviousAction
  unfoldable pub before_previous_action :
      Deployment → ℕ → Phase → String → String → M (Deployment × Option Err)
  before_previous_action d i phase action status =
      persist_progress (with_previous_status d i status) phase action (previous_at d i).role
        "started" ""

  -- afterPreviousAction
  unfoldable pub after_previous_action :
      Deployment → ℕ → Phase → String → String → M (Deployment × Option Err)
  after_previous_action d i phase action status =
      persist_progress (with_previous_status d i status) phase action (previous_at d i).role
        "completed" ""
