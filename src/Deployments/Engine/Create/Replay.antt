-- ===== src/Deployments/Engine/Create/Replay.antt =====
-- createRollback, and a create whose key is known.
use yokai.Prelude.{String, ◌==◌, concat, not, Option, none, some, [], ◌∷◌, if◌then◌else◌}
use yokai.Deployments.Errors.{
  Err, plain, sentinel, wrapped, conflict, wrap_error, error_text, idempotency_conflict,
  recovery_performed,
}
use yokai.Deployments.Types.{State, Deployment}
use yokai.Deployments.Env.{Env, M, ◌>>=◌, pure, caller, cleanup}
use yokai.Deployments.Engine.Rollback.{rollback_locked}
use yokai.Deployments.Engine.Recovery.{reconcile_unsafe_state_locked}
use yokai.Deployments.Engine.Create.Types.{Returned, nothing, not_created}

module _ (env : Env) where
  unfoldable pub rolled_back : Err → Deployment × Option Err → Returned
  rolled_back cause (d, none) = (not_created d, some cause)
  rolled_back cause (d, some e) =
      (not_created d, some (wrapped "" cause (concat ("; " ∷ error_text e ∷ []))))

  -- createRollback, in the context of a cleanup
  unfoldable pub create_rollback : Deployment → Err → String → String → M Returned
  create_rollback d cause safe_cause key = do
    r ← rollback_locked env cleanup d safe_cause key
    pure (rolled_back cause r)

  unfoldable pub recovered : String → Deployment × Option Err → Returned
  recovered op (d, some e) = (not_created d, some e)
  recovered op (d, none) =
      (not_created d, some (wrap_error conflict op (sentinel recovery_performed)))

  unfoldable pub replay_state : State → Deployment → M Returned
  replay_state State.running d = pure (not_created d, none)
  replay_state State.stopped d = pure (not_created d, none)
  replay_state State.rolled_back d = pure (not_created d, none)
  replay_state State.pending d = do
    r ← rollback_locked env caller d "incomplete idempotent request recovered" ""
    pure (recovered "recover deployment" r)
  replay_state State.rollback_failed d = do
    r ← rollback_locked env caller d "incomplete idempotent request recovered" ""
    pure (recovered "recover deployment" r)
  replay_state State.starting d = do
    r ← reconcile_unsafe_state_locked env d
    pure (recovered "recover deployment lifecycle" r)
  replay_state State.stopping d = do
    r ← reconcile_unsafe_state_locked env d
    pure (recovered "recover deployment lifecycle" r)
  replay_state State.failed d = do
    r ← reconcile_unsafe_state_locked env d
    pure (recovered "recover deployment lifecycle" r)
  replay_state (State.unsupported s) d = pure (
    nothing,
    some (
        wrap_error conflict "replay deployment"
          (plain (concat ("deployment has unsupported state " ∷ s ∷ [])))),
  )

  -- A prior deployment with the request's idempotency key.
  unfoldable pub replay : String → Deployment → M Returned
  replay hash prior =
      if not (prior.request_hash == hash)
      then pure
          (nothing, some (wrap_error conflict "replay deployment" (sentinel idempotency_conflict)))
      else replay_state prior.state prior
