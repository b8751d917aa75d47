-- ===== src/Deployments/Engine/Rollback.antt =====
-- rollbackLocked.
pub mod Capture
pub mod Removal
pub mod Restoration
use yokai.Prelude.{
  ℕ, zero, suc, String, ◌==◌, concat, join, Bool, true, false, not, ◌&&◌, ◌||◌, Option, none, some,
  List, [], ◌∷◌, ◌++◌, if◌then◌else◌, is_empty, is_none, is_some, indexes,
}
use yokai.Bkc.Types.{head_role, worker_role}
use yokai.Deployments.Errors.{
  Err, Result, ok, err, plain, dependency, wrap_error, is_error, error_text, container_not_found,
}
use yokai.Deployments.Types.{
  State, Phase, Member, Deployment, RankLogTail, RollbackResult, LogTailCapture, ObservedContainer,
}
use yokai.Deployments.Env.{
  Env, Context, Sys, M, ◌>>=◌, pure, call_now, call_inspect, call_capture_logs, call_remove_managed,
  call_restart, call_wait_running,
}
use yokai.Deployments.Logs.{sanitize_log_tail}
use yokai.Deployments.Members.{
  is_observed, validate_managed_member_identity, append_unique_strings, upsert_rank_log_tail,
  candidate_may_exist, member_locator, is_head_recipe_bkc, reverse_launch_member_indexes, no_result,
}
use yokai.Deployments.Engine.Journal.{
  with_member_status, with_previous_status, member_at, previous_at, result_of, with_error,
  persist_progress, before_member_action, after_member_action, before_previous_action,
}
use Capture.{with_result, capture_candidate_logs, capture_all}
use Removal.{Cleanup, clean_candidates}
use Restoration.{restore_all}

abbrev pub settle_members : List Member → List Member
settle_members [] = []
settle_members (m ∷ ms) =
    (if m.status == "removed" then m else record m { status = "stopped" }) ∷ settle_members ms

-- The state, the members and the status that the errors of a rollback decide.
unfoldable pub settle : Deployment → ℕ → Deployment
settle d now =
    let r = record (result_of d) { completed_at = now } in
    let done = record d { rollback = some r; updated_at = now } in
    if is_empty r.errors
    then record done { state = State.rolled_back; members = settle_members d.members }
    else record done { state = State.rollback_failed }

-- The result of a rollback starts with what an earlier attempt recorded, and with no error.
unfoldable pub fresh_result : Option RollbackResult → RollbackResult
fresh_result none = record no_result { attempted = true }
fresh_result (some r) = record no_result {
  attempted = true;
  removed_candidates = append_unique_strings [] r.removed_candidates;
  restarted_containers = append_unique_strings [] r.restarted_containers;
  log_tails = r.log_tails;
}

module _ (env : Env) where
  unfoldable pub finish_rollback : Deployment × Option Err → Deployment × Option Err
  finish_rollback (d, some e) = (d, some (wrap_error dependency "persist rollback result" e))
  finish_rollback (d, none) =
      let errors = (result_of d).errors in
      if is_empty errors
      then (d, none)
      else (d, some (wrap_error dependency "rollback deployment" (plain (join "; " errors))))

  -- The log captures and the removal loop.
  unfoldable pub clean_group : Context → String → Deployment → M Cleanup
  clean_group ctx redaction d = do
    let head_recipe = is_head_recipe_bkc env.catalog d.bkc_id
    captured ← if head_recipe then capture_all env ctx redaction d.members d else pure d
    let order = reverse_launch_member_indexes env.catalog captured
    clean_candidates env ctx redaction head_recipe order
        (record { deployment = captured; candidates_safe = true })

  -- The restoration loop, the settlement and its record.
  unfoldable pub settle_group : Context → Cleanup → M (Deployment × Option Err)
  settle_group ctx c = do
    let cleaned = c.deployment
    restored ←
        if c.candidates_safe
        then restore_all env ctx (indexes 0 cleaned.previous_members) cleaned
        else pure cleaned
    now ← call_now env
    let settled = settle restored now
    let status = if is_empty (result_of settled).errors then "completed" else "failed"
    recorded ←
        persist_progress env settled Phase.complete "rollback" "" status
          "candidate cleanup and previous restoration checked"
    pure (finish_rollback recorded)

  -- The rollback after its intent is journaled.
  unfoldable pub run_rollback : Context → String → Deployment → M (Deployment × Option Err)
  run_rollback ctx redaction d = do c ← clean_group ctx redaction d; settle_group ctx c

  unfoldable pub intended_rollback :
      Context → String → Deployment × Option Err → M (Deployment × Option Err)
  intended_rollback ctx redaction (d, some e) =
      pure (d, some (wrap_error dependency "persist rollback intent" e))
  intended_rollback ctx redaction (d, none) = run_rollback ctx redaction d

  -- rollbackLocked
  unfoldable pub rollback_locked :
      Context → Deployment → String → String → M (Deployment × Option Err)
  rollback_locked ctx d safe_cause redaction = do
    let intent = record d {
      rollback = some (fresh_result d.rollback);
      state = State.rollback_failed;
      error = safe_cause;
    }
    intended ←
        persist_progress env intent Phase.rollback "rollback" "" "started"
          "remove candidates then restore previous members"
    intended_rollback ctx redaction intended
