-- ===== src/Deployments/Engine/Rollback/Capture.antt =====
-- captureCandidateLogs, and the capture of every rank's logs for a head recipe.
use yokai.Prelude.{ℕ, String, ◌==◌, false, not, ◌&&◌, ◌||◌, some, List, [], ◌∷◌, if◌then◌else◌}
use yokai.Bkc.Types.{head_role}
use yokai.Deployments.Errors.{Result, ok, err, error_text}
use yokai.Deployments.Types.{Phase, Member, Deployment, RankLogTail, RollbackResult, LogTailCapture}
use yokai.Deployments.Env.{Env, Context, M, ◌>>=◌, pure, call_now, call_capture_logs}
use yokai.Deployments.Logs.{sanitize_log_tail}
use yokai.Deployments.Members.{is_observed, upsert_rank_log_tail, candidate_may_exist}
use yokai.Deployments.Engine.Journal.{result_of, persist_progress}

abbrev pub with_result : Deployment → (RollbackResult → RollbackResult) → Deployment
with_result d f = record d { rollback = some (f (result_of d)) }

module _ (env : Env) where
  log_tail : Member → Result LogTailCapture → String → ℕ → RankLogTail
  log_tail m (err e) redaction now = record {
    role = m.role;
    rank = m.rank;
    device_id = m.device_id;
    container_id = m.container_id;
    name = m.name;
    status = "failed";
    tail = "";
    truncated = false;
    error = (sanitize_log_tail env.redact (error_text e) redaction).0;
    captured_at = now;
  }
  log_tail m (ok c) redaction now =
      let (tail, truncated) = sanitize_log_tail env.redact c.tail redaction in
      record {
        role = m.role;
        rank = m.rank;
        device_id = m.device_id;
        container_id = m.container_id;
        name = m.name;
        status = "captured";
        tail = tail;
        truncated = truncated || c.truncated;
        error = "";
        captured_at = now;
      }

  capture_detail : Result LogTailCapture → String
  capture_detail (ok c) = "bounded candidate log tail captured"
  capture_detail (err e) = "bounded candidate log tail capture failed; removal will continue"

  -- captureCandidateLogs
  unfoldable pub capture_candidate_logs : Context → Deployment → Member → String → M Deployment
  unfolding log_tail capture_detail
  capture_candidate_logs ctx d m exact_redaction = do
    let redaction = if m.role == head_role then exact_redaction else ""
    capture ← call_capture_logs env ctx d m redaction
    now ← call_now env
    let tail = log_tail m capture exact_redaction now
    let d' = with_result d (λ r. record r { log_tails = upsert_rank_log_tail r.log_tails tail })
    (d'', e) ←
        persist_progress env d' Phase.rollback "capture_candidate_logs" m.role tail.status
          (capture_detail capture)
    pure d''

  -- For a head recipe the logs of every rank are captured before the first removal.
  unfoldable pub capture_all : Context → String → List Member → Deployment → M Deployment
  capture_all ctx redaction [] d = pure d
  capture_all ctx redaction (m ∷ rest) d = do
    d' ←
        if candidate_may_exist m.status && not (is_observed m.ownership)
        then capture_candidate_logs ctx d m redaction
        else pure d
    capture_all ctx redaction rest d'
