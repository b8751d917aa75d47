-- ===== src/Deployments/Tests/Engine.antt =====
-- The theorems of the engine at that group.
use yokai.Prelude.{
  true, Option, any_char, is_control, itoa, ◌≡◌, ◌↔◌, trim_space, equal_fold, refl, none, [], ◌∷◌,
  ◌≤◌,
}
use Prim.Native.String.{len}
use yokai.Bkc.Types.{head_role, worker_role}
use yokai.Deployments.Errors.{
  is_error, ok, plain, conflict, sentinel, wrap_error, recovery_performed, Err,
}
use yokai.Deployments.Types.{State, Deployment}
use yokai.Deployments.Env.{caller, cleanup, Sys}
use yokai.Deployments.Safety.{IsSafe, Owns, validate_managed_member_identity-Owns}
use yokai.Deployments.Safety.Service.{run-IsSafe}
use yokai.Deployments.Outcome.Barrier.{IsBarred, run_rollback-barrier}
use yokai.Deployments.Outcome.Create.{IsHonest, create_valid-IsHonest}
use yokai.Deployments.Outcome.Readiness.{IsReady, wait_ready-IsReady}
use yokai.Deployments.Outcome.Request.{IsSpread, validate_create_request-IsSpread}
use yokai.Deployments.Engine.Request.{
  validate_create_request, check_path, find_config, plan_of, check_snapshot, check_credentials,
  check_roles, check_bindings, check_binding, check_fabric, check_service, usable_ip, has_roles,
}
use yokai.Bkc.MultiDevice.{validate_multi_device_recipe}
use yokai.Deployments.Outcome.Replay.{IsReplayed, create_valid-IsReplayed}
use yokai.Deployments.Outcome.Stop.{all_down}
use yokai.Deployments.Outcome.Stop.Loop.{stop_locked-all_down}
use yokai.Deployments.Outcome.Rollback.{IsRolledBack, rollback_locked-IsRolledBack}
use yokai.Deployments.Store.Laws.{get-put}
use yokai.Deployments.Members.Evidence.{IsDistinct, append_unique_strings-IsDistinct}
use yokai.Deployments.Members.Order.{IsFound, member_index_by_role-IsFound}
use yokai.Deployments.Logs.{max_log_tail_bytes}
use yokai.Deployments.Logs.Bounds.{len-sanitize_log_tail}
use yokai.Deployments.Engine.Service.{
  create_request, start_request, stop_request, rollback_request, reconcile_request,
}
use yokai.Deployments.Tests.World.{
  head, container_of, group_in, group, glm, dual, request, world, stuck, held, kept,
}
use yokai.Bkc.Catalog.{lookup_id}
use yokai.Deployments.Engine.Create.{create_valid}
use yokai.Deployments.Engine.Journal.{after_member_action, before_member_action, persist_progress}
use yokai.Deployments.Engine.Readiness.{
  validate_api_key, expected_model, judge, poll_members, polled, rank_verdict, readiness_loop,
  readiness_round, seen_member, test_head, validate_promotion_result, wait_ready,
}
use yokai.Deployments.Engine.Rollback.{
  clean_group, settle_group, finish_rollback, fresh_result, intended_rollback, rollback_locked,
  run_rollback, settle,
}
use yokai.Deployments.Engine.Rollback.Capture.{capture_candidate_logs}
use yokai.Deployments.Engine.Rollback.Removal.{
  clean_candidate, clean_candidates, inspected_candidate, intended_removal, removal_recorded,
  remove_candidate, remove_failed,
}
use yokai.Deployments.Engine.Rollback.Restoration.{restore_all}
use yokai.Deployments.Engine.Service.{run}
use yokai.Deployments.Engine.Start.{mark_unsafe_running}
use yokai.Deployments.Engine.Stop.{
  each_member, fail_member, fail_observed, fail_recorded, fail_start, fail_verdict, stop,
  stop_completed, stop_finished, stop_intended, stop_journaled, stop_locked, stop_member,
  stop_observed,
}
use yokai.Deployments.Errors.{wrap_error}
use yokai.Deployments.Logs.{sanitize_log_tail}
use yokai.Deployments.Members.{
  append_unique_strings, candidate_may_exist, contains, deployment_launch_order, is_head_recipe_bkc,
  member_by_role, member_index_by_role, member_locator, reverse_launch_member_indexes,
  upsert_rank_log_tail, validate_managed_member_identity,
}
use yokai.Deployments.Store.{find_idempotency, get, get_in, put, upsert}

run-IsSafe_example :
    IsSafe
      (run world
        (create_request request
          ∷ stop_request "dep-1"
          ∷ start_request "dep-1" "secret"
          ∷ rollback_request "dep-1"
          ∷ reconcile_request
          ∷ [])
        kept).events
run-IsSafe_example = run-IsSafe world _ kept tt

validate_managed_member_identity-Owns_example :
    (validate_managed_member_identity group head (container_of head_role "running") ≡ none)
    ↔ Owns "dep-1" head (container_of head_role "running")
validate_managed_member_identity-Owns_example =
    validate_managed_member_identity-Owns group head (container_of head_role "running")

create_valid-IsHonest_example :
    IsHonest "glm-5"
      (create_valid world request (glm, dual) "hash-1" (record { doc = []; events = [] })).0
unfolding expected_model
create_valid-IsHonest_example =
    create_valid-IsHonest world request glm dual "hash-1" (record { doc = []; events = [] })

wait_ready-IsReady_example :
    IsReady "glm-5" (wait_ready world caller group.members "secret" "glm-5" "glm" kept).0
unfolding wait_ready readiness_loop readiness_round poll_members rank_verdict seen_member polled
    test_head judge member_by_role validate_promotion_result trim_space equal_fold
wait_ready-IsReady_example =
    wait_ready-IsReady world caller group.members "secret" "glm-5" "glm" kept refl

rollback_locked-IsRolledBack_example :
    IsRolledBack (rollback_locked world cleanup group "rollback requested" "" kept).0.0
unfolding rollback_locked intended_rollback run_rollback clean_group settle_group finish_rollback
    settle fresh_result clean_candidates clean_candidate intended_removal inspected_candidate
    remove_candidate removal_recorded remove_failed capture_candidate_logs restore_all
    append_unique_strings upsert_rank_log_tail candidate_may_exist sanitize_log_tail contains
    persist_progress before_member_action after_member_action put upsert get get_in
    reverse_launch_member_indexes deployment_launch_order member_index_by_role member_locator
    is_head_recipe_bkc lookup_id validate_managed_member_identity trim_space
rollback_locked-IsRolledBack_example =
    rollback_locked-IsRolledBack world cleanup group "rollback requested" "" kept refl

stop_locked-all_down_example :
    ((stop_locked world caller group kept).0.0.state ≡ State.stopped)
    × (all_down
          (stop_locked world caller group kept).1.events
          group
          (reverse_launch_member_indexes world.catalog group)
        ≡ true)
unfolding stop stop_locked stop_journaled stop_finished stop_member stop_intended stop_observed
    stop_completed each_member fail_start fail_member fail_observed fail_verdict fail_recorded
    persist_progress before_member_action after_member_action put upsert get get_in
    reverse_launch_member_indexes deployment_launch_order member_index_by_role member_locator
    is_head_recipe_bkc lookup_id validate_managed_member_identity trim_space
stop_locked-all_down_example = stop_locked-all_down world caller group kept refl refl

abbrev refused_stop : Deployment
refused_stop = (stop_locked stuck caller group kept).0.0

abbrev failed_start : Deployment
failed_start = (fail_start stuck group (plain "not ready") kept).0.0

abbrev failed_again : (Deployment × Option Err) × Sys
failed_again =
    fail_start stuck failed_start
      (wrap_error conflict "reconcile start" (sentinel recovery_performed)) kept

abbrev marked : Deployment
marked = (mark_unsafe_running world group (plain "rank is gone") kept).0.0

create_valid-IsReplayed_example :
    IsReplayed group "hash-1" kept (create_valid world request (glm, dual) "hash-1" kept)
unfolding find_idempotency
create_valid-IsReplayed_example =
    create_valid-IsReplayed world request (glm, dual) "hash-1" kept group refl

get-put_example :
    get "dep-1" (put world (group_in State.stopped []) kept).1.doc ≡ ok (group_in State.stopped [])
unfolding put
get-put_example = get-put world (group_in State.stopped []) "dep-1" kept refl

append_unique_strings-IsDistinct_example :
    IsDistinct (append_unique_strings ("a" ∷ "b" ∷ []) ("b" ∷ "c" ∷ "c" ∷ []))
unfolding contains
append_unique_strings-IsDistinct_example =
    append_unique_strings-IsDistinct ("a" ∷ "b" ∷ []) ("b" ∷ "c" ∷ "c" ∷ []) (refl, (refl, tt))

member_index_by_role-IsFound_example :
    IsFound group.members worker_role (member_index_by_role group.members worker_role)
member_index_by_role-IsFound_example = member_index_by_role-IsFound group.members worker_role

len-sanitize_log_tail_example :
    len (sanitize_log_tail (λ text. text) "loading shard 1" "secret").0 ≤ max_log_tail_bytes
len-sanitize_log_tail_example = len-sanitize_log_tail (λ text. text) "loading shard 1" "secret"

validate_create_request-IsSpread_example : IsSpread dual request.bindings
unfolding validate_create_request check_path find_config plan_of check_snapshot check_credentials
    check_roles check_bindings check_binding check_fabric check_service usable_ip has_roles contains
    validate_multi_device_recipe lookup_id validate_api_key any_char is_control trim_space itoa
validate_create_request-IsSpread_example =
    validate_create_request-IsSpread world request glm dual refl

run_rollback-barrier_example :
    IsBarred (run_rollback held cleanup "" group kept) (clean_group held cleanup "" group kept).1
unfolding clean_group clean_candidates clean_candidate intended_removal inspected_candidate
    remove_candidate removal_recorded remove_failed capture_candidate_logs persist_progress
    candidate_may_exist before_member_action put upsert reverse_launch_member_indexes
    deployment_launch_order member_index_by_role member_locator is_head_recipe_bkc lookup_id
    validate_managed_member_identity trim_space is_error
run_rollback-barrier_example = run_rollback-barrier held cleanup "" group kept refl
