-- ===== src/Deployments/Engine/Readiness.antt =====
-- waitReady and the checks of a promoted group. A readiness timer is the number of intervals
-- that the world lets pass before it fires, so the loop recurs on the intervals left.
use Prim.Native.String.{len}
use yokai.Prelude.{
  ℕ, zero, suc, ◌*◌, pos, negsuc, String, ◌==◌, concat, trim_space, equal_fold, any_char, is_space,
  is_control, Bool, true, false, not, ◌||◌, Option, none, some, List, [], ◌∷◌, if◌then◌else◌, ltb,
  eqb, is_some,
}
use yokai.Bkc.Types.{Config, head_role}
use yokai.Bkc.Catalog.{lookup_id}
use yokai.Deployments.Errors.{
  Err, Result, ok, err, plain, wrapped, conflict, dependency, unavailable, wrap_error,
  error_kind_of, is_error, canceled, deadline_exceeded, service_unauthorized,
}
use yokai.Deployments.Types.{Member, Deployment, TestResult, ObservedContainer}
use yokai.Deployments.Env.{
  Env, Context, M, ◌>>=◌, pure, call_inspect, call_test, call_now, call_rounds, call_sleep,
}
use yokai.Deployments.Members.{member_locator, member_by_role, is_head_recipe_bkc}

-- FixedLocalModelPath
abbrev pub fixed_local_model_path : String
fixed_local_model_path = "/models/yokai-deployment"

-- DefaultReadinessTimeout and DefaultReadinessInterval, in nanoseconds.
abbrev pub default_readiness_timeout : ℕ
default_readiness_timeout = 2700000000000

abbrev pub default_readiness_interval : ℕ
default_readiness_interval = 5000000000

-- The zero value of a test result.
abbrev pub no_test : TestResult
no_test = record {
  ok = false;
  metrics_ready = false;
  message = "";
  model = "";
  response = "";
  tested_at = 0;
}

-- validatePromotionResult
unfoldable pub validate_promotion_result : TestResult → String → Option Err
validate_promotion_result r expected =
    if not r.ok
    then some (plain "rank-0 semantic API check did not report success")
    else if trim_space r.model == ""
    then some (plain "rank-0 model discovery returned no model")
    else if not (trim_space r.model == expected)
    then some (
        plain
          (concat ("rank-0 model discovery returned unexpected model " ∷ trim_space r.model ∷ [])))
    else if not r.metrics_ready
    then some (plain "rank-0 metrics check did not report ready")
    else if not (equal_fold (trim_space r.response) "ok")
    then some (plain "rank-0 response content was not exactly ok")
    else none

snapshot_model : Config → Bool → String
snapshot_model cfg uses = if uses then fixed_local_model_path else cfg.model_id

-- expectedModel
unfoldable pub expected_model : Config → Bool → String
unfolding snapshot_model
expected_model cfg uses = elim cfg.multi_device [
  | none ↦ snapshot_model cfg uses
  | some md ↦
      if not (md.served_model_name == "") then md.served_model_name else snapshot_model cfg uses
]

-- expectedStoredDeploymentModel
unfoldable pub expected_stored_deployment_model : List Config → Deployment → Result String
expected_stored_deployment_model catalog d = elim (lookup_id catalog d.bkc_id) [
  | none ↦ err (
      wrap_error conflict "resolve deployment recipe"
        (plain (concat ("BKC " ∷ d.bkc_id ∷ " is no longer available" ∷ []))))
  | some cfg ↦ ok (expected_model cfg d.uses_local_model_snapshot)
]

-- readinessOperationError at an error that is there.
unfoldable pub readiness_operation_error : Err → Err
readiness_operation_error e =
    if is_some (error_kind_of e)
    then e
    else if is_error e canceled || is_error e deadline_exceeded
    then wrap_error unavailable "wait for deployment readiness" e
    else wrap_error dependency "wait for deployment readiness" e

-- validateAPIKey
unfoldable pub validate_api_key : String → Option Err
validate_api_key key =
    if key == ""
    then some (plain "api_key is required")
    else if ltb 512 (len key) || any_char is_space key || any_char is_control key
    then some (plain "api_key must be a single non-control token of at most 512 characters")
    else none

-- validateDeploymentAPIKey
unfoldable pub validate_deployment_api_key : List Config → String → String → Option Err
validate_deployment_api_key catalog bkc_id key =
    if is_head_recipe_bkc catalog bkc_id
    then (if key == ""
        then none
        else some (plain "api_key is not supported by the pinned TensorFold recipe"))
    else validate_api_key key

recipe_timeout : Option Config → ℕ → ℕ
recipe_timeout none timeout = timeout
recipe_timeout (some cfg) timeout = elim cfg.multi_device [
  | none ↦ timeout
  | some md ↦ elim md.recipe [
    | none ↦ timeout
    | some r ↦ elim r.readiness_timeout_sec [
      | negsuc n ↦ timeout
      | pos n ↦ if ltb 0 n then n * 1000000000 else timeout
    ]
  ]
]

-- The length of the readiness timer: a recipe's own replaces the default.
unfoldable pub readiness_timeout : Env → String → ℕ
unfolding recipe_timeout
readiness_timeout env bkc_id =
    let timeout =
      if eqb env.readiness_timeout 0 then default_readiness_timeout else env.readiness_timeout in
    if eqb timeout default_readiness_timeout
    then recipe_timeout (lookup_id env.catalog bkc_id) timeout
    else timeout

readiness_interval : Env → ℕ
readiness_interval env =
    if eqb env.readiness_interval 0 then default_readiness_interval else env.readiness_interval

-- What one inspection says of a rank.
pub data Verdict : Type 0 where
  up : Verdict
  waiting gone : Err → Verdict

unfoldable pub rank_verdict : Member → Result ObservedContainer → Verdict
rank_verdict m (err e) =
    waiting (wrapped (concat ("inspect " ∷ m.role ∷ " rank during readiness: " ∷ [])) e "")
rank_verdict m (ok o) =
    if o.status == "running"
    then up
    else if o.status == "stopped"
        || o.status == "exited"
        || o.status == "dead"
        || o.status == "failed"
    then gone (plain (concat (m.role ∷ " rank exited during readiness" ∷ [])))
    else waiting (plain (concat (m.role ∷ " rank is " ∷ o.status ∷ [])))

-- The member with what an inspection saw.
unfoldable pub seen_member : Member → Result ObservedContainer → Member
seen_member m (err e) = m
seen_member m (ok o) = record m {
  status = o.status;
  container_id = if o.id == "" then m.container_id else o.id;
  name = if o.name == "" then m.name else o.name;
}

pub record Poll : Type 0 where
  pub members : List Member
  pub all_running : Bool
  pub last_error : Option Err
  pub exited : Option Err

-- The three results of waitReady.
pub record Readiness : Type 0 where
  pub members : List Member
  pub result : TestResult
  pub error : Option Err

-- A round of the loop either returns or leaves the members and the last error.
pub data Round : Type 0 where
  done : Readiness → Round
  again : List Member → Option Err → Round

abbrev pub not_ready : List Member → Err → Readiness
not_ready ms e = record { members = ms; result = no_test; error = some e }

unfoldable pub deadline_error : Option Err → Err
deadline_error none =
    wrapped "readiness deadline exceeded: " (plain "readiness deadline exceeded") ""
deadline_error (some e) = wrapped "readiness deadline exceeded: " e ""

module _ (env : Env) (ctx : Context) where
  -- The loop over the members.
  unfoldable pub poll_members : List Member → Option Err → M Poll
  poll_members [] last =
      pure (record { members = []; all_running = true; last_error = last; exited = none })
  poll_members (m ∷ ms) last = do
    o ← call_inspect env ctx m.device_id (member_locator m)
    let seen = seen_member m o
    elim (rank_verdict m o) [
      | up ↦ do p ← poll_members ms last; pure (record p { members = seen ∷ p.members })
      | waiting e ↦ do
        p ← poll_members ms (some e)
        pure (record p { members = seen ∷ p.members; all_running = false })
      | gone e ↦
          pure (record {
            members = seen ∷ ms;
            all_running = false;
            last_error = last;
            exited = some e;
          })
    ]

  unfoldable pub judge : List Member → String → Result TestResult → ℕ → Round
  judge ms expected (err e) now =
      if is_error e service_unauthorized then done (not_ready ms e) else again ms (some e)
  judge ms expected (ok r) now = elim (validate_promotion_result r expected) [
    | none ↦ done (record { members = ms; result = record r { tested_at = now }; error = none })
    | some e ↦ again ms (some e)
  ]

  unfoldable pub test_head : List Member → String → String → Option Member → M Round
  test_head ms key expected none =
      pure (done (not_ready ms (plain "deployment has no rank-0 member")))
  test_head ms key expected (some head) = do
    r ← call_test env ctx head.device_id (member_locator head) key
    now ← call_now env
    pure (judge ms expected r now)

  unfoldable pub polled : String → String → Poll → M Round
  polled key expected p = elim p.exited [
    | some e ↦ pure (done (not_ready p.members e))
    | none ↦
        if p.all_running
        then test_head p.members key expected (member_by_role p.members head_role)
        else pure (again p.members p.last_error)
  ]

  unfoldable pub readiness_round : List Member → Option Err → String → String → M Round
  readiness_round ms last key expected = do p ← poll_members ms last; polled key expected p

  unfoldable pub readiness_loop : ℕ → List Member → Option Err → String → String → M Readiness
  readiness_loop zero ms last key expected = do
    r ← readiness_round ms last key expected
    elim r [
      | done v ↦ pure v
      | again ms' last' ↦ do
        ended ← call_sleep env
        elim ended [
          | some e ↦ pure (not_ready ms' e)
          | none ↦ pure (not_ready ms' (deadline_error last'))
        ]
    ]
  readiness_loop (suc n) ms last key expected = do
    r ← readiness_round ms last key expected
    elim r [
      | done v ↦ pure v
      | again ms' last' ↦ do
        ended ← call_sleep env
        elim ended [
          | some e ↦ pure (not_ready ms' e)
          | none ↦ readiness_loop n ms' last' key expected
        ]
    ]

  -- waitReady
  unfoldable pub wait_ready : List Member → String → String → String → M Readiness
  unfolding readiness_interval
  wait_ready ms key expected bkc_id = do
    n ← call_rounds env (readiness_timeout env bkc_id) (readiness_interval env)
    readiness_loop n ms none key expected
