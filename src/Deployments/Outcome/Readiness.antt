-- ===== src/Deployments/Outcome/Readiness.antt =====
-- What waitReady promises of a group that it reports ready.
use yokai.Prelude.{
  zero, suc, ℕ, eq_iff, String, ◌≡◌, Option, none, some, true, List, [], ◌∷◌, arith, All,
}
use yokai.Deployments.Errors.{Err, Result, ok, err}
use yokai.Deployments.Types.{Member, TestResult, ObservedContainer}
use yokai.Deployments.Env.{Env, Context, Sys, call_inspect, call_sleep}
use yokai.Deployments.Members.{member_locator}
use yokai.Deployments.Engine.Readiness.{
  Poll, up, judge, test_head, polled, Readiness, Round, done, again, poll_members, rank_verdict,
  seen_member, readiness_round, readiness_loop, wait_ready, validate_promotion_result,
}

abbrev pub IsRunning : Member → Type 0
IsRunning m = m.status ≡ "running"

-- Every rank runs, and the last test passed for the model that is expected.
abbrev pub IsReady : String → Readiness → Type 0
IsReady expected r = All IsRunning r.members × (validate_promotion_result r.result expected ≡ none)

abbrev pub IsSound : String → Round → Type 0
IsSound expected (done r) = r.error ≡ none → IsReady expected r
IsSound expected (again ms e) = Unit

seen_member-IsRunning :
    (m : Member) (o : Result ObservedContainer)
    → rank_verdict m o ≡ up
    → IsRunning (seen_member m o)
unfolding rank_verdict seen_member
seen_member-IsRunning m (err e) h = ground arith
seen_member-IsRunning m (ok o) h = ground (arith, eq_iff o.status "running")

module _ (env : Env) (ctx : Context) where
  poll_members-IsRunning :
      (ms : List Member) (last : Option Err) (s : Sys)
      → (poll_members env ctx ms last s).0.all_running ≡ true
      → All IsRunning (poll_members env ctx ms last s).0.members
  unfolding poll_members
  poll_members-IsRunning [] last s h = tt
  poll_members-IsRunning (m ∷ ms) last s h =
      let (o, s') = call_inspect env ctx m.device_id (member_locator m) s in
      grind (arith, seen_member-IsRunning m o, poll_members-IsRunning ms last s')

  judge-IsSound :
      (ms : List Member) (expected : String) (r : Result TestResult) (now : ℕ)
      → All IsRunning ms
      → IsSound expected (judge env ctx ms expected r now)
  unfolding judge validate_promotion_result
  judge-IsSound ms expected (err e) now h = ground arith
  judge-IsSound ms expected (ok r) now h = ground arith

  test_head-IsSound :
      (ms : List Member) (key expected : String) (head : Option Member) (s : Sys)
      → All IsRunning ms
      → IsSound expected (test_head env ctx ms key expected head s).0
  unfolding test_head
  test_head-IsSound ms key expected none s h = ground arith
  test_head-IsSound ms key expected (some head) s h = judge-IsSound ms expected _ _ h

  polled-IsSound :
      (key expected : String) (p : Poll) (s : Sys)
      → (p.all_running ≡ true → All IsRunning p.members)
      → IsSound expected (polled env ctx key expected p s).0
  unfolding polled
  polled-IsSound key expected p s h = grind (arith, test_head-IsSound)

  readiness_round-IsSound :
      (ms : List Member) (last : Option Err) (key expected : String) (s : Sys)
      → IsSound expected (readiness_round env ctx ms last key expected s).0
  unfolding readiness_round
  readiness_round-IsSound ms last key expected s =
      polled-IsSound key expected _ _ (poll_members-IsRunning ms last s)

  readiness_loop-IsReady :
      (n : ℕ) (ms : List Member) (last : Option Err) (key expected : String) (s : Sys)
      → (readiness_loop env ctx n ms last key expected s).0.error ≡ none
      → IsReady expected (readiness_loop env ctx n ms last key expected s).0
  unfolding readiness_loop
  readiness_loop-IsReady zero ms last key expected s =
      grind (arith, readiness_round-IsSound ms last key expected s)
  readiness_loop-IsReady (suc n) ms last key expected s =
      let s' = (call_sleep env (readiness_round env ctx ms last key expected s).1).1 in
      let k : (ms' : List Member) (e : Option Err)
          → (readiness_loop env ctx n ms' e key expected s').0.error ≡ none
          → IsReady expected (readiness_loop env ctx n ms' e key expected s').0 =
        λ ms' e. readiness_loop-IsReady n ms' e key expected s' in
      grind (arith, readiness_round-IsSound ms last key expected s, k)

  -- A group that waitReady reports ready, without an error, has every rank running by the last
  -- round of inspections, and a test that passes for the model that is expected.
  pub wait_ready-IsReady :
      (ms : List Member) (key expected bkc_id : String) (s : Sys)
      → (wait_ready env ctx ms key expected bkc_id s).0.error ≡ none
      → IsReady expected (wait_ready env ctx ms key expected bkc_id s).0
  unfolding wait_ready
  wait_ready-IsReady ms key expected bkc_id s h = readiness_loop-IsReady _ ms none key expected s h
