-- ===== src/Deployments/Safety/Readiness.antt =====
-- waitReady only inspects, tests and waits.
use yokai.Prelude.{zero, suc, ℕ, String, List, [], ◌∷◌, Option, arith}
use yokai.Deployments.Errors.{Err}
use yokai.Deployments.Types.{Member}
use yokai.Deployments.Env.{Env, Context, Sys, call_inspect, call_sleep}
use yokai.Deployments.Members.{member_locator}
use yokai.Deployments.Engine.Readiness.{
  poll_members, polled, test_head, readiness_round, readiness_loop, wait_ready,
}
use yokai.Deployments.Safety.{IsSafe}

module _ (env : Env) (ctx : Context) where
  poll_members-IsSafe :
      (ms : List Member) (last : Option Err) (s : Sys)
      → IsSafe s.events
      → IsSafe (poll_members env ctx ms last s).1.events
  unfolding poll_members
  poll_members-IsSafe [] last s h = h
  poll_members-IsSafe (m ∷ ms) last s h =
      let s' = (call_inspect env ctx m.device_id (member_locator m) s).1 in
      let k : (e : Option Err) → IsSafe (poll_members env ctx ms e s').1.events =
        λ e. poll_members-IsSafe ms e s' (tt, h) in
      grind (arith, k)

  readiness_round-IsSafe :
      (ms : List Member) (last : Option Err) (key expected : String) (s : Sys)
      → IsSafe s.events
      → IsSafe (readiness_round env ctx ms last key expected s).1.events
  unfolding readiness_round polled test_head
  readiness_round-IsSafe ms last key expected s h = grind (arith, poll_members-IsSafe ms last s h)

  readiness_loop-IsSafe :
      (n : ℕ) (ms : List Member) (last : Option Err) (key expected : String) (s : Sys)
      → IsSafe s.events
      → IsSafe (readiness_loop env ctx n ms last key expected s).1.events
  unfolding readiness_loop
  readiness_loop-IsSafe zero ms last key expected s h =
      grind (arith, readiness_round-IsSafe ms last key expected s h)
  readiness_loop-IsSafe (suc n) ms last key expected s h =
      let s' = (readiness_round env ctx ms last key expected s).1 in
      let k : (ms' : List Member) (e : Option Err)
          → IsSafe (readiness_loop env ctx n ms' e key expected (call_sleep env s').1).1.events =
        λ ms' e.
          readiness_loop-IsSafe n ms' e key expected _
            (tt, readiness_round-IsSafe ms last key expected s h) in
      grind (arith, k, readiness_round-IsSafe ms last key expected s h)

  pub wait_ready-IsSafe :
      (ms : List Member) (key expected bkc_id : String) (s : Sys)
      → IsSafe s.events
      → IsSafe (wait_ready env ctx ms key expected bkc_id s).1.events
  unfolding wait_ready
  wait_ready-IsSafe ms key expected bkc_id s h = readiness_loop-IsSafe _ ms _ key expected s h
