-- ===== src/Deployments/Outcome/Stop.antt =====
-- What it is for a member to be down, as the events show it.
pub mod Loop
pub mod Round
use yokai.Prelude.{
  ℕ, zero, suc, String, ◌==◌, eq_refl, ◌≡◌, refl, ap, sym, subst, ◌∙◌, Bool, true, false, not, ◌&&◌,
  ◌||◌, Bool-cases, inl, inr, Option, none, some, List, [], ◌∷◌, ◌++◌, is_empty, is_none, is_some,
  get_or, modify, arith,
}
use yokai.Bkc.Types.{worker_role}
use yokai.Deployments.Errors.{Err, Result, ok, err, plain, conflict, wrap_error}
use yokai.Deployments.Types.{State, Phase, Member, Deployment, ObservedContainer}
use yokai.Deployments.Env.{
  Env, Context, Sys, Event, inspected, stopped_managed, call_inspect, call_stop_managed,
}
use yokai.Deployments.Store.{put}
use yokai.Deployments.Members.{
  is_observed, is_head_recipe_bkc, validate_managed_member_identity, member_locator, no_member,
  no_deployment, reverse_launch_member_indexes, deployment_launch_order,
}
use yokai.Deployments.Engine.Journal.{
  member_at, persist_progress, before_member_action, after_member_action,
}
use yokai.Deployments.Engine.Stop.{
  Teardown, refuse, is_stopped, can_stop, stop_recorded, stop_completed, stop_observed,
  stop_intended, stop_member, each_member, stop_finished, stop_journaled, stop_locked,
}

-- A member without its status.
abbrev pub bare : Member → Member
bare m = record m { status = "" }

-- The container is the member's own, of the deployment with that id.
abbrev pub is_own : String → Member → ObservedContainer → Bool
is_own id m o = is_none (validate_managed_member_identity (record no_deployment { id = id }) m o)

-- The events have a stop of the deployment's member that succeeded, or an inspection at its
-- locator that found its own container stopped.
abbrev pub is_down : List Event → String → Member → Bool
is_down [] id m = false
is_down (stopped_managed ctx d x none ∷ t) id m =
    (d.id == id && x.name == m.name && x.device_id == m.device_id) || is_down t id m
is_down (inspected ctx device locator (ok o) ∷ t) id m =
    (device == m.device_id && locator == member_locator m && is_own id m o && o.status == "stopped")
    || is_down t id m
is_down (_ ∷ t) id m = is_down t id m

-- Every rank of a list of indexes is down.
abbrev pub all_down : List Event → Deployment → List ℕ → Bool
all_down events d [] = true
all_down events d (i ∷ is) = is_down events d.id (bare (member_at d i)) && all_down events d is

abbrev pub IsLater : List Event → List Event → Type 0
IsLater before after =
    (id : String) (m : Member) → is_down before id m ≡ true → is_down after id m ≡ true

-- Deployments that differ in no member but for statuses.
abbrev pub IsSame : Deployment → Deployment → Type 0
IsSame d d' = (d'.id ≡ d.id) × ((j : ℕ) → bare (member_at d' j) ≡ bare (member_at d j))

pub bare-modify :
    (ms : List Member) (i : ℕ) (status : String) (j : ℕ)
    → bare (get_or (modify ms i (λ m. record m { status = status })) j no_member)
      ≡ bare (get_or ms j no_member)
bare-modify [] i status j = refl
bare-modify (m ∷ ms) zero status zero = refl
bare-modify (m ∷ ms) zero status (suc j) = refl
bare-modify (m ∷ ms) (suc i) status zero = refl
bare-modify (m ∷ ms) (suc i) status (suc j) = bare-modify ms i status j

-- A round that ends with no error had none before, and brought its member down.
abbrev pub IsStopped : Deployment → List String → Member → Sys → Teardown × Sys → Type 0
IsStopped d errors m s (t, s') =
    (is_empty errors ≡ true)
    × IsLater s.events s'.events
    × IsSame d t.deployment
    × (is_down s'.events d.id (bare m) ≡ true)

pub not_empty : (xs : List String) (x : String) → ¬ (is_empty (xs ++ x ∷ []) ≡ true)
not_empty [] x h = ground (arith, h)
not_empty (y ∷ ys) x h = ground (arith, h)
