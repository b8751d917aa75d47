-- ===== src/Deployments/Safety.antt =====
-- When the engine may touch a container: conditions on each event by what came before it.
pub mod Create
pub mod Effects
pub mod Journal
pub mod Readiness
pub mod Recovery
pub mod Roles
pub mod Rollback
pub mod Restoration
pub mod Service
pub mod Stages
pub mod Start
pub mod Stop
use yokai.Prelude.{
  ℕ, String, ◌==◌, trim_space, ◌≡◌, ◌≢◌, refl, Bool, true, false, not, ◌&&◌, ◌||◌, Option, none,
  some, List, [], ◌∷◌, arith, eq_iff, int_eq_iff, ◌↔◌,
}
use yokai.Deployments.Errors.{Err, Result, ok, err, is_error, container_not_found}
use yokai.Deployments.Types.{Phase, Progress, Member, Deployment, ObservedContainer, Ownership}
use yokai.Deployments.Env.{
  Env, Context, Sys, Event, preflighted, pulled, inspected, stopped, stopped_managed, launched,
  waited_running, tested, captured_logs, removed_managed, restarted, restarted_managed, wrote,
  slept,
}
use yokai.Deployments.Engine.Journal.{previous_at}
use yokai.Deployments.Members.{validate_managed_member_identity, is_managed, member_locator}

-- The observed container is the member of this deployment: managed on both sides, of the same
-- deployment, generation and role, under the member's name, which is not blank.
pub record Owns (id : String) (m : Member) (o : ObservedContainer) : Type 0 where
  pub member_managed : m.ownership ≡ Ownership.managed
  pub label_managed : o.managed ≡ true
  pub container_managed : o.ownership ≡ Ownership.managed
  pub same_deployment : o.deployment_id ≡ id
  pub same_generation : o.generation ≡ m.generation
  pub same_role : o.role ≡ m.role
  pub same_name : o.name ≡ m.name
  pub named : trim_space m.name ≢ ""

-- The newest record of a deployment's progress.
-- (computes)
abbrev pub latest : List Progress → Option Progress
latest [] = none
latest (p ∷ ps) = elim (latest ps) [ none ↦ some p | some q ↦ some q ]

-- The last event is a successful write of a deployment whose newest record is the intent to do
-- the action to the rank of that role.
abbrev pub IsJournaled : Phase → String → String → List Event → Type 0
IsJournaled phase action role (wrote d true none ∷ t) =
    (p : Progress) × (latest d.progress ≡ some p)
    × (p.phase ≡ phase)
    × (p.action ≡ action)
    × (p.role ≡ role)
    × (p.status ≡ "started")
IsJournaled phase action role _ = ⊥

-- The last event is such a write of a deployment that has, as a previous member of that role, the
-- container on the device.
abbrev pub IsSelected : Phase → String → String → String → List Event → Type 0
IsSelected phase action device container (wrote d true none ∷ t) =
    (i : ℕ) × ((previous_at d i).device_id ≡ device)
    × ((previous_at d i).container_id ≡ container)
    × IsJournaled phase action (previous_at d i).role (wrote d true none ∷ t)
IsSelected phase action device container _ = ⊥

-- The last event inspected a previous member's container and found one, right after the intent to
-- restore that member was written.
abbrev pub IsRestorable : String → String → List Event → Type 0
IsRestorable device container (inspected ctx at locator (ok o) ∷ t) =
    (at ≡ device)
    × (locator ≡ container)
    × IsSelected Phase.rollback "restore_previous" device container t
IsRestorable device container _ = ⊥

-- The last event inspected the member and found its own container.
abbrev pub IsInspected : String → Member → List Event → Type 0
IsInspected id m (inspected ctx device locator (ok o) ∷ t) =
    (device ≡ m.device_id) × (locator ≡ member_locator m) × Owns id m o
IsInspected id m _ = ⊥

-- The last inspection, before which logs may have been captured, was of the member's device and
-- found its own container, under the id that is removed, or none.
abbrev pub IsVouched : String → Member → List Event → Type 0
IsVouched id m (inspected ctx device locator (ok o) ∷ t) =
    (device ≡ m.device_id) × (m.container_id ≡ o.id) × Owns id m o
IsVouched id m (inspected ctx device locator (err e) ∷ t) =
    (device ≡ m.device_id) × (is_error e container_not_found ≡ true)
IsVouched id m (wrote d' p e ∷ t) = IsVouched id m t
IsVouched id m (captured_logs ctx d' m' r a ∷ t) = IsVouched id m t
IsVouched id m _ = ⊥

-- What must hold of the events before one.
abbrev pub Allowed : Event → List Event → Type 0
Allowed (pulled ctx b image a) t = IsJournaled Phase.pulling "pull" b.role t
Allowed (stopped ctx device id a) t = IsSelected Phase.cutover "stop_previous" device id t
Allowed (launched ctx b c a) t = IsJournaled Phase.launching "launch" b.role t
Allowed (restarted ctx device id a) t = IsRestorable device id t
Allowed (stopped_managed ctx d m a) t = IsInspected d.id m t
Allowed (restarted_managed ctx d m a) t = IsInspected d.id m t
Allowed (removed_managed ctx d m a) t = IsVouched d.id m t
Allowed _ t = Unit

abbrev pub IsSafe : List Event → Type 0
IsSafe [] = Unit
IsSafe (e ∷ t) = Allowed e t × IsSafe t

-- The code's check is the specification.
pub validate_managed_member_identity-Owns :
    (d : Deployment) (m : Member) (o : ObservedContainer)
    → (validate_managed_member_identity d m o ≡ none) ↔ Owns d.id m o
unfolding validate_managed_member_identity
validate_managed_member_identity-Owns d m o = (
  λ h. ground (
    arith,
    eq_iff o.deployment_id d.id,
    int_eq_iff o.generation m.generation,
    eq_iff o.role m.role,
    eq_iff o.name m.name,
    eq_iff (trim_space m.name) "",
  ),
  λ h. ground (
    arith,
    eq_iff o.deployment_id d.id,
    int_eq_iff o.generation m.generation,
    eq_iff o.role m.role,
    eq_iff o.name m.name,
    eq_iff (trim_space m.name) "",
  ),
)
