-- ===== src/Deployments/Outcome/Absence.antt =====
-- What it is for a rank to have no candidate, as the events show it.
pub mod Loop
pub mod Round
use yokai.Prelude.{
  ℕ, zero, suc, String, ◌==◌, eq_refl, ◌≡◌, ◌⊎◌, inl, inr, refl, ap, sym, subst, concat, is_none,
  ◌∙◌, Bool, true, false, not, ◌&&◌, ◌||◌, Bool-cases, Option, none, some, List, [], ◌∷◌,
  if◌then◌else◌, get_or, modify, arith,
}
use yokai.Bkc.Types.{Config, worker_role}
use yokai.Deployments.Errors.{Err, Result, ok, err, is_error, container_not_found}
use yokai.Deployments.Types.{Phase, Member, Deployment, ObservedContainer}
use yokai.Deployments.Env.{Env, Context, Sys, Event, removed_managed, pure, call_remove_managed}
use yokai.Deployments.Store.{put}
use yokai.Deployments.Members.{
  is_observed, validate_managed_member_identity, candidate_may_exist, no_member,
  append_unique_strings, deployment_launch_order, is_head_recipe_bkc, reverse_launch_member_indexes,
}
use yokai.Deployments.Engine.Journal.{
  member_at, persist_progress, before_member_action, after_member_action,
}
use yokai.Deployments.Engine.Rollback.{clean_group}
use yokai.Deployments.Engine.Rollback.Capture.{with_result, capture_candidate_logs, capture_all}
use yokai.Deployments.Engine.Rollback.Removal.{
  Cleanup, unsafe, remove_failed, remove_candidate, removal_recorded, inspected_candidate,
  intended_removal, clean_candidate, clean_candidates,
}

module _ (env : Env) where
  -- The events have a removal of that name on that device that succeeded or found none.
  abbrev pub is_removed : List Event → String → String → Bool
  is_removed [] name device = false
  is_removed (removed_managed ctx d x a ∷ t) name device =
      (x.name == name && x.device_id == device && not (remove_failed env a))
      || is_removed t name device
  is_removed (_ ∷ t) name device = is_removed t name device

  abbrev pub is_gone : List Event → Member → Bool
  is_gone events m = is_removed events m.name m.device_id

  -- No candidate stands for the member: its status says so, or it is gone.
  abbrev pub is_absent : List Event → Member → Bool
  is_absent events m = not (candidate_may_exist m.status) || is_gone events m

  abbrev pub all_absent : List Event → List Member → List ℕ → Bool
  all_absent events ms [] = true
  all_absent events ms (i ∷ is) =
      is_absent events (get_or ms i no_member) && all_absent events ms is

  -- No removal is forgotten.
  abbrev pub IsLater : List Event → List Event → Type 0
  IsLater before after = (m : Member) → is_gone before m ≡ true → is_gone after m ≡ true

  -- Members that differ at most in the status of one, and that one.
  abbrev pub IsMarked : ℕ → List Member → List Member → Type 0
  IsMarked i before after =
      (j : ℕ)
      → ((get_or after j no_member).name ≡ (get_or before j no_member).name)
        × ((get_or after j no_member).device_id ≡ (get_or before j no_member).device_id)
        × (((get_or after j no_member).status ≡ (get_or before j no_member).status) ⊎ (j ≡ i))

  pub modify-IsMarked :
      (ms : List Member) (i : ℕ) (status : String)
      → IsMarked i ms (modify ms i (λ m. record m { status = status }))
  modify-IsMarked [] i status j = (refl, refl, inl refl)
  modify-IsMarked (m ∷ ms) zero status zero = (refl, refl, inr refl)
  modify-IsMarked (m ∷ ms) zero status (suc j) = (refl, refl, inl refl)
  modify-IsMarked (m ∷ ms) (suc i) status zero = (refl, refl, inl refl)
  modify-IsMarked (m ∷ ms) (suc i) status (suc j) =
      let (name, device, same) = modify-IsMarked ms i status j in
      (name, device, elim same [ inl e ↦ inl e | inr e ↦ inr (ap suc e) ])

  pub IsMarked-trans :
      (i : ℕ) (a b c : List Member) → IsMarked i a b → IsMarked i b c → IsMarked i a c
  IsMarked-trans i a b c h k j =
      let (name, device, same) = h j in
      let (name', device', same') = k j in
      (
        name' ∙ name,
        device' ∙ device,
        elim same' [
          | inr e ↦ inr e
          | inl e ↦ elim same [ inl e' ↦ inl (e ∙ e') | inr e' ↦ inr e' ]
        ],
      )

  -- What is so after a removal of a member that is reported as absent.
  abbrev pub IsRemoved : ℕ → List Member → Bool → Member → Sys → Cleanup × Sys → Type 0
  IsRemoved i ms safe m s (c', s') =
      (safe ≡ true)
      × IsLater s.events s'.events
      × IsMarked i ms c'.deployment.members
      × (is_gone s'.events m ≡ true)

  -- What is so after a round for a member that reports all candidates so far as absent.
  abbrev pub IsCleaned : ℕ → Cleanup → Sys → Cleanup × Sys → Type 0
  IsCleaned i c s (c', s') =
      (c.candidates_safe ≡ true)
      × IsLater s.events s'.events
      × IsMarked i c.deployment.members c'.deployment.members
      × (((candidate_may_exist (member_at c.deployment i).status ≡ false)
            × (c'.deployment ≡ c.deployment))
          ⊎ (is_gone s'.events (member_at c.deployment i) ≡ true))

  pub removal-later :
      (ctx : Context) (d : Deployment) (m x : Member) (a : Option Err) (t : List Event)
      → is_gone t x ≡ true
      → is_gone (removed_managed ctx d m a ∷ t) x ≡ true
  removal-later ctx d m x a t h = rw h (last _)
    where
      last : (b : Bool) → (b || true) ≡ true
      last b = ground arith

  -- What counts for a removal is the name and the device.
  pub is_gone-same :
      (t : List Event) (m x : Member)
      → m.name ≡ x.name
      → m.device_id ≡ x.device_id
      → is_gone t m ≡ is_gone t x
  is_gone-same t m x h k = ap (λ n. is_removed t n m.device_id) h ∙ ap (is_removed t x.name) k

  pub unsafe_is_safe : ¬ (false ≡ true)
  unsafe_is_safe h = ground (arith, h)
