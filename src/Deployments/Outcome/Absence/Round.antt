-- ===== src/Deployments/Outcome/Absence/Round.antt =====
-- A round of the removal loop of rollbackLocked that reports every candidate as absent.
use yokai.Prelude.{
  ℕ, String, eq_refl, ◌≡◌, inl, inr, refl, ap, sym, subst, concat, is_none, ◌∙◌, Bool, true, false,
  ◌&&◌, ◌||◌, Bool-cases, Option, none, some, List, [], ◌∷◌, if◌then◌else◌, modify, arith,
}
use yokai.Deployments.Errors.{Err, Result, ok, err, is_error, container_not_found}
use yokai.Deployments.Types.{Phase, Member, Deployment, ObservedContainer}
use yokai.Deployments.Env.{Env, Context, Sys, Event, removed_managed, pure, call_remove_managed}
use yokai.Deployments.Store.{put}
use yokai.Deployments.Members.{
  is_observed, validate_managed_member_identity, candidate_may_exist, append_unique_strings,
}
use yokai.Deployments.Engine.Journal.{
  member_at, persist_progress, before_member_action, after_member_action,
}
use yokai.Deployments.Engine.Rollback.Capture.{with_result, capture_candidate_logs}
use yokai.Deployments.Engine.Rollback.Removal.{
  Cleanup, unsafe, remove_failed, remove_candidate, removal_recorded, inspected_candidate,
  intended_removal, clean_candidate,
}
use yokai.Deployments.Outcome.Absence.{
  is_gone, IsLater, IsMarked, IsRemoved, IsCleaned, modify-IsMarked, IsMarked-trans, unsafe_is_safe,
  removal-later,
}

module _ (env : Env) where
  own_removal :
      (ctx : Context) (d : Deployment) (m : Member) (a : Option Err) (t : List Event)
      → remove_failed env a ≡ false
      → is_gone env (removed_managed ctx d m a ∷ t) m ≡ true
  own_removal ctx d m a t e = rw e (either _ (eq_refl m.name) (eq_refl m.device_id))
    where
      either : {b c : Bool} (x : Bool) → b ≡ true → c ≡ true → ((b && c && true) || x) ≡ true
      either x h k = ground (arith, h, k)

  removal_recorded-same :
      (safe : Bool) (role : String) (t : Deployment × Option Err) (s : Sys)
      → ((removal_recorded env safe role t s).0.candidates_safe ≡ safe)
        × ((removal_recorded env safe role t s).0.deployment.members ≡ t.0.members)
        × ((removal_recorded env safe role t s).1 ≡ s)
  unfolding removal_recorded
  removal_recorded-same safe role (d, none) s = (refl, refl, refl)
  removal_recorded-same safe role (d, some e) s = (refl, refl, refl)

  after_member_action-IsLater :
      (d : Deployment) (i : ℕ) (phase : Phase) (action status : String) (s : Sys)
      → (let (t, s') = after_member_action env d i phase action status s in
          (t.0.members ≡ modify d.members i (λ m. record m { status = status }))
          × IsLater env s.events s'.events)
  unfolding after_member_action persist_progress put
  after_member_action-IsLater d i phase action status s = (refl, λ m h. h)

  before_member_action-IsLater :
      (d : Deployment) (i : ℕ) (phase : Phase) (action status : String) (s : Sys)
      → (let (t, s') = before_member_action env d i phase action status s in
          (t.0.members ≡ modify d.members i (λ m. record m { status = status }))
          × IsLater env s.events s'.events)
  unfolding before_member_action persist_progress put
  before_member_action-IsLater d i phase action status s = (refl, λ m h. h)

  module _ (ctx : Context) (redaction : String) where
    captured-IsLater :
        (head : Bool) (d : Deployment) (m : Member) (s : Sys)
        → (let (d', s') =
              (if head then pure d else capture_candidate_logs env ctx d m redaction) s in
            (d'.members ≡ d.members) × IsLater env s.events s'.events)
    unfolding capture_candidate_logs persist_progress put
    captured-IsLater true d m s = (refl, λ x h. h)
    captured-IsLater false d m s = (refl, λ x h. h)

    remove_candidate-IsRemoved :
        (head : Bool) (i : ℕ) (d : Deployment) (safe : Bool) (m : Member) (s : Sys)
        → (remove_candidate env ctx redaction head i d safe m s).0.candidates_safe ≡ true
        → IsRemoved env i d.members safe m s (remove_candidate env ctx redaction head i d safe m s)
    unfolding remove_candidate
    remove_candidate-IsRemoved head i d safe m s k =
        let first = (if head then pure d else capture_candidate_logs env ctx d m redaction) s in
        let (same, later) = captured-IsLater head d m s in
        let (a, s1) = call_remove_managed env ctx first.0 m first.1 in
        elim (Bool-cases (remove_failed env a)) [
          | inl e ↦
              let path : remove_candidate env ctx redaction head i d safe m s
                  ≡ (unsafe first.0 (concat ("remove " ∷ m.role ∷ " candidate failed" ∷ [])), s1) =
                rw (e, remove_candidate) refl in
              absurd (unsafe_is_safe env (sym (ap (λ x. x.0.candidates_safe) path) ∙ k))
          | inr e ↦
              let removed = with_result first.0 λ r. record r {
                removed_candidates = append_unique_strings r.removed_candidates (m.name ∷ []);
              } in
              let done =
                after_member_action env removed i Phase.rollback "remove_candidate" "removed" s1 in
              let path : remove_candidate env ctx redaction head i d safe m s
                  ≡ removal_recorded env safe m.role done.0 done.1 =
                rw (e, remove_candidate) refl in
              let (was_safe, members, events) = removal_recorded-same safe m.role done.0 done.1 in
              let (marked, on) =
                after_member_action-IsLater removed i Phase.rollback "remove_candidate" "removed"
                  s1 in
              subst (λ r. IsRemoved env i d.members safe m s r) (sym path)
                (
                  sym was_safe ∙ sym (ap (λ x. x.0.candidates_safe) path) ∙ k,
                  subst (λ x. IsLater env s.events x.events) (sym events)
                      (λ x h.
                        on x (removal-later env ctx first.0 m x a first.1.events (later x h))),
                  subst (λ ms. IsMarked env i d.members ms)
                      (sym (
                        members
                        ∙ marked
                        ∙ ap (λ ms. modify ms i (λ x. record x { status = "removed" })) same))
                      (modify-IsMarked env d.members i "removed"),
                  subst (λ x. is_gone env x.events m ≡ true) (sym events)
                      (on m (own_removal ctx first.0 m a first.1.events e)),
                )
        ]

    inspected_candidate-IsRemoved :
        (head : Bool) (i : ℕ) (d : Deployment) (safe : Bool) (m : Member)
        (o : Result ObservedContainer) (s : Sys)
        → (inspected_candidate env ctx redaction head i d safe m o s).0.candidates_safe ≡ true
        → IsRemoved env i d.members safe m s
            (inspected_candidate env ctx redaction head i d safe m o s)
    unfolding inspected_candidate
    inspected_candidate-IsRemoved head i d safe m (err e) s k =
        elim (Bool-cases (is_error e container_not_found)) [
          | inl h ↦
              let path : inspected_candidate env ctx redaction head i d safe m (err e) s
                  ≡ remove_candidate env ctx redaction head i d safe m s =
                rw (h, inspected_candidate) refl in
              subst (λ r. IsRemoved env i d.members safe m s r) (sym path)
                (remove_candidate-IsRemoved head i d safe m s
                  (sym (ap (λ x. x.0.candidates_safe) path) ∙ k))
          | inr h ↦
              let path : inspected_candidate env ctx redaction head i d safe m (err e) s
                  ≡ (unsafe d (concat ("inspect " ∷ m.role ∷ " candidate failed" ∷ [])), s) =
                rw (h, inspected_candidate) refl in
              absurd (unsafe_is_safe env (sym (ap (λ x. x.0.candidates_safe) path) ∙ k))
        ]
    inspected_candidate-IsRemoved head i d safe m (ok o) s k =
        elim (Bool-cases (is_none (validate_managed_member_identity d m o))) [
          | inl h ↦
              let own = record m { container_id = o.id } in
              let path : inspected_candidate env ctx redaction head i d safe m (ok o) s
                  ≡ remove_candidate env ctx redaction head i d safe own s =
                rw (h, inspected_candidate) refl in
              let (was_safe, later, marked, removed) =
                remove_candidate-IsRemoved head i d safe own s
                  (sym (ap (λ x. x.0.candidates_safe) path) ∙ k) in
              subst (λ r. IsRemoved env i d.members safe m s r) (sym path)
                (was_safe, later, marked, removed)
          | inr h ↦
              let path : inspected_candidate env ctx redaction head i d safe m (ok o) s
                  ≡ (unsafe d (concat ("candidate name collision for " ∷ m.role ∷ [])), s) =
                rw (h, inspected_candidate) refl in
              absurd (unsafe_is_safe env (sym (ap (λ x. x.0.candidates_safe) path) ∙ k))
        ]

    intended_removal-IsRemoved :
        (head : Bool) (i : ℕ) (safe : Bool) (m : Member) (t : Deployment × Option Err) (s : Sys)
        → (intended_removal env ctx redaction head i safe m t s).0.candidates_safe ≡ true
        → IsRemoved env i t.0.members safe m s
            (intended_removal env ctx redaction head i safe m t s)
    unfolding intended_removal
    intended_removal-IsRemoved head i safe m (d, some e) s k = absurd (unsafe_is_safe env k)
    intended_removal-IsRemoved head i safe m (d, none) s k =
        inspected_candidate-IsRemoved head i d safe m _ _ k

    pub clean_candidate-IsCleaned :
        (head : Bool) (i : ℕ) (c : Cleanup) (s : Sys)
        → (clean_candidate env ctx redaction head i c s).0.candidates_safe ≡ true
        → IsCleaned env i c s (clean_candidate env ctx redaction head i c s)
    unfolding clean_candidate
    clean_candidate-IsCleaned head i c s k =
        let d = c.deployment in
        let m = member_at d i in
        elim (Bool-cases (candidate_may_exist m.status)) [
          | inr h ↦
              let path : clean_candidate env ctx redaction head i c s ≡ (c, s) =
                rw (h, clean_candidate) refl in
              subst (λ r. IsCleaned env i c s r) (sym path)
                (
                  sym (ap (λ x. x.0.candidates_safe) path) ∙ k,
                  λ x g. g,
                  λ j. (refl, refl, inl refl),
                  inl (h, refl),
                )
          | inl h ↦ elim (Bool-cases (is_observed m.ownership)) [
            | inl o ↦
                let path : clean_candidate env ctx redaction head i c s ≡ (
                  unsafe d (concat ("refused to remove observed " ∷ m.role ∷ " candidate" ∷ [])),
                  s,
                ) =
                  rw (h, o, clean_candidate) refl in
                absurd (unsafe_is_safe env (sym (ap (λ x. x.0.candidates_safe) path) ∙ k))
            | inr o ↦
                let (t, s1) =
                  before_member_action env d i Phase.rollback "remove_candidate" "removing" s in
                let path : clean_candidate env ctx redaction head i c s
                    ≡ intended_removal env ctx redaction head i c.candidates_safe m t s1 =
                  rw (h, o, clean_candidate) refl in
                let (set, on) =
                  before_member_action-IsLater d i Phase.rollback "remove_candidate" "removing" s in
                let (was_safe, later, marked, removed) =
                  intended_removal-IsRemoved head i c.candidates_safe m t s1
                    (sym (ap (λ x. x.0.candidates_safe) path) ∙ k) in
                subst (λ r. IsCleaned env i c s r) (sym path)
                  (
                    was_safe,
                    λ x g. later x (on x g),
                    IsMarked-trans env i d.members t.0.members _
                        (subst (λ ms. IsMarked env i d.members ms) (sym set)
                          (modify-IsMarked env d.members i "removing"))
                        marked,
                    inr removed,
                  )
          ]
        ]
