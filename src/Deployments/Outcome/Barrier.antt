-- ===== src/Deployments/Outcome/Barrier.antt =====
-- The end of a rollback, by what its removal loop has shown of the candidates.
use yokai.Prelude.{
  ℕ, String, ◌≡◌, ◌≢◌, refl, ap, sym, subst, ◌∙◌, Bool, false, Bool-cases, inl, inr, Option, none,
  some, List, [], ◌∷◌, ◌++◌, is_empty, arith,
}
use yokai.Deployments.Errors.{Err}
use yokai.Deployments.Members.{reverse_launch_member_indexes}
use yokai.Deployments.Outcome.Absence.{all_absent}
use yokai.Deployments.Outcome.Absence.Loop.{clean_group-all_absent}
use yokai.Deployments.Types.{State, Member, Deployment}
use yokai.Deployments.Env.{Env, Context, Sys, wrote}
use yokai.Deployments.Store.{put}
use yokai.Deployments.Engine.Journal.{
  result_of, persist_progress, before_member_action, after_member_action,
}
use yokai.Deployments.Engine.Rollback.Capture.{capture_candidate_logs}
use yokai.Deployments.Engine.Rollback.Removal.{
  Cleanup, remove_candidate, removal_recorded, inspected_candidate, intended_removal,
  clean_candidate, clean_candidates,
}
use yokai.Deployments.Engine.Rollback.{
  settle, finish_rollback, clean_group, settle_group, run_rollback,
}

-- A candidate that is not known absent has left an error.
abbrev IsNoted : Cleanup → Type 0
IsNoted c = c.candidates_safe ≡ false → is_empty (result_of c.deployment).errors ≡ false

-- A rollback that failed, and after the given state only wrote its result.
abbrev pub IsBarred : (Deployment × Option Err) × Sys → Sys → Type 0
IsBarred (r, after) before =
    (r.0.state ≡ State.rollback_failed)
    × (r.1 ≢ none)
    × ((d : Deployment) × (p : Bool) × (e : Option Err) × (after.events
          ≡ wrote d p e ∷ before.events))

settle-failed :
    (d : Deployment) (now : ℕ)
    → is_empty (result_of d).errors ≡ false
    → (settle d now).state ≡ State.rollback_failed
unfolding settle
settle-failed d now h = grind (arith, h)

settle-errors :
    (d : Deployment) (now : ℕ)
    → is_empty (result_of d).errors ≡ false
    → is_empty (result_of (settle d now)).errors ≡ false
unfolding settle
settle-errors d now h = grind (arith, h)

finish_rollback-failed :
    (env : Env) (t : Deployment × Option Err)
    → is_empty (result_of t.0).errors ≡ false
    → ((finish_rollback env t).0 ≡ t.0) × ((finish_rollback env t).1 ≢ none)
unfolding finish_rollback
finish_rollback-failed env (d, some e) h = (refl, λ k. ground (arith, k))
finish_rollback-failed env (d, none) h = (ground (arith, h), λ k. ground (arith, h, k))

-- One error more is an error.
is_empty-append : (xs : List String) (x : String) → is_empty (xs ++ x ∷ []) ≡ false
is_empty-append [] x = refl
is_empty-append (y ∷ ys) x = refl

module _ (env : Env) (ctx : Context) (redaction : String) where
  removal_recorded-IsNoted :
      (safe : Bool) (role : String) (t : Deployment × Option Err) (s : Sys)
      → IsNoted (record { deployment = t.0; candidates_safe = safe })
      → IsNoted (removal_recorded env safe role t s).0
  unfolding removal_recorded
  removal_recorded-IsNoted safe role (d, none) s h = h
  removal_recorded-IsNoted safe role (d, some e) s h = λ k. is_empty-append (result_of d).errors _

  remove_candidate-IsNoted :
      (head : Bool) (i : ℕ) (d : Deployment) (safe : Bool) (m : Member) (s : Sys)
      → IsNoted (record { deployment = d; candidates_safe = safe })
      → IsNoted (remove_candidate env ctx redaction head i d safe m s).0
  unfolding remove_candidate capture_candidate_logs persist_progress after_member_action
  remove_candidate-IsNoted head i d safe m s h =
      grind (arith, removal_recorded-IsNoted, is_empty-append)

  intended_removal-IsNoted :
      (head : Bool) (i : ℕ) (safe : Bool) (m : Member) (t : Deployment × Option Err) (s : Sys)
      → IsNoted (record { deployment = t.0; candidates_safe = safe })
      → IsNoted (intended_removal env ctx redaction head i safe m t s).0
  unfolding intended_removal inspected_candidate
  intended_removal-IsNoted head i safe m (d, some e) s h =
      λ k. is_empty-append (result_of d).errors _
  intended_removal-IsNoted head i safe m (d, none) s h =
      grind (arith, remove_candidate-IsNoted, is_empty-append)

  clean_candidate-IsNoted :
      (head : Bool) (i : ℕ) (c : Cleanup) (s : Sys)
      → IsNoted c
      → IsNoted (clean_candidate env ctx redaction head i c s).0
  unfolding clean_candidate before_member_action persist_progress
  clean_candidate-IsNoted head i c s h = grind (arith, intended_removal-IsNoted, is_empty-append)

  clean_candidates-IsNoted :
      (head : Bool) (is : List ℕ) (c : Cleanup) (s : Sys)
      → IsNoted c
      → IsNoted (clean_candidates env ctx redaction head is c s).0
  unfolding clean_candidates
  clean_candidates-IsNoted head [] c s h = h
  clean_candidates-IsNoted head (i ∷ is) c s h =
      let (c', s') = clean_candidate env ctx redaction head i c s in
      grind (arith, clean_candidate-IsNoted head i c s h, clean_candidates-IsNoted head is c' s')

  clean_group-IsNoted : (d : Deployment) (s : Sys) → IsNoted (clean_group env ctx redaction d s).0
  unfolding clean_group
  clean_group-IsNoted d s = clean_candidates-IsNoted _ _ _ _ (λ k. ground (arith, k))

  settled-barrier :
      (d : Deployment) (s : Sys)
      → is_empty (result_of d).errors ≡ false
      → IsBarred (settle_group env ctx (record { deployment = d; candidates_safe = false }) s) s
  unfolding settle_group persist_progress put
  settled-barrier d s h =
      let now = env.now s.events in
      let (same, failed) = finish_rollback-failed env _ (settle-errors d now h) in
      (ap (λ r. r.state) same ∙ settle-failed d now h, failed, (_, _, _, refl))

  flag-barrier :
      (d : Deployment) (s : Sys)
      → (clean_group env ctx redaction d s).0.candidates_safe ≡ false
      → IsBarred (run_rollback env ctx redaction d s) (clean_group env ctx redaction d s).1
  unfolding run_rollback
  flag-barrier d s h =
      let (c, s') = clean_group env ctx redaction d s in
      subst
        (λ safe.
          IsBarred
            (settle_group env ctx (record { deployment = c.deployment; candidates_safe = safe }) s')
            s')
        (sym h) (settled-barrier c.deployment s' (clean_group-IsNoted d s h))

  -- Where, after the removal loop of a rollback, the container of some rank may still be there,
  -- since the rank's status at the start of the rollback does not rule it out and no removal of
  -- its name on its device has succeeded or found none, the rollback returns an error and the
  -- state of a failed rollback, and it calls no device any more: after the loop only the result
  -- is written.
  pub run_rollback-barrier :
      (d : Deployment) (s : Sys)
      → all_absent env
          (clean_group env ctx redaction d s).1.events
          d.members
          (reverse_launch_member_indexes env.catalog d)
        ≡ false
      → IsBarred (run_rollback env ctx redaction d s) (clean_group env ctx redaction d s).1
  run_rollback-barrier d s h =
      elim (Bool-cases (clean_group env ctx redaction d s).0.candidates_safe) [
        | inr e ↦ flag-barrier d s e
        | inl e ↦
            let k = sym h ∙ clean_group-all_absent env ctx redaction d s e in
            absurd (ground (arith, k))
      ]
