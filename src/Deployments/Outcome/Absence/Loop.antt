-- ===== src/Deployments/Outcome/Absence/Loop.antt =====
-- After a removal loop that reports every candidate as absent, each is: its status said before the
-- loop that it was not there, or a removal of it succeeded or found none.
use yokai.Prelude.{
  ℕ, String, ◌==◌, ◌≡◌, ◌⊎◌, inl, inr, refl, ap, sym, subst, ◌∙◌, Bool, true, false, not, ◌&&◌,
  Bool-cases, List, [], ◌∷◌, if◌then◌else◌, get_or, arith,
}
use yokai.Bkc.Types.{Config, worker_role}
use yokai.Deployments.Types.{Member, Deployment}
use yokai.Deployments.Env.{Env, Context, Sys, Event, pure}
use yokai.Deployments.Members.{
  candidate_may_exist, no_member, deployment_launch_order, is_head_recipe_bkc,
  reverse_launch_member_indexes,
}
use yokai.Deployments.Engine.Journal.{member_at, persist_progress}
use yokai.Deployments.Engine.Rollback.{clean_group}
use yokai.Deployments.Engine.Rollback.Capture.{capture_candidate_logs, capture_all}
use yokai.Deployments.Engine.Rollback.Removal.{Cleanup, clean_candidate, clean_candidates}
use yokai.Deployments.Outcome.Absence.{
  is_gone, is_absent, all_absent, IsLater, IsCleaned, is_gone-same, unsafe_is_safe,
}
use yokai.Deployments.Outcome.Absence.Round.{clean_candidate-IsCleaned}

module _ (env : Env) where
  module _ (ctx : Context) (redaction : String) where
    -- The members, after some events, are those of before the loop, but for statuses; and one
    -- that had a candidate may still have one, or is gone.
    abbrev IsCovered : List Member → List Member → List Event → Type 0
    IsCovered first now events =
        (j : ℕ)
        → ((get_or now j no_member).name ≡ (get_or first j no_member).name)
          × ((get_or now j no_member).device_id ≡ (get_or first j no_member).device_id)
          × ((candidate_may_exist (get_or now j no_member).status ≡ true)
              ⊎ (is_absent env events (get_or first j no_member) ≡ true))

    absent-later :
        (before after : List Event) (m : Member)
        → IsLater env before after
        → is_absent env before m ≡ true
        → is_absent env after m ≡ true
    absent-later before after m later h = elim (Bool-cases (candidate_may_exist m.status)) [
      | inr e ↦ rw e refl
      | inl e ↦ rw e (later m (ground (arith, e, h)))
    ]

    gone-absent :
        (events : List Event) (m : Member)
        → is_gone env events m ≡ true
        → is_absent env events m ≡ true
    gone-absent events m h = ground (arith, h)

    own_absent :
        (first : List Member) (i : ℕ) (c : Cleanup) (s : Sys) (r : Cleanup × Sys)
        → IsCovered first c.deployment.members s.events
        → IsCleaned env i c s r
        → is_absent env r.1.events (get_or first i no_member) ≡ true
    own_absent first i c s (c', s') covered (safe, later, marked, how) =
        let (name, device, is_there) = covered i in
        elim how [
          | inr removed ↦ gone-absent s'.events (get_or first i no_member) (
              sym (
                is_gone-same env s'.events (member_at c.deployment i) (get_or first i no_member)
                  name device)
              ∙ removed)
          | inl (never, kept) ↦ elim is_there [
            | inl e ↦ absurd (unsafe_is_safe env (sym never ∙ e))
            | inr e ↦ absent-later s.events s'.events (get_or first i no_member) later e
          ]
        ]

    step-IsCovered :
        (first : List Member) (i : ℕ) (c : Cleanup) (s : Sys) (r : Cleanup × Sys)
        → IsCovered first c.deployment.members s.events
        → IsCleaned env i c s r
        → IsCovered first r.0.deployment.members r.1.events
    step-IsCovered first i c s (c', s') covered cleaned j =
        let (safe, later, marked, how) = cleaned in
        let (name, device, is_there) = covered j in
        let (name', device', status) = marked j in
        (
          name' ∙ name,
          device' ∙ device,
          elim status [
            | inr own ↦ inr (
                subst (λ n. is_absent env s'.events (get_or first n no_member) ≡ true) (sym own)
                  (own_absent first i c s (c', s') covered cleaned))
            | inl same ↦ elim is_there [
              | inl e ↦ inl (ap candidate_may_exist same ∙ e)
              | inr e ↦ inr (absent-later s.events s'.events (get_or first j no_member) later e)
            ]
          ],
        )

    first-IsCovered : (ms : List Member) (events : List Event) → IsCovered ms ms events
    first-IsCovered ms events j = (
      refl,
      refl,
      elim (Bool-cases (candidate_may_exist (get_or ms j no_member).status)) [
        | inl e ↦ inl e
        | inr e ↦ inr (rw e refl)
      ],
    )

    both_absent : {b c : Bool} → b ≡ true → c ≡ true → (b && c) ≡ true
    both_absent h k = ground (arith, h, k)

    ended : (a b x : Bool) → (a && b && not x) ≡ true → ¬ (x ≡ true)
    ended a b x h k = ground (arith, h, k)

    -- The loop does not forget that a candidate may still be there.
    clean_candidates-was_safe :
        (head : Bool) (is : List ℕ) (c : Cleanup) (s : Sys)
        → (clean_candidates env ctx redaction head is c s).0.candidates_safe ≡ true
        → c.candidates_safe ≡ true
    unfolding clean_candidates
    clean_candidates-was_safe head [] c s k = k
    clean_candidates-was_safe head (i ∷ is) c s k =
        let round = clean_candidate env ctx redaction head i c s in
        elim (Bool-cases
          (head && (member_at c.deployment i).role == worker_role && not c.candidates_safe)) [
            | inl e ↦
                let path : clean_candidates env ctx redaction head (i ∷ is) c s ≡ (c, s) =
                  rw (e, clean_candidates) refl in
                sym (ap (λ x. x.0.candidates_safe) path) ∙ k
            | inr e ↦
                let path : clean_candidates env ctx redaction head (i ∷ is) c s
                    ≡ clean_candidates env ctx redaction head is round.0 round.1 =
                  rw (e, clean_candidates) refl in
                let before =
                  clean_candidates-was_safe head is round.0 round.1
                    (sym (ap (λ x. x.0.candidates_safe) path) ∙ k) in
                (clean_candidate-IsCleaned env ctx redaction head i c s before).0
          ]

    -- The removal loop.
    clean_candidates-all_absent :
        (head : Bool) (is : List ℕ) (c : Cleanup) (s : Sys) (first : List Member)
        → IsCovered first c.deployment.members s.events
        → (clean_candidates env ctx redaction head is c s).0.candidates_safe ≡ true
        → IsLater env s.events (clean_candidates env ctx redaction head is c s).1.events
          × (all_absent env (clean_candidates env ctx redaction head is c s).1.events first is
              ≡ true)
    unfolding clean_candidates
    clean_candidates-all_absent head [] c s first covered k = (λ m h. h, refl)
    clean_candidates-all_absent head (i ∷ is) c s first covered k =
        let round = clean_candidate env ctx redaction head i c s in
        elim (Bool-cases
          (head && (member_at c.deployment i).role == worker_role && not c.candidates_safe)) [
            | inl e ↦
                let path : clean_candidates env ctx redaction head (i ∷ is) c s ≡ (c, s) =
                  rw (e, clean_candidates) refl in
                absurd (
                  ended head ((member_at c.deployment i).role == worker_role) c.candidates_safe e
                    (sym (ap (λ x. x.0.candidates_safe) path) ∙ k))
            | inr e ↦
                let path : clean_candidates env ctx redaction head (i ∷ is) c s
                    ≡ clean_candidates env ctx redaction head is round.0 round.1 =
                  rw (e, clean_candidates) refl in
                let k' = sym (ap (λ x. x.0.candidates_safe) path) ∙ k in
                let cleaned =
                  clean_candidate-IsCleaned env ctx redaction head i c s
                    (clean_candidates-was_safe head is round.0 round.1 k') in
                let final = clean_candidates env ctx redaction head is round.0 round.1 in
                let (later, rest) =
                  clean_candidates-all_absent head is round.0 round.1 first
                    (step-IsCovered first i c s round covered cleaned) k' in
                subst
                  (λ x.
                    IsLater env s.events x.1.events
                    × (all_absent env x.1.events first (i ∷ is) ≡ true))
                  (sym path)
                  (
                    λ m h. later m (cleaned.1 m h),
                    both_absent
                        (absent-later round.1.events final.1.events (get_or first i no_member) later
                          (own_absent first i c s round covered cleaned))
                        rest,
                  )
          ]

    capture_all-same :
        (ms : List Member) (d : Deployment) (s : Sys)
        → ((capture_all env ctx redaction ms d s).0.members ≡ d.members)
          × ((capture_all env ctx redaction ms d s).0.launch_order ≡ d.launch_order)
          × ((capture_all env ctx redaction ms d s).0.bkc_id ≡ d.bkc_id)
    unfolding capture_all capture_candidate_logs persist_progress
    capture_all-same [] d s = (refl, refl, refl)
    capture_all-same (m ∷ ms) d s = grind (arith, capture_all-same ms)

    reverse_launch_member_indexes-same :
        (catalog : List Config) (a b : Deployment)
        → a.members ≡ b.members
        → a.launch_order ≡ b.launch_order
        → a.bkc_id ≡ b.bkc_id
        → reverse_launch_member_indexes catalog a ≡ reverse_launch_member_indexes catalog b
    unfolding reverse_launch_member_indexes deployment_launch_order
    reverse_launch_member_indexes-same catalog a b h k l = rw (h, k, l) refl

    captured_group-same :
        (head : Bool) (d : Deployment) (s : Sys)
        → (let captured =
              ((if head then capture_all env ctx redaction d.members d else pure d) s).0 in
            (captured.members ≡ d.members)
            × (reverse_launch_member_indexes env.catalog captured
                ≡ reverse_launch_member_indexes env.catalog d))
    captured_group-same false d s = (refl, refl)
    captured_group-same true d s =
        let captured = (capture_all env ctx redaction d.members d s).0 in
        let (members, order, id) = capture_all-same d.members d s in
        (members, reverse_launch_member_indexes-same env.catalog captured d members order id)

    -- Where the removal loop of a rollback reports every candidate as absent, each of the ranks is.
    pub clean_group-all_absent :
        (d : Deployment) (s : Sys)
        → (clean_group env ctx redaction d s).0.candidates_safe ≡ true
        → all_absent env
            (clean_group env ctx redaction d s).1.events
            d.members
            (reverse_launch_member_indexes env.catalog d)
          ≡ true
    unfolding clean_group
    clean_group-all_absent d s k =
        let head = is_head_recipe_bkc env.catalog d.bkc_id in
        let first = (if head then capture_all env ctx redaction d.members d else pure d) s in
        let (members, order) = captured_group-same head d s in
        subst
          (λ is. all_absent env (clean_group env ctx redaction d s).1.events d.members is ≡ true)
          order
          (clean_candidates-all_absent head (reverse_launch_member_indexes env.catalog first.0)
            (record { deployment = first.0; candidates_safe = true }) first.1 d.members
            (subst (λ ms. IsCovered d.members ms first.1.events) (sym members)
              (first-IsCovered d.members first.1.events))
            k).1
