-- ===== src/Deployments/Outcome/Stop/Loop.antt =====
-- The loop of stopLocked, and stopLocked as a whole.
use yokai.Prelude.{
  ℕ, ◌==◌, ◌≡◌, refl, ap, sym, subst, ◌∙◌, Bool, true, false, not, ◌&&◌, Bool-cases, inl, inr,
  Option, none, some, List, [], ◌∷◌, is_empty, arith,
}
use yokai.Bkc.Types.{worker_role}
use yokai.Deployments.Errors.{Err, plain, conflict, wrap_error}
use yokai.Deployments.Types.{State, Phase, Deployment}
use yokai.Deployments.Env.{Env, Context, Sys, Event}
use yokai.Deployments.Store.{put}
use yokai.Deployments.Members.{
  is_head_recipe_bkc, reverse_launch_member_indexes, deployment_launch_order,
}
use yokai.Deployments.Engine.Journal.{member_at, persist_progress}
use yokai.Deployments.Engine.Stop.{
  Teardown, is_stopped, can_stop, stop_member, each_member, stop_finished, stop_journaled,
  stop_locked,
}
use yokai.Deployments.Outcome.Stop.{bare, is_down, all_down, IsLater, IsSame}
use yokai.Deployments.Outcome.Stop.Round.{stop_member-IsStopped}

module _ (env : Env) where
  module _ (ctx : Context) where
    abbrev each : List ℕ → Teardown → Sys → Teardown × Sys
    each is t s = each_member env (stop_member env ctx) is t s

    abbrev is_over : ℕ → Teardown → Bool
    is_over i t =
        is_head_recipe_bkc env.catalog t.deployment.bkc_id
        && (member_at t.deployment i).role == worker_role
        && not (is_empty t.stop_errors)

    each-over :
        (i : ℕ) (is : List ℕ) (t : Teardown) (s : Sys)
        → is_over i t ≡ true
        → each (i ∷ is) t s ≡ (t, s)
    unfolding each_member
    each-over i is t s e = rw (e, each_member) refl

    each-round :
        (i : ℕ) (is : List ℕ) (t : Teardown) (s : Sys)
        → is_over i t ≡ false
        → (let (t', s') = stop_member env ctx i t s in each (i ∷ is) t s ≡ each is t' s')
    unfolding each_member
    each-round i is t s e = rw (e, each_member) refl

    over_error : (a b x : Bool) → (a && b && not x) ≡ true → ¬ (x ≡ true)
    over_error a b x h k = ground (arith, h, k)

    -- The loop forgets no error.
    each-was_empty :
        (is : List ℕ) (t : Teardown) (s : Sys)
        → is_empty (each is t s).0.stop_errors ≡ true
        → is_empty t.stop_errors ≡ true
    unfolding each_member
    each-was_empty [] t s k = k
    each-was_empty (i ∷ is) t s k = elim (Bool-cases (is_over i t)) [
      | inl e ↦ sym (ap (λ x. is_empty x.0.stop_errors) (each-over i is t s e)) ∙ k
      | inr e ↦
          let (t', s') = stop_member env ctx i t s in
          (stop_member-IsStopped env ctx i t s (
            each-was_empty is t' s'
              (sym (ap (λ x. is_empty x.0.stop_errors) (each-round i is t s e)) ∙ k))).0
    ]

    both_down : {b c : Bool} → b ≡ true → c ≡ true → (b && c) ≡ true
    both_down h k = ground (arith, h, k)

    each-all_down :
        (d : Deployment) (is : List ℕ) (t : Teardown) (s : Sys)
        → IsSame d t.deployment
        → is_empty (each is t s).0.stop_errors ≡ true
        → IsLater s.events (each is t s).1.events × (all_down (each is t s).1.events d is ≡ true)
    unfolding each_member
    each-all_down d [] t s same k = (λ id m h. h, refl)
    each-all_down d (i ∷ is) t s same k = elim (Bool-cases (is_over i t)) [
      | inl e ↦ absurd (
          over_error (is_head_recipe_bkc env.catalog t.deployment.bkc_id)
            ((member_at t.deployment i).role == worker_role) (is_empty t.stop_errors) e
            (each-was_empty (i ∷ is) t s k))
      | inr e ↦
          let (t', s') = stop_member env ctx i t s in
          let path = each-round i is t s e in
          let k' = sym (ap (λ x. is_empty x.0.stop_errors) path) ∙ k in
          let (fine, later, (id, kept), down) =
            stop_member-IsStopped env ctx i t s (each-was_empty is t' s' k') in
          let (on, rest) = each-all_down d is t' s' (id ∙ same.0, λ j. kept j ∙ same.1 j) k' in
          subst (λ x. IsLater s.events x.1.events × (all_down x.1.events d (i ∷ is) ≡ true))
            (sym path)
            (
              λ id x h. on id x (later id x h),
              both_down
                  (on d.id (bare (member_at d i)) (
                    ap (λ n. is_down s'.events n (bare (member_at d i))) (sym same.0)
                    ∙ ap (is_down s'.events t.deployment.id) (sym (same.1 i))
                    ∙ down))
                  rest,
            )
    ]

    an_error : (e : Err) → ¬ (some e ≡ none)
    an_error e h = ground (arith, h)

    finished_stopped :
        (t : Teardown) (s : Sys)
        → (stop_finished env t s).0.1 ≡ none
        → (stop_finished env t s).0.0.state ≡ State.stopped
    unfolding stop_finished persist_progress
    finished_stopped t s k = grind arith

    finished_empty :
        (t : Teardown) (s : Sys)
        → (stop_finished env t s).0.1 ≡ none
        → is_empty t.stop_errors ≡ true
    unfolding stop_finished persist_progress
    finished_empty t s k = grind arith

    finished-IsLater : (t : Teardown) (s : Sys) → IsLater s.events (stop_finished env t s).1.events
    unfolding stop_finished persist_progress put
    finished-IsLater t s = elim (Bool-cases (is_empty t.stop_errors)) [
      | inl e ↦ rw e (λ id m h. h)
      | inr e ↦ rw e (λ id m h. h)
    ]

    all_down-later :
        (before after : List Event) (d : Deployment) (is : List ℕ)
        → IsLater before after
        → all_down before d is ≡ true
        → all_down after d is ≡ true
    all_down-later before after d [] later h = refl
    all_down-later before after d (i ∷ is) later h =
        both_down (later d.id (bare (member_at d i)) (left _ _ h))
          (all_down-later before after d is later (right _ _ h))
      where
        left : (b c : Bool) → (b && c) ≡ true → b ≡ true
        left b c k = ground (arith, k)

        right : (b c : Bool) → (b && c) ≡ true → c ≡ true
        right b c k = ground (arith, k)

    -- A deployment that is returned without an error, with every rank down.
    abbrev IsTakenDown : Deployment → List ℕ → (Deployment × Option Err) × Sys → Type 0
    IsTakenDown d is (r, after) = (r.0.state ≡ State.stopped) × (all_down after.events d is ≡ true)

    journaled-IsTakenDown :
        (r : Deployment × Option Err) (s : Sys)
        → (stop_journaled env ctx r s).0.1 ≡ none
        → IsTakenDown r.0
            (reverse_launch_member_indexes env.catalog r.0)
            (stop_journaled env ctx r s)
    unfolding stop_journaled
    journaled-IsTakenDown (d, some e) s k = absurd (ground (arith, k))
    journaled-IsTakenDown (d, none) s k =
        let is = reverse_launch_member_indexes env.catalog d in
        let (t, s1) = each is (record { deployment = d; stop_errors = [] }) s in
        let (later, down) =
          each-all_down d is (record { deployment = d; stop_errors = [] }) s (refl, λ j. refl)
            (finished_empty t s1 k) in
        (
          finished_stopped t s1 k,
          all_down-later s1.events (stop_finished env t s1).1.events d is (finished-IsLater t s1)
              down,
        )

    -- A stop that returns no error, of a deployment that is not stopped already, returns the
    -- deployment in the state stopped, and every rank of its launch order is down: a stop of the
    -- deployment's member of that name on that device succeeded, or an inspection at the
    -- member's locator found its own container, stopped.
    pub stop_locked-all_down :
        (d : Deployment) (s : Sys)
        → is_stopped d.state ≡ false
        → (stop_locked env ctx d s).0.1 ≡ none
        → ((stop_locked env ctx d s).0.0.state ≡ State.stopped)
          × (all_down
                (stop_locked env ctx d s).1.events
                d
                (reverse_launch_member_indexes env.catalog d)
              ≡ true)
    unfolding stop_locked persist_progress reverse_launch_member_indexes deployment_launch_order
    stop_locked-all_down d s e k = elim (Bool-cases (can_stop d.state)) [
      | inr c ↦
          let path : (stop_locked env ctx d s).0.1
              ≡ some (
                  wrap_error conflict "stop deployment"
                    (plain "deployment state cannot be stopped")) =
            rw (e, c, stop_locked) refl in
          absurd (an_error _ (sym path ∙ k))
      | inl c ↦
          let (journaled, s1) =
            persist_progress env (record d { state = State.stopping }) Phase.stopping "stop_group"
              "" "started" "reverse launch order" s in
          let path : stop_locked env ctx d s ≡ stop_journaled env ctx journaled s1 =
            rw (e, c, stop_locked) refl in
          subst (λ x. IsTakenDown d (reverse_launch_member_indexes env.catalog d) x) (sym path)
            (journaled-IsTakenDown journaled s1 (sym (ap (λ x. x.0.1) path) ∙ k))
    ]
