-- ===== src/Deployments/Outcome/Stop/Round.antt =====
-- A round of the loop of stopLocked that ends with no error.
use yokai.Prelude.{
  ℕ, String, ◌==◌, eq_refl, ◌≡◌, refl, ap, sym, subst, ◌∙◌, Bool, true, false, ◌&&◌, ◌||◌,
  Bool-cases, inl, inr, Option, none, some, List, [], ◌∷◌, is_empty, is_none, is_some, arith,
}
use yokai.Deployments.Errors.{Err, Result, ok, err}
use yokai.Deployments.Types.{Phase, Member, Deployment, ObservedContainer}
use yokai.Deployments.Env.{
  Env, Context, Sys, Event, inspected, stopped_managed, call_inspect, call_stop_managed,
}
use yokai.Deployments.Store.{put}
use yokai.Deployments.Members.{is_observed, validate_managed_member_identity, member_locator}
use yokai.Deployments.Engine.Journal.{
  member_at, persist_progress, before_member_action, after_member_action,
}
use yokai.Deployments.Engine.Stop.{
  Teardown, refuse, stop_recorded, stop_completed, stop_observed, stop_intended, stop_member,
}
use yokai.Deployments.Outcome.Stop.{
  bare, is_own, is_down, IsLater, IsSame, IsStopped, bare-modify, not_empty,
}

module _ (env : Env) where
  none_is : (o : Option Err) → is_some o ≡ false → is_none o ≡ true
  none_is none h = refl
  none_is (some e) h = absurd (ground (arith, h))

  seen :
      {a b c d : Bool} (x : Bool)
      → a ≡ true
      → b ≡ true
      → c ≡ true
      → d ≡ true
      → ((a && b && c && d) || x) ≡ true
  seen x h k l n = ground (arith, h, k, l, n)

  last : (b x : Bool) → x ≡ true → (b || x) ≡ true
  last b x h = ground (arith, h)

  inspected-IsLater :
      (ctx : Context) (device locator : String) (o : Result ObservedContainer) (t : List Event)
      → IsLater t (inspected ctx device locator o ∷ t)
  inspected-IsLater ctx device locator (err e) t id m h = h
  inspected-IsLater ctx device locator (ok o) t id m h = last _ (is_down t id m) h

  stopped-IsLater :
      (ctx : Context) (d : Deployment) (x : Member) (a : Option Err) (t : List Event)
      → IsLater t (stopped_managed ctx d x a ∷ t)
  stopped-IsLater ctx d x (some e) t id m h = h
  stopped-IsLater ctx d x none t id m h = last _ (is_down t id m) h

  stop_recorded-kept :
      (m : Member) (errors : List String) (r : Deployment × Option Err) (s : Sys)
      → is_empty (stop_recorded env m errors r s).0.stop_errors ≡ true
      → (is_empty errors ≡ true)
        × ((stop_recorded env m errors r s).0.deployment ≡ r.0)
        × ((stop_recorded env m errors r s).1 ≡ s)
  unfolding stop_recorded
  stop_recorded-kept m errors (d, none) s k = (k, refl, refl)
  stop_recorded-kept m errors (d, some e) s k = absurd (not_empty errors _ k)

  -- The end of a round, where the member is down already.
  stop_completed-IsStopped :
      (i : ℕ) (d : Deployment) (errors : List String) (m : Member) (s : Sys)
      → is_down s.events d.id (bare m) ≡ true
      → is_empty (stop_completed env i d errors m none s).0.stop_errors ≡ true
      → IsStopped d errors m s (stop_completed env i d errors m none s)
  unfolding stop_completed after_member_action persist_progress put
  stop_completed-IsStopped i d errors m s down k =
      let (recorded, s1) = after_member_action env d i Phase.stopping "stop" "stopped" s in
      let (fine, same, at) = stop_recorded-kept m errors recorded s1 k in
      (
        fine,
        subst (λ x. IsLater s.events x.events) (sym at) (λ id x h. h),
        subst (λ x. IsSame d x) (sym same) (refl, bare-modify d.members i "stopped"),
        subst (λ x. is_down x.events d.id (bare m) ≡ true) (sym at) down,
      )

  -- The end of a round, where the member was asked to stop.
  stop_asked-IsStopped :
      (ctx : Context) (i : ℕ) (d : Deployment) (errors : List String) (m : Member) (a : Option Err)
      (s : Sys)
      → (let s1 = record s { events = stopped_managed ctx d m a ∷ s.events } in
          is_empty (stop_completed env i d errors m a s1).0.stop_errors ≡ true
          → IsStopped d errors m s (stop_completed env i d errors m a s1))
  unfolding stop_completed
  stop_asked-IsStopped ctx i d errors m (some e) s k = absurd (not_empty errors _ k)
  stop_asked-IsStopped ctx i d errors m none s k =
      let s1 = record s { events = stopped_managed ctx d m none ∷ s.events } in
      let (fine, later, same, down) =
        stop_completed-IsStopped i d errors m s1
          (seen _ refl (eq_refl d.id) (eq_refl m.name) (eq_refl m.device_id)) k in
      (fine, λ id x h. later id x (stopped-IsLater ctx d m none s.events id x h), same, down)

  -- The rest of a round, from the answer to the inspection on.
  stop_observed-IsStopped :
      (ctx : Context) (i : ℕ) (d : Deployment) (errors : List String) (m : Member)
      (o : Result ObservedContainer) (s : Sys)
      → ((x : ObservedContainer)
          → o ≡ ok x
          → is_own d.id (bare m) x ≡ true
          → (x.status == "stopped") ≡ true
          → is_down s.events d.id (bare m) ≡ true)
      → is_empty (stop_observed env ctx i d errors m o s).0.stop_errors ≡ true
      → IsStopped d errors m s (stop_observed env ctx i d errors m o s)
  unfolding stop_observed validate_managed_member_identity
  stop_observed-IsStopped ctx i d errors m (err e) s found k = absurd (not_empty errors _ k)
  stop_observed-IsStopped ctx i d errors m (ok o) s found k =
      elim (Bool-cases (is_some (validate_managed_member_identity d m o))) [
        | inl e ↦
            let path : stop_observed env ctx i d errors m (ok o) s
                ≡ (refuse d errors ("provenance " ∷ m.role ∷ []), s) =
              rw (e, stop_observed) refl in
            absurd (not_empty errors _ (sym (ap (λ x. is_empty x.0.stop_errors) path) ∙ k))
        | inr e ↦ elim (Bool-cases (o.status == "stopped")) [
          | inl down ↦
              let path : stop_observed env ctx i d errors m (ok o) s
                  ≡ stop_completed env i d errors m none s =
                rw (e, down, stop_observed) refl in
              subst (λ x. IsStopped d errors m s x) (sym path)
                (stop_completed-IsStopped i d errors m s
                  (found o refl (none_is (validate_managed_member_identity d m o) e) down)
                  (sym (ap (λ x. is_empty x.0.stop_errors) path) ∙ k))
          | inr up ↦
              let (a, s1) = call_stop_managed env ctx d m s in
              let path : stop_observed env ctx i d errors m (ok o) s
                  ≡ stop_completed env i d errors m a s1 =
                rw (e, up, stop_observed) refl in
              subst (λ x. IsStopped d errors m s x) (sym path)
                (stop_asked-IsStopped ctx i d errors m a s
                  (sym (ap (λ x. is_empty x.0.stop_errors) path) ∙ k))
        ]
      ]

  stop_intended-IsStopped :
      (ctx : Context) (i : ℕ) (errors : List String) (m : Member) (r : Deployment × Option Err)
      (s : Sys)
      → is_empty (stop_intended env ctx i errors m r s).0.stop_errors ≡ true
      → IsStopped r.0 errors m s (stop_intended env ctx i errors m r s)
  unfolding stop_intended member_locator
  stop_intended-IsStopped ctx i errors m (d, some e) s k = absurd (not_empty errors _ k)
  stop_intended-IsStopped ctx i errors m (d, none) s k =
      let (o, s1) = call_inspect env ctx m.device_id (member_locator m) s in
      let (fine, later, same, down) =
        stop_observed-IsStopped ctx i d errors m o s1
          (λ x e own stopped.
            rw e (seen _ (eq_refl m.device_id) (eq_refl (member_locator m)) own stopped))
          k in
      (
        fine,
        λ id x h.
            later id x (inspected-IsLater ctx m.device_id (member_locator m) o s.events id x h),
        same,
        down,
      )

  pub stop_member-IsStopped :
      (ctx : Context) (i : ℕ) (t : Teardown) (s : Sys)
      → is_empty (stop_member env ctx i t s).0.stop_errors ≡ true
      → IsStopped t.deployment t.stop_errors
          (member_at t.deployment i)
          s
          (stop_member env ctx i t s)
  unfolding stop_member before_member_action persist_progress put
  stop_member-IsStopped ctx i t s k =
      let d = t.deployment in
      let m = member_at d i in
      elim (Bool-cases (is_observed m.ownership)) [
        | inl e ↦
            let path : stop_member env ctx i t s
                ≡ (refuse d t.stop_errors ("refused observed " ∷ m.role ∷ []), s) =
              rw (e, stop_member) refl in
            absurd (not_empty t.stop_errors _ (sym (ap (λ x. is_empty x.0.stop_errors) path) ∙ k))
        | inr e ↦
            let (r, s1) = before_member_action env d i Phase.stopping "stop" "stopping" s in
            let path : stop_member env ctx i t s ≡ stop_intended env ctx i t.stop_errors m r s1 =
              rw (e, stop_member) refl in
            let (fine, later, (id, same), down) =
              stop_intended-IsStopped ctx i t.stop_errors m r s1
                (sym (ap (λ x. is_empty x.0.stop_errors) path) ∙ k) in
            subst (λ x. IsStopped d t.stop_errors m s x) (sym path)
              (fine, later, (id, λ j. same j ∙ bare-modify d.members i "stopping" j), down)
      ]
