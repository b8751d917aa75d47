-- ===== src/Agent/Barrier/Waiting.antt =====
-- A wait is a barrier, and an operation excludes others of its name.
use yokai.Prelude.{
  ℕ, ◌≡◌, ◌↔◌, refl, ap, sym, ◌∙◌, String, eq_iff, eq_refl, Bool, true, false, Bool-cases, inl, inr,
  Option, none, some, List, [], ◌∷◌, arith,
}
use yokai.Deployments.Errors.{ok, err, plain}
use yokai.Agent.Barrier.{
  Registry, new_registry, channel_of, is_closed, begin, begin_at, finish, finish_at, wait_on,
  wait_select,
}
use yokai.Agent.Barrier.Operations.{
  Action, begun, ended, step, after, is_end, has_end, step-active, after-active,
}
use yokai.Agent.Barrier.Sound.{after-IsSound, new_registry-IsSound}

finish_at-closed :
    (r : Registry) (n : String) (d c : ℕ) (o : Option ℕ)
    → is_closed c r.closed ≡ true
    → is_closed c (finish_at r n d o).closed ≡ true
unfolding finish_at is_closed
finish_at-closed r n d c none h = h
finish_at-closed r n d c (some e) h = ground (arith, h)

begin_at-closed :
    (r : Registry) (n : String) (c : ℕ) (o : Option ℕ)
    → is_closed c r.closed ≡ true
    → is_closed c (begin_at r n o).0.closed ≡ true
unfolding begin_at
begin_at-closed r n c none h = h
begin_at-closed r n c (some e) h = h

step-closed :
    (r : Registry) (a : Action) (c : ℕ)
    → is_closed c r.closed ≡ true
    → is_closed c (step r a).closed ≡ true
unfolding step begin finish
step-closed r (begun n) c h = begin_at-closed r n c (channel_of r.active n) h
step-closed r (ended n d) c h = finish_at-closed r n d c (channel_of r.active n) h

after-closed :
    (r : Registry) (rest : List Action) (c : ℕ)
    → is_closed c r.closed ≡ true
    → is_closed c (after r rest).closed ≡ true
unfolding after
after-closed r [] c h = h
after-closed r (a ∷ rest) c h = after-closed (step r a) rest c (step-closed r a c h)

-- The step that ends an operation closes its channel.
step-ends :
    (r : Registry) (a : Action) (name : String) (c : ℕ)
    → channel_of r.active name ≡ some c
    → is_end name c a ≡ true
    → is_closed c (step r a).closed ≡ true
unfolding step finish finish_at is_closed
step-ends r (begun n) name c active h = absurd (ground (arith, h))
step-ends r (ended n d) name c active h =
    let own : channel_of r.active n ≡ some c =
      ap (channel_of r.active) ((eq_iff n name).0 (ground (arith, h))) ∙ active in
    rw own (ground (arith, h))

ended-closed :
    (r : Registry) (rest : List Action) (name : String) (c : ℕ)
    → channel_of r.active name ≡ some c
    → has_end name c rest ≡ true
    → is_closed c (after r rest).closed ≡ true
unfolding after
ended-closed r [] name c active h = absurd (ground (arith, h))
ended-closed r (a ∷ rest) name c active h = elim (Bool-cases (is_end name c a)) [
  | inl e ↦ after-closed (step r a) rest c (step-ends r a name c active e)
  | inr e ↦
      ended-closed (step r a) rest name c (step-active r a name c active e) (ground (arith, e, h))
]

wait_select-closed :
    (r : Registry) (c : ℕ) (prefer : Bool)
    → (wait_select r c none prefer ≡ some none) ↔ (is_closed c r.closed ≡ true)
unfolding wait_select
wait_select-closed r c prefer = ground arith

-- A call of `wait` that found an operation active, in a registry with any history, can return
-- without an error exactly if the function that ends that operation has been called since,
-- whatever else began and ended: no other call ends the wait, and nothing can make that call get lost. The
-- context of the call has not ended.
pub wait_select_iff :
    (before rest : List Action) (name : String) (c : ℕ) (prefer : Bool)
    → wait_on (after new_registry before) name ≡ some c
    → (wait_select (after (after new_registry before) rest) c none prefer ≡ some none)
      ↔ (has_end name c rest ≡ true)
wait_select_iff before rest name c prefer active =
    let r = after new_registry before in
    let sound = after-IsSound r rest (after-IsSound new_registry before new_registry-IsSound) in
    let ready = wait_select-closed (after r rest) c prefer in
    (
      λ h. elim (Bool-cases (has_end name c rest)) [
        | inl e ↦ e
        | inr e ↦
            let shut = sound.open_active name c (after-active r rest name c active e) in
            absurd (ground (arith, sym (ready.0 h) ∙ shut))
      ],
      λ h. ready.1 (ended-closed r rest name c active h),
    )

begin-active :
    (r : Registry) (name : String) (c : ℕ)
    → (begin r name).1 ≡ ok c
    → channel_of (begin r name).0.active name ≡ some c
unfolding begin
begin-active r name c h = begin_at-own (channel_of r.active name) h
  where
    begin_at-own :
        (o : Option ℕ)
        → (begin_at r name o).1 ≡ ok c
        → channel_of (begin_at r name o).0.active name ≡ some c
    begin_at-own (some d) k = absurd (ground (arith, k))
    begin_at-own none k = ground (arith, k, eq_refl name)

begin-refused :
    (r : Registry) (name : String) (c : ℕ)
    → channel_of r.active name ≡ some c
    → begin r name ≡ (r, err (plain "operation is already active"))
unfolding begin begin_at
begin-refused r name c h = rw h refl

-- While an operation that began has not been ended by the function that it was given, no
-- operation of the same name begins, whatever else begins and ends, and whatever functions of
-- earlier operations are called again; the attempt changes nothing.
pub begin-excludes :
    (r : Registry) (rest : List Action) (name : String) (c : ℕ)
    → (begin r name).1 ≡ ok c
    → has_end name c rest ≡ false
    → begin (after (begin r name).0 rest) name
      ≡ (after (begin r name).0 rest, err (plain "operation is already active"))
begin-excludes r rest name c started running =
    begin-refused (after (begin r name).0 rest) name c
      (after-active (begin r name).0 rest name c (begin-active r name c started) running)
