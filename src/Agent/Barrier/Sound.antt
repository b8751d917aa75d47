-- ===== src/Agent/Barrier/Sound.antt =====
-- What is always true of a registry.
use yokai.Prelude.{
  ℕ, ◌<◌, ◌≡◌, refl, ap, sym, ◌∙◌, String, ◌==◌, eq_iff, true, false, Bool-cases, inl, inr, Option,
  none, some, List, [], ◌∷◌, eqb, arith,
}
use yokai.Agent.Barrier.{
  Registry, new_registry, channel_of, without, is_closed, begin, begin_at, finish, finish_at,
}
use yokai.Agent.Barrier.Operations.{
  Action, begun, ended, step, after, channel_of-without_same, channel_of-without_other,
}

-- A registry as it is made and used: the channel of an active operation is open, it is no other
-- operation's, and no channel of a later operation has been used.
pub record IsSound (r : Registry) : Type 0 where
  pub open_active :
      (name : String) (c : ℕ) → channel_of r.active name ≡ some c → is_closed c r.closed ≡ false
  pub own_channel :
      (a b : String) (c : ℕ)
      → channel_of r.active a ≡ some c
      → channel_of r.active b ≡ some c
      → a ≡ b
  pub used_active : (name : String) (c : ℕ) → channel_of r.active name ≡ some c → c < r.next
  pub used_closed : (c : ℕ) → is_closed c r.closed ≡ true → c < r.next

begin_at-IsSound :
    (r : Registry) (n : String) (o : Option ℕ)
    → channel_of r.active n ≡ o
    → IsSound r
    → IsSound (begin_at r n o).0
unfolding begin_at channel_of
begin_at-IsSound r n (some c) same s = s
begin_at-IsSound r n none same s = record {
  open_active = λ name c h. elim (Bool-cases (n == name)) [
    | inl e ↦
        let fresh : c ≡ r.next = ground (arith, e, h) in
        elim (Bool-cases (is_closed c r.closed)) [
          | inl f ↦ absurd (ground (arith, s.used_closed c f, fresh))
          | inr f ↦ f
        ]
    | inr e ↦ s.open_active name c (ground (arith, e, h))
  ];
  own_channel = λ a b c h k. elim (Bool-cases (n == a)) [
    | inl e ↦ elim (Bool-cases (n == b)) [
      | inl f ↦ sym ((eq_iff n a).0 e) ∙ (eq_iff n b).0 f
      | inr f ↦ absurd (ground (arith, e, f, h, k, s.used_active b c (ground (arith, f, k))))
    ]
    | inr e ↦ elim (Bool-cases (n == b)) [
      | inl f ↦ absurd (ground (arith, e, f, h, k, s.used_active a c (ground (arith, e, h))))
      | inr f ↦ s.own_channel a b c (ground (arith, e, h)) (ground (arith, f, k))
    ]
  ];
  used_active = λ name c h. elim (Bool-cases (n == name)) [
    | inl e ↦ ground (arith, e, h)
    | inr e ↦ ground (arith, s.used_active name c (ground (arith, e, h)))
  ];
  used_closed = λ c h. ground (arith, s.used_closed c h);
}

-- An entry that is left when one name has been deleted.
kept_channel :
    (l : List (String × ℕ)) (n name : String) (c : ℕ)
    → channel_of (without l n) name ≡ some c
    → ((n == name) ≡ false) × (channel_of l name ≡ some c)
kept_channel l n name c h = elim (Bool-cases (n == name)) [
  | inl e ↦
      let gone : channel_of (without l n) name ≡ none =
        ap (channel_of (without l n)) (sym ((eq_iff n name).0 e)) ∙ channel_of-without_same l n in
      let twice : none ≡ some c = sym gone ∙ h in absurd (ground (arith, twice))
  | inr e ↦ (e, sym (channel_of-without_other l n name e) ∙ h)
]

ended-IsSound :
    (r : Registry) (n : String) (d : ℕ)
    → channel_of r.active n ≡ some d
    → IsSound r
    → IsSound (record r { active = without r.active n; closed = d ∷ r.closed })
unfolding is_closed
ended-IsSound r n d same s = record {
  open_active = λ name c h.
      let (other, active) = kept_channel r.active n name c h in
      elim (Bool-cases (eqb c d)) [
        | inl e ↦
            let alias : channel_of r.active name ≡ some d = active ∙ ap some (ground (arith, e)) in
            let one : n ≡ name = s.own_channel n name d same alias in
            absurd (ground (arith, other, (eq_iff n name).1 one))
        | inr e ↦ ground (arith, e, s.open_active name c active)
      ];
  own_channel = λ a b c h k.
      s.own_channel a b c (kept_channel r.active n a c h).1 (kept_channel r.active n b c k).1;
  used_active = λ name c h. s.used_active name c (kept_channel r.active n name c h).1;
  used_closed = λ c h. elim (Bool-cases (eqb c d)) [
    | inl e ↦ ground (arith, e, s.used_active n d same)
    | inr e ↦ s.used_closed c (ground (arith, e, h))
  ];
}

finish_at-IsSound :
    (r : Registry) (n : String) (d : ℕ) (o : Option ℕ)
    → channel_of r.active n ≡ o
    → IsSound r
    → IsSound (finish_at r n d o)
unfolding finish_at
finish_at-IsSound r n d none same s = s
finish_at-IsSound r n d (some c) same s = elim (Bool-cases (eqb c d)) [
  | inl e ↦ rw e (ended-IsSound r n d (same ∙ ap some (ground (arith, e))) s)
  | inr e ↦ rw e s
]

step-IsSound : (r : Registry) (a : Action) → IsSound r → IsSound (step r a)
unfolding step begin finish
step-IsSound r (begun n) s = begin_at-IsSound r n (channel_of r.active n) refl s
step-IsSound r (ended n d) s = finish_at-IsSound r n d (channel_of r.active n) refl s

-- A registry that was made stays sound.
pub after-IsSound : (r : Registry) (rest : List Action) → IsSound r → IsSound (after r rest)
unfolding after
after-IsSound r [] s = s
after-IsSound r (a ∷ rest) s = after-IsSound (step r a) rest (step-IsSound r a s)

pub new_registry-IsSound : IsSound new_registry
unfolding channel_of is_closed
new_registry-IsSound = record {
  open_active = λ name c h. absurd (ground (arith, h));
  own_channel = λ a b c h k. absurd (ground (arith, h));
  used_active = λ name c h. absurd (ground (arith, h));
  used_closed = λ c h. absurd (ground (arith, h));
}
