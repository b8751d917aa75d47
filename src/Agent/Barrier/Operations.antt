-- ===== src/Agent/Barrier/Operations.antt =====
-- The steps of a registry: an operation stays active until it is ended.
use yokai.Prelude.{
  ℕ, ◌≡◌, refl, ap, sym, ◌∙◌, String, ◌==◌, eq_iff, Bool, false, ◌&&◌, ◌||◌, Bool-cases, inl, inr,
  Option, none, some, List, [], ◌∷◌, eqb, if◌then◌else◌, arith,
}
use yokai.Agent.Barrier.{Registry, channel_of, without, begin, begin_at, finish, finish_at}

-- What the handlers of an agent do to a registry, in any order: an operation tries to begin, or
-- some handler calls a function that `begin` has returned.
pub data Action : Type 0 where
  begun : String → Action
  ended : String → ℕ → Action

unfoldable pub step : Registry → Action → Registry
step r (begun name) = (begin r name).0
step r (ended name done) = finish r name done

unfoldable pub after : Registry → List Action → Registry
after r [] = r
after r (a ∷ rest) = after (step r a) rest

abbrev pub is_end : String → ℕ → Action → Bool
is_end name done (begun n) = false
is_end name done (ended n d) = n == name && eqb d done

abbrev pub has_end : String → ℕ → List Action → Bool
has_end name done [] = false
has_end name done (a ∷ rest) = is_end name done a || has_end name done rest

pub channel_of-without_same :
    (l : List (String × ℕ)) (name : String) → channel_of (without l name) name ≡ none
unfolding channel_of without
channel_of-without_same [] name = refl
channel_of-without_same (a ∷ rest) name = ground (arith, channel_of-without_same rest name)

pub channel_of-without_other :
    (l : List (String × ℕ)) (name other : String)
    → (name == other) ≡ false
    → channel_of (without l name) other ≡ channel_of l other
unfolding channel_of without
channel_of-without_other [] name other h = refl
channel_of-without_other (a ∷ rest) name other h = elim (Bool-cases (a.0 == name)) [
  | inl e ↦
      let named : a.0 ≡ name = (eq_iff a.0 name).0 e in
      let else_where : (a.0 == other) ≡ false = ap (λ n. n == other) named ∙ h in
      rw e (rw else_where (channel_of-without_other rest name other h))
  | inr e ↦ rw e (
      ap (λ o. if◌then◌else◌ (a.0 == other) (some a.1) o)
        (channel_of-without_other rest name other h))
]

begin_at-active :
    (r : Registry) (n name : String) (done : ℕ) (o : Option ℕ)
    → channel_of r.active n ≡ o
    → channel_of r.active name ≡ some done
    → channel_of (begin_at r n o).0.active name ≡ some done
unfolding begin_at channel_of
begin_at-active r n name done (some c) same h = h
begin_at-active r n name done none same h = elim (Bool-cases (n == name)) [
  | inl e ↦
      let twice : none ≡ some done =
        sym same ∙ ap (channel_of r.active) ((eq_iff n name).0 e) ∙ h in
      absurd (ground (arith, twice))
  | inr e ↦ rw e h
]

finish_at-active :
    (r : Registry) (n name : String) (d done : ℕ) (o : Option ℕ)
    → channel_of r.active n ≡ o
    → channel_of r.active name ≡ some done
    → (n == name && eqb d done) ≡ false
    → channel_of (finish_at r n d o).active name ≡ some done
unfolding finish_at
finish_at-active r n name d done none same h k = h
finish_at-active r n name d done (some c) same h k = elim (Bool-cases (n == name)) [
  | inl e ↦
      let both : some c ≡ some done =
        sym same ∙ ap (channel_of r.active) ((eq_iff n name).0 e) ∙ h in
      let other : eqb c d ≡ false = ground (arith, both, e, k) in rw other h
  | inr e ↦ elim (Bool-cases (eqb c d)) [
    | inl f ↦ rw f (channel_of-without_other r.active n name e ∙ h)
    | inr f ↦ rw f h
  ]
]

-- A step that does not end an operation leaves it active.
pub step-active :
    (r : Registry) (a : Action) (name : String) (done : ℕ)
    → channel_of r.active name ≡ some done
    → is_end name done a ≡ false
    → channel_of (step r a).active name ≡ some done
unfolding step begin finish
step-active r (begun n) name done h k = begin_at-active r n name done (channel_of r.active n) refl h
step-active r (ended n d) name done h k =
    finish_at-active r n name d done (channel_of r.active n) refl h k

pub after-active :
    (r : Registry) (rest : List Action) (name : String) (done : ℕ)
    → channel_of r.active name ≡ some done
    → has_end name done rest ≡ false
    → channel_of (after r rest).active name ≡ some done
unfolding after
after-active r [] name done h k = h
after-active r (a ∷ rest) name done h k =
    after-active (step r a) rest name done (step-active r a name done h (ground (arith, k)))
      (ground (arith, k))
