-- ===== src/Agent/Barrier/Admission.antt =====
-- The admission lock is held by one at most, and its release never blocks.
use yokai.Prelude.{
  ℕ, suc, ◌+◌, ◌≡◌, refl, Bool, true, Bool-cases, inl, inr, Option, none, some, List, [], ◌∷◌,
  length, eqb, arith,
}
use yokai.Deployments.Errors.{Err}
use yokai.Agent.Barrier.{AdmissionLock, new_lock, acquire, is_held, let_go, release}

-- A call of acquire, with the error of its context if it has ended, or of a function that it returned.
pub data LockCall : Type 0 where
  acquired : Option Err → Bool → LockCall
  released : ℕ → LockCall

-- The calls in order; `none` is a release that blocks.
unfoldable pub run_calls : AdmissionLock → List LockCall → Option AdmissionLock
run_calls l [] = some l
run_calls l (acquired context prefer ∷ rest) = run_calls (acquire l context prefer).0 rest
run_calls l (released a ∷ rest) = elim (release l a) [
  | none ↦ none
  | some next ↦ run_calls next rest
]

abbrev IsOne : AdmissionLock → Type 0
IsOne l = l.tokens + length l.held ≡ 1

acquire-IsOne :
    (l : AdmissionLock) (context : Option Err) (prefer : Bool)
    → IsOne l
    → IsOne (acquire l context prefer).0
unfolding acquire
acquire-IsOne l none prefer h = ground (arith, h)
acquire-IsOne l (some e) prefer h = ground (arith, h)

length-let_go : (a : ℕ) (hs : List ℕ) → is_held a hs ≡ true → suc (length (let_go a hs)) ≡ length hs
unfolding is_held let_go
length-let_go a [] h = absurd (ground (arith, h))
length-let_go a (b ∷ hs) h = ground (arith, h, length-let_go a hs)

release-IsOne :
    (l : AdmissionLock) (a : ℕ)
    → IsOne l
    → (next : AdmissionLock) × (release l a ≡ some next) × IsOne next
unfolding release
release-IsOne l a h = elim (Bool-cases (is_held a l.held)) [
  | inl e ↦
      let one_less = length-let_go a l.held e in
      let empty : eqb l.tokens 0 ≡ true = ground (arith, h, one_less) in
      rw e (
        rw empty (
          record { tokens = suc l.tokens; held = let_go a l.held; next = l.next },
          refl,
          ground (arith, h, one_less, empty),
        ))
  | inr e ↦ rw e (l, refl, h)
]

run_calls-IsOne :
    (l : AdmissionLock) (calls : List LockCall)
    → IsOne l
    → (last : AdmissionLock) × (run_calls l calls ≡ some last) × IsOne last
unfolding run_calls
run_calls-IsOne l [] h = (l, refl, h)
run_calls-IsOne l (acquired context prefer ∷ rest) h =
    run_calls-IsOne (acquire l context prefer).0 rest (acquire-IsOne l context prefer h)
run_calls-IsOne l (released a ∷ rest) h =
    let (next, same, one) = release-IsOne l a h in
    rw (same, run_calls) (run_calls-IsOne next rest one)

-- Whatever calls are made of a new admission lock, its release functions called any number of times included, no release
-- blocks, and at the end the token lies in the channel and nobody holds the lock, or one holds it and the
-- channel is empty.
pub run_calls-held :
    (calls : List LockCall)
    → (last : AdmissionLock) × (run_calls new_lock calls ≡ some last)
      × (last.tokens + length last.held ≡ 1)
run_calls-held calls = run_calls-IsOne new_lock calls refl
