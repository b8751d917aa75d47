-- ===== src/Agent/Barrier.antt =====
-- internal/agent/deployment_launch.go: the registry of operations that are under way, and the
-- admission lock. A critical section under the mutex is one step; a channel is a number, and a
-- closed channel stays closed. The timeout of a context is a parameter of the calls that select on it.
pub mod Operations
pub mod Sound
pub mod Waiting
pub mod Admission
mod Example
use yokai.Prelude.{
  ℕ, suc, ◌+◌, ◌-◌, String, ◌==◌, Bool, true, false, not, ◌&&◌, ◌||◌, Option, none, some, List, [],
  ◌∷◌, eqb, if◌then◌else◌,
}
use yokai.Deployments.Errors.{Err, plain, Result, ok, err}

-- operationBarrierRegistry: the channel of every active name, the channels that are closed, and the
-- number of the next channel.
pub record Registry : Type 0 where
  pub active : List (String × ℕ)
  pub closed : List ℕ
  pub next : ℕ

-- newOperationBarrierRegistry
abbrev pub new_registry : Registry
new_registry = record { active = []; closed = []; next = 0 }

unfoldable pub channel_of : List (String × ℕ) → String → Option ℕ
channel_of [] name = none
channel_of (a ∷ rest) name =
    let later = channel_of rest name in if a.0 == name then some a.1 else later

-- delete
unfoldable pub without : List (String × ℕ) → String → List (String × ℕ)
without [] name = []
without (a ∷ rest) name = let later = without rest name in if a.0 == name then later else a ∷ later

unfoldable pub is_closed : ℕ → List ℕ → Bool
is_closed c [] = false
is_closed c (d ∷ ds) = eqb c d || is_closed c ds

begin_at : Registry → String → Option ℕ → Registry × Result ℕ
begin_at r name (some c) = (r, err (plain "operation is already active"))
begin_at r name none =
    (record r { active = (name, r.next) ∷ r.active; next = suc r.next }, ok r.next)

-- begin: the channel stands for the function that ends the operation.
unfoldable pub begin : Registry → String → Registry × Result ℕ
unfolding begin_at channel_of
begin r name = begin_at r name (channel_of r.active name)

finish_at : Registry → String → ℕ → Option ℕ → Registry
finish_at r name done none = r
finish_at r name done (some current) =
    if eqb current done
    then record r { active = without r.active name; closed = done ∷ r.closed }
    else r

-- The function that `begin` returns, for its name and its channel.
unfoldable pub finish : Registry → String → ℕ → Registry
unfolding finish_at channel_of without
finish r name done = finish_at r name done (channel_of r.active name)

-- The first part of wait: the channel to wait on; `none` is a wait that is over at once.
abbrev pub wait_on : Registry → String → Option ℕ
wait_on r name = channel_of r.active name

-- The select of wait on a channel: `none` while neither is ready; with both ready either can be
-- taken, and `prefer_done` says which.
unfoldable pub wait_select : Registry → ℕ → Option Err → Bool → Option (Option Err)
unfolding is_closed
wait_select r done context prefer_done = elim context [
  | none ↦ if is_closed done r.closed then some none else none
  | some e ↦ if is_closed done r.closed && prefer_done then some none else some (some e)
]

-- agentAdmissionLock: the tokens in its channel, which holds one at most; the acquisitions whose
-- function has not been called, and the number of the next acquisition.
pub record AdmissionLock : Type 0 where
  pub tokens : ℕ
  pub held : List ℕ
  pub next : ℕ

-- newAgentAdmissionLock
abbrev pub new_lock : AdmissionLock
new_lock = record { tokens = 1; held = []; next = 0 }

abbrev taken : AdmissionLock → AdmissionLock
taken l = record { tokens = l.tokens - 1; held = l.next ∷ l.held; next = suc l.next }

-- acquire: `none` while neither the token nor the end of the context is there; with both, either
-- can be taken.
unfoldable pub acquire : AdmissionLock → Option Err → Bool → AdmissionLock × Option (Result ℕ)
acquire l context prefer_token = elim context [
  | none ↦ if eqb l.tokens 0 then (l, none) else (taken l, some (ok l.next))
  | some e ↦
      if eqb l.tokens 0 || not prefer_token then (l, some (err e)) else (taken l, some (ok l.next))
]

unfoldable pub is_held : ℕ → List ℕ → Bool
is_held a [] = false
is_held a (h ∷ hs) = eqb a h || is_held a hs

unfoldable pub let_go : ℕ → List ℕ → List ℕ
let_go a [] = []
let_go a (h ∷ hs) = let rest = let_go a hs in if eqb a h then hs else h ∷ rest

-- The function that acquire returns: its first call puts the token back, as sync.Once has it; `none` is
-- a send that has no room.
unfoldable pub release : AdmissionLock → ℕ → Option AdmissionLock
unfolding is_held let_go
release l a =
    if not (is_held a l.held)
    then some l
    else if eqb l.tokens 0
    then some (record { tokens = suc l.tokens; held = let_go a l.held; next = l.next })
    else none
