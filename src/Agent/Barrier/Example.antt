-- ===== src/Agent/Barrier/Example.antt =====
-- A launch that a deletion waits for, and a lock that two ask for.
use yokai.Prelude.{◌≡◌, ◌↔◌, refl, true, false, none, some, List, [], ◌∷◌, ◌+◌, length}
use yokai.Deployments.Errors.{plain, ok, err}
use yokai.Agent.Barrier.{
  AdmissionLock, new_lock, new_registry, begin, finish, wait_select, channel_of,
}
use yokai.Agent.Barrier.Operations.{Action, begun, ended, after, step, has_end}
use yokai.Agent.Barrier.Waiting.{wait_select_iff, begin-excludes}
use yokai.Agent.Barrier.Admission.{LockCall, acquired, released, run_calls, run_calls-held}

abbrev history : List Action
history = begun "head" ∷ ended "head" 0 ∷ begun "worker" ∷ begun "head" ∷ []

-- The function of the first launch is called again.
abbrev later : List Action
later = ended "head" 0 ∷ begun "head" ∷ ended "worker" 1 ∷ []

started : channel_of (after new_registry history).active "head" ≡ some 2
unfolding after step begin finish
started = refl

wait_select_iff_example :
    (wait_select (after (after new_registry history) later) 2 none true ≡ some none)
    ↔ (has_end "head" 2 later ≡ true)
wait_select_iff_example = wait_select_iff history later "head" 2 true started

fresh : (begin new_registry "head").1 ≡ ok 0
unfolding begin
fresh = refl

begin-excludes_example :
    begin (after (begin new_registry "head").0 (begun "worker" ∷ ended "worker" 1 ∷ [])) "head" ≡ (
      after (begin new_registry "head").0 (begun "worker" ∷ ended "worker" 1 ∷ []),
      err (plain "operation is already active"),
    )
begin-excludes_example =
    begin-excludes new_registry (begun "worker" ∷ ended "worker" 1 ∷ []) "head" 0 fresh refl

abbrev calls : List LockCall
calls =
    acquired none true
    ∷ acquired (some (plain "context canceled")) true
    ∷ released 0
    ∷ released 0
    ∷ acquired none false
    ∷ []

run_calls-held_example :
    (last : AdmissionLock) × (run_calls new_lock calls ≡ some last)
    × (last.tokens + length last.held ≡ 1)
run_calls-held_example = run_calls-held calls
