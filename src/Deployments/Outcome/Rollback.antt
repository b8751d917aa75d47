-- ===== src/Deployments/Outcome/Rollback.antt =====
-- What a rollback returns.
use yokai.Prelude.{
  ℕ, true, String, eq_iff, ◌≡◌, ◌⊎◌, Option, none, some, arith, is_empty, [], List, ◌∷◌,
}
use yokai.Deployments.Errors.{Err}
use yokai.Deployments.Types.{State, Deployment, Member}
use yokai.Deployments.Env.{Env, Context, Sys}
use yokai.Deployments.Engine.Journal.{persist_progress, result_of}
use yokai.Deployments.Engine.Rollback.{
  settle, settle_members, finish_rollback, intended_rollback, run_rollback, settle_group,
  rollback_locked,
}

-- Every member is removed, or is recorded as stopped.
abbrev pub IsCleared : List Member → Type 0
IsCleared [] = Unit
IsCleared (m ∷ ms) = ((m.status ≡ "removed") ⊎ (m.status ≡ "stopped")) × IsCleared ms

settle_members-IsCleared : (ms : List Member) → IsCleared (settle_members ms)
settle_members-IsCleared [] = tt
settle_members-IsCleared (m ∷ ms) =
    ground (arith, settle_members-IsCleared ms, eq_iff m.status "removed")

-- The verdict on a deployment that settled.
abbrev pub IsRolledBack : Deployment → Type 0
IsRolledBack d = (d.state ≡ State.rolled_back) × ((result_of d).errors ≡ []) × IsCleared d.members

settle-IsRolledBack :
    (d : Deployment) (now : ℕ)
    → is_empty (result_of (settle d now)).errors ≡ true
    → IsRolledBack (settle d now)
unfolding settle
settle-IsRolledBack d now h = grind (arith, settle_members-IsCleared)

module _ (env : Env) where
  run_rollback-IsRolledBack :
      (ctx : Context) (redaction : String) (d : Deployment) (s : Sys)
      → (run_rollback env ctx redaction d s).0.1 ≡ none
      → IsRolledBack (run_rollback env ctx redaction d s).0.0
  unfolding run_rollback settle_group finish_rollback persist_progress
  run_rollback-IsRolledBack ctx redaction d s h = grind (arith, settle-IsRolledBack)

  intended_rollback-IsRolledBack :
      (ctx : Context) (redaction : String) (r : Deployment × Option Err) (s : Sys)
      → (intended_rollback env ctx redaction r s).0.1 ≡ none
      → IsRolledBack (intended_rollback env ctx redaction r s).0.0
  unfolding intended_rollback
  intended_rollback-IsRolledBack ctx redaction (d, some e) s h = grind arith
  intended_rollback-IsRolledBack ctx redaction (d, none) s h =
      run_rollback-IsRolledBack ctx redaction d s h

  -- A rollback that returns no error leaves the deployment rolled back: the result lists no
  -- error, and every member is removed or is recorded as stopped.
  pub rollback_locked-IsRolledBack :
      (ctx : Context) (d : Deployment) (cause redaction : String) (s : Sys)
      → (rollback_locked env ctx d cause redaction s).0.1 ≡ none
      → IsRolledBack (rollback_locked env ctx d cause redaction s).0.0
  unfolding rollback_locked
  rollback_locked-IsRolledBack ctx d cause redaction s h =
      intended_rollback-IsRolledBack ctx redaction _ _ h
