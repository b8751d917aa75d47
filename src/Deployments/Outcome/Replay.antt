-- ===== src/Deployments/Outcome/Replay.antt =====
-- A create that is asked again.
use yokai.Prelude.{
  String, ◌==◌, eq_iff, ◌≡◌, ◌≢◌, refl, ◌⊎◌, inl, inr, Bool-cases, false, Option, none, some, arith,
}
use yokai.Bkc.Types.{Config, MultiDeviceDeployment}
use yokai.Deployments.Errors.{Err}
use yokai.Deployments.Types.{State, CreateRequest, Deployment}
use yokai.Deployments.Env.{Env, Sys}
use yokai.Deployments.Store.{find_idempotency}
use yokai.Deployments.Engine.Create.{
  Returned, recovered, replay_state, replay, create_keyed, create_valid,
}
use yokai.Deployments.Outcome.Stages.{replay_state-unmade}

-- The states in which a deployment is left alone.
abbrev pub IsSettled : State → Type 0
IsSettled state = (state ≡ State.running) ⊎ (state ≡ State.stopped) ⊎ (state ≡ State.rolled_back)

-- What a create with the key of a prior deployment comes to: nothing is reported as created; it
-- has an error, or the prior deployment is returned as it was, of the same hash and settled, and
-- nothing was done; and where the hash is another nothing was done either.
abbrev pub IsReplayed : Deployment → String → Sys → Returned × Sys → Type 0
IsReplayed prior hash before (r, after) =
    (r.0.created ≡ false)
    × ((r.1 ≢ none)
        ⊎ ((prior.request_hash ≡ hash)
            × IsSettled prior.state
            × (r.0.deployment ≡ prior)
            × (after ≡ before)))
    × ((prior.request_hash ≡ hash) ⊎ (after ≡ before))

module _ (env : Env) where
  recovered-error : (op : String) (t : Deployment × Option Err) → (recovered env op t).1 ≢ none
  unfolding recovered
  recovered-error op (d, none) h = ground (arith, h)
  recovered-error op (d, some e) h = ground (arith, h)

  -- A replay of a state either fails or leaves all as it is.
  replay_state-outcome :
      (state : State) (d : Deployment) (s : Sys)
      → ((replay_state env state d s).0.1 ≢ none)
        ⊎ (IsSettled state
            × ((replay_state env state d s).0.0.deployment ≡ d)
            × ((replay_state env state d s).1 ≡ s))
  unfolding replay_state
  replay_state-outcome State.running d s = inr (inl refl, refl, refl)
  replay_state-outcome State.stopped d s = inr (inr (inl refl), refl, refl)
  replay_state-outcome State.rolled_back d s = inr (inr (inr refl), refl, refl)
  replay_state-outcome State.pending d s = inl (recovered-error _ _)
  replay_state-outcome State.rollback_failed d s = inl (recovered-error _ _)
  replay_state-outcome State.starting d s = inl (recovered-error _ _)
  replay_state-outcome State.stopping d s = inl (recovered-error _ _)
  replay_state-outcome State.failed d s = inl (recovered-error _ _)
  replay_state-outcome (State.unsupported x) d s = inl (λ h. ground (arith, h))

  replay-IsReplayed :
      (hash : String) (prior : Deployment) (s : Sys)
      → IsReplayed prior hash s (replay env hash prior s)
  unfolding replay
  replay-IsReplayed hash prior s = elim (Bool-cases (prior.request_hash == hash)) [
    | inl e ↦
        let same = (eq_iff prior.request_hash hash).0 e in
        let unmade = replay_state-unmade env prior.state prior s in
        elim (replay_state-outcome prior.state prior s) [
          | inl failed ↦ rw e (unmade, inl failed, inl same)
          | inr (settled, kept, still) ↦ rw e (unmade, inr (same, settled, kept, still), inl same)
        ]
    | inr e ↦ rw e (refl, inl (λ h. ground (arith, h)), inr refl)
  ]

  -- A create with the key of a stored deployment reports nothing as created. It returns no error
  -- only where the hash is the same and the deployment is running, stopped or rolled back, and
  -- then it returns that deployment and changes neither the store nor the devices; with another
  -- hash it changes nothing either.
  pub create_valid-IsReplayed :
      (r : CreateRequest) (plan : Config × MultiDeviceDeployment) (hash : String) (s : Sys)
      → (prior : Deployment) → find_idempotency r.idempotency_key s.doc ≡ some prior
      → IsReplayed prior hash s (create_valid env r plan hash s)
  unfolding create_valid create_keyed
  create_valid-IsReplayed r plan hash s prior e = rw e (replay-IsReplayed hash prior s)
