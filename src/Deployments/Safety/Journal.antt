-- ===== src/Deployments/Safety/Journal.antt =====
-- What the journal writes add to the events.
use yokai.Prelude.{ℕ, String, ◌≡◌, refl, sym, true, none, some, List, [], ◌∷◌, ◌++◌, arith}
use yokai.Deployments.Types.{Phase, Progress, Deployment}
use yokai.Deployments.Env.{Env, Sys, wrote}
use yokai.Deployments.Store.{put}
use yokai.Deployments.Engine.Journal.{
  persist_progress, before_member_action, after_member_action, before_previous_action,
  after_previous_action, member_at, previous_at,
}
use yokai.Deployments.Safety.{latest, IsJournaled, IsSelected, IsSafe}
use yokai.Deployments.Safety.Roles.{previous_at-status}

pub latest-append : (ps : List Progress) (p : Progress) → latest (ps ++ p ∷ []) ≡ some p
latest-append [] p = refl
latest-append (q ∷ ps) p = ground (arith, latest-append ps p)

pub put-wrote :
    (env : Env) (d : Deployment) (s : Sys)
    → (put env d s).0 ≡ none
    → (put env d s).1.events ≡ wrote d true none ∷ s.events
unfolding put
put-wrote env d s h = ground arith

pub put-IsSafe :
    (env : Env) (d : Deployment) (s : Sys) → IsSafe s.events → IsSafe (put env d s).1.events
unfolding put
put-IsSafe env d s h = ground arith

module _ (env : Env) where
  -- One write, whatever comes of it.
  pub persist_progress-IsSafe :
      (d : Deployment) (phase : Phase) (action role status detail : String) (s : Sys)
      → IsSafe s.events
      → IsSafe (persist_progress env d phase action role status detail s).1.events
  unfolding persist_progress
  persist_progress-IsSafe d phase action role status detail s h = put-IsSafe env _ s h

  -- If the intent was recorded without an error, it is the last event.
  pub persist_progress-IsJournaled :
      (d : Deployment) (phase : Phase) (action role : String) (s : Sys)
      → (persist_progress env d phase action role "started" "" s).0.1 ≡ none
      → IsJournaled phase action role
          (persist_progress env d phase action role "started" "" s).1.events
  unfolding persist_progress
  persist_progress-IsJournaled d phase action role s h =
      rw (put-wrote env _ s h) (_, latest-append d.progress _, refl, refl, refl, refl)

  module _ (d : Deployment) (i : ℕ) (phase : Phase) (action status : String) (s : Sys) where
    pub before_member_action-IsSafe :
        IsSafe s.events → IsSafe (before_member_action env d i phase action status s).1.events
    unfolding before_member_action
    before_member_action-IsSafe h = persist_progress-IsSafe _ phase action _ _ _ s h

    pub after_member_action-IsSafe :
        IsSafe s.events → IsSafe (after_member_action env d i phase action status s).1.events
    unfolding after_member_action
    after_member_action-IsSafe h = persist_progress-IsSafe _ phase action _ _ _ s h

    pub before_previous_action-IsSafe :
        IsSafe s.events → IsSafe (before_previous_action env d i phase action status s).1.events
    unfolding before_previous_action
    before_previous_action-IsSafe h = persist_progress-IsSafe _ phase action _ _ _ s h

    pub after_previous_action-IsSafe :
        IsSafe s.events → IsSafe (after_previous_action env d i phase action status s).1.events
    unfolding after_previous_action
    after_previous_action-IsSafe h = persist_progress-IsSafe _ phase action _ _ _ s h

    pub before_member_action-IsJournaled :
        (before_member_action env d i phase action status s).0.1 ≡ none
        → IsJournaled phase action
            (member_at d i).role
            (before_member_action env d i phase action status s).1.events
    unfolding before_member_action
    before_member_action-IsJournaled h = persist_progress-IsJournaled _ phase action _ s h

    pub before_previous_action-IsSelected :
        (before_previous_action env d i phase action status s).0.1 ≡ none
        → IsSelected phase action
            (previous_at d i).device_id
            (previous_at d i).container_id
            (before_previous_action env d i phase action status s).1.events
    unfolding before_previous_action persist_progress
    before_previous_action-IsSelected h =
        let (role, device, container) = previous_at-status d i status in
        rw (put-wrote env _ s h)
          (i, device, container, (_, latest-append d.progress _, refl, refl, sym role, refl))
