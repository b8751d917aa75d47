-- ===== src/Agent/Launch/Once.antt =====
-- An agent accepts a launch authorization once.
use yokai.Prelude.{
  ◌≡◌, ap, sym, subst, ◌∙◌, pos, ◌==◌, trim_space, parse_int, true, false, none, some, is_some,
  List, [], ◌∷◌, All, arith,
}
use yokai.Deployments.Errors.{ok}
use yokai.LaunchAuth.Clock.{Time, unix, later, is_before}
use yokai.LaunchAuth.Types.{Claims, Codec}
use yokai.LaunchAuth.Authorization.{lifetime, open_token}
use yokai.LaunchAuth.Authorization.Checked.{IsCurrent, verify-IsCurrent}
use yokai.LaunchAuth.Replay.{file, Files, entry_of, is_over, line, string_trim_space, consume}
use yokai.LaunchAuth.Replay.Lines.{is_over-line}
use yokai.LaunchAuth.Replay.Kept.{is_before-later, consume-reserves}
use yokai.Agent.Launch.Steps.{
  Launch, is_early, not_behind, same_value, files_after, proved_claims-verified, authorize-accepts,
  files_after-keeps, authorize-refuses,
}
use yokai.Agent.Launch.{Agent, is_qwen_candidate, proved_claims, authorize}

module _ (codec : Codec) (agent : Agent) where
  -- While a token can be verified, or shortly after, its file is not over.
  current-not_over :
      (c : Claims) (now other : Time)
      → IsCurrent c now
      → is_early now ≡ true
      → is_before (later lifetime now) other ≡ false
      → is_over (parse_int (string_trim_space (line (unix c.expires_at)))) other ≡ false
  current-not_over c now other current early behind =
      ap (λ t. is_over (parse_int (string_trim_space (line (unix t)))) other) current.expires_at
      ∙ is_over-line current.expires other
      ∙ is_before-later lifetime now (unix (pos current.expires)) other current.unexpired early
          (omega arith) behind

  All-not_over :
      (c : Claims) (now : Time) (ls : List Launch)
      → IsCurrent c now
      → is_early now ≡ true
      → All (λ l. is_before (later lifetime now) l.now ≡ false) ls
      → All
          (λ l. is_over (parse_int (string_trim_space (line (unix c.expires_at)))) l.now ≡ false)
          ls
  All-not_over c now [] current early h = tt
  All-not_over c now (l ∷ ls) current early (h, hs) =
      (current-not_over c now l.now current early h, All-not_over c now ls current early hs)

  -- An accepted launch leaves the file of its token.
  accepted_file :
      (l : Launch) (fs : Files)
      → is_qwen_candidate l.request ≡ true
      → (authorize codec agent l.disk fs l.request l.now).1 ≡ none
      → is_early l.now ≡ true
      → (c : Claims) × (proved_claims codec agent l.request l.now ≡ ok c)
        × (entry_of (authorize codec agent l.disk fs l.request l.now).0 c.id
            ≡ some (file (line (unix c.expires_at))))
  accepted_file l fs q h early =
      let (d, c, proved, whole) = authorize-accepts codec agent l fs q h in
      let (filled, verified) = proved_claims-verified codec agent l.request l.now c proved in
      let (opened, current) =
        verify-IsCurrent codec agent.public_key l.request.launch_authorization l.now c verified in
      let fine : is_some (consume d l.disk fs c.id (unix c.expires_at) l.now).1 ≡ false =
        ap (λ answer. is_some answer.1) (sym whole) ∙ ap is_some h in
      (
        c,
        proved,
        ap (λ answer. entry_of answer.0 c.id) whole
            ∙ consume-reserves d l.disk l.now fs c.id (unix c.expires_at) fine
                (current-not_over c l.now l.now current early (not_behind l.now early)),
      )

-- When an agent has accepted a launch of the coordinated recipe, then every later launch with the
-- same token is refused, whatever launches it is asked for in between and whatever its disk
-- answers, on two conditions: no clock in between is more than two minutes ahead of the clock of the later
-- launch, and the clocks of the two launches are not within two minutes of the end of Go's time.
pub authorize-once :
    (codec : Codec) (agent : Agent) (fs : Files) (first last : Launch) (between : List Launch)
    → is_qwen_candidate first.request ≡ true
    → (authorize codec agent first.disk fs first.request first.now).1 ≡ none
    → last.request.launch_authorization ≡ first.request.launch_authorization
    → is_early first.now ≡ true
    → is_early last.now ≡ true
    → All (λ l. is_before (later lifetime last.now) l.now ≡ false) between
    → is_some
        (authorize codec agent last.disk
          (files_after codec agent
            (authorize codec agent first.disk fs first.request first.now).0
            between)
          last.request
          last.now).1
      ≡ true
authorize-once codec agent fs first last between q accepted token early1 early2 steady =
    let fs1 = (authorize codec agent first.disk fs first.request first.now).0 in
    let (c, proved, filed) = accepted_file codec agent first fs q accepted early1 in
    let (filled, verified) = proved_claims-verified codec agent first.request first.now c proved in
    let (opened, current) =
      verify-IsCurrent codec agent.public_key first.request.launch_authorization first.now c
        verified in
    authorize-refuses codec agent last (files_after codec agent fs1 between)
      (ap (λ t. trim_space t == "") token ∙ filled)
      (λ c' proved'.
        let (filled', verified') =
          proved_claims-verified codec agent last.request last.now c' proved' in
        let (opened', current') =
          verify-IsCurrent codec agent.public_key last.request.launch_authorization last.now c'
            verified' in
        let same : c' ≡ c =
          same_value c' c (sym opened' ∙ ap (open_token codec agent.public_key) token ∙ opened) in
        let kept = files_after-keeps codec agent between fs1 c.id (line (unix c.expires_at)) filed (
          All-not_over codec agent c last.now between
            (subst (λ claims. IsCurrent claims last.now) same current') early2 steady) in
        ap (λ claims. is_some (entry_of (files_after codec agent fs1 between) claims.id)) same
        ∙ ap is_some kept)
