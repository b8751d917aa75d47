-- ===== src/Agent/Launch/Steps.antt =====
-- The steps of an agent that is asked for launches.
use yokai.Prelude.{
  ◌-◌, ◌^◌, ◌≡◌, refl, ap, sym, ◌∙◌, inl, inr, ℤ, pos, negsuc, int_lt, int_eq, String, ◌==◌,
  trim_space, parse_int, Bool, true, false, not, ◌||◌, Bool-cases, Option, none, some, is_some,
  List, [], ◌∷◌, All, length, eqb, arith,
}
use yokai.Checks.{passed, answered}
use yokai.Deployments.Errors.{Result, ok, err}
use yokai.LaunchAuth.Clock.{Time, unix, later, later_sec, is_before}
use yokai.LaunchAuth.Types.{Claims, Codec}
use yokai.LaunchAuth.Authorization.{lifetime, verify, candidate_digest}
use yokai.LaunchAuth.Replay.{file, Files, Disk, entry_of, is_over, string_trim_space, consume}
use yokai.LaunchAuth.Replay.Kept.{consume-keeps, consume-refuses}
use yokai.Agent.Containers.{ContainerRequest}
use yokai.Agent.Launch.{
  Agent, is_qwen_candidate, launch_request, check_candidate, matches, proved_claims, use_up,
  authorize_qwen, authorize,
}

-- A launch that an agent is asked for: the answers of its disk, the request, and the clock.
pub record Launch : Type 0 where
  pub disk : Disk
  pub request : ContainerRequest
  pub now : Time

-- A clock that is more than two minutes before the end of Go's time.
abbrev pub is_early : Time → Bool
is_early t = int_lt t.sec (pos (2 ^ 63 - 1 - lifetime))

later_sec-ahead :
    (s : ℤ)
    → int_lt s (pos (2 ^ 63 - 1 - lifetime)) ≡ true
    → (int_lt (later_sec lifetime s) s ≡ false) × (int_eq (later_sec lifetime s) s ≡ false)
unfolding later_sec
later_sec-ahead (pos n) h = (ground (arith, h), ground (arith, h))
later_sec-ahead (negsuc n) h = (ground arith, ground arith)

pub not_behind : (t : Time) → is_early t ≡ true → is_before (later lifetime t) t ≡ false
unfolding is_before later_sec
not_behind t h = ground (arith, later_sec-ahead t.sec h)

pub same_value : {A : Type 0} (a b : A) → ◌≡◌ {A = Result A} (ok a) (ok b) → a ≡ b
same_value a b h = cc

module _ (codec : Codec) (agent : Agent) where
  -- The files after some launches.
  unfoldable pub files_after : Files → List Launch → Files
  unfolding authorize
  files_after fs [] = fs
  files_after fs (l ∷ ls) = files_after (authorize codec agent l.disk fs l.request l.now).0 ls

  check_candidate-token :
      (r : ContainerRequest) (g : ℤ)
      → check_candidate r ≡ ok g
      → (trim_space r.launch_authorization == "") ≡ false
  unfolding check_candidate
  check_candidate-token r g h =
      (passed (trim_space r.launch_authorization == "")
        "coordinator launch authorization is required" _ g h).0

  -- What a request proves stands in its token.
  pub proved_claims-verified :
      (r : ContainerRequest) (now : Time) (c : Claims)
      → proved_claims codec agent r now ≡ ok c
      → ((trim_space r.launch_authorization == "") ≡ false)
        × (verify codec agent.public_key r.launch_authorization now ≡ ok c)
  unfolding proved_claims
  proved_claims-verified r now c h =
      let (g, candidate, h1) = answered (check_candidate r) _ c h in
      let (given, verified, h2) =
        answered (verify codec agent.public_key r.launch_authorization now) _ c h1 in
      let (target, h3) =
        passed (not (given.target_device_id == agent.device_id))
          "launch authorization target device does not match this agent" _ c h2 in
      let (digest, hashed, h4) = answered (candidate_digest codec (launch_request r)) _ c h3 in
      let (matched, h5) =
        passed (not (matches r g digest given))
          "launch authorization does not match the exact candidate request" _ c h4 in
      (check_candidate-token r g candidate, verified ∙ ap ok (same_value given c h5))

  use_up-accepts :
      (dir : String) (disk : Disk) (fs : Files) (now : Time) (r : Result Claims)
      → (use_up codec agent dir disk fs now r).1 ≡ none
      → (c : Claims) × (r ≡ ok c)
        × (use_up codec agent dir disk fs now r ≡ consume dir disk fs c.id (unix c.expires_at) now)
  unfolding use_up
  use_up-accepts dir disk fs now (err e) h = absurd (ground (arith, h))
  use_up-accepts dir disk fs now (ok c) h = (c, refl, refl)

  qwen-accepts :
      (dir : Option String) (disk : Disk) (fs : Files) (r : ContainerRequest) (now : Time)
      → (authorize_qwen codec agent dir disk fs r now).1 ≡ none
      → (d : String) × (c : Claims) × (proved_claims codec agent r now ≡ ok c)
        × (authorize_qwen codec agent dir disk fs r now
            ≡ consume d disk fs c.id (unix c.expires_at) now)
  unfolding authorize_qwen
  qwen-accepts none disk fs r now h = absurd (ground (arith, h))
  qwen-accepts (some d) disk fs r now h =
      elim (Bool-cases
        (not (eqb (length agent.public_key) 32) || trim_space agent.device_id == "")) [
          | inl e ↦ absurd (ground (arith, e, h))
          | inr e ↦
              let opened : authorize_qwen codec agent (some d) disk fs r now
                  ≡ use_up codec agent d disk fs now (proved_claims codec agent r now) =
                rw e refl in
              let (c, proved, same) =
                use_up-accepts d disk fs now (proved_claims codec agent r now)
                  (ap (λ answer. answer.1) (sym opened) ∙ h) in
              (d, c, proved, opened ∙ same)
        ]

  authorize-qwen :
      (disk : Disk) (fs : Files) (r : ContainerRequest) (now : Time)
      → is_qwen_candidate r ≡ true
      → authorize codec agent disk fs r now
        ≡ authorize_qwen codec agent agent.replay_dir disk fs r now
  unfolding authorize
  authorize-qwen disk fs r now q = rw q refl

  -- A candidate of the recipe that is accepted: its claims are used up.
  pub authorize-accepts :
      (l : Launch) (fs : Files)
      → is_qwen_candidate l.request ≡ true
      → (authorize codec agent l.disk fs l.request l.now).1 ≡ none
      → (d : String) × (c : Claims) × (proved_claims codec agent l.request l.now ≡ ok c)
        × (authorize codec agent l.disk fs l.request l.now
            ≡ consume d l.disk fs c.id (unix c.expires_at) l.now)
  authorize-accepts l fs q h =
      let same = authorize-qwen l.disk fs l.request l.now q in
      let (d, c, proved, consumed) =
        qwen-accepts agent.replay_dir l.disk fs l.request l.now
          (ap (λ answer. answer.1) (sym same) ∙ h) in
      (d, c, proved, same ∙ consumed)

  use_up-keeps :
      (dir : String) (disk : Disk) (fs : Files) (now : Time) (r : Result Claims)
      (name text : String)
      → entry_of fs name ≡ some (file text)
      → is_over (parse_int (string_trim_space text)) now ≡ false
      → entry_of (use_up codec agent dir disk fs now r).0 name ≡ some (file text)
  unfolding use_up
  use_up-keeps dir disk fs now (err e) name text h k = h
  use_up-keeps dir disk fs now (ok c) name text h k =
      consume-keeps dir disk now fs c.id (unix c.expires_at) name text h k

  authorize_qwen-keeps :
      (dir : Option String) (disk : Disk) (fs : Files) (r : ContainerRequest) (now : Time)
      (name text : String)
      → entry_of fs name ≡ some (file text)
      → is_over (parse_int (string_trim_space text)) now ≡ false
      → entry_of (authorize_qwen codec agent dir disk fs r now).0 name ≡ some (file text)
  unfolding authorize_qwen
  authorize_qwen-keeps none disk fs r now name text h k = h
  authorize_qwen-keeps (some d) disk fs r now name text h k =
      ground (arith, h, use_up-keeps d disk fs now (proved_claims codec agent r now) name text h k)

  authorize-keeps :
      (l : Launch) (fs : Files) (name text : String)
      → entry_of fs name ≡ some (file text)
      → is_over (parse_int (string_trim_space text)) l.now ≡ false
      → entry_of (authorize codec agent l.disk fs l.request l.now).0 name ≡ some (file text)
  unfolding authorize
  authorize-keeps l fs name text h k =
      ground
        (arith, h, authorize_qwen-keeps agent.replay_dir l.disk fs l.request l.now name text h k)

  pub files_after-keeps :
      (ls : List Launch) (fs : Files) (name text : String)
      → entry_of fs name ≡ some (file text)
      → All (λ l. is_over (parse_int (string_trim_space text)) l.now ≡ false) ls
      → entry_of (files_after fs ls) name ≡ some (file text)
  unfolding files_after
  files_after-keeps [] fs name text h k = h
  files_after-keeps (l ∷ ls) fs name text h (k, ks) =
      files_after-keeps ls (authorize codec agent l.disk fs l.request l.now).0 name text
        (authorize-keeps l fs name text h k) ks

  use_up-refuses :
      (dir : String) (l : Launch) (fs : Files) (r : Result Claims)
      → ((c : Claims) → r ≡ ok c → is_some (entry_of fs c.id) ≡ true)
      → is_some (use_up codec agent dir l.disk fs l.now r).1 ≡ true
  unfolding use_up
  use_up-refuses dir l fs (err e) f = refl
  use_up-refuses dir l fs (ok c) f =
      consume-refuses dir l.disk l.now fs c.id (unix c.expires_at) (f c refl)

  qwen-refuses :
      (dir : Option String) (l : Launch) (fs : Files)
      → ((c : Claims)
          → proved_claims codec agent l.request l.now ≡ ok c
          → is_some (entry_of fs c.id) ≡ true)
      → is_some (authorize_qwen codec agent dir l.disk fs l.request l.now).1 ≡ true
  unfolding authorize_qwen
  qwen-refuses none l fs f = refl
  qwen-refuses (some d) l fs f =
      ground (arith, use_up-refuses d l fs (proved_claims codec agent l.request l.now) f)

  pub authorize-refuses :
      (l : Launch) (fs : Files)
      → (trim_space l.request.launch_authorization == "") ≡ false
      → ((c : Claims)
          → proved_claims codec agent l.request l.now ≡ ok c
          → is_some (entry_of fs c.id) ≡ true)
      → is_some (authorize codec agent l.disk fs l.request l.now).1 ≡ true
  unfolding authorize
  authorize-refuses l fs filled f = ground (arith, filled, qwen-refuses agent.replay_dir l fs f)
