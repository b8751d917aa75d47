-- ===== src/Agent/Launch/Exact.antt =====
-- An accepted launch is the one that was authorized.
use yokai.Prelude.{
  ◌≡◌, ap, sym, subst, ◌∙◌, ℤ, pos, int_lt, int_eq_iff, String, ◌==◌, eq_iff, parse_int, trim_space,
  true, not, ◌&&◌, all_true-All, [], ◌∷◌, Bool-cases, inl, inr, Option, none, some, arith,
}
use yokai.Bkc.Types.{head_role, worker_role}
use yokai.Checks.{passed, checked, answered}
use yokai.Deployments.Errors.{Result, ok}
use yokai.LaunchAuth.Clock.{Time}
use yokai.LaunchAuth.Types.{Claims, Codec}
use yokai.LaunchAuth.Authorization.{verify, open_token, candidate_digest}
use yokai.LaunchAuth.Authorization.Checked.{IsCurrent, verify-IsCurrent}
use yokai.LaunchAuth.Replay.{Files}
use yokai.Bkc.Qwen.{qwen_id}
use yokai.Agent.Containers.{
  ContainerRequest, value_of, has_complete_provenance, normalized_container_name,
  label_deployment_id, label_generation, label_role,
}
use yokai.Agent.Launch.{
  Agent, is_qwen_candidate, launch_request, check_candidate, require_labels, positive, matches,
  match_tests, proved_claims, authorize, label_bkc_id, label_model_revision, label_source_revision,
  label_image_digest,
}
use yokai.Agent.Launch.Steps.{Launch, authorize-accepts, proved_claims-verified, same_value}

-- The claims name this agent, and every part of the request that they speak of is the request's.
pub record IsExact (codec : Codec) (agent : Agent) (r : ContainerRequest) (c : Claims)
    : Type 0 where
  pub device : c.target_device_id ≡ agent.device_id
  pub deployment : c.deployment_id ≡ value_of r.labels label_deployment_id
  pub generation : parse_int (value_of r.labels label_generation) ≡ some c.generation
  pub candidate : c.candidate_name ≡ normalized_container_name r.name
  pub role : c.role ≡ value_of r.labels label_role
  pub bkc : c.bkc_id ≡ qwen_id
  pub model_name : c.model_name ≡ r.model_name
  pub model_revision : c.model_revision ≡ value_of r.labels label_model_revision
  pub source_revision : c.source_revision ≡ value_of r.labels label_source_revision
  pub image : c.image ≡ r.image
  pub image_digest : c.image_digest ≡ value_of r.labels label_image_digest
  pub digest : candidate_digest codec (launch_request r) ≡ ok c.candidate_digest
  pub tokenless : r.hf_token ≡ ""
  pub managed : has_complete_provenance r.labels ≡ true

positive-value : (o : Option ℤ) (n : ℤ) → positive o ≡ ok n → o ≡ some n
positive-value none n h = absurd (ground (arith, h))
positive-value (some m) n h = elim (Bool-cases (int_lt (pos 0) m)) [
  | inl e ↦ ap some (same_value m n (positive_answer m n e h))
  | inr e ↦ absurd (ground (arith, e, h))
]
  where
    positive_answer :
        (m n : ℤ)
        → int_lt (pos 0) m ≡ true
        → positive (some m) ≡ ok n
        → ◌≡◌ {A = Result ℤ} (ok m) (ok n)
    positive_answer m n e h = ground (arith, e, h)

-- What is known of a candidate that is checked.
check_candidate-facts :
    (r : ContainerRequest) (g : ℤ)
    → check_candidate r ≡ ok g
    → ((value_of r.labels label_bkc_id == qwen_id) ≡ true)
      × (has_complete_provenance r.labels ≡ true)
      × ((r.hf_token == "") ≡ true)
      × (parse_int (value_of r.labels label_generation) ≡ some g)
unfolding check_candidate
check_candidate-facts r g h =
    let (filled, h1) =
      passed (trim_space r.launch_authorization == "")
        "coordinator launch authorization is required" _ g h in
    let (recipe, h2) =
      passed (not (value_of r.labels label_bkc_id == qwen_id))
        "coordinated Qwen3.8 BKC provenance is required" _ g h1 in
    let (owned, h3) =
      passed (not (has_complete_provenance r.labels))
        "Qwen3.8 dual-node ranks must carry complete coordinated deployment provenance" _ g h2 in
    let (bare, h4) =
      passed (not (r.hf_token == "")) "coordinated Qwen3.8 launches do not accept an HF token" _ g
        h3 in
    let (n, parsed, h5) =
      answered (positive (parse_int (value_of r.labels label_generation))) _ g h4 in
    let (ranked, h6) =
      passed
        (not (value_of r.labels label_role == head_role)
          && not (value_of r.labels label_role == worker_role))
        "coordinated deployment role is invalid" _ g h5 in
    let h7 =
      checked
        (require_labels r.labels (
          label_deployment_id ∷ label_model_revision ∷ label_source_revision ∷ label_image_digest
          ∷ []))
        _ g h6 in
    (
      ground (arith, recipe),
      ground (arith, owned),
      ground (arith, bare),
      positive-value (parse_int (value_of r.labels label_generation)) n parsed
          ∙ ap some (same_value n g h7),
    )

text_of : {a b : String} → (a == b) ≡ true → a ≡ b
text_of {a = a} {b = b} h = (eq_iff a b).0 h

matches-IsExact :
    (codec : Codec) (agent : Agent) (r : ContainerRequest) (g : ℤ) (digest : String) (c : Claims)
    → check_candidate r ≡ ok g
    → (c.target_device_id == agent.device_id) ≡ true
    → candidate_digest codec (launch_request r) ≡ ok digest
    → matches r g digest c ≡ true
    → IsExact codec agent r c
unfolding matches match_tests
matches-IsExact codec agent r g digest c candidate target hashed h =
    let (recipe, owned, bare, parsed) = check_candidate-facts r g candidate in
    let (
      deployment,
      (
        generation,
        (
          candidate,
          (
            role,
            (
              bkc,
              (
                model_name,
                (model_revision, (source_revision, (image, (image_digest, (same_digest, done))))),
              ),
            ),
          ),
        ),
      ),
    ) =
      all_true-All (match_tests r g digest c) h in
    record {
      device = text_of target;
      deployment = text_of deployment;
      generation = parsed ∙ ap some (sym ((int_eq_iff c.generation g).0 generation));
      candidate = text_of candidate;
      role = text_of role;
      bkc = text_of bkc ∙ text_of recipe;
      model_name = text_of model_name;
      model_revision = text_of model_revision;
      source_revision = text_of source_revision;
      image = text_of image;
      image_digest = text_of image_digest;
      digest = hashed ∙ ap ok (sym (text_of same_digest));
      tokenless = text_of bare;
      managed = owned;
    }

proved_claims-IsExact :
    (codec : Codec) (agent : Agent) (r : ContainerRequest) (now : Time) (c : Claims)
    → proved_claims codec agent r now ≡ ok c
    → IsExact codec agent r c
unfolding proved_claims
proved_claims-IsExact codec agent r now c h =
    let (g, candidate, h1) = answered (check_candidate r) _ c h in
    let (given, verified, h2) =
      answered (verify codec agent.public_key r.launch_authorization now) _ c h1 in
    let (target, h3) =
      passed (not (given.target_device_id == agent.device_id))
        "launch authorization target device does not match this agent" _ c h2 in
    let (digest, hashed, h4) = answered (candidate_digest codec (launch_request r)) _ c h3 in
    let (matched, h5) =
      passed (not (matches r g digest given))
        "launch authorization does not match the exact candidate request" _ c h4 in
    subst (IsExact codec agent r) (same_value given c h5) (
      matches-IsExact codec agent r g digest given candidate (ground (arith, target)) hashed
        (ground (arith, matched)))

-- A launch of the coordinated recipe is accepted only with claims that stand in a token signed
-- for the agent's key, that are current, and that are exactly those of the request: for this
-- agent, the same deployment, generation, name, role, recipe, model, revisions and image, and the digest of the
-- whole request; the request has no HF token and carries the provenance of a managed container.
pub authorize-IsExact :
    (codec : Codec) (agent : Agent) (fs : Files) (l : Launch)
    → is_qwen_candidate l.request ≡ true
    → (authorize codec agent l.disk fs l.request l.now).1 ≡ none
    → (c : Claims) × (open_token codec agent.public_key l.request.launch_authorization ≡ ok c)
      × IsCurrent c l.now
      × IsExact codec agent l.request c
authorize-IsExact codec agent fs l q h =
    let (d, c, proved, whole) = authorize-accepts codec agent l fs q h in
    let (filled, verified) = proved_claims-verified codec agent l.request l.now c proved in
    let (opened, current) =
      verify-IsCurrent codec agent.public_key l.request.launch_authorization l.now c verified in
    (c, opened, current, proved_claims-IsExact codec agent l.request l.now c proved)
