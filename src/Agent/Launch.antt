-- ===== src/Agent/Launch.antt =====
-- internal/agent/launch_authorization.go: when an agent accepts a launch of the coordinated Qwen
-- recipe.
pub mod Once
pub mod Steps
pub mod Exact
mod Example
use yokai.Prelude.{
  ℕ, ℤ, pos, int_eq, int_lt, String, ◌==◌, trim_space, parse_int, concat, Bool, true, false, not,
  ◌&&◌, ◌||◌, Option, none, some, List, [], ◌∷◌, length, eqb, all_true, if◌then◌else◌,
}
use yokai.Bkc.Types.{head_role, worker_role}
use yokai.Bkc.Qwen.{
  qwen_id, qwen_model, qwen_revision, qwen_source_revision, qwen_image_digest, qwen_image,
  qwen_container_model, qwen_patch_set,
}
use yokai.Checks.{◌>>◌, ◌>>=◌, fail_if, refuse_if, complain}
use yokai.Deployments.Errors.{Err, plain, Result, ok, err}
use yokai.LaunchAuth.Clock.{Time, unix}
use yokai.LaunchAuth.Types.{Bytes, Request, Claims, Codec, StringMap}
use yokai.LaunchAuth.Authorization.{verify, candidate_digest}
use yokai.LaunchAuth.Replay.{Files, Disk, consume}
use yokai.Agent.Containers.{
  ContainerRequest, value_of, has_complete_provenance, normalized_container_name,
  label_deployment_id, label_generation, label_role,
}

abbrev pub label_bkc_id : String
label_bkc_id = "io.yokai.bkc.id"

abbrev pub label_model_revision : String
label_model_revision = "io.yokai.model.revision"

abbrev pub label_image_digest : String
label_image_digest = "io.yokai.image.digest"

abbrev pub label_runtime_patch : String
label_runtime_patch = "io.yokai.runtime.patch"

abbrev pub label_source_revision : String
label_source_revision = "io.yokai.source.revision"

-- isQwen38CandidateRequest
unfoldable pub is_qwen_candidate : ContainerRequest → Bool
unfolding value_of qwen_image qwen_container_model qwen_patch_set
is_qwen_candidate r =
    value_of r.labels label_bkc_id == qwen_id
    || r.image == qwen_image
    || r.model_name == qwen_model
    || r.model_name == qwen_container_model
    || value_of r.labels label_model_revision == qwen_revision
    || value_of r.labels label_source_revision == qwen_source_revision
    || value_of r.labels label_image_digest == qwen_image_digest
    || value_of r.labels label_runtime_patch == qwen_patch_set

-- launchAuthorizationRequest
abbrev pub launch_request : ContainerRequest → Request
launch_request r = record {
  image = r.image;
  name = r.name;
  model_name = r.model_name;
  gguf_variant = r.gguf_variant;
  gguf_files = r.gguf_files;
  hf_token = r.hf_token;
  ports = r.ports;
  env = r.env;
  gpu_ids = r.gpu_ids;
  extra_args = r.extra_args;
  args = r.args;
  volumes = r.volumes;
  plugins = r.plugins;
  runtime = r.runtime;
  skip_pull = r.skip_pull;
  labels = r.labels;
  network_mode = r.network_mode;
  devices = r.devices;
  cap_add = r.cap_add;
  entrypoint = r.entrypoint;
}

abbrev pub positive : Option ℤ → Result ℤ
positive none = complain "coordinated deployment generation is invalid"
positive (some n) =
    if int_lt (pos 0) n then ok n else complain "coordinated deployment generation is invalid"

-- The loop over the four labels that have to be there.
unfoldable pub require_labels : StringMap → List String → Result (Unit {0})
unfolding value_of
require_labels labels [] = ok tt
require_labels labels (key ∷ keys) =
    refuse_if (trim_space (value_of labels key) == "")
      (concat ("coordinated deployment provenance " ∷ key ∷ " is required" ∷ []))
    >> require_labels labels keys

-- What is checked of the request before its token: the generation of its labels.
unfoldable pub check_candidate : ContainerRequest → Result ℤ
unfolding require_labels
check_candidate r =
    refuse_if (trim_space r.launch_authorization == "")
      "coordinator launch authorization is required"
    >> (refuse_if (not (value_of r.labels label_bkc_id == qwen_id))
          "coordinated Qwen3.8 BKC provenance is required"
        >> (refuse_if (not (has_complete_provenance r.labels))
              "Qwen3.8 dual-node ranks must carry complete coordinated deployment provenance"
            >> (refuse_if (not (r.hf_token == ""))
                  "coordinated Qwen3.8 launches do not accept an HF token"
                >> (positive (parse_int (value_of r.labels label_generation)) >>= λ generation.
                    refuse_if
                      (not (value_of r.labels label_role == head_role)
                        && not (value_of r.labels label_role == worker_role))
                      "coordinated deployment role is invalid"
                    >> (require_labels r.labels (
                          label_deployment_id ∷ label_model_revision ∷ label_source_revision
                          ∷ label_image_digest ∷ [])
                        >> ok generation)))))

-- The parts of the claims that have to be those of the request, for its generation and its digest.
unfoldable pub match_tests : ContainerRequest → ℤ → String → Claims → List Bool
match_tests r generation digest c =
    (c.deployment_id == value_of r.labels label_deployment_id)
    ∷ (int_eq c.generation generation)
    ∷ (c.candidate_name == normalized_container_name r.name)
    ∷ (c.role == value_of r.labels label_role)
    ∷ (c.bkc_id == value_of r.labels label_bkc_id)
    ∷ (c.model_name == r.model_name)
    ∷ (c.model_revision == value_of r.labels label_model_revision)
    ∷ (c.source_revision == value_of r.labels label_source_revision)
    ∷ (c.image == r.image)
    ∷ (c.image_digest == value_of r.labels label_image_digest)
    ∷ (c.candidate_digest == digest)
    ∷ []

unfoldable pub matches : ContainerRequest → ℤ → String → Claims → Bool
unfolding match_tests
matches r generation digest c = all_true (match_tests r generation digest c)

-- The settings of an agent: the coordinator's key, the device's own name, and the directory of the
-- replay store, `none` where the store is not there.
pub record Agent : Type 0 where
  pub public_key : Bytes
  pub device_id : String
  pub replay_dir : Option String

module _ (codec : Codec) (agent : Agent) where
  -- The claims that a request of the recipe proves, before they are used up.
  unfoldable pub proved_claims : ContainerRequest → Time → Result Claims
  unfolding check_candidate matches
  proved_claims r now = check_candidate r >>= λ generation.
      verify codec agent.public_key r.launch_authorization now >>= λ c.
      refuse_if (not (c.target_device_id == agent.device_id))
        "launch authorization target device does not match this agent"
      >> (candidate_digest codec (launch_request r) >>= λ digest.
          refuse_if (not (matches r generation digest c))
            "launch authorization does not match the exact candidate request"
          >> ok c)

  use_up : String → Disk → Files → Time → Result Claims → Files × Option Err
  use_up dir disk files now (err e) = (files, some e)
  use_up dir disk files now (ok c) = consume dir disk files c.id (unix c.expires_at) now

  unavailable : Err
  unavailable = plain "coordinator launch authorization is not configured"

  authorize_qwen : Option String → Disk → Files → ContainerRequest → Time → Files × Option Err
  unfolding use_up proved_claims unavailable
  authorize_qwen none disk files r now = (files, some unavailable)
  authorize_qwen (some dir) disk files r now =
      if not (eqb (length agent.public_key) 32) || trim_space agent.device_id == ""
      then (files, some unavailable)
      else use_up dir disk files now (proved_claims r now)

  -- authorizeCoordinatedQwenLaunch
  unfoldable pub authorize : Disk → Files → ContainerRequest → Time → Files × Option Err
  unfolding authorize_qwen is_qwen_candidate
  authorize disk files r now =
      if is_qwen_candidate r
      then authorize_qwen agent.replay_dir disk files r now
      else if trim_space r.launch_authorization == ""
      then (files, none)
      else (
        files,
        some (plain "launch authorization is only valid for the coordinated Qwen3.8 BKC"),
      )
