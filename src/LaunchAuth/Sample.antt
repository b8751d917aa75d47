-- ===== src/LaunchAuth/Sample.antt =====
-- A key pair, and the claims of one launch, for the tests.
use yokai.Prelude.{ℕ, ◌+◌, pos, String, ◌==◌, true, some, [], ◌∷◌, ◌++◌, eqb, length, if◌then◌else◌}
use yokai.Bkc.Types.{RuntimeOptions}
use yokai.Deployments.Errors.{ok}
use yokai.LaunchAuth.Clock.{Time, unix_offset}
use yokai.LaunchAuth.Types.{Bytes, StringMap, Request, Claims, Codec}
use yokai.LaunchAuth.Authorization.{audience}

abbrev pub zeros : String
zeros = "00000000000000000000000000000000"

abbrev pub digest : String
digest = "0000000000000000000000000000000000000000000000000000000000000000"

abbrev eight : Bytes
eight = 1 ∷ 2 ∷ 3 ∷ 4 ∷ 5 ∷ 6 ∷ 7 ∷ 8 ∷ []

abbrev pub public_key : Bytes
public_key = eight ++ eight ++ eight ++ eight

abbrev pub private_key : Bytes
private_key = public_key ++ public_key

abbrev pub payload : Bytes
payload = 123 ∷ 125 ∷ []

-- Some seconds after 1970.
abbrev pub at_second : ℕ → Time
at_second s = record { sec = pos (s + unix_offset); nsec = 0 }

abbrev pub claims : Claims
claims = record {
  version = pos 1;
  audience = audience;
  id = zeros;
  target_device_id = "spark-1";
  deployment_id = "dep-1";
  generation = pos 1;
  candidate_name = "yokai-dep-1";
  role = "head";
  bkc_id = "qwen3-8-flash-next-nvfp4-dual-gb10";
  model_name = "qwen";
  model_revision = "r1";
  source_revision = "s1";
  image = "vllm";
  image_digest = "d1";
  candidate_digest = digest;
  issued_at = pos 1000;
  expires_at = pos 1120;
}

abbrev pub labels : StringMap
labels =
    ("io.yokai.managed", "true")
    ∷ ("io.yokai.ownership", "managed")
    ∷ ("io.yokai.deployment.id", "dep-1")
    ∷ ("io.yokai.deployment.generation", "1")
    ∷ ("io.yokai.deployment.role", "head")
    ∷ ("io.yokai.bkc.id", "qwen3-8-flash-next-nvfp4-dual-gb10")
    ∷ ("io.yokai.model.revision", "r1")
    ∷ ("io.yokai.source.revision", "s1")
    ∷ ("io.yokai.image.digest", "d1")
    ∷ []

abbrev pub options : RuntimeOptions
options = record { ipc_mode = ""; shm_size = ""; ulimits = []; restart_policy = "" }

abbrev pub request : Request
request = record {
  image = "vllm";
  name = "yokai-dep-1";
  model_name = "qwen";
  gguf_variant = "";
  gguf_files = [];
  hf_token = "";
  ports = [];
  env = [];
  gpu_ids = "all";
  extra_args = "";
  args = "--api-key=secret" ∷ [];
  volumes = [];
  plugins = [];
  runtime = options;
  skip_pull = true;
  labels = labels;
  network_mode = "host";
  devices = [];
  cap_add = [];
  entrypoint = "";
}

-- Packages that know this token alone.
abbrev pub codec : Codec
codec = record {
  sign = λ key message. private_key;
  verify = λ key message signature. true;
  encode = λ bytes. if eqb (length bytes) 64 then "c2ln" else "e30";
  decode = λ text. if text == "c2ln" then some private_key else some payload;
  hex = λ bytes. zeros;
  is_hex = λ text. true;
  marshal = λ c. ok payload;
  unmarshal = λ bytes. some claims;
  hash = λ r. ok digest;
}

abbrev pub token : String
token = "yokai-launch-v1.e30.c2ln"
