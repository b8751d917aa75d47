-- ===== src/Agent/Launch/Example.antt =====
-- The launch of the sample, twice.
use yokai.Prelude.{ℕ, ◌≡◌, refl, true, false, none, some, is_some, [], ◌∷◌, trim_space, parse_int}
use yokai.Deployments.Errors.{ok}
use yokai.LaunchAuth.Clock.{is_before, later, later_sec, unix_sec, earlier_sec}
use yokai.LaunchAuth.Types.{Claims}
use yokai.LaunchAuth.Sample.{public_key, at_second, labels, options, codec, token}
use yokai.LaunchAuth.Authorization.{verify, open_token, candidate_digest}
use yokai.LaunchAuth.Authorization.Checked.{IsCurrent}
use yokai.LaunchAuth.Replay.{Disk, Stat, missing, found, consume, entry_of}
use yokai.Agent.Containers.{ContainerRequest, has_complete_provenance, normalized_container_name}
use yokai.Agent.Launch.{Agent, is_qwen_candidate, authorize}
use yokai.Agent.Launch.Steps.{Launch, files_after}
use yokai.Agent.Launch.Once.{authorize-once}
use yokai.Agent.Launch.Exact.{IsExact, authorize-IsExact}

abbrev private_dir : Stat
private_dir = found (record { is_dir = true; is_link = false; permissions = 448 })

abbrev disk : Disk
disk = record {
  first_stat = missing;
  make_dir = none;
  made_stat = private_dir;
  secure = none;
  last_stat = private_dir;
  reserve = none;
  persist = none;
  sync = none;
  close = none;
  sync_dir = none;
  unlisted = false;
  unread = λ name. false;
  unremoved = λ name. false;
}

abbrev request : ContainerRequest
request = record {
  image = "vllm";
  name = "yokai-dep-1";
  model_name = "qwen";
  gguf_variant = "";
  gguf_files = [];
  hf_token = "";
  ports = [];
  env = [];
  gpu_ids = "all";
  extra_args = "";
  args = "--api-key=secret" ∷ [];
  volumes = [];
  plugins = [];
  runtime = options;
  skip_pull = true;
  labels = labels;
  network_mode = "host";
  devices = [];
  cap_add = [];
  entrypoint = "";
  launch_authorization = token;
}

abbrev agent : Agent
agent = record {
  public_key = public_key;
  device_id = "spark-1";
  replay_dir = some "/var/lib/yokai";
}

abbrev at : ℕ → Launch
at second = record { disk = disk; request = request; now = at_second second }

candidate : is_qwen_candidate request ≡ true
unfolding is_qwen_candidate
candidate = refl

accepted : (authorize codec agent disk [] request (at_second 1060)).1 ≡ none
unfolding authorize trim_space has_complete_provenance parse_int verify earlier_sec unix_sec
    candidate_digest normalized_container_name consume entry_of
accepted = refl

steady : is_before (later 120 (at_second 1080)) (at_second 1150) ≡ false
unfolding is_before later_sec
steady = refl

authorize-once_example :
    is_some
      (authorize codec agent disk
        (files_after codec agent
          (authorize codec agent disk [] request (at_second 1060)).0
          (at 1150 ∷ []))
        request
        (at_second 1080)).1
    ≡ true
authorize-once_example =
    authorize-once codec agent [] (at 1060) (at 1080) (at 1150 ∷ []) candidate accepted refl refl
      refl (steady, tt)

authorize-IsExact_example :
    (c : Claims) × (open_token codec public_key token ≡ ok c)
    × IsCurrent c (at_second 1060)
    × IsExact codec agent request c
authorize-IsExact_example = authorize-IsExact codec agent [] (at 1060) candidate accepted
