-- ===== src/Deployments/Tests/World.antt =====
-- A group of two ranks on two devices, and agents that answer for it.
use yokai.Prelude.{ℕ, pos, String, ◌==◌, true, false, none, some, List, [], ◌∷◌, if◌then◌else◌}
use yokai.Bkc.Types.{Config, RuntimeOptions, MultiDeviceDeployment, head_role, worker_role}
use yokai.Deployments.Errors.{ok, plain}
use yokai.Deployments.Types.{
  State, Phase, Ownership, Binding, CreateRequest, Member, TestResult, Deployment,
  ObservedContainer,
}
use yokai.Deployments.Env.{Env, Sys}

abbrev pub member_of : String → ℕ → String → String → Member
member_of role rank device status = record {
  role = role;
  rank = pos rank;
  device_id = device;
  fabric_address = "10.0.0.1";
  service_address = "192.168.0.1";
  service_port = pos 8000;
  container_id = "";
  name = "yokai-group";
  status = status;
  ownership = Ownership.managed;
  generation = pos 1;
}

abbrev pub head : Member
head = member_of head_role 0 "spark-1" "running"

abbrev pub worker : Member
worker = member_of worker_role 1 "spark-2" "running"

abbrev pub container_of : String → String → ObservedContainer
container_of role status = record {
  id = "4f2a";
  name = "yokai-group";
  status = status;
  ownership = Ownership.managed;
  managed = true;
  generation = pos 1;
  deployment_id = "dep-1";
  role = role;
}

abbrev pub group_in : State → List Member → Deployment
group_in state members = record {
  id = "dep-1";
  bkc_id = "glm";
  idempotency_key = "key-1";
  request_hash = "hash-1";
  state = state;
  phase = Phase.running;
  generation = pos 1;
  previous_generation = pos 0;
  bindings = [];
  members = members;
  previous_members = [];
  uses_local_model_snapshot = false;
  recipe_source = "";
  recipe_revision = "";
  model_revision = "";
  image_digest = "";
  launch_order = worker_role ∷ head_role ∷ [];
  runtime_patches = [];
  recipe = none;
  error = "";
  rollback = none;
  last_test = none;
  progress = [];
  created_at = 1;
  updated_at = 1;
}

abbrev pub group : Deployment
group = group_in State.running (head ∷ worker ∷ [])

abbrev pub passed : TestResult
passed = record {
  ok = true;
  metrics_ready = true;
  message = "";
  model = "glm-5";
  response = "ok";
  tested_at = 0;
}

abbrev pub options : RuntimeOptions
options = record { ipc_mode = ""; shm_size = ""; ulimits = []; restart_policy = "" }

abbrev pub dual : MultiDeviceDeployment
dual = record {
  world_size = pos 2;
  tensor_parallel_size = pos 2;
  backend = "vllm_multi_node";
  gpus_per_node = pos 1;
  rendezvous_port = pos 29500;
  service_port = pos 8000;
  model_revision = "r1";
  served_model_name = "glm-5";
  source_revision = "c1";
  requires_local_model = false;
  requires_fabric_config = false;
  common_args = [];
  role_args = [];
  launch_order = worker_role ∷ head_role ∷ [];
  runtime_patches = [];
  roles =
      record { name = head_role; rank = pos 0; api = true }
      ∷ record { name = worker_role; rank = pos 1; api = false }
      ∷ [];
  required_capabilities = [];
  driver = "";
  recipe = none;
}

abbrev pub glm : Config
glm = record {
  id = "glm";
  name = "GLM";
  workload = "vllm";
  model_id = "zai/glm-5";
  image = "ghcr.io/yokai/vllm@sha256:00";
  port = "8000";
  extra_args = "";
  env = [];
  volumes = [];
  plugins = [];
  runtime = options;
  description = "";
  source = "";
  notes = [];
  multi_device = some dual;
  target_devices = [];
  min_vram_gb_per_gpu = 100000;
  min_gpu_count = pos 1;
  quantization = "";
  arch = "";
}

abbrev pub head_binding : Binding
head_binding = record {
  role = head_role;
  device_id = "spark-1";
  fabric_address = "10.0.0.1";
  fabric_interface = "";
  fabric_hca = "";
  fabric_gid_index = none;
  service_address = "192.168.0.1";
  service_port = pos 8000;
  observed_container_id = "";
}

abbrev pub worker_binding : Binding
worker_binding = record head_binding {
  role = worker_role;
  device_id = "spark-2";
  fabric_address = "10.0.0.2";
  service_address = "";
  service_port = pos 0;
}

abbrev pub request : CreateRequest
request = record {
  bkc_id = "glm";
  idempotency_key = "key-1";
  bindings = head_binding ∷ worker_binding ∷ [];
  api_key = "secret";
  local_model_path = "";
}

-- Every agent does what it is asked, and finds its own member running.
abbrev pub world : Env
world = record {
  catalog = glm ∷ [];
  preflight = λ past ctx r capabilities targets. none;
  pull = λ past ctx b image. none;
  inspect = λ past ctx device locator.
      ok (container_of (if device == "spark-1" then head_role else worker_role) "running");
  stop = λ past ctx device id. none;
  stop_managed = λ past ctx d m. none;
  launch = λ past ctx b c. ok (container_of b.role "running");
  wait_running = λ past ctx device id. none;
  test = λ past ctx device locator key. ok passed;
  capture_logs = λ past ctx d m key. ok (record { tail = "line"; truncated = false });
  remove_managed = λ past ctx d m. none;
  restart = λ past ctx device id. none;
  restart_managed = λ past ctx d m. none;
  write = λ past doc. (true, none);
  now = λ past. 7;
  new_id = λ past. "dep-2";
  request_error = λ past. none;
  rounds = λ past timeout interval. 2;
  interrupted = λ past. none;
  readiness_timeout = 0;
  readiness_interval = 0;
  redact = λ text. text;
  pinned = λ cfg. none;
  parse_ip = λ text.
      some
        (record { text = text; is_unspecified = false; is_loopback = false; is_multicast = false });
  clean_path = λ path. path;
  is_abs = λ path. true;
  base_name = λ path. path;
  dir_name = λ path. path;
  hash = λ r. ok "hash-1";
}

-- The agents of that world when no container can be stopped.
abbrev pub stuck : Env
stuck = record world { stop_managed = λ past ctx d m. some (plain "device is unreachable") }

-- The agents of that world when no container can be removed.
abbrev pub held : Env
held = record world { remove_managed = λ past ctx d m. some (plain "device is unreachable") }

abbrev pub kept : Sys
kept = record { doc = group ∷ []; events = [] }
