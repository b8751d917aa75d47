-- ===== src/Recipes/Handlers/Example.antt =====
-- A recipe that is proposed, and one that is patched.
use yokai.Prelude.{
  ◌≡◌, ◌↔◌, refl, true, false, ◌&&◌, ◌||◌, ◌==◌, if◌then◌else◌, none, some, is_some, pos, [], ◌∷◌,
  trim_space,
}
use yokai.Deployments.Errors.{plain, ok}
use yokai.Recipes.Types.{validated, Provenance, RecipeConfig, Recipe}
use yokai.Recipes.Validate.{Validator, validate, known_workload, is_digest_pinned}
use yokai.Recipes.Validate.Accepted.{IsAcceptable, validate_iff}
use yokai.Recipes.Store.{get, find_fingerprint, put}
use yokai.Recipes.Store.Laws.{put-outcome}
use yokai.Recipes.Handlers.{
  Services, fingerprint, propose, patch, may_swap, fits, gpus_of, validate_on_device,
}
use yokai.Recipes.Handlers.Promoted.{validate_on_device-may_swap}
use yokai.Deployments.Members.{contains}
use yokai.Recipes.Handlers.Patched.{patch-may_swap, propose-created}

abbrev validator : Validator
validator = record { plugin_exists = λ p. true; to_lower = λ s. s; to_upper = λ s. s }

abbrev services : Services
services = record { validator = validator; sha256_hex = λ s. s; plan_json = λ md. "{}" }

abbrev source : Provenance
source = record {
  agent = "hermes";
  source = "upstream";
  source_url = "";
  research_note = "";
  reported_on = [];
}

abbrev config : RecipeConfig
config = record {
  id = "";
  name = "";
  workload = "vllm";
  model_id = "zai/glm-5";
  image = "vllm@sha256:00";
  port = "8000";
  extra_args = "";
  env = ("B", "2") ∷ ("A", "1") ∷ [];
  volumes = [];
  plugins = "lmcache" ∷ [];
  description = "";
  target_devices = "gb10" ∷ [];
  min_vram_gb_per_gpu = pos 24000;
  min_gpu_count = pos 1;
  quantization = "";
  arch = "";
  multi_device = none;
}

abbrev tried : Recipe
tried = record {
  id = "rec_1";
  status = validated;
  config = config;
  provenance = source;
  validated_on = "spark-1" ∷ [];
  fingerprint = "f";
  proposed_by = "hermes";
  supersedes = "";
  created_at = "";
  updated_at = "";
}

abbrev other : RecipeConfig
other = record config { image = "vllm@sha256:ff" }

acceptable : IsAcceptable validator other source "hermes"
unfolding known_workload is_digest_pinned trim_space
acceptable = record {
  has_model = refl;
  has_workload = refl;
  workload_known = refl;
  has_image = refl;
  image_pinned = refl;
  vram_sane = refl;
  gpus_sane = refl;
  plugins_known = (refl, tt);
  has_author = refl;
  has_source = refl;
}

stored_before : get (tried ∷ []) "rec_1" ≡ some tried
unfolding get
stored_before = refl

validate_iff_example :
    ((validate validator other source "hermes").ok ≡ true)
    ↔ IsAcceptable validator other source "hermes"
validate_iff_example = validate_iff validator other source "hermes"

put-outcome_example :
    (get (put (false, some (plain "disk full")) (tried ∷ []) tried).0 "rec_1"
      ≡ (if false && tried.id == "rec_1" then some tried else get (tried ∷ []) "rec_1"))
    × (is_some (put (false, some (plain "disk full")) (tried ∷ []) tried).1 ≡ (true || true))
put-outcome_example = put-outcome false (some (plain "disk full")) (tried ∷ []) tried "rec_1"

patch-may_swap_example :
    (next : Recipe) × ((patch services
        (true, none)
        "now"
        "rec_1"
        (some other)
        none
        none
        (tried ∷ [])).1
      ≡ 200)
    × (get (patch services (true, none) "now" "rec_1" (some other) none none (tried ∷ [])).0 "rec_1"
        ≡ some next)
    × (next.config ≡ other)
    × (may_swap services next "spark-1" ≡ may_swap services tried "spark-1")
patch-may_swap_example =
    patch-may_swap services "now" "rec_1" "spark-1" other (tried ∷ []) tried stored_before
      acceptable

created : (propose services (true, none) "rec_2" "now" "" config source " hermes " "" []).1 ≡ 201
unfolding propose validate trim_space find_fingerprint put
created = refl

propose-created_example :
    (r : Recipe) × (get
        (propose services (true, none) "rec_2" "now" "" config source " hermes " "" []).0
        r.id
      ≡ some r)
    × (r.config ≡ config)
    × (may_swap services r "spark-1" ≡ false)
    × IsAcceptable validator config source (trim_space " hermes ")
    × (find_fingerprint [] (fingerprint services config) ≡ none)
propose-created_example =
    propose-created services (true, none) "rec_2" "now" "" config source " hermes " "" "spark-1" []
      created

validate_on_device-may_swap_example :
    (next : Recipe) × ((validate_on_device services
        (true, none)
        "now"
        "rec_1"
        "spark-2"
        (ok (24576 ∷ []))
        (tried ∷ [])).1
      ≡ 200)
    × (get
          (validate_on_device services
            (true, none)
            "now"
            "rec_1"
            "spark-2"
            (ok (24576 ∷ []))
            (tried ∷ [])).0
          "rec_1"
        ≡ some next)
    × (may_swap services next "spark-2" ≡ (
        if fits services tried.config (gpus_of services "spark-2" (ok (24576 ∷ [])))
        then contains "spark-2" tried.validated_on || "spark-2" == "spark-2"
        else may_swap services tried "spark-2"))
validate_on_device-may_swap_example =
    validate_on_device-may_swap services "now" "rec_1" "spark-2" "spark-2" (ok (24576 ∷ []))
      (tried ∷ []) tried stored_before
