-- ===== src/Recipes/Trial/Example.antt =====
-- A trial that passes.
use yokai.Prelude.{◌≡◌, refl, true, none, some, pos, [], ◌∷◌, trim_space}
use yokai.Deployments.Errors.{ok}
use yokai.Recipes.Types.{Recipe, RecipeConfig, proposed}
use yokai.Recipes.Store.{get, put}
use yokai.Recipes.Handlers.{Services, fits}
use yokai.Recipes.Trial.{Answers, verify_recipe, target_matches}
use yokai.Recipes.Trial.Evidence.{IsEvidence, verify_recipe-IsEvidence}

abbrev services : Services
services = record {
  validator = record { plugin_exists = λ p. true; to_lower = λ s. s; to_upper = λ s. s };
  sha256_hex = λ s. s;
  plan_json = λ md. "{}";
}

abbrev config : RecipeConfig
config = record {
  id = "";
  name = "";
  workload = "vllm";
  model_id = "zai/glm-5";
  image = "vllm@sha256:00";
  port = "8000";
  extra_args = "";
  env = [];
  volumes = [];
  plugins = [];
  description = "";
  target_devices = [];
  min_vram_gb_per_gpu = pos 24000;
  min_gpu_count = pos 1;
  quantization = "";
  arch = "";
  multi_device = none;
}

abbrev untried : Recipe
untried = record {
  id = "rec_1";
  status = proposed;
  config = config;
  provenance = record {
    agent = "hermes";
    source = "upstream";
    source_url = "";
    research_note = "";
    reported_on = [];
  };
  validated_on = [];
  fingerprint = "f";
  proposed_by = "hermes";
  supersedes = "";
  created_at = "";
  updated_at = "";
}

abbrev answers : Answers
answers = record {
  gpus = ok (record { name = "gb10"; memory_mb = 131072 } ∷ []);
  running = true;
  deploy = λ request. ok "c1";
  probe = λ container. ok (some true);
}

passes :
    (verify_recipe services (true, none) "now" "rec_1" " spark " answers (untried ∷ [])).code ≡ 200
unfolding verify_recipe trim_space get put fits target_matches
passes = refl

verify_recipe-IsEvidence_example :
    (r : Recipe) × (get (untried ∷ []) "rec_1" ≡ some r)
    × IsEvidence services answers
        (trim_space " spark ")
        r
        (verify_recipe services (true, none) "now" "rec_1" " spark " answers (untried ∷ []))
verify_recipe-IsEvidence_example =
    verify_recipe-IsEvidence services (true, none) "now" "rec_1" " spark " answers (untried ∷ [])
      passes
