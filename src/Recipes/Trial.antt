-- ===== src/Recipes/Trial.antt =====
-- internal/daemon/agent_verify.go: the trial of a recipe on a device. What the device and the file of the store
-- answer is a parameter; the record of the last trial in a recipe is not modelled.
pub mod Evidence
mod Example
use yokai.Prelude.{
  ℕ, String, ◌==◌, trim_space, contains_text, concat, Bool, true, false, not, ◌&&◌, ◌||◌, Option,
  none, some, List, [], ◌∷◌, is_empty, if◌then◌else◌, map,
}
use yokai.Deployments.Errors.{Err, Result, ok, err}
use yokai.LaunchAuth.Types.{StringMap}
use yokai.Recipes.Types.{RecipeConfig, Recipe}
use yokai.Recipes.Validate.{Validator}
use yokai.Recipes.Store.{get, put}
use yokai.Recipes.Handlers.{Services, fits, promoted_recipe, stored}

-- DeployRequest of types.go, as far as a trial fills it.
pub record DeployRequest : Type 0 where
  pub device_id : String
  pub service_type : String
  pub image : String
  pub name : String
  pub model : String
  pub env : StringMap
  pub extra_args : String
  pub volumes : StringMap
  pub plugins : List String
  pub ports : StringMap

-- A GPU of a device: its name and its memory in MB, which is not negative here.
pub record Gpu : Type 0 where
  pub name : String
  pub memory_mb : ℕ

-- What happens on a device, in order, with the container's id.
pub data Call : Type 0 where
  launched : DeployRequest → Call
  tested removed : String → Call

-- The answers to one trial: the GPUs, whether the aggregator runs, the container that a launch makes, and
-- whether a probe of it is OK, if it gives a result.
pub record Answers : Type 0 where
  pub gpus : Result (List Gpu)
  pub running : Bool
  pub deploy : DeployRequest → Result String
  pub probe : String → Result (Option Bool)

-- The recipes after a trial, the status of the response, and the calls.
pub record Trial : Type 0 where
  pub recipes : List Recipe
  pub code : ℕ
  pub calls : List Call

-- recipeDeployRequest
unfoldable pub recipe_deploy_request : RecipeConfig → String → DeployRequest
recipe_deploy_request c device = record {
  device_id = device;
  service_type = c.workload;
  image = c.image;
  name = if c.name == "" then concat ("recipe-verify-" ∷ c.model_id ∷ []) else c.name;
  model = c.model_id;
  env = c.env;
  extra_args = c.extra_args;
  volumes = c.volumes;
  plugins = c.plugins;
  ports = if c.port == "" then [] else (c.port, c.port) ∷ [];
}

-- A trial passes if its probe gives a result that is OK.
unfoldable pub is_verified : Result (Option Bool) → Bool
is_verified (err e) = false
is_verified (ok none) = false
is_verified (ok (some passed)) = passed

unfoldable pub touched : String → Recipe → Recipe
touched now r = record r { updated_at = now }

module _ (sv : Services) where
  unfoldable pub target_matches : String → List String → Bool
  unfolding contains_text
  target_matches name [] = false
  target_matches name (t ∷ ts) =
      contains_text name (sv.validator.to_lower t)
      || contains_text (sv.validator.to_lower t) name
      || target_matches name ts

  -- recipeDeviceFit: whether the metrics are live, and whether the recipe fits.
  unfoldable pub recipe_device_fit : RecipeConfig → Result (List Gpu) → Bool × Bool
  unfolding target_matches fits
  recipe_device_fit c (err e) = (false, false)
  recipe_device_fit c (ok []) = (false, false)
  recipe_device_fit c (ok (g ∷ gs)) =
      let name = sv.validator.to_lower g.name in
      (
        true,
        fits sv c (map (λ x. x.memory_mb) (g ∷ gs))
            && (is_empty c.target_devices || name == "" || target_matches name c.target_devices),
      )

  -- The recipe that a probe leaves, and the response.
  unfoldable pub recorded :
      Bool × Option Err
      → String
      → String
      → Result (Option Bool)
      → List Recipe
      → Recipe
      → List Recipe × ℕ
  unfolding is_verified touched
  recorded write now device probe doc r =
      if is_verified probe
      then stored sv 200 (put write doc (promoted_recipe sv now device r))
      else stored sv 422 (put write doc (touched now r))

  -- The container is removed however the probe ends.
  unfoldable pub probed :
      Bool × Option Err → String → String → Answers → List Recipe → Recipe → Result String → Trial
  unfolding recorded recipe_deploy_request
  probed write now device a doc r (err e) = record {
    recipes = (put write doc (touched now r)).0;
    code = 422;
    calls = launched (recipe_deploy_request r.config device) ∷ [];
  }
  probed write now device a doc r (ok container) = record {
    recipes = (recorded write now device (a.probe container) doc r).0;
    code = (recorded write now device (a.probe container) doc r).1;
    calls =
        launched (recipe_deploy_request r.config device)
        ∷ tested container
        ∷ removed container
        ∷ [];
  }

  unfoldable pub gated :
      Bool × Option Err → String → String → Answers → List Recipe → Recipe → Bool × Bool → Trial
  unfolding probed
  gated write now device a doc r (false, fit) = record {
    recipes = (put write doc r).0;
    code = 422;
    calls = [];
  }
  gated write now device a doc r (true, false) = record {
    recipes = (put write doc (touched now r)).0;
    code = 422;
    calls = [];
  }
  gated write now device a doc r (true, true) =
      if a.running
      then probed write now device a doc r (a.deploy (recipe_deploy_request r.config device))
      else record { recipes = doc; code = 500; calls = [] }

  found_on : Bool × Option Err → String → String → Answers → List Recipe → Option Recipe → Trial
  unfolding gated recipe_device_fit
  found_on write now device a doc none = record { recipes = doc; code = 404; calls = [] }
  found_on write now device a doc (some r) =
      if device == ""
      then record { recipes = doc; code = 400; calls = [] }
      else gated write now device a doc r (recipe_device_fit r.config a.gpus)

  -- handleAgentVerifyRecipe; `device` is the parameter of the request.
  unfoldable pub verify_recipe :
      Bool × Option Err → String → String → String → Answers → List Recipe → Trial
  unfolding found_on
  verify_recipe write now id device a doc =
      found_on write now (trim_space device) a doc (get doc id)
