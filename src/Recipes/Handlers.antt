-- ===== src/Recipes/Handlers.antt =====
-- internal/daemon/agent_recipes.go and the gate of agent_swap.go: the handlers that change the recipes, with
-- Fingerprint of internal/recipes/types.go. A handler returns the recipes after it and the status
-- of its HTTP response; the store is loaded. What the devices, the clock, the file of the store and
-- the random source answer to a request is part of the request.
pub mod Patched
pub mod Promoted
mod Example
use yokai.Prelude.{
  ℕ, ◌*◌, ℤ, pos, negsuc, int_lt, String, ◌==◌, trim_space, text_lt, join, concat, Bool, true,
  false, not, ◌&&◌, ◌||◌, Option, none, some, is_some, List, [], ◌∷◌, ◌++◌, ltb, length,
  if◌then◌else◌, map,
}
use yokai.Bkc.Types.{MultiDeviceDeployment}
use yokai.Deployments.Errors.{Err, Result, ok, err}
use yokai.Deployments.Members.{contains}
use yokai.LaunchAuth.Types.{StringMap}
use yokai.Recipes.Types.{
  RecipeStatus, proposed, validated, superseded, Provenance, RecipeConfig, Recipe,
}
use yokai.Recipes.Validate.{Validator, validate}
use yokai.Recipes.Store.{get, find_fingerprint, put}

-- The validator, SHA-256 in hexadecimal, and the JSON of a plan.
pub record Services : Type 0 where
  pub validator : Validator
  pub sha256_hex : String → String
  pub plan_json : MultiDeviceDeployment → String

insert_text : String → List String → List String
insert_text s [] = s ∷ []
insert_text s (t ∷ ts) = let rest = insert_text s ts in if text_lt t s then t ∷ rest else s ∷ t ∷ ts

-- sort.Strings
unfoldable pub sort_texts : List String → List String
unfolding insert_text
sort_texts [] = []
sort_texts (s ∷ ss) = insert_text s (sort_texts ss)

insert_entry : String × String → StringMap → StringMap
insert_entry e [] = e ∷ []
insert_entry e (f ∷ m) =
    let rest = insert_entry e m in if text_lt f.0 e.0 then f ∷ rest else e ∷ f ∷ m

-- The entries of a map by their sorted keys.
unfoldable pub sort_entries : StringMap → StringMap
unfolding insert_entry
sort_entries [] = []
sort_entries (e ∷ m) = insert_entry e (sort_entries m)

-- The closure `write`: the parts with a zero character between them, and a unit separator.
unfoldable pub written_parts : List String → String
unfolding join concat
written_parts parts = concat (join "\0" parts ∷ "\u{1f}" ∷ [])

unfoldable pub entries_text : String → StringMap → String
unfolding written_parts
entries_text kind [] = ""
entries_text kind (e ∷ m) =
    concat (written_parts (kind ∷ e.0 ∷ e.1 ∷ []) ∷ entries_text kind m ∷ [])

module _ (sv : Services) where
  plan_text : Option MultiDeviceDeployment → String
  unfolding written_parts
  plan_text none = ""
  plan_text (some md) = written_parts ("md" ∷ sv.plan_json md ∷ [])

  -- Fingerprint
  unfoldable pub fingerprint : RecipeConfig → String
  unfolding plan_text entries_text sort_entries sort_texts
  fingerprint c = sv.sha256_hex (
      concat (
        written_parts (c.model_id ∷ c.workload ∷ c.image ∷ c.port ∷ c.extra_args ∷ [])
        ∷ entries_text "env" (sort_entries c.env)
        ∷ entries_text "vol" (sort_entries c.volumes)
        ∷ written_parts ("plugins" ∷ join "," (sort_texts c.plugins) ∷ [])
        ∷ written_parts ("targets" ∷ join "," c.target_devices ∷ [])
        ∷ written_parts ("quant" ∷ c.quantization ∷ "arch" ∷ c.arch ∷ [])
        ∷ plan_text c.multi_device
        ∷ []))

  -- A status, or 500 if the store failed.
  abbrev pub stored : ℕ → List Recipe × Option Err → List Recipe × ℕ
  stored code (doc, none) = (doc, code)
  stored code (doc, some e) = (doc, 500)

  propose_new : Bool × Option Err → Recipe → List Recipe → Option Recipe → List Recipe × ℕ
  propose_new write rec doc (some existing) = (doc, 409)
  propose_new write rec doc none = stored 201 (put write doc rec)

  -- handleAgentProposeRecipe, of a request that is decoded.
  unfoldable pub propose :
      Bool × Option Err
      → String
      → String
      → String
      → RecipeConfig
      → Provenance
      → String
      → String
      → List Recipe
      → List Recipe × ℕ
  unfolding propose_new fingerprint
  propose write random_id now id c prov proposed_by supersedes doc =
      let rec : Recipe = record {
        id = if trim_space id == "" then random_id else id;
        status = proposed;
        config = c;
        provenance = prov;
        validated_on = [];
        fingerprint = fingerprint c;
        proposed_by = trim_space proposed_by;
        supersedes = supersedes;
        created_at = now;
        updated_at = now;
      } in
      if (validate sv.validator c prov (trim_space proposed_by)).ok
      then propose_new write rec doc (find_fingerprint doc (fingerprint c))
      else (doc, 422)

  abbrev or_else {ℓ} : {A : Type ℓ} → Option A → A → A
  or_else none a = a
  or_else (some b) a = b

  abbrev reopened : RecipeStatus → RecipeStatus
  reopened validated = validated
  reopened _ = proposed

  -- The recipe that a patch makes of another.
  unfoldable pub patched_recipe :
      String → Option RecipeConfig → Option Provenance → Option String → Recipe → Recipe
  unfolding fingerprint
  patched_recipe now c prov supersedes r = record r {
    config = or_else c r.config;
    provenance = or_else prov r.provenance;
    supersedes = or_else supersedes r.supersedes;
    fingerprint = fingerprint (or_else c r.config);
    status = reopened r.status;
    updated_at = now;
  }

  patch_found : Bool × Option Err → List Recipe → Recipe → List Recipe × ℕ
  patch_found write doc next =
      if (validate sv.validator next.config next.provenance next.proposed_by).ok
      then stored 200 (put write doc next)
      else (doc, 422)

  -- handleAgentPatchRecipe, of a request that is decoded.
  unfoldable pub patch :
      Bool × Option Err
      → String
      → String
      → Option RecipeConfig
      → Option Provenance
      → Option String
      → List Recipe
      → List Recipe × ℕ
  unfolding patch_found patched_recipe
  patch write now id c prov supersedes doc = elim (get doc id) [
    | none ↦ (doc, 404)
    | some r ↦ patch_found write doc (patched_recipe now c prov supersedes r)
  ]

  abbrev is_validated : RecipeStatus → Bool
  is_validated validated = true
  is_validated _ = false

  -- The gate of handleAgentValidateRecipe: the memory of the smallest GPU, in MB, and the number of
  -- GPUs.
  unfoldable pub smallest : ℕ → List ℕ → ℕ
  smallest mb [] = mb
  smallest mb (g ∷ gs) = smallest (if ltb g mb then g else mb) gs

  abbrev too_little : ℤ → ℕ → Bool
  too_little (pos need) mb = ltb 0 need && ltb (mb * 1000) (need * 1024)
  too_little (negsuc n) mb = false

  unfoldable pub fits : RecipeConfig → List ℕ → Bool
  unfolding smallest
  fits c [] = false
  fits c (g ∷ gs) =
      not (too_little c.min_vram_gb_per_gpu (smallest g gs))
      && not (int_lt (pos 0) c.min_gpu_count && int_lt (pos (length (g ∷ gs))) c.min_gpu_count)

  -- appendUnique
  unfoldable pub append_unique : List String → String → List String
  unfolding contains
  append_unique devices device =
      if contains device devices then devices else devices ++ (device ∷ [])

  abbrev pub gpus_of : String → Result (List ℕ) → List ℕ
  gpus_of device (err e) = []
  gpus_of device (ok gpus) = if device == "" then [] else gpus

  unfoldable pub promoted_recipe : String → String → Recipe → Recipe
  unfolding append_unique
  promoted_recipe now device r = record r {
    status = validated;
    validated_on = append_unique r.validated_on device;
    updated_at = now;
  }

  -- handleAgentValidateRecipe: `metrics` is what the device answers.
  unfoldable pub validate_on_device :
      Bool × Option Err → String → String → String → Result (List ℕ) → List Recipe → List Recipe × ℕ
  unfolding fits promoted_recipe
  validate_on_device write now id device metrics doc = elim (get doc id) [
    | none ↦ (doc, 404)
    | some r ↦
        if fits r.config (gpus_of device metrics)
        then stored 200 (put write doc (promoted_recipe now device r))
        else (doc, 200)
  ]

  -- The evidence gate of handleAgentSwap: whether a recipe may replace what runs on a device.
  unfoldable pub may_swap : Recipe → String → Bool
  unfolding contains
  may_swap r device = is_validated r.status && contains device r.validated_on
