-- ===== src/Recipes/Validate.antt =====
-- internal/recipes/validate.go. The catalog of plugins and the packages that change the case of a text are
-- parameters.
pub mod Accepted
use Prim.Native.Char.{code}
use Prim.Native.String
use yokai.Prelude.{
  ℕ, ℤ, pos, int_lt, String, ◌==◌, trim_space, contains_text, concat, Bool, true, false, not, ◌&&◌,
  ◌||◌, List, [], ◌∷◌, ◌++◌, leb, is_none, is_empty, if◌then◌else◌,
}
use yokai.Deployments.Members.{contains}
use yokai.Recipes.Types.{Provenance, RecipeConfig}

-- ValidationResult
pub record ValidationResult : Type 0 where
  pub ok : Bool
  pub errors : List String
  pub warnings : List String

-- Validator: whether a plugin is in the catalog; strings.ToLower and strings.ToUpper.
pub record Validator : Type 0 where
  pub plugin_exists : String → Bool
  pub to_lower : String → String
  pub to_upper : String → String

abbrev pub report : Bool → String → List String
report true m = m ∷ []
report false m = []

unfoldable pub is_digest_pinned : String → Bool
unfolding contains_text
is_digest_pinned image = contains_text image "@sha256:"

-- isNumeric
unfoldable pub all_digits : String → Bool
all_digits String.[] = true
all_digits (String.◌∷◌ c s) = leb 48 (code c) && leb (code c) 57 && all_digits s

unfoldable pub is_numeric : String → Bool
unfolding all_digits
is_numeric s = not (s == "") && all_digits s

-- The devices that the catalog has profiles of.
abbrev pub known_devices : List String
known_devices =
    "gb10" ∷ "jetson-thor" ∷ "rtx-pro-6000" ∷ "rtx-5090" ∷ "rtx-4090" ∷ "l40s" ∷ "a100-80"
    ∷ "h100-80" ∷ "h100-94" ∷ "h200" ∷ "h20" ∷ "b200" ∷ "gb200" ∷ "mi300x" ∷ "mi325x" ∷ "mi355x"
    ∷ "radeon-r9700" ∷ []

abbrev pub flat : List (List String) → List String
flat [] = []
flat (p ∷ ps) = p ++ flat ps

module _ (v : Validator) where
  -- knownWorkload
  unfoldable pub known_workload : String → Bool
  unfolding contains
  known_workload w =
      contains (v.to_lower (trim_space w)) ("vllm" ∷ "sglang" ∷ "llamacpp" ∷ "comfyui" ∷ [])

  -- knownQuantization
  unfoldable pub known_quantization : String → Bool
  unfolding contains
  known_quantization q =
      contains (v.to_upper (trim_space q))
        ("BF16" ∷ "FP16" ∷ "FP8" ∷ "FP4" ∷ "NVFP4" ∷ "MXFP4" ∷ "INT4" ∷ [])

  -- knownDevice
  unfoldable pub known_device : String → Bool
  unfolding contains
  known_device d = contains (v.to_lower (trim_space d)) known_devices

  unfoldable pub plugin_errors : List String → List String
  plugin_errors [] = []
  plugin_errors (p ∷ ps) =
      report (not (v.plugin_exists p))
        (concat ("config.plugins references unknown plugin " ∷ p ∷ []))
      ++ plugin_errors ps

  unfoldable pub target_warnings : List String → List String
  target_warnings [] = []
  target_warnings (t ∷ ts) =
      report (not (known_device t))
        (concat ("config.target_devices contains unrecognized profile " ∷ t ∷ []))
      ++ target_warnings ts

  unfoldable pub workload_errors : String → List String
  unfolding known_workload
  workload_errors w =
      if trim_space w == ""
      then "config.workload is required" ∷ []
      else report (not (known_workload w)) (
          concat
            ("config.workload must be one of vllm, sglang, llamacpp, comfyui (got " ∷ w ∷ ")" ∷ []))

  unfoldable pub image_errors : String → List String
  unfolding is_digest_pinned
  image_errors image =
      if trim_space image == ""
      then "config.image is required" ∷ []
      else report (not (is_digest_pinned image))
          "config.image must be digest-pinned (reference like repo/img@sha256:...) so validation is reproducible"

  -- The errors of each check, in order.
  unfoldable pub error_parts : RecipeConfig → Provenance → String → List (List String)
  unfolding workload_errors image_errors plugin_errors
  error_parts c prov proposed_by =
      report (trim_space c.model_id == "") "config.model_id is required"
      ∷ workload_errors c.workload
      ∷ image_errors c.image
      ∷ report (int_lt c.min_vram_gb_per_gpu (pos 0))
          "config.min_vram_gb_per_gpu cannot be negative"
      ∷ report (int_lt c.min_gpu_count (pos 0)) "config.min_gpu_count cannot be negative"
      ∷ plugin_errors c.plugins
      ∷ report (trim_space proposed_by == "")
          "proposed_by is required (the writing agent/human identity)"
      ∷ report (trim_space prov.source == "" && trim_space prov.source_url == "")
          "provenance must include at least one of source or source_url"
      ∷ []

  unfoldable pub errors_of : RecipeConfig → Provenance → String → List String
  unfolding error_parts
  errors_of c prov proposed_by = flat (error_parts c prov proposed_by)

  unfoldable pub warnings_of : RecipeConfig → Provenance → List String
  unfolding known_quantization target_warnings is_numeric
  warnings_of c prov =
      report
        (int_lt (pos 1) c.min_gpu_count && trim_space c.extra_args == "" && is_none c.multi_device)
        "min_gpu_count > 1 but no tensor-parallel args or multi-device plan declared"
      ++ (report (not (c.quantization == "") && not (known_quantization c.quantization))
            (concat ("config.quantization is not a recognized value: " ∷ c.quantization ∷ []))
          ++ (target_warnings c.target_devices
              ++ (report (not (c.port == "") && not (is_numeric c.port))
                    (concat ("config.port should be a numeric string: " ∷ c.port ∷ []))
                  ++ report (prov.agent == "") "provenance.agent is empty")))

  -- Validate
  unfoldable pub validate : RecipeConfig → Provenance → String → ValidationResult
  unfolding errors_of warnings_of
  validate c prov proposed_by = record {
    ok = is_empty (errors_of c prov proposed_by);
    errors = errors_of c prov proposed_by;
    warnings = warnings_of c prov;
  }
