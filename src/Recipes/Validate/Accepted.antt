-- ===== src/Recipes/Validate/Accepted.antt =====
-- Which recipes are accepted.
use yokai.Prelude.{
  pos, int_lt, String, ◌==◌, trim_space, ◌≡◌, ◌↔◌, refl, Bool, true, false, ◌&&◌, Bool-cases, inl,
  inr, List, [], ◌∷◌, ◌++◌, All, is_empty, arith,
}
use yokai.Recipes.Types.{Provenance, RecipeConfig}
use yokai.Recipes.Validate.{
  Validator, report, known_workload, is_digest_pinned, plugin_errors, workload_errors, image_errors,
  errors_of, error_parts, flat, validate,
}

-- What is asked of a recipe.
pub record IsAcceptable (v : Validator) (c : RecipeConfig) (prov : Provenance)
    (proposed_by : String) : Type 0 where
  pub has_model : (trim_space c.model_id == "") ≡ false
  pub has_workload : (trim_space c.workload == "") ≡ false
  pub workload_known : known_workload v c.workload ≡ true
  pub has_image : (trim_space c.image == "") ≡ false
  pub image_pinned : is_digest_pinned c.image ≡ true
  pub vram_sane : int_lt c.min_vram_gb_per_gpu (pos 0) ≡ false
  pub gpus_sane : int_lt c.min_gpu_count (pos 0) ≡ false
  pub plugins_known : All (λ p. v.plugin_exists p ≡ true) c.plugins
  pub has_author : (trim_space proposed_by == "") ≡ false
  pub has_source : (trim_space prov.source == "" && trim_space prov.source_url == "") ≡ false

is_empty-append :
    (xs ys : List String)
    → (is_empty (xs ++ ys) ≡ true) ↔ ((is_empty xs ≡ true) × (is_empty ys ≡ true))
is_empty-append [] ys = (λ h. (refl, h), λ h. h.1)
is_empty-append (x ∷ xs) ys = (λ h. absurd (ground (arith, h)), λ h. absurd (ground (arith, h.0)))

is_empty-flat :
    (ps : List (List String)) → (is_empty (flat ps) ≡ true) ↔ All (λ p. is_empty p ≡ true) ps
is_empty-flat [] = (λ h. tt, λ h. refl)
is_empty-flat (p ∷ ps) = (
  λ h. let (first, rest) = (is_empty-append p (flat ps)).0 h in (first, (is_empty-flat ps).0 rest),
  λ h. (is_empty-append p (flat ps)).1 (h.0, (is_empty-flat ps).1 h.1),
)

is_empty-report : (b : Bool) (m : String) → (is_empty (report b m) ≡ true) ↔ (b ≡ false)
is_empty-report true m = ground arith
is_empty-report false m = ground arith

module _ (v : Validator) where
  no_plugin_errors :
      (ps : List String)
      → (is_empty (plugin_errors v ps) ≡ true) ↔ All (λ p. v.plugin_exists p ≡ true) ps
  unfolding plugin_errors
  no_plugin_errors [] = (λ h. tt, λ h. refl)
  no_plugin_errors (p ∷ ps) = elim (Bool-cases (v.plugin_exists p)) [
    | inl e ↦ rw e (λ h. (refl, (no_plugin_errors ps).0 h), λ h. (no_plugin_errors ps).1 h.1)
    | inr e ↦ rw e (λ h. absurd (ground (arith, h)), λ h. absurd (ground (arith, h.0)))
  ]

  no_workload_errors :
      (w : String)
      → (is_empty (workload_errors v w) ≡ true)
        ↔ (((trim_space w == "") ≡ false) × (known_workload v w ≡ true))
  unfolding workload_errors
  no_workload_errors w = ground arith

  no_image_errors :
      (i : String)
      → (is_empty (image_errors v i) ≡ true)
        ↔ (((trim_space i == "") ≡ false) × (is_digest_pinned i ≡ true))
  unfolding image_errors
  no_image_errors i = ground arith

-- A recipe is accepted exactly if it names a model, a workload that is known and an image that is
-- pinned by its digest, asks for no negative memory or number of GPUs, uses only plugins of the
-- catalog, and has an author and a source.
pub validate_iff :
    (v : Validator) (c : RecipeConfig) (prov : Provenance) (proposed_by : String)
    → ((validate v c prov proposed_by).ok ≡ true) ↔ IsAcceptable v c prov proposed_by
unfolding validate errors_of error_parts
validate_iff v c prov proposed_by = (
  λ h.
      let (model_id, (workload, (image, (vram, (gpus, (plugins, (author, (source, done)))))))) =
        (is_empty-flat (error_parts v c prov proposed_by)).0 h in
      let (w, k) = (no_workload_errors v c.workload).0 workload in
      let (i, d) = (no_image_errors v c.image).0 image in
      record {
        has_model = (is_empty-report _ _).0 model_id;
        has_workload = w;
        workload_known = k;
        has_image = i;
        image_pinned = d;
        vram_sane = (is_empty-report _ _).0 vram;
        gpus_sane = (is_empty-report _ _).0 gpus;
        plugins_known = (no_plugin_errors v c.plugins).0 plugins;
        has_author = (is_empty-report _ _).0 author;
        has_source = (is_empty-report _ _).0 source;
      },
  λ h. (is_empty-flat (error_parts v c prov proposed_by)).1 (
    (is_empty-report _ _).1 h.has_model,
    (
      (no_workload_errors v c.workload).1 (h.has_workload, h.workload_known),
      (
        (no_image_errors v c.image).1 (h.has_image, h.image_pinned),
        (
          (is_empty-report _ _).1 h.vram_sane,
          (
            (is_empty-report _ _).1 h.gpus_sane,
            (
              (no_plugin_errors v c.plugins).1 h.plugins_known,
              ((is_empty-report _ _).1 h.has_author, ((is_empty-report _ _).1 h.has_source, tt)),
            ),
          ),
        ),
      ),
    ),
  ),
)
