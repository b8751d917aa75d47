-- ===== src/Config/History/Example.antt =====
-- A history of three deploys.
use yokai.Prelude.{[], ◌∷◌, refl, arith}
use yokai.Config.History.{empty_history, image, model, add_all}
use yokai.Config.History.Bounds.{IsKept, add_all-IsKept}

add_all-IsKept_example :
    IsKept (add_all empty_history (image "vllm" ∷ model "glm" ∷ image "vllm" ∷ []))
add_all-IsKept_example =
    add_all-IsKept empty_history (image "vllm" ∷ model "glm" ∷ image "vllm" ∷ [])
      (record { images_kept = (omega arith, tt, refl); models_kept = (omega arith, tt, refl) })
