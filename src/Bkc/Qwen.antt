-- ===== src/Bkc/Qwen.antt =====
-- internal/bkc/catalog_qwen38_dual.go: the names that an agent knows the pinned Qwen recipe by.
use yokai.Prelude.{String, concat, join, List, [], ◌∷◌}

-- Qwen38FlashNextNVFP4DualGB10ID
abbrev pub qwen_id : String
qwen_id = "qwen3-8-flash-next-nvfp4-dual-gb10"

abbrev pub qwen_model : String
qwen_model = "nvidia/Qwen3.8-Flash-Next-NVFP4"

abbrev pub qwen_revision : String
qwen_revision = "fc694b54fb0174e0913e6adf86691ef85a4ead47"

abbrev pub qwen_source_revision : String
qwen_source_revision = "d2f54b78c0d2f9d74ac61aa56200e3c40fac3f22"

abbrev pub qwen_image_digest : String
qwen_image_digest = "3b0e188ffceb3d07e09c3cb5215433a0020eacf02d7f882ed3a8bfd15454477e"

unfoldable pub qwen_image : String
unfolding concat
qwen_image = concat ("vllm/vllm-openai@sha256:" ∷ qwen_image_digest ∷ [])

unfoldable pub qwen_container_model : String
unfolding concat
qwen_container_model = concat ("/models/yokai-qwen38-repository/snapshots/" ∷ qwen_revision ∷ [])

-- The labels of qwen38RuntimePatches, in order.
abbrev pub qwen_patch_labels : List String
qwen_patch_labels =
    "qwen38-ple-nvfp4-fp8-v1" ∷ "qwen38-modelopt-mxfp8-fp8-block-moe-v1"
    ∷ "qwen38-mtp-draft-vocab-tp2-v1" ∷ "qwen38-qsa-fp8-kv-ops-v1" ∷ "qwen38-qsa-fp8-kv-impl-v1"
    ∷ "qwen38-mtp-config-alias-v1" ∷ "qwen38-mtp-legacy-config-alias-v1" ∷ []

-- Qwen38RuntimePatchSetLabel
unfoldable pub qwen_patch_set : String
unfolding join
qwen_patch_set = join "+" qwen_patch_labels
