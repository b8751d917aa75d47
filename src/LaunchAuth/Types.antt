-- ===== src/LaunchAuth/Types.antt =====
-- The data of internal/launchauth/authorization.go, and the packages that it calls: Ed25519,
-- base64, hexadecimal and JSON are parameters, the fields of `Codec`.
use yokai.Prelude.{ℕ, ℤ, String, Bool, Option, List}
use yokai.Bkc.Types.{RuntimeOptions}
use yokai.Deployments.Errors.{Result}

abbrev pub Bytes : Type 0
Bytes = List ℕ

-- A Go map of strings; no key stands twice in one that a program builds.
abbrev pub StringMap : Type 0
StringMap = List (String × String)

-- Request
pub record Request : Type 0 where
  pub image : String
  pub name : String
  pub model_name : String
  pub gguf_variant : String
  pub gguf_files : List String
  pub hf_token : String
  pub ports : StringMap
  pub env : StringMap
  pub gpu_ids : String
  pub extra_args : String
  pub args : List String
  pub volumes : StringMap
  pub plugins : List String
  pub runtime : RuntimeOptions
  pub skip_pull : Bool
  pub labels : StringMap
  pub network_mode : String
  pub devices : List String
  pub cap_add : List String
  pub entrypoint : String

-- Claims
pub record Claims : Type 0 where
  pub version : ℤ
  pub audience : String
  pub id : String
  pub target_device_id : String
  pub deployment_id : String
  pub generation : ℤ
  pub candidate_name : String
  pub role : String
  pub bkc_id : String
  pub model_name : String
  pub model_revision : String
  pub source_revision : String
  pub image : String
  pub image_digest : String
  pub candidate_digest : String
  pub issued_at : ℤ
  pub expires_at : ℤ

pub record Codec : Type 0 where
  -- ed25519.Sign and ed25519.Verify
  pub sign : Bytes → String → Bytes
  pub verify : Bytes → String → Bytes → Bool
  -- base64.RawURLEncoding; `none` is a decoding error
  pub encode : Bytes → String
  pub decode : String → Option Bytes
  -- hex.EncodeToString, and whether hex.DecodeString has no error
  pub hex : Bytes → String
  pub is_hex : String → Bool
  -- json.Marshal of claims, and the strict decoder; `none` is its error
  pub marshal : Claims → Result Bytes
  pub unmarshal : Bytes → Option Claims
  -- the hexadecimal SHA-256 of the JSON of a request
  pub hash : Request → Result String
