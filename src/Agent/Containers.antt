-- ===== src/Agent/Containers.antt =====
-- internal/agent/docker.go and internal/agent/server.go: a request for a container, and the labels
-- that say whose a container is. Docker is a parameter: what an inspection answers, and what a
-- removal does.
pub mod Cleanup
mod Example
use Prim.Native.Char.{Char, code}
use Prim.Native.String
use yokai.Prelude.{
  ℕ, String, ◌==◌, trim_space, concat, starts_with, Bool, true, false, not, ◌&&◌, ◌||◌, Option,
  none, some, List, [], ◌∷◌, leb, eqb, if◌then◌else◌,
}
use yokai.Bkc.Types.{RuntimeOptions}
use yokai.Deployments.Errors.{Err, plain, Result, ok, err}
use yokai.LaunchAuth.Types.{StringMap}

abbrev pub label_managed : String
label_managed = "io.yokai.managed"

abbrev pub label_ownership : String
label_ownership = "io.yokai.ownership"

abbrev pub label_deployment_id : String
label_deployment_id = "io.yokai.deployment.id"

abbrev pub label_generation : String
label_generation = "io.yokai.deployment.generation"

abbrev pub label_role : String
label_role = "io.yokai.deployment.role"

abbrev pub label_launch_nonce : String
label_launch_nonce = "io.yokai.launch.nonce"

-- OwnershipManaged
abbrev pub ownership_managed : String
ownership_managed = "managed"

-- ContainerRequest
pub record ContainerRequest : Type 0 where
  pub image : String
  pub name : String
  pub model_name : String
  pub gguf_variant : String
  pub gguf_files : List String
  pub hf_token : String
  pub ports : StringMap
  pub env : StringMap
  pub gpu_ids : String
  pub extra_args : String
  pub args : List String
  pub volumes : StringMap
  pub plugins : List String
  pub runtime : RuntimeOptions
  pub skip_pull : Bool
  pub labels : StringMap
  pub network_mode : String
  pub devices : List String
  pub cap_add : List String
  pub entrypoint : String
  pub launch_authorization : String

-- m[key], "" for a missing key
unfoldable pub value_of : StringMap → String → String
value_of [] key = ""
value_of (entry ∷ m) key = let rest = value_of m key in if entry.0 == key then entry.1 else rest

-- [a-zA-Z0-9_.-]
unfoldable pub name_char : Char → Bool
name_char ch =
    let c = code ch in
    (leb 97 c && leb c 122)
    || (leb 65 c && leb c 90)
    || (leb 48 c && leb c 57)
    || eqb c 95
    || eqb c 46
    || eqb c 45

-- The replacement by hyphens.
unfoldable pub hyphenated : String → String
unfolding name_char
hyphenated String.[] = ""
hyphenated (String.◌∷◌ c s) =
    let rest = hyphenated s in if name_char c then String.◌∷◌ c rest else String.◌++◌ "-" rest

is_hyphen : Char → Bool
is_hyphen c = eqb (code c) 45

trim_first : String → String
unfolding is_hyphen
trim_first String.[] = ""
trim_first (String.◌∷◌ c s) =
    let rest = trim_first s in if is_hyphen c then rest else String.◌∷◌ c s

trim_last : String → String
unfolding is_hyphen
trim_last String.[] = ""
trim_last (String.◌∷◌ c s) =
    let rest = trim_last s in if is_hyphen c && rest == "" then "" else String.◌∷◌ c rest

-- sanitizeName
unfoldable pub sanitize_name : String → String
unfolding hyphenated trim_first trim_last
sanitize_name name =
    let sanitized = trim_last (trim_first (hyphenated name)) in
    if sanitized == "" then "unnamed" else sanitized

-- normalizedContainerName
unfoldable pub normalized_container_name : String → String
unfolding sanitize_name
normalized_container_name name =
    let clean = sanitize_name name in
    if starts_with clean "yokai-" then clean else concat ("yokai-" ∷ clean ∷ [])

is_blank : StringMap → String → Bool
is_blank m key = trim_space (value_of m key) == ""

-- hasCompleteManagedCandidateProvenance, of the labels of the request
unfoldable pub has_complete_provenance : StringMap → Bool
unfolding is_blank
has_complete_provenance labels =
    not (is_blank labels label_deployment_id)
    && not (is_blank labels label_generation)
    && not (is_blank labels label_role)
    && value_of labels label_managed == "true"
    && value_of labels label_ownership == ownership_managed

-- The loop of validateDeploymentMemberProvenance over the expected labels.
unfoldable pub has_values : StringMap → StringMap → Bool
has_values labels [] = true
has_values labels (want ∷ wants) =
    not (want.1 == "") && value_of labels want.0 == want.1 && has_values labels wants

-- validateDeploymentMemberProvenance
unfoldable pub validate_member_provenance :
    String → StringMap → String → String → String → String → Option Err
unfolding has_values
validate_member_provenance name labels deployment generation role expected_name =
    let expected =
      (label_managed, "true")
      ∷ (label_ownership, ownership_managed)
      ∷ (label_deployment_id, deployment)
      ∷ (label_generation, generation)
      ∷ (label_role, role)
      ∷ [] in
    if not (has_values labels expected)
    then some (plain "container provenance does not match expected deployment member")
    else if expected_name == "" || not (name == expected_name)
    then some (plain "container name does not match expected deployment member")
    else none

-- The identity of a container: its id, its name and its labels.
pub record Identity : Type 0 where
  pub id : String
  pub name : String
  pub labels : StringMap

abbrev blanks_of : Bool → Bool → Bool → ℕ
blanks_of true true true = 3
blanks_of false false false = 0
blanks_of _ _ _ = 1

-- The labels that cleanupFailedManagedRun wants to find, `none` where the request's own labels do
-- not allow a cleanup.
unfoldable pub expected_labels : StringMap → Option StringMap
unfolding is_blank value_of
expected_labels labels =
    let group =
      (label_deployment_id, value_of labels label_deployment_id)
      ∷ (label_generation, value_of labels label_generation)
      ∷ (label_role, value_of labels label_role)
      ∷ [] in
    let nonce = (label_launch_nonce, value_of labels label_launch_nonce) ∷ [] in
    let blank =
      blanks_of (is_blank labels label_deployment_id) (is_blank labels label_generation)
        (is_blank labels label_role) in
    if not (value_of labels label_managed == "true")
      || not (value_of labels label_ownership == ownership_managed)
    then none
    else if eqb blank 0
    then some ((label_managed, "true") ∷ (label_ownership, ownership_managed) ∷ group)
    else if eqb blank 3
    then some ((label_managed, "true") ∷ (label_ownership, ownership_managed) ∷ nonce)
    else none

unfoldable pub no_blank_value : StringMap → Bool
no_blank_value [] = true
no_blank_value (want ∷ wants) = not (trim_space want.1 == "") && no_blank_value wants

unfoldable pub all_match : StringMap → StringMap → Bool
all_match labels [] = true
all_match labels (want ∷ wants) = value_of labels want.0 == want.1 && all_match labels wants

-- What a cleanup does: the container that it removes, if any.
unfoldable pub target_of : StringMap → String → Result Identity → Option String
unfolding all_match
target_of expected name (err e) = none
target_of expected name (ok i) =
    if i.name == name && all_match i.labels expected then some i.id else none

unfoldable pub cleanup_target : StringMap → String → Result Identity → Option String
unfolding expected_labels no_blank_value target_of
cleanup_target labels name inspected = elim (expected_labels labels) [
  | none ↦ none
  | some expected ↦ if no_blank_value expected then target_of expected name inspected else none
]

-- cleanupFailedManagedRun: whether the container is gone. `remove` is the removal of an id.
unfoldable pub cleanup_failed_managed_run :
    StringMap → String → Result Identity → (String → Option Err) → Bool
unfolding cleanup_target
cleanup_failed_managed_run labels name inspected remove =
    elim (cleanup_target labels name inspected) [
      | none ↦ false
      | some id ↦ elim (remove id) [ none ↦ true | some e ↦ false ]
    ]
