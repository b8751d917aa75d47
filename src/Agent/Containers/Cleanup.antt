-- ===== src/Agent/Containers/Cleanup.antt =====
-- Which container a failed launch may remove.
use yokai.Prelude.{
  ◌≡◌, refl, ap, sym, ◌∙◌, ◌⊎◌, inl, inr, String, ◌==◌, eq_iff, trim_space, true, false, not, ◌||◌,
  Bool-cases, Option-cases, some, [], ◌∷◌, eqb, arith,
}
use yokai.Deployments.Errors.{Result, ok, err}
use yokai.LaunchAuth.Types.{StringMap}
use yokai.Agent.Containers.{
  Identity, value_of, label_managed, label_ownership, label_deployment_id, label_generation,
  label_role, label_launch_nonce, ownership_managed, expected_labels, no_blank_value, all_match,
  target_of, cleanup_target, is_blank, blanks_of,
}

-- The container's label is the request's, and it is not blank.
abbrev pub IsShared : StringMap → StringMap → String → Type 0
IsShared labels found key =
    (value_of found key ≡ value_of labels key) × ((trim_space (value_of labels key) == "") ≡ false)

-- A managed container that a request has made: the container has the labels of its rank, or, for a
-- request outside of a deployment, the nonce of the launch.
pub record IsOwn (labels : StringMap) (name : String) (i : Identity) : Type 0 where
  pub named : i.name ≡ name
  pub managed : value_of i.labels label_managed ≡ "true"
  pub owned : value_of i.labels label_ownership ≡ ownership_managed
  pub marked :
      (IsShared labels i.labels label_deployment_id
        × IsShared labels i.labels label_generation
        × IsShared labels i.labels label_role)
      ⊎ IsShared labels i.labels label_launch_nonce

text_of : {a b : String} → (a == b) ≡ true → a ≡ b
text_of {a = a} {b = b} h = (eq_iff a b).0 h

group_labels : StringMap → StringMap
group_labels labels =
    (label_managed, "true")
    ∷ (label_ownership, ownership_managed)
    ∷ (label_deployment_id, value_of labels label_deployment_id)
    ∷ (label_generation, value_of labels label_generation)
    ∷ (label_role, value_of labels label_role)
    ∷ []

nonce_labels : StringMap → StringMap
nonce_labels labels =
    (label_managed, "true")
    ∷ (label_ownership, ownership_managed)
    ∷ (label_launch_nonce, value_of labels label_launch_nonce)
    ∷ []

same_map : (a b : StringMap) → some a ≡ some b → a ≡ b
same_map a b h = cc

expected_labels-cases :
    (labels expected : StringMap)
    → expected_labels labels ≡ some expected
    → (expected ≡ group_labels labels) ⊎ (expected ≡ nonce_labels labels)
unfolding expected_labels group_labels nonce_labels
expected_labels-cases labels expected h =
    elim (Bool-cases (
      not (value_of labels label_managed == "true")
      || not (value_of labels label_ownership == ownership_managed))) [
        | inl e ↦ absurd (ground (arith, e, h))
        | inr e ↦
            elim (Bool-cases (
              eqb
                (blanks_of (is_blank labels label_deployment_id) (is_blank labels label_generation)
                  (is_blank labels label_role))
                0)) [
                  | inl f ↦ inl (same_map expected _ (sym h ∙ rw e (rw f refl)))
                  | inr f ↦
                      elim (Bool-cases (
                        eqb
                          (blanks_of (is_blank labels label_deployment_id)
                            (is_blank labels label_generation) (is_blank labels label_role))
                          3)) [
                            | inl g ↦ inr (same_map expected _ (sym h ∙ rw e (rw f (rw g refl))))
                            | inr g ↦ absurd (ground (arith, e, f, g, h))
                          ]
                ]
      ]

group-IsOwn :
    (labels : StringMap) (name : String) (i : Identity)
    → no_blank_value (group_labels labels) ≡ true
    → all_match i.labels (group_labels labels) ≡ true
    → i.name ≡ name
    → IsOwn labels name i
unfolding group_labels no_blank_value all_match
group-IsOwn labels name i filled h named = record {
  named = named;
  managed = text_of (ground (arith, h));
  owned = text_of (ground (arith, h));
  marked = inl (
    (text_of (ground (arith, h)), ground (arith, filled)),
    (text_of (ground (arith, h)), ground (arith, filled)),
    (text_of (ground (arith, h)), ground (arith, filled)),
  );
}

nonce-IsOwn :
    (labels : StringMap) (name : String) (i : Identity)
    → no_blank_value (nonce_labels labels) ≡ true
    → all_match i.labels (nonce_labels labels) ≡ true
    → i.name ≡ name
    → IsOwn labels name i
unfolding nonce_labels no_blank_value all_match
nonce-IsOwn labels name i filled h named = record {
  named = named;
  managed = text_of (ground (arith, h));
  owned = text_of (ground (arith, h));
  marked = inr (text_of (ground (arith, h)), ground (arith, filled));
}

expected-IsOwn :
    (labels expected : StringMap) (name : String) (i : Identity)
    → expected_labels labels ≡ some expected
    → no_blank_value expected ≡ true
    → all_match i.labels expected ≡ true
    → i.name ≡ name
    → IsOwn labels name i
expected-IsOwn labels expected name i h filled matched named =
    elim (expected_labels-cases labels expected h) [
      | inl same ↦
          group-IsOwn labels name i (ap no_blank_value (sym same) ∙ filled)
            (ap (all_match i.labels) (sym same) ∙ matched) named
      | inr same ↦
          nonce-IsOwn labels name i (ap no_blank_value (sym same) ∙ filled)
            (ap (all_match i.labels) (sym same) ∙ matched) named
    ]

target_of-matched :
    (expected : StringMap) (name id : String) (inspected : Result Identity)
    → target_of expected name inspected ≡ some id
    → (i : Identity) × (inspected ≡ ok i)
      × (i.id ≡ id)
      × (i.name ≡ name)
      × (all_match i.labels expected ≡ true)
unfolding target_of
target_of-matched expected name id (err e) h = absurd (ground (arith, h))
target_of-matched expected name id (ok i) h =
    (i, refl, ground (arith, h), text_of (ground (arith, h)), ground (arith, h))

-- The container that the cleanup of a failed launch removes, if it removes one, is the inspected
-- container of the launch's name, it is managed and owned by Yokai, and it has either the deployment,
-- the generation and the role of the request, none of them blank, or the request's own launch nonce.
pub cleanup_target-IsOwn :
    (labels : StringMap) (name id : String) (inspected : Result Identity)
    → cleanup_target labels name inspected ≡ some id
    → (i : Identity) × (inspected ≡ ok i) × (i.id ≡ id) × IsOwn labels name i
unfolding cleanup_target
cleanup_target-IsOwn labels name id inspected h = elim (Option-cases (expected_labels labels)) [
  | inl e ↦ absurd (ground (arith, e, h))
  | inr (expected, e) ↦ elim (Bool-cases (no_blank_value expected)) [
    | inl f ↦
        let chosen : target_of expected name inspected ≡ some id =
          sym (rw (e, f, cleanup_target) refl) ∙ h in
        let (i, same, called, named, matched) =
          target_of-matched expected name id inspected chosen in
        (i, same, called, expected-IsOwn labels expected name i e f matched named)
    | inr f ↦ absurd (ground (arith, e, f, h))
  ]
]
