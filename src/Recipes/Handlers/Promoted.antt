-- ===== src/Recipes/Handlers/Promoted.antt =====
-- What a check against a live device makes of a recipe.
use yokai.Prelude.{
  ℕ, String, ◌==◌, eq_iff, ◌≡◌, refl, ap, sym, ◌∙◌, true, false, ◌||◌, Bool-cases, inl, inr, none,
  some, List, [], ◌∷◌, ◌++◌, if◌then◌else◌, arith,
}
use yokai.Deployments.Errors.{Result}
use yokai.Deployments.Members.{contains}
use yokai.Recipes.Types.{Recipe}
use yokai.Recipes.Store.{get, put}
use yokai.Recipes.Handlers.{
  Services, fits, gpus_of, append_unique, promoted_recipe, validate_on_device, may_swap,
}
use yokai.Recipes.Handlers.Patched.{get-id, put-get}

contains-append :
    (x y : String) (l : List String) → contains x (l ++ (y ∷ [])) ≡ (contains x l || y == x)
unfolding contains
contains-append x y [] = ground arith
contains-append x y (z ∷ l) = ground (arith, contains-append x y l)

-- An element that is there already adds nothing.
contains-same :
    (x y : String) (l : List String) → contains y l ≡ true → contains x l ≡ (contains x l || y == x)
contains-same x y l h = elim (Bool-cases (y == x)) [
  | inl e ↦
      let there : contains x l ≡ true = ap (λ z. contains z l) (sym ((eq_iff y x).0 e)) ∙ h in
      ground (arith, e, there)
  | inr e ↦ ground (arith, e)
]

module _ (sv : Services) where
  pub promoted-may_swap :
      (now device other : String) (r : Recipe)
      → may_swap sv (promoted_recipe sv now device r) other
        ≡ (contains other r.validated_on || device == other)
  unfolding may_swap promoted_recipe append_unique
  promoted-may_swap now device other r = elim (Bool-cases (contains device r.validated_on)) [
    | inl e ↦ rw e (contains-same other device r.validated_on e)
    | inr e ↦ rw e (contains-append other device r.validated_on)
  ]

  pub promoted_recipe-id :
      (now device : String) (r : Recipe) → (promoted_recipe sv now device r).id ≡ r.id
  unfolding promoted_recipe
  promoted_recipe-id now device r = refl

  validate_on_device-fits :
      (now id device : String) (metrics : Result (List ℕ)) (doc : List Recipe) (r : Recipe)
      → get doc id ≡ some r
      → fits sv r.config (gpus_of sv device metrics) ≡ true
      → validate_on_device sv (true, none) now id device metrics doc
        ≡ ((put (true, none) doc (promoted_recipe sv now device r)).0, 200)
  unfolding validate_on_device put
  validate_on_device-fits now id device metrics doc r h e =
      rw (h, validate_on_device) (rw (e, validate_on_device) refl)

  validate_on_device-unfit :
      (now id device : String) (metrics : Result (List ℕ)) (doc : List Recipe) (r : Recipe)
      → get doc id ≡ some r
      → fits sv r.config (gpus_of sv device metrics) ≡ false
      → validate_on_device sv (true, none) now id device metrics doc ≡ (doc, 200)
  unfolding validate_on_device
  validate_on_device-unfit now id device metrics doc r h e =
      rw (h, validate_on_device) (rw (e, validate_on_device) refl)

-- A check of a stored recipe against a device, whose write succeeds, answers with 200. If the
-- device's GPUs are read and suffice in number and memory, the recipe stored after it may be
-- swapped onto that device and the devices that it named as validated before, and onto no other;
-- else nothing changes for swaps.
pub validate_on_device-may_swap :
    (sv : Services) (now id device other : String) (metrics : Result (List ℕ)) (doc : List Recipe)
    (r : Recipe)
    → get doc id ≡ some r
    → (next : Recipe) × ((validate_on_device sv (true, none) now id device metrics doc).1 ≡ 200)
      × (get (validate_on_device sv (true, none) now id device metrics doc).0 id ≡ some next)
      × (may_swap sv next other ≡ (
          if fits sv r.config (gpus_of sv device metrics)
          then contains other r.validated_on || device == other
          else may_swap sv r other))
validate_on_device-may_swap sv now id device other metrics doc r h =
    elim (Bool-cases (fits sv r.config (gpus_of sv device metrics))) [
      | inl e ↦
          let next = promoted_recipe sv now device r in
          let path = validate_on_device-fits sv now id device metrics doc r h e in
          (
            next,
            ap (λ answer. answer.1) path,
            ap (λ answer. get answer.0 id) path
                ∙ ap (get (put (true, none) doc next).0)
                    (sym (promoted_recipe-id sv now device r ∙ get-id doc id r h))
                ∙ put-get doc next,
            rw e (promoted-may_swap sv now device other r),
          )
      | inr e ↦
          let path = validate_on_device-unfit sv now id device metrics doc r h e in
          (r, ap (λ answer. answer.1) path, ap (λ answer. get answer.0 id) path ∙ h, rw e refl)
    ]
