-- ===== src/Recipes/Trial/Evidence.antt =====
-- What a passed trial shows.
use yokai.Prelude.{
  ℕ, String, ◌==◌, eq_refl, ◌≡◌, refl, ap, sym, ◌∙◌, Bool, true, false, ◌||◌, Bool-cases, inl, inr,
  Option, none, some, List, [], ◌∷◌, trim_space, arith,
}
use yokai.Deployments.Errors.{Err, Result, ok, err}
use yokai.Deployments.Members.{contains}
use yokai.Recipes.Types.{Recipe}
use yokai.Recipes.Store.{get, put}
use yokai.Recipes.Handlers.{Services, promoted_recipe, may_swap, stored}
use yokai.Recipes.Handlers.Patched.{stored-code, put-promoted}
use yokai.Recipes.Handlers.Promoted.{promoted-may_swap}
use yokai.Recipes.Trial.{
  launched, tested, removed, Answers, Trial, recipe_deploy_request, is_verified, touched,
  recipe_device_fit, recorded, probed, gated, found_on, verify_recipe,
}

-- The evidence of a passed trial of a recipe on a device: the device's GPUs fit it, the container that was launched
-- from its configuration passed its probe, that container was launched, tested and removed, and
-- the recipe that is stored may be swapped onto the device.
pub record IsEvidence (sv : Services) (a : Answers) (device : String) (r : Recipe) (t : Trial)
    : Type 0 where
  pub container : String
  pub fitting : recipe_device_fit sv r.config a.gpus ≡ (true, true)
  pub launch : a.deploy (recipe_deploy_request r.config device) ≡ ok container
  pub passed : is_verified (a.probe container) ≡ true
  pub torn_down :
      t.calls
      ≡ launched (recipe_deploy_request r.config device) ∷ tested container ∷ removed container ∷ []
  pub next : Recipe
  pub kept : get t.recipes r.id ≡ some next
  pub swappable : may_swap sv next device ≡ true

module _ (sv : Services) (write : Bool × Option Err) (now device : String) (a : Answers)
    (doc : List Recipe) (r : Recipe) where
  own_swap : may_swap sv (promoted_recipe sv now device r) device ≡ true
  own_swap = promoted-may_swap sv now device device r ∙ last (eq_refl device)
    where
      last : {b : Bool} → b ≡ true → (contains device r.validated_on || b) ≡ true
      last h = ground (arith, h)

  refused-code : (x : List Recipe × Option Err) → ¬ ((stored sv 422 x).1 ≡ 200)
  refused-code (d, none) h = ground (arith, h)
  refused-code (d, some e) h = ground (arith, h)

  recorded-passed :
      (probe : Result (Option Bool))
      → (recorded sv write now device probe doc r).1 ≡ 200
      → (is_verified probe ≡ true)
        × (get (recorded sv write now device probe doc r).0 r.id
            ≡ some (promoted_recipe sv now device r))
  unfolding recorded promoted_recipe
  recorded-passed probe h = elim (Bool-cases (is_verified probe)) [
    | inl e ↦
        let path : recorded sv write now device probe doc r
            ≡ stored sv 200 (put write doc (promoted_recipe sv now device r)) =
          rw (e, recorded) refl in
        let (fine, same) =
          stored-code sv 200 (put write doc (promoted_recipe sv now device r))
            (ap (λ x. x.1) (sym path) ∙ h) refl in
        (
          e,
          ap (λ x. get x.0 r.id) path
              ∙ ap (λ d. get d r.id) same
              ∙ put-promoted sv write doc (promoted_recipe sv now device r) fine,
        )
    | inr e ↦
        let path : recorded sv write now device probe doc r
            ≡ stored sv 422 (put write doc (touched now r)) =
          rw (e, recorded) refl in
        absurd (refused-code (put write doc (touched now r)) (ap (λ x. x.1) (sym path) ∙ h))
  ]

  probed-IsEvidence :
      (d : Result String)
      → recipe_device_fit sv r.config a.gpus ≡ (true, true)
      → a.deploy (recipe_deploy_request r.config device) ≡ d
      → (probed sv write now device a doc r d).code ≡ 200
      → IsEvidence sv a device r (probed sv write now device a doc r d)
  unfolding probed
  probed-IsEvidence (err e) fit l h = absurd (ground (arith, h))
  probed-IsEvidence (ok c) fit l h =
      let (passed, kept) = recorded-passed (a.probe c) h in
      record {
        container = c;
        fitting = fit;
        launch = l;
        passed = passed;
        torn_down = refl;
        next = promoted_recipe sv now device r;
        kept = kept;
        swappable = own_swap;
      }

  gated-running :
      a.running ≡ true
      → gated sv write now device a doc r (true, true)
        ≡ probed sv write now device a doc r (a.deploy (recipe_deploy_request r.config device))
  unfolding gated
  gated-running e = rw (e, gated) refl

  gated-stopped :
      a.running ≡ false
      → gated sv write now device a doc r (true, true)
        ≡ record { recipes = doc; code = 500; calls = [] }
  unfolding gated
  gated-stopped e = rw (e, gated) refl

  gated-IsEvidence :
      (gate : Bool × Bool)
      → recipe_device_fit sv r.config a.gpus ≡ gate
      → (gated sv write now device a doc r gate).code ≡ 200
      → IsEvidence sv a device r (gated sv write now device a doc r gate)
  unfolding gated
  gated-IsEvidence (false, fit) same h = absurd (ground (arith, h))
  gated-IsEvidence (true, false) same h = absurd (ground (arith, h))
  gated-IsEvidence (true, true) same h = elim (Bool-cases a.running) [
    | inl e ↦
        let path = gated-running e in
        rw path (
          probed-IsEvidence (a.deploy (recipe_deploy_request r.config device)) same refl
            (ap (λ t. t.code) (sym path) ∙ h))
    | inr e ↦ absurd (is_not_500 h (ap (λ t. t.code) (gated-stopped e)))
  ]
    where
      is_not_500 : {n : ℕ} → n ≡ 200 → ¬ (n ≡ 500)
      is_not_500 k l = ground (arith, k, l)

found_on-IsEvidence :
    (sv : Services) (write : Bool × Option Err) (now device : String) (a : Answers)
    (doc : List Recipe) (o : Option Recipe)
    → (found_on sv write now device a doc o).code ≡ 200
    → (r : Recipe) × (o ≡ some r) × IsEvidence sv a device r (found_on sv write now device a doc o)
unfolding found_on
found_on-IsEvidence sv write now device a doc none h = absurd (ground (arith, h))
found_on-IsEvidence sv write now device a doc (some r) h = elim (Bool-cases (device == "")) [
  | inl e ↦ absurd (unnamed e)
  | inr e ↦
      let path : found_on sv write now device a doc (some r)
          ≡ gated sv write now device a doc r (recipe_device_fit sv r.config a.gpus) =
        rw (e, found_on) refl in
      (
        r,
        refl,
        rw path (
            gated-IsEvidence sv write now device a doc r (recipe_device_fit sv r.config a.gpus) refl
              (ap (λ t. t.code) (sym path) ∙ h)),
      )
]
  where
    unnamed : ¬ ((device == "") ≡ true)
    unnamed e =
        let path : found_on sv write now device a doc (some r)
            ≡ record { recipes = doc; code = 400; calls = [] } =
          rw (e, found_on) refl in
        let answer : 400 ≡ 200 = ap (λ t. t.code) (sym path) ∙ h in ground (arith, answer)

-- A trial that is answered with 200 was of a stored recipe, and left the evidence: the GPUs of the
-- device fit it, the container that was launched from its configuration passed its probe, that
-- container was launched, tested and removed and nothing else was called, and the recipe stored
-- under its id may be swapped onto the device.
pub verify_recipe-IsEvidence :
    (sv : Services) (write : Bool × Option Err) (now id device : String) (a : Answers)
    (doc : List Recipe)
    → (verify_recipe sv write now id device a doc).code ≡ 200
    → (r : Recipe) × (get doc id ≡ some r)
      × IsEvidence sv a (trim_space device) r (verify_recipe sv write now id device a doc)
unfolding verify_recipe found_on
verify_recipe-IsEvidence sv write now id device a doc h =
    found_on-IsEvidence sv write now (trim_space device) a doc (get doc id) h
