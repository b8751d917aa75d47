-- ===== src/Recipes/Handlers/Patched.antt =====
-- What a proposal and a patch store.
use yokai.Prelude.{
  ℕ, String, ◌==◌, eq_iff, eq_refl, ◌≡◌, refl, ap, sym, ◌∙◌, Bool, true, false, ◌&&◌, eqb,
  Bool-cases, inl, inr, trim_space, Option, none, some, List, [], ◌∷◌, if◌then◌else◌, arith,
}
use yokai.Deployments.Errors.{Err}
use yokai.Deployments.Members.{contains}
use yokai.Recipes.Types.{
  RecipeStatus, proposed, validated, superseded, Provenance, RecipeConfig, Recipe,
}
use yokai.Recipes.Validate.{validate}
use yokai.Recipes.Validate.Accepted.{IsAcceptable, validate_iff}
use yokai.Recipes.Store.{get, find_fingerprint, put}
use yokai.Recipes.Store.Laws.{put-outcome}
use yokai.Recipes.Handlers.{
  Services, fingerprint, propose, propose_new, patched_recipe, patch, patch_found, may_swap, stored,
  is_validated, reopened,
}

pub get-id : (doc : List Recipe) (id : String) (r : Recipe) → get doc id ≡ some r → r.id ≡ id
unfolding get
get-id [] id r h = absurd (ground (arith, h))
get-id (s ∷ rs) id r h = elim (Bool-cases (s.id == id)) [
  | inl e ↦
      let same : s ≡ r = found s r (ground (arith, e, h)) in
      sym (ap (λ x. x.id) same) ∙ (eq_iff s.id id).0 e
  | inr e ↦ get-id rs id r (ground (arith, e, h))
]
  where
    found : (a b : Recipe) → some a ≡ some b → a ≡ b
    found a b k = cc

pub put-get : (doc : List Recipe) (r : Recipe) → get (put (true, none) doc r).0 r.id ≡ some r
put-get doc r = (put-outcome true none doc r r.id).0 ∙ own_id (eq_refl r.id)
  where
    own_id : {b : Bool} → b ≡ true → (if b then some r else get doc r.id) ≡ some r
    own_id h = rw h refl

module _ (sv : Services) where
  patch-stored :
      (now id : String) (c : RecipeConfig) (doc : List Recipe) (r : Recipe)
      → get doc id ≡ some r
      → (validate sv.validator c r.provenance r.proposed_by).ok ≡ true
      → patch sv (true, none) now id (some c) none none doc
        ≡ ((put (true, none) doc (patched_recipe sv now (some c) none none r)).0, 200)
  unfolding patch patch_found patched_recipe put
  patch-stored now id c doc r h fine = rw (h, patch) (rw (fine, patch_found) refl)

  reopened-is_validated : (s : RecipeStatus) → is_validated sv (reopened sv s) ≡ is_validated sv s
  reopened-is_validated validated = refl
  reopened-is_validated proposed = refl
  reopened-is_validated superseded = refl

  patched_recipe-may_swap :
      (now : String) (c : RecipeConfig) (r : Recipe) (device : String)
      → may_swap sv (patched_recipe sv now (some c) none none r) device ≡ may_swap sv r device
  unfolding may_swap patched_recipe
  patched_recipe-may_swap now c r device =
      ap (λ b. b && contains device r.validated_on) (reopened-is_validated r.status)

  patched_recipe-facts :
      (now : String) (c : RecipeConfig) (r : Recipe)
      → ((patched_recipe sv now (some c) none none r).id ≡ r.id)
        × ((patched_recipe sv now (some c) none none r).config ≡ c)
  unfolding patched_recipe
  patched_recipe-facts now c r = (refl, refl)

-- A patch of a stored recipe with any acceptable configuration, whose write succeeds, answers
-- with 200 and stores a recipe of the same id that has the new configuration and may be swapped
-- onto exactly the devices that the old one might be swapped onto.
pub patch-may_swap :
    (sv : Services) (now id device : String) (c : RecipeConfig) (doc : List Recipe) (r : Recipe)
    → get doc id ≡ some r
    → IsAcceptable sv.validator c r.provenance r.proposed_by
    → (next : Recipe) × ((patch sv (true, none) now id (some c) none none doc).1 ≡ 200)
      × (get (patch sv (true, none) now id (some c) none none doc).0 id ≡ some next)
      × (next.config ≡ c)
      × (may_swap sv next device ≡ may_swap sv r device)
patch-may_swap sv now id device c doc r h fine =
    let next = patched_recipe sv now (some c) none none r in
    let (same_id, new_config) = patched_recipe-facts sv now c r in
    let stored_next =
      patch-stored sv now id c doc r h
        ((validate_iff sv.validator c r.provenance r.proposed_by).1 fine) in
    (
      next,
      ap (λ answer. answer.1) stored_next,
      ap (λ answer. get answer.0 id) stored_next
          ∙ ap (get (put (true, none) doc next).0) (sym (same_id ∙ get-id doc id r h))
          ∙ put-get doc next,
      new_config,
      patched_recipe-may_swap sv now c r device,
    )

module _ (sv : Services) where
  pub stored-code :
      (code : ℕ) (answer : List Recipe × Option Err)
      → (stored sv code answer).1 ≡ code
      → eqb code 500 ≡ false
      → (answer.1 ≡ none) × ((stored sv code answer).0 ≡ answer.0)
  stored-code code (doc, none) h k = (refl, refl)
  stored-code code (doc, some e) h k = absurd (ground (arith, h, k))

  -- A put without an error was promoted.
  pub put-promoted :
      (write : Bool × Option Err) (doc : List Recipe) (r : Recipe)
      → (put write doc r).1 ≡ none
      → get (put write doc r).0 r.id ≡ some r
  unfolding put
  put-promoted (true, none) doc r h = put-get doc r
  put-promoted (true, some e) doc r h = absurd (ground (arith, h))
  put-promoted (false, none) doc r h = absurd (ground (arith, h))
  put-promoted (false, some e) doc r h = absurd (ground (arith, h))

  propose_new-created :
      (write : Bool × Option Err) (rec : Recipe) (doc : List Recipe) (o : Option Recipe)
      → (propose_new sv write rec doc o).1 ≡ 201
      → (o ≡ none) × (get (propose_new sv write rec doc o).0 rec.id ≡ some rec)
  unfolding propose_new
  propose_new-created write rec doc (some e) h = absurd (ground (arith, h))
  propose_new-created write rec doc none h =
      let (fine, same) = stored-code 201 (put write doc rec) h refl in
      (refl, ap (λ d. get d rec.id) same ∙ put-promoted write doc rec fine)

-- A proposal that is answered with 201 is stored under its id with its configuration, may be swapped
-- onto no device, is acceptable, and is no duplicate: no recipe stored before has its fingerprint.
pub propose-created :
    (sv : Services) (write : Bool × Option Err) (random_id now id : String) (c : RecipeConfig)
    (prov : Provenance) (proposed_by supersedes device : String) (doc : List Recipe)
    → (propose sv write random_id now id c prov proposed_by supersedes doc).1 ≡ 201
    → (r : Recipe) × (get
          (propose sv write random_id now id c prov proposed_by supersedes doc).0
          r.id
        ≡ some r)
      × (r.config ≡ c)
      × (may_swap sv r device ≡ false)
      × IsAcceptable sv.validator c prov (trim_space proposed_by)
      × (find_fingerprint doc (fingerprint sv c) ≡ none)
unfolding propose may_swap
propose-created sv write random_id now id c prov proposed_by supersedes device doc h =
    elim (Bool-cases (validate sv.validator c prov (trim_space proposed_by)).ok) [
      | inl e ↦
          let rec : Recipe = record {
            id = if trim_space id == "" then random_id else id;
            status = proposed;
            config = c;
            provenance = prov;
            validated_on = [];
            fingerprint = fingerprint sv c;
            proposed_by = trim_space proposed_by;
            supersedes = supersedes;
            created_at = now;
            updated_at = now;
          } in
          let path : propose sv write random_id now id c prov proposed_by supersedes doc
              ≡ propose_new sv write rec doc (find_fingerprint doc (fingerprint sv c)) =
            rw (e, propose) refl in
          let (absent, kept) =
            propose_new-created sv write rec doc (find_fingerprint doc (fingerprint sv c))
              (ap (λ answer. answer.1) (sym path) ∙ h) in
          (
            rec,
            ap (λ answer. get answer.0 rec.id) path ∙ kept,
            refl,
            refl,
            (validate_iff sv.validator c prov (trim_space proposed_by)).0 e,
            absent,
          )
      | inr e ↦ absurd (ground (arith, e, h))
    ]
