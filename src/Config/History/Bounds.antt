-- ===== src/Config/History/Bounds.antt =====
-- The lists of a history are short and repeat nothing.
use yokai.Prelude.{
  ℕ, zero, suc, ◌≤◌, String, ◌==◌, ◌≡◌, refl, Bool, false, ◌||◌, Bool-cases, inl, inr, List, [],
  ◌∷◌, ltb, length, take, length-take, arith,
}
use yokai.Config.History.{
  History, max_history_items, filtered, prepend_unique, add_image, add_model, Used, image, model,
  add_used, add_all,
}

abbrev pub occurs : String → List String → Bool
occurs v [] = false
occurs v (x ∷ xs) = x == v || occurs v xs

-- No item stands twice.
abbrev pub IsUnrepeated : List String → Type 0
IsUnrepeated [] = Unit
IsUnrepeated (x ∷ xs) = (occurs x xs ≡ false) × IsUnrepeated xs

-- At most as many items, none of them twice and none empty.
abbrev pub IsRecent : ℕ → List String → Type 0
IsRecent max xs = (length xs ≤ max) × IsUnrepeated xs × (occurs "" xs ≡ false)

occurs-filtered :
    (v value : String) (xs : List String)
    → occurs v xs ≡ false
    → occurs v (filtered xs value) ≡ false
unfolding filtered
occurs-filtered v value [] h = refl
occurs-filtered v value (x ∷ xs) h = ground (arith, occurs-filtered v value xs)

filtered-without : (value : String) (xs : List String) → occurs value (filtered xs value) ≡ false
unfolding filtered
filtered-without value [] = refl
filtered-without value (x ∷ xs) = ground (arith, filtered-without value xs)

filtered-IsUnrepeated :
    (value : String) (xs : List String) → IsUnrepeated xs → IsUnrepeated (filtered xs value)
unfolding filtered
filtered-IsUnrepeated value [] h = tt
filtered-IsUnrepeated value (x ∷ xs) (n, h) =
    ground (arith, occurs-filtered x value xs n, filtered-IsUnrepeated value xs h)

occurs-take :
    (v : String) (n : ℕ) (xs : List String) → occurs v xs ≡ false → occurs v (take n xs) ≡ false
occurs-take v zero xs h = refl
occurs-take v (suc n) [] h = refl
occurs-take v (suc n) (x ∷ xs) h = ground (arith, occurs-take v n xs)

take-IsUnrepeated : (n : ℕ) (xs : List String) → IsUnrepeated xs → IsUnrepeated (take n xs)
take-IsUnrepeated zero xs h = tt
take-IsUnrepeated (suc n) [] h = tt
take-IsUnrepeated (suc n) (x ∷ xs) (k, h) = (occurs-take x n xs k, take-IsUnrepeated n xs h)

prepend_unique-IsRecent :
    (max : ℕ) (xs : List String) (value : String)
    → (value == "") ≡ false
    → IsRecent max xs
    → IsRecent max (prepend_unique xs value max)
unfolding prepend_unique
prepend_unique-IsRecent max xs value named (short, once, full) =
    let result = value ∷ filtered xs value in
    let unrepeated : IsUnrepeated result =
      (filtered-without value xs, filtered-IsUnrepeated value xs once) in
    let filled : occurs "" result ≡ false =
      ground (arith, named, occurs-filtered "" value xs full) in
    elim (Bool-cases (ltb max (length result))) [
      | inl e ↦ rw e (
        omega (arith, length-take max result),
        take-IsUnrepeated max result unrepeated,
        occurs-take "" max result filled,
      )
      | inr e ↦ rw e (ground (arith, e), unrepeated, filled)
    ]

-- Both lists of the history.
pub record IsKept (h : History) : Type 0 where
  pub images_kept : IsRecent max_history_items h.images
  pub models_kept : IsRecent max_history_items h.models

add_used-IsKept : (h : History) (u : Used) → IsKept h → IsKept (add_used h u)
unfolding add_used add_image add_model
add_used-IsKept h (image name) k = elim (Bool-cases (name == "")) [
  | inl e ↦ rw e k
  | inr e ↦ rw e (record {
    images_kept = prepend_unique-IsRecent max_history_items h.images name e k.images_kept;
    models_kept = k.models_kept;
  })
]
add_used-IsKept h (model name) k = elim (Bool-cases (name == "")) [
  | inl e ↦ rw e k
  | inr e ↦ rw e (record {
    images_kept = k.images_kept;
    models_kept = prepend_unique-IsRecent max_history_items h.models name e k.models_kept;
  })
]

-- A history to which images and models are added keeps two lists of at most 20 items, with no
-- item twice and no empty item, if it had such lists.
pub add_all-IsKept : (h : History) (us : List Used) → IsKept h → IsKept (add_all h us)
unfolding add_all
add_all-IsKept h [] k = k
add_all-IsKept h (u ∷ us) k = add_all-IsKept (add_used h u) us (add_used-IsKept h u k)
