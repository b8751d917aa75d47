-- ===== src/Config/History.antt =====
-- internal/config/history.go: the images and models used recently. Its file is not modelled.
pub mod Bounds
mod Example
use yokai.Prelude.{ℕ, String, ◌==◌, List, [], ◌∷◌, if◌then◌else◌, ltb, length, take}

-- MaxHistoryItems
abbrev pub max_history_items : ℕ
max_history_items = 20

pub record History : Type 0 where
  pub images : List String
  pub models : List String

-- emptyHistory
abbrev pub empty_history : History
empty_history = record { images = []; models = [] }

-- The items but the value.
unfoldable pub filtered : List String → String → List String
filtered [] value = []
filtered (item ∷ items) value =
    let rest = filtered items value in if item == value then rest else item ∷ rest

-- prependUnique
unfoldable pub prepend_unique : List String → String → ℕ → List String
prepend_unique items value max =
    let result = value ∷ filtered items value in
    if ltb max (length result) then take max result else result

-- AddImage
unfoldable pub add_image : History → String → History
add_image h image =
    if image == "" then h else record h { images = prepend_unique h.images image max_history_items }

-- AddModel
unfoldable pub add_model : History → String → History
add_model h model =
    if model == "" then h else record h { models = prepend_unique h.models model max_history_items }

-- A call of AddImage or of AddModel.
pub data Used : Type 0 where
  image model : String → Used

unfoldable pub add_used : History → Used → History
add_used h (image name) = add_image h name
add_used h (model name) = add_model h name

unfoldable pub add_all : History → List Used → History
add_all h [] = h
add_all h (u ∷ us) = add_all (add_used h u) us
