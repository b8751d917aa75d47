-- ===== src/Recipes/Store.antt =====
-- internal/recipes/store.go: the document in memory. The atomic write is a parameter: whether the document was
-- promoted, and its error. The order of List is not modelled.
pub mod Laws
use yokai.Prelude.{
  String, ◌==◌, Bool, true, false, Option, none, some, List, [], ◌∷◌, if◌then◌else◌,
}
use yokai.Deployments.Errors.{Err, plain}
use yokai.Recipes.Types.{Recipe}

-- Get
unfoldable pub get : List Recipe → String → Option Recipe
get [] id = none
get (r ∷ rs) id = let rest = get rs id in if r.id == id then some r else rest

-- FindFingerprint
unfoldable pub find_fingerprint : List Recipe → String → Option Recipe
find_fingerprint [] fp = none
find_fingerprint (r ∷ rs) fp =
    let rest = find_fingerprint rs fp in if r.fingerprint == fp then some r else rest

-- The first recipe of the same id is replaced; a new one goes to the end.
unfoldable pub upsert : List Recipe → Recipe → List Recipe
upsert [] r = r ∷ []
upsert (s ∷ rs) r = let rest = upsert rs r in if s.id == r.id then r ∷ rs else s ∷ rest

abbrev put_error : Bool → Option Err → Option Err
put_error promoted (some e) = some e
put_error true none = none
put_error false none = some (plain "recipes store write completed without promotion")

-- Put, with the outcome of the write.
unfoldable pub put : Bool × Option Err → List Recipe → Recipe → List Recipe × Option Err
unfolding upsert
put (promoted, error) doc r = (if promoted then upsert doc r else doc, put_error promoted error)
