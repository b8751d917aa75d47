-- ===== src/Deployments/Store.antt =====
-- internal/deployments/store.go over the document in memory; `write` is the world's. Clones of
-- a deployment are values here.
pub mod Laws
use yokai.Prelude.{
  ℕ, ℤ, pos, negsuc, String, ◌==◌, Bool, true, false, Option, none, some, List, [], ◌∷◌, ltb,
  int_lt, int_eq, ◌||◌, if◌then◌else◌,
}
use yokai.Deployments.Errors.{Err, Result, ok, err, plain, sentinel, not_found}
use yokai.Deployments.Types.{Deployment}
use yokai.Deployments.Env.{Env, Sys, M, wrote}

-- StoreVersion
abbrev pub store_version : ℤ
store_version = pos 1

pub record StoreDocument : Type 0 where
  pub version : ℤ
  pub deployments : List Deployment

-- What OpenStore finds at the path.
pub data Found : Type 0 where
  missing : Found
  unreadable : Found
  unparsable : Found
  document : StoreDocument → Found

-- OpenStore
unfoldable pub open_store : Found → Result StoreDocument
open_store missing = ok (record { version = store_version; deployments = [] })
open_store unreadable = err (plain "reading deployments store")
open_store unparsable = err (plain "parsing deployments store")
open_store (document d) =
    if int_lt store_version d.version || int_lt d.version (pos 0)
    then err (plain "unsupported deployments store version")
    else if int_eq d.version (pos 0)
    then ok (record d { version = store_version })
    else ok d

unfoldable pub get_in : String → List Deployment → Option Deployment
get_in id [] = none
get_in id (d ∷ rest) = if d.id == id then some d else get_in id rest

-- Get
unfoldable pub get : String → List Deployment → Result Deployment
get id doc = elim (get_in id doc) [ none ↦ err (sentinel not_found) | some d ↦ ok d ]

-- FindIdempotency
unfoldable pub find_idempotency : String → List Deployment → Option Deployment
find_idempotency key [] = none
find_idempotency key (d ∷ rest) =
    if d.idempotency_key == key then some d else find_idempotency key rest

-- The document that Put writes: the first entry with the id replaced, or a new last entry.
unfoldable pub upsert : Deployment → List Deployment → List Deployment
upsert d [] = d ∷ []
upsert d (e ∷ rest) = if e.id == d.id then d ∷ rest else e ∷ upsert d rest

put_error : Bool → Option Err → Option Err
put_error promoted (some e) = some e
put_error true none = none
put_error false none = some (plain "deployments store write completed without promotion")

-- Put
unfoldable pub put : Env → Deployment → M (Option Err)
unfolding put_error
put env d s =
    let next = upsert d s.doc in
    let (promoted, e) = env.write s.events next in
    (
      put_error promoted e,
      record { doc = if promoted then next else s.doc; events = wrote d promoted e ∷ s.events },
    )

-- List: newest first. Go's sort.Slice is not stable; insertion keeps equal times in order.
insert_newest : Deployment → List Deployment → List Deployment
insert_newest d [] = d ∷ []
insert_newest d (e ∷ rest) =
    if ltb d.created_at e.created_at then e ∷ insert_newest d rest else d ∷ e ∷ rest

unfoldable pub list : List Deployment → List Deployment
unfolding insert_newest
list [] = []
list (d ∷ rest) = insert_newest d (list rest)
