-- ===== src/Deployments/Store/Laws.antt =====
-- The store as a map from ids to deployments.
use yokai.Prelude.{String, ◌==◌, eq_iff, ◌≡◌, refl, none, some, List, [], ◌∷◌, if◌then◌else◌, arith}
use yokai.Deployments.Errors.{ok}
use yokai.Deployments.Types.{Deployment}
use yokai.Deployments.Env.{Env, Sys}
use yokai.Deployments.Store.{get_in, get, upsert, put}

pub get_in-upsert :
    (d : Deployment) (j : String) (doc : List Deployment)
    → get_in j (upsert d doc) ≡ (if d.id == j then some d else get_in j doc)
unfolding get_in upsert
get_in-upsert d j [] = refl
get_in-upsert d j (e ∷ rest) =
    ground (arith, eq_iff d.id j, eq_iff e.id d.id, eq_iff e.id j, get_in-upsert d j rest)

-- A put that returns no error is read back under its id, and leaves every other deployment as it
-- was.
pub get-put :
    (env : Env) (d : Deployment) (j : String) (s : Sys)
    → (put env d s).0 ≡ none
    → get j (put env d s).1.doc ≡ (if d.id == j then ok d else get j s.doc)
unfolding get put
get-put env d j s h = grind (arith, get_in-upsert)
