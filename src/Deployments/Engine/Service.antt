-- ===== src/Deployments/Engine/Service.antt =====
-- The requests that the daemon's API makes of the engine (internal/deployments/engine.go), and a
-- run of them: the engine holds one lock during each.
use yokai.Prelude.{String, List, [], ◌∷◌}
use yokai.Deployments.Types.{CreateRequest}
use yokai.Deployments.Env.{Env, Sys}
use yokai.Deployments.Engine.Create.{create_with_outcome}
use yokai.Deployments.Engine.Start.{start}
use yokai.Deployments.Engine.Stop.{stop}
use yokai.Deployments.Engine.Recovery.{rollback, reconcile, test}

pub data Request : Type 0 where
  create_request : CreateRequest → Request
  -- the id, and the key of the API
  start_request test_request : String → String → Request
  stop_request rollback_request : String → Request
  reconcile_request : Request

module _ (env : Env) where
  -- What is left of the document and of the events after one request.
  unfoldable pub serve : Request → Sys → Sys
  serve (create_request r) s = (create_with_outcome env r s).1
  serve (start_request id key) s = (start env id key s).1
  serve (test_request id key) s = (test env id key s).1
  serve (stop_request id) s = (stop env id s).1
  serve (rollback_request id) s = (rollback env id s).1
  serve reconcile_request s = (reconcile env s).1

  unfoldable pub run : List Request → Sys → Sys
  run [] s = s
  run (r ∷ rs) s = run rs (serve r s)
