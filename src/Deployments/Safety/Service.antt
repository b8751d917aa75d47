-- ===== src/Deployments/Safety/Service.antt =====
-- Every run of requests keeps the conditions on the events.
use yokai.Prelude.{List, [], ◌∷◌}
use yokai.Deployments.Env.{Env, Sys}
use yokai.Deployments.Engine.Service.{
  Request, create_request, start_request, test_request, stop_request, rollback_request,
  reconcile_request, serve, run,
}
use yokai.Deployments.Safety.{IsSafe}
use yokai.Deployments.Safety.Create.{create_with_outcome-IsSafe}
use yokai.Deployments.Safety.Start.{start-IsSafe}
use yokai.Deployments.Safety.Stop.{stop-IsSafe}
use yokai.Deployments.Safety.Recovery.{rollback-IsSafe, reconcile-IsSafe, test-IsSafe}

module _ (env : Env) where
  serve-IsSafe : (r : Request) (s : Sys) → IsSafe s.events → IsSafe (serve env r s).events
  unfolding serve
  serve-IsSafe (create_request r) s h = create_with_outcome-IsSafe env r s h
  serve-IsSafe (start_request id key) s h = start-IsSafe env id key s h
  serve-IsSafe (test_request id key) s h = test-IsSafe env id key s h
  serve-IsSafe (stop_request id) s h = stop-IsSafe env id s h
  serve-IsSafe (rollback_request id) s h = rollback-IsSafe env id s h
  serve-IsSafe reconcile_request s h = reconcile-IsSafe env s h

  -- Whatever requests are made of the engine, whatever the agents and the disk answer: a pull or
  -- a launch of a rank directly follows a successful write whose newest record is the intent for
  -- that very rank; a stop of a selected container directly follows a successful write of the
  -- intent for the previous member that has it; a previous member is restarted right after an
  -- inspection that found its container, itself right after a successful write of the intent to
  -- restore that member; a managed member is stopped or restarted only right after an inspection
  -- at its locator found its own container; and a candidate is removed only where the last
  -- inspection on its device found its own container under the removed id, or none.
  pub run-IsSafe : (rs : List Request) (s : Sys) → IsSafe s.events → IsSafe (run env rs s).events
  unfolding run
  run-IsSafe [] s h = h
  run-IsSafe (r ∷ rs) s h = run-IsSafe rs (serve env r s) (serve-IsSafe r s h)
