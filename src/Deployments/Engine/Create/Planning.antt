-- ===== src/Deployments/Engine/Create/Planning.antt =====
-- The selection of previous members, the plan and the preflight of CreateWithOutcome.
use yokai.Prelude.{
  ℕ, suc, int_lt, int_suc, String, ◌==◌, concat, true, false, not, Option, none, some, List, [],
  ◌∷◌, ◌++◌, if◌then◌else◌, get_or,
}
use yokai.Bkc.Types.{MultiDeviceDeployment, head_role}
use yokai.Deployments.Errors.{
  Err, Result, ok, err, plain, ErrorKind, validation, conflict, wrap_error, error_kind_of,
}
use yokai.Deployments.Types.{
  State, Phase, Binding, Member, Deployment, ObservedContainer, PreflightRequest,
}
use yokai.Deployments.Env.{Env, M, ◌>>=◌, pure, caller, call_preflight, call_inspect}
use yokai.Deployments.Engine.Journal.{member_at}
use yokai.Deployments.Engine.Request.{no_binding}
use yokai.Deployments.Engine.Candidate.{
  role_rank, recipe_launch_order, runtime_patch_provenance, recipe_provenance, pinned_image_digest,
  build_candidate, planned_member, member_from_observed,
}
use yokai.Deployments.Engine.Create.Types.{Selection, Plan}

-- The kind of an error, or the kind to give it.
kind_or : ErrorKind → Err → ErrorKind
kind_or k e = elim (error_kind_of e) [ none ↦ k | some k' ↦ k' ]

-- The fabric address of the first binding.
abbrev pub head_address : List Binding → String
head_address bs = (get_or bs 0 no_binding).fabric_address

module _ (env : Env) where
  unfoldable pub selected :
      MultiDeviceDeployment → Binding → Selection → Result ObservedContainer → Result Selection
  unfolding kind_or
  selected md b sel (err e) = err (
      wrap_error (kind_or validation e) (concat ("inspect selected " ∷ b.role ∷ " container" ∷ []))
        e)
  selected md b sel (ok o) =
      if not (o.deployment_id == "")
      then err (
          wrap_error conflict (concat ("inspect selected " ∷ b.role ∷ " container" ∷ [])) (
            plain (
              concat
                ("container is already managed by grouped deployment " ∷ o.deployment_id ∷ []))))
      else let b' = record b { observed_container_id = o.id } in
        let m = member_from_observed b' (role_rank md.roles b.role) o in
        ok (record {
          ordered = sel.ordered ++ b' ∷ [];
          previous = sel.previous ++ m ∷ [];
          generation = if int_lt sel.generation m.generation then m.generation else sel.generation;
        })

  -- The loop that inspects the selected containers.
  unfoldable pub select_previous :
      MultiDeviceDeployment → List Binding → Selection → M (Result Selection)
  unfolding kind_or
  select_previous md [] sel = pure (ok sel)
  select_previous md (b ∷ bs) sel = elim (b.observed_container_id == "") [
    | true ↦ select_previous md bs (record sel { ordered = sel.ordered ++ b ∷ [] })
    | false ↦ do
      o ← call_inspect env caller b.device_id b.observed_container_id
      elim (selected md b sel o) [ err e ↦ pure (err e) | ok sel' ↦ select_previous md bs sel' ]
  ]

  unfoldable pub planned_members : Plan → Deployment → List Binding → List Member
  planned_members p d [] = []
  planned_members p d (b ∷ bs) =
      planned_member b
        (build_candidate env d p.request p.config p.multi_device b (head_address p.ordered))
        d.generation
      ∷ planned_members p d bs

  -- The deployment as it is planned, with its members.
  unfoldable pub plan_deployment : Plan → Selection → String → String → ℕ → Deployment
  unfolding planned_members
  plan_deployment p sel id hash now =
      let d : Deployment = record {
        id = id;
        bkc_id = p.config.id;
        idempotency_key = p.request.idempotency_key;
        request_hash = hash;
        state = State.pending;
        phase = Phase.planned;
        generation = int_suc sel.generation;
        previous_generation = sel.generation;
        bindings = p.ordered;
        members = [];
        previous_members = sel.previous;
        uses_local_model_snapshot = not (p.request.local_model_path == "");
        recipe_source = p.config.source;
        recipe_revision = p.multi_device.source_revision;
        model_revision = p.multi_device.model_revision;
        image_digest = pinned_image_digest p.config.image;
        launch_order = recipe_launch_order p.multi_device;
        runtime_patches = runtime_patch_provenance p.multi_device;
        recipe = recipe_provenance p.multi_device;
        error = "";
        rollback = none;
        last_test = none;
        progress = [];
        created_at = now;
        updated_at = now;
      } in
      record d { members = planned_members p d p.ordered }

  preflight_request : Plan → Deployment → Binding → String → PreflightRequest
  preflight_request p d b name =
      let c = build_candidate env d p.request p.config p.multi_device b (head_address p.ordered) in
      record {
        binding = b;
        candidate_name = name;
        local_model_path = p.request.local_model_path;
        service_port = p.multi_device.service_port;
        rendezvous_port = p.multi_device.rendezvous_port;
        head = b.role == head_role;
        bkc_id = p.config.id;
        model_revision = p.multi_device.model_revision;
        driver = c.driver;
        recipe = c.recipe;
      }

  -- The preflight loop, over the bindings and their indexes.
  unfoldable pub preflight_each : Plan → Deployment → ℕ → List Binding → M (Option Err)
  unfolding preflight_request kind_or
  preflight_each p d i [] = pure none
  preflight_each p d i (b ∷ bs) = do
    let r = preflight_request p d b (member_at d i).name
    e ← call_preflight env caller r p.multi_device.required_capabilities p.config.target_devices
    elim e [
      | some x ↦
          pure (some (wrap_error (kind_or conflict x) (concat ("preflight " ∷ b.role ∷ [])) x))
      | none ↦ preflight_each p d (suc i) bs
    ]
