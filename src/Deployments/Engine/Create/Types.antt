-- ===== src/Deployments/Engine/Create/Types.antt =====
-- What a create plans, returns and passes from stage to stage.
use yokai.Prelude.{ℤ, Bool, false, Option, List}
use yokai.Bkc.Types.{Config, MultiDeviceDeployment}
use yokai.Deployments.Errors.{Err}
use yokai.Deployments.Types.{Binding, CreateRequest, Member, Deployment}
use yokai.Deployments.Members.{no_deployment}

pub record CreateOutcome : Type 0 where
  pub deployment : Deployment
  pub created : Bool

abbrev pub Returned : Type 0
Returned = CreateOutcome × Option Err

abbrev pub nothing : CreateOutcome
nothing = record { deployment = no_deployment; created = false }

abbrev pub not_created : Deployment → CreateOutcome
not_created d = record { deployment = d; created = false }

-- A stage of a create goes on with the deployment, or the function returns.
pub data Stage : Type 0 where
  going : Deployment → Stage
  over : Returned → Stage

-- The selected bindings with their ids resolved, the previous members and their generation.
pub record Selection : Type 0 where
  pub ordered : List Binding
  pub previous : List Member
  pub generation : ℤ

-- What the request comes to before any effect.
pub record Plan : Type 0 where
  pub request : CreateRequest
  pub config : Config
  pub multi_device : MultiDeviceDeployment
  pub ordered : List Binding
