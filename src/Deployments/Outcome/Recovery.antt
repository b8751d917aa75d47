-- ===== src/Deployments/Outcome/Recovery.antt =====
-- The recovery that a restarted daemon picks for what an operation left.
use yokai.Prelude.{List}
use yokai.Deployments.Env.{Env}
