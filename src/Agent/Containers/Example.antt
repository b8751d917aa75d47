-- ===== src/Agent/Containers/Example.antt =====
-- A container of the sample.
use yokai.Prelude.{◌≡◌, refl, some, trim_space}
use yokai.Deployments.Errors.{ok}
use yokai.LaunchAuth.Sample.{labels}
use yokai.Agent.Containers.{
  Identity, value_of, expected_labels, no_blank_value, all_match, target_of, cleanup_target,
}
use yokai.Agent.Containers.Cleanup.{IsOwn, cleanup_target-IsOwn}

abbrev own : Identity
own = record { id = "4f2a"; name = "yokai-dep-1"; labels = labels }

chosen : cleanup_target labels "yokai-dep-1" (ok own) ≡ some "4f2a"
unfolding cleanup_target expected_labels no_blank_value target_of all_match value_of trim_space
chosen = refl

cleanup_target-IsOwn_example :
    (i : Identity) × (ok own ≡ ok i) × (i.id ≡ "4f2a") × IsOwn labels "yokai-dep-1" i
cleanup_target-IsOwn_example = cleanup_target-IsOwn labels "yokai-dep-1" "4f2a" (ok own) chosen
