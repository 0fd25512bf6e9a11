-- ===== src/Controllers/Fallback.antt =====
-- controllers/blockheightfallback_controller.go: the resource and its defaults, the job that is made
-- for it, and its reconciler.
pub mod Job
pub mod Reconcile
pub mod Defaults
use cita_node_operator.Base.{String, ◌||◌, Bool}
use cita_node_operator.Base.Int.{ℤ}
use cita_node_operator.Node.Common.{Action, DeployMethod}
use cita_node_operator.Controllers.Jobs.{
  Resource, default_action, image_or_default, default_pull_policy, default_ttl,
}

-- `BlockHeightFallbackSpec`
pub record FallbackSpec : Type 0 where
  pub chain : String
  pub node : String
  pub block_height : ℤ
  pub deploy_method : DeployMethod
  pub action : Action
  pub image : String
  pub pull_policy : String
  pub ttl_seconds_after_finished : ℤ
  pub pod_affinity_flag : Bool
  pub delete_consensus_data : Bool

-- `BlockHeightFallback`. Its status has the fields of all kinds and no more.
abbrev pub BlockHeightFallback : Type 0
BlockHeightFallback = Resource FallbackSpec (Unit {0})

-- `setDefaultSpec`: whether the object is to be written, and its specification. A default pull
-- policy does not count.
unfoldable pub set_default_spec : FallbackSpec → Bool × FallbackSpec
set_default_spec spec =
    let action = default_action spec.action in
    let image = image_or_default spec.image in
    let pull_policy = default_pull_policy spec.pull_policy in
    let ttl = default_ttl spec.ttl_seconds_after_finished in
    (
      action.0 || image.0 || ttl.0,
      record spec {
        action = action.1;
        image = image.1;
        pull_policy = pull_policy.1;
        ttl_seconds_after_finished = ttl.1;
      },
    )
