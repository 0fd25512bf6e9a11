-- ===== src/Controllers/Fallback/Job.antt =====
-- controllers/blockheightfallback_controller.go: the job of a fallback.
pub mod Frame
pub mod Found
pub mod Flags
use cita_node_operator.Base.{
  ℕ, String, ◌<>◌, ◌==◌, ◌||◌, Bool, Option, none, some, List, [], ◌∷◌, ◌++◌, Dict,
}
use cita_node_operator.Base.{Exec, Result, ok, err, message, if◌then◌else◌}
use cita_node_operator.Base.Effects.{pure, raise, deref, lift, ◌>>=◌}
use cita_node_operator.Base.Text.{contains}
use cita_node_operator.Base.Text.Decimal.{format_int}
use cita_node_operator.Kube.{NamespacedName, Volume, VolumeMount, EnvVar, Container, Workload, Api}
use cita_node_operator.Node.Common.{
  helm, python_operator, cloud_config, volume_mount_path, config_mount_path,
}
use cita_node_operator.Controllers.Labels.{
  Affinity, labels_for_node, get_node_label_key_by_type, set_affinity,
}
use cita_node_operator.Controllers.Jobs.{
  Job, job_container, node_job, claim_volume, config_volume, beside,
}
use cita_node_operator.Controllers.Fallback.{FallbackSpec, BlockHeightFallback}

-- `crypto` and `consensus` after one container.
filter_step : String × String → Container → String × String
filter_step (crypto, consensus) container =
    if container.name == "crypto" || container.name == "kms"
    then (
      (if contains container.image "sm"
          then "sm"
          else if contains container.image "eth"
          then "eth"
          else crypto),
      consensus,
    )
    else if container.name == "consensus"
    then (
      crypto,
      (if contains container.image "bft"
          then "bft"
          else if contains container.image "raft"
          then "raft"
          else if contains container.image "overlord"
          then "overlord"
          else consensus),
    )
    else (crypto, consensus)

filter_from : String × String → List Container → String × String
filter_from found [] = found
filter_from found (container ∷ containers) = filter_from (filter_step found container) containers

-- `filterCryptoAndConsensus`
unfoldable pub filter_crypto_and_consensus : List Container → String × String
unfolding filter_from filter_step
filter_crypto_and_consensus containers = filter_from ("", "") containers

-- The claim of the first volume of that name, in `getHelmPVC` and `getPyPVC`. A volume of that
-- name that is no claim is a nil pointer.
find_claim : {W : Type 0} → List Volume → Exec W String
find_claim [] = raise (message "cann't find pvc name")
find_claim (volume ∷ volumes) =
    if volume.name == "datadir" then deref volume.claim_name else find_claim volumes

-- `buildArgs`: there are no words for an empty `crypto`.
unfoldable pub build_args : BlockHeightFallback → String → String → List String
build_args bhf crypto consensus =
    let spec = bhf.spec in
    "fallback"
    ∷ "--namespace"
    ∷ bhf.key.namespace
    ∷ "--chain"
    ∷ spec.chain
    ∷ "--deploy-method"
    ∷ spec.deploy_method
    ∷ "--action"
    ∷ spec.action
    ∷ "--block-height"
    ∷ format_int spec.block_height
    ∷ "--node"
    ∷ spec.node
    ∷ ((if crypto == "" then [] else "--crypto" ∷ crypto ∷ [])
        ++ ("--consensus"
            ∷ consensus
            ∷ (if spec.delete_consensus_data then "--delete-consensus-data" ∷ [] else [])))

-- `getVolumeMounts`
unfoldable pub get_volume_mounts : FallbackSpec → List VolumeMount
get_volume_mounts spec =
    if spec.deploy_method == helm || spec.deploy_method == python_operator
    then record { name = "datadir"; mount_path = volume_mount_path } ∷ []
    else if spec.deploy_method == cloud_config
    then record { name = "datadir"; mount_path = volume_mount_path }
      ∷ record { name = "cita-config"; mount_path = config_mount_path }
      ∷ []
    else []

-- The job before `SetControllerReference`.
unfoldable pub new_job : BlockHeightFallback → List Volume → String → String → String → Job
new_job bhf volumes crypto consensus node_key =
    let spec = bhf.spec in
    node_job bhf.key (labels_for_node spec.chain spec.node)
      (set_affinity spec.pod_affinity_flag node_key spec.node)
      (job_container spec.image spec.pull_policy (build_args bhf crypto consensus)
        (get_volume_mounts spec))
      volumes

module _ {W : Type 0} (api : Api W)
    (list_deployments : String → Dict String → Exec W (List Workload)) where
  -- `getHelmPVC`
  get_helm_pvc : BlockHeightFallback → Exec W String
  unfolding find_claim
  get_helm_pvc bhf = do
    sts ← api.get_stateful_set (record { namespace = bhf.key.namespace; name = bhf.spec.chain })
    find_claim sts.spec.volumes

  first_deployment : List Workload → Exec W Workload
  first_deployment [] = raise (message "get chain deployment items is 0")
  first_deployment (deployment ∷ _) = pure deployment

  -- `getPyPVC`
  get_py_pvc : BlockHeightFallback → Exec W String
  unfolding find_claim first_deployment
  get_py_pvc bhf = do
    deployments ← list_deployments bhf.key.namespace (("chain_name", bhf.spec.chain) ∷ [])
    deployment ← first_deployment deployments
    find_claim deployment.spec.volumes

  -- `getVolumes`
  get_volumes : BlockHeightFallback → Exec W (List Volume)
  unfolding get_helm_pvc get_py_pvc
  get_volumes bhf =
      if bhf.spec.deploy_method == helm
      then (do claim ← get_helm_pvc bhf; pure (claim_volume "datadir" claim ∷ []))
      else if bhf.spec.deploy_method == python_operator
      then (do claim ← get_py_pvc bhf; pure (claim_volume "datadir" claim ∷ []))
      else if bhf.spec.deploy_method == cloud_config
      then pure (
          claim_volume "datadir" ("datadir-" <> bhf.spec.node <> "-0")
          ∷ config_volume (bhf.spec.node <> "-config")
          ∷ [])
      else raise (message "mismatched deploy method")

  -- `getCryptoAndConsensus`
  get_crypto_and_consensus : BlockHeightFallback → Exec W (String × String)
  get_crypto_and_consensus bhf =
      if bhf.spec.deploy_method == helm
      then (do
        sts ← api.get_stateful_set (beside bhf.key bhf.spec.chain)
        pure (filter_crypto_and_consensus sts.spec.containers))
      else if bhf.spec.deploy_method == python_operator
      then (do
        dep ← api.get_deployment (beside bhf.key bhf.spec.node)
        pure (filter_crypto_and_consensus dep.spec.containers))
      else if bhf.spec.deploy_method == cloud_config
      then (do
        sts ← api.get_stateful_set (beside bhf.key bhf.spec.node)
        pure (filter_crypto_and_consensus sts.spec.containers))
      else raise (message "error deploy method")

  -- `jobForBlockHeightFallback`
  unfoldable pub job_for :
      (BlockHeightFallback → Job → Result Job) → BlockHeightFallback → Exec W Job
  unfolding get_volumes get_crypto_and_consensus
  job_for set_controller_reference bhf = do
    volumes ← get_volumes bhf
    found ← get_crypto_and_consensus bhf
    node_key ← lift (get_node_label_key_by_type bhf.spec.deploy_method)
    lift (set_controller_reference bhf (new_job bhf volumes found.0 found.1 node_key))
