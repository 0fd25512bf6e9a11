-- ===== src/Controllers/Snapshot.antt =====
-- controllers/snapshot_controller.go: the reconciler of snapshots onto a new volume.
pub mod Laws
pub mod Found
use cita_node_operator.Base.{
  String, ◌<>◌, ◌==◌, ◌||◌, Bool, Option, none, some, List, [], ◌∷◌, ◌++◌, Exec, if◌then◌else◌,
}
use cita_node_operator.Base.Effects.{pure, ◌>>=◌, ◌>>◌}
use cita_node_operator.Base.Int.{ℤ}
use cita_node_operator.Base.Text.Decimal.{format_int}
use cita_node_operator.Kube.{NamespacedName, ResourceRequirements, Volume, VolumeMount, Pod}
use cita_node_operator.Node.Common.{
  Action, DeployMethod, python_operator, cloud_config, backup_source_volume_path,
  backup_dest_volume_path, config_mount_path,
}
use cita_node_operator.Controllers.Labels.{labels_for_node, set_affinity}
use cita_node_operator.Controllers.Jobs.{
  Resource, Job, job_container, node_job, claim_volume, config_volume, beside, default_action,
  image_or_default, default_pull_policy, default_ttl,
}
use cita_node_operator.Controllers.Jobs.Claims.{required_claim, size_from_pod}
use cita_node_operator.Controllers.Jobs.NewClaim.{
  Claims, template_resources, sized_resources, size_or_claim, make_claim,
}
use cita_node_operator.Controllers.Jobs.Reconcile
use cita_node_operator.Controllers.Jobs.Reconcile.{Operator, Kind, Answer, keyed_job}
use cita_node_operator.Controllers.Fallback.Job.{filter_crypto_and_consensus}

-- `SnapshotSpec`
pub record SnapshotSpec : Type 0 where
  pub chain : String
  pub node : String
  pub block_height : ℤ
  pub deploy_method : DeployMethod
  pub storage_class : String
  pub pvc_size : String
  pub action : Action
  pub image : String
  pub pull_policy : String
  pub ttl_seconds_after_finished : ℤ
  pub pod_affinity_flag : Bool

-- What `SnapshotStatus` has beside the fields of all kinds.
pub record SnapshotSize : Type 0 where
  pub allocate : ℤ
  pub actual : ℤ

-- `Snapshot`
abbrev pub Snapshot : Type 0
Snapshot = Resource SnapshotSpec SnapshotSize

-- `setDefaultSpec`
unfoldable pub set_default_spec : SnapshotSpec → Bool × SnapshotSpec
set_default_spec spec =
    let action = default_action spec.action in
    let image = image_or_default spec.image in
    let pull_policy = default_pull_policy spec.pull_policy in
    let ttl = default_ttl spec.ttl_seconds_after_finished in
    (
      action.0 || image.0 || pull_policy.0 || ttl.0,
      record spec {
        action = action.1;
        image = image.1;
        pull_policy = pull_policy.1;
        ttl_seconds_after_finished = ttl.1;
      },
    )

-- `buildArgs`: there are no words for an empty `crypto`.
abbrev pub snapshot_args : Snapshot → String → String → List String
snapshot_args snapshot crypto consensus =
    let spec = snapshot.spec in
    "snapshot"
    ∷ "--namespace"
    ∷ snapshot.key.namespace
    ∷ "--chain"
    ∷ spec.chain
    ∷ "--node"
    ∷ spec.node
    ∷ "--deploy-method"
    ∷ spec.deploy_method
    ∷ "--action"
    ∷ spec.action
    ∷ "--block-height"
    ∷ format_int spec.block_height
    ∷ ((if crypto == "" then [] else "--crypto" ∷ crypto ∷ []) ++ ("--consensus" ∷ consensus ∷ []))

abbrev snapshot_volumes : Snapshot → String → List Volume
snapshot_volumes snapshot claim =
    claim_volume "backup-source" claim
    ∷ claim_volume "backup-dest" snapshot.key.name
    ∷ (if snapshot.spec.deploy_method == cloud_config
        then config_volume (snapshot.spec.node <> "-config") ∷ []
        else [])

abbrev snapshot_mounts : Snapshot → List VolumeMount
snapshot_mounts snapshot =
    record { name = "backup-source"; mount_path = backup_source_volume_path }
    ∷ record { name = "backup-dest"; mount_path = backup_dest_volume_path }
    ∷ (if snapshot.spec.deploy_method == cloud_config
        then record { name = "cita-config"; mount_path = config_mount_path } ∷ []
        else [])

-- What is read of the workload of a node: the claim of its data, the resources of the new claim,
-- and the crypto and the consensus of its containers.
pub record Source : Type 0 where
  pub claim : String
  pub resources : ResourceRequirements
  pub crypto : String
  pub consensus : String

-- The job for a source and the key of the node's label.
abbrev pub snapshot_job : Snapshot → Source → String → Job
snapshot_job snapshot source node_key =
    let spec = snapshot.spec in
    node_job snapshot.key (labels_for_node spec.chain spec.node)
      (set_affinity spec.pod_affinity_flag node_key spec.node)
      (job_container spec.image spec.pull_policy
        (snapshot_args snapshot source.crypto source.consensus) (snapshot_mounts snapshot))
      (snapshot_volumes snapshot source.claim)

module _ {W : Type 0} (op : Operator W SnapshotSpec SnapshotSize)
    (claims : Claims W SnapshotSpec SnapshotSize) where
  snapshot_source : Snapshot → Exec W Source
  snapshot_source snapshot =
      let spec = snapshot.spec in
      if spec.deploy_method == python_operator
      then (do
        deploy ← op.api.get_deployment (beside snapshot.key spec.node)
        claim ← required_claim deploy
        resources ← size_or_claim claims spec.pvc_size (beside snapshot.key claim)
        let found = filter_crypto_and_consensus deploy.spec.containers
        pure (record {
          claim = claim;
          resources = resources;
          crypto = found.0;
          consensus = found.1;
        }))
      else (do
        sts ← op.api.get_stateful_set (beside snapshot.key spec.node)
        resources ←
            if spec.pvc_size == ""
            then pure (template_resources sts.spec.claim_templates)
            else sized_resources claims spec.pvc_size
        let found = filter_crypto_and_consensus sts.spec.containers
        pure (record {
          claim = "datadir-" <> spec.node <> "-0";
          resources = resources;
          crypto = found.0;
          consensus = found.1;
        }))

  -- `jobForSnapshot`
  unfoldable pub job_for_snapshot : Snapshot → Exec W Job
  unfolding snapshot_source
  job_for_snapshot snapshot = do
    source ← snapshot_source snapshot
    make_claim claims snapshot source.resources snapshot.spec.storage_class
    keyed_job op snapshot.spec.deploy_method snapshot (snapshot_job snapshot source)

  with_actual : SnapshotSize → Option (ℤ × Pod) → Option SnapshotSize
  with_actual more none = none
  with_actual more (some (size, _)) = some (record more { actual = size })

  -- The size that the job has written to its pod.
  unfoldable pub snapshot_result : Snapshot → Job → Exec W (Option SnapshotSize)
  unfolding with_actual
  snapshot_result snapshot job = do
    size ← size_from_pod op.api "snapshot-size" snapshot job
    pure (with_actual snapshot.status.more size)

  abbrev pub kind : Kind W SnapshotSpec SnapshotSize (Unit {0})
  kind = record {
    set_default_spec = set_default_spec;
    ttl_seconds_after_finished = λ spec. spec.ttl_seconds_after_finished;
    check = λ _. pure tt;
    guard = λ _. pure tt;
    job_for = λ _. job_for_snapshot;
    result = snapshot_result;
  }

  -- `Reconcile`
  unfoldable pub reconcile : NamespacedName → Exec W (Answer W)
  reconcile = Reconcile.reconcile op kind
