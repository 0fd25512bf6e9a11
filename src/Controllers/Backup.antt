-- ===== src/Controllers/Backup.antt =====
-- controllers/backup_controller.go: the reconciler of backups onto a new volume.
pub mod Laws
use cita_node_operator.Base.{String, ◌<>◌, ◌==◌, ◌||◌, Bool, Option, none, some, List, [], ◌∷◌}
use cita_node_operator.Base.{Exec, if◌then◌else◌}
use cita_node_operator.Base.Effects.{pure, ◌>>=◌, ◌>>◌}
use cita_node_operator.Base.Int.{ℤ}
use cita_node_operator.Kube.{NamespacedName, ResourceRequirements, Pod}
use cita_node_operator.Node.Common.{
  Action, DeployMethod, python_operator, backup_source_volume_path, backup_dest_volume_path,
}
use cita_node_operator.Controllers.Labels.{labels_for_node, set_affinity}
use cita_node_operator.Controllers.Jobs.{
  Resource, Job, job_container, node_job, claim_volume, beside, default_action, image_or_default,
  default_pull_policy, default_ttl,
}
use cita_node_operator.Controllers.Jobs.Claims.{required_claim, size_from_pod}
use cita_node_operator.Controllers.Jobs.NewClaim.{
  Claims, template_resources, sized_resources, size_or_claim, make_claim,
}
use cita_node_operator.Controllers.Jobs.Reconcile
use cita_node_operator.Controllers.Jobs.Reconcile.{Operator, Kind, Answer, keyed_job}

-- `BackupSpec`
pub record BackupSpec : Type 0 where
  pub chain : String
  pub node : String
  pub deploy_method : DeployMethod
  pub storage_class : String
  pub pvc_size : String
  pub action : Action
  pub image : String
  pub pull_policy : String
  pub ttl_seconds_after_finished : ℤ
  pub pod_affinity_flag : Bool

-- What `BackupStatus` has beside the fields of all kinds.
pub record BackupSize : Type 0 where
  pub allocate : ℤ
  pub actual : ℤ
  pub block_height : ℤ

-- `Backup`
abbrev pub Backup : Type 0
Backup = Resource BackupSpec BackupSize

-- `setDefaultSpec`
unfoldable pub set_default_spec : BackupSpec → Bool × BackupSpec
set_default_spec spec =
    let action = default_action spec.action in
    let image = image_or_default spec.image in
    let pull_policy = default_pull_policy spec.pull_policy in
    let ttl = default_ttl spec.ttl_seconds_after_finished in
    (
      action.0 || image.0 || pull_policy.0 || ttl.0,
      record spec {
        action = action.1;
        image = image.1;
        pull_policy = pull_policy.1;
        ttl_seconds_after_finished = ttl.1;
      },
    )

-- The words of the job: the paths are the defaults of the subcommand.
abbrev pub backup_args : Backup → List String
backup_args backup =
    let spec = backup.spec in
    "backup" ∷ "--namespace" ∷ backup.key.namespace ∷ "--chain" ∷ spec.chain ∷ "--node" ∷ spec.node
    ∷ "--deploy-method" ∷ spec.deploy_method ∷ "--action" ∷ spec.action ∷ []

-- The job for a claim of the node's data and the key of the node's label.
abbrev pub backup_job : Backup → String → String → Job
backup_job backup claim node_key =
    let spec = backup.spec in
    node_job backup.key (labels_for_node spec.chain spec.node)
      (set_affinity spec.pod_affinity_flag node_key spec.node)
      (job_container spec.image spec.pull_policy (backup_args backup) (
        record { name = "backup-source"; mount_path = backup_source_volume_path }
        ∷ record { name = "backup-dest"; mount_path = backup_dest_volume_path }
        ∷ []))
      (claim_volume "backup-source" claim ∷ claim_volume "backup-dest" backup.key.name ∷ [])

module _ {W : Type 0} (op : Operator W BackupSpec BackupSize)
    (claims : Claims W BackupSpec BackupSize) where
  -- The claim of the node's data, and the resources of the new one.
  backup_source : Backup → Exec W (String × ResourceRequirements)
  backup_source backup =
      let spec = backup.spec in
      if spec.deploy_method == python_operator
      then (do
        deploy ← op.api.get_deployment (beside backup.key spec.node)
        claim ← required_claim deploy
        resources ← size_or_claim claims spec.pvc_size (beside backup.key claim)
        pure (claim, resources))
      else (do
        resources ←
            if spec.pvc_size == ""
            then (do
              sts ← op.api.get_stateful_set (beside backup.key spec.node)
              pure (template_resources sts.spec.claim_templates))
            else sized_resources claims spec.pvc_size
        pure ("datadir-" <> spec.node <> "-0", resources))

  -- `jobForBackup`
  unfoldable pub job_for_backup : Backup → Exec W Job
  unfolding backup_source
  job_for_backup backup = do
    source ← backup_source backup
    make_claim claims backup source.1 backup.spec.storage_class
    keyed_job op backup.spec.deploy_method backup (backup_job backup source.0)

  with_actual : BackupSize → Option (ℤ × Pod) → Option BackupSize
  with_actual more none = none
  with_actual more (some (size, _)) = some (record more { actual = size })

  -- The size that the job has written to its pod.
  unfoldable pub backup_result : Backup → Job → Exec W (Option BackupSize)
  unfolding with_actual
  backup_result backup job = do
    size ← size_from_pod op.api "backup-size" backup job
    pure (with_actual backup.status.more size)

  abbrev pub kind : Kind W BackupSpec BackupSize (Unit {0})
  kind = record {
    set_default_spec = set_default_spec;
    ttl_seconds_after_finished = λ spec. spec.ttl_seconds_after_finished;
    check = λ _. pure tt;
    guard = λ _. pure tt;
    job_for = λ _. job_for_backup;
    result = backup_result;
  }

  -- `Reconcile`
  unfoldable pub reconcile : NamespacedName → Exec W (Answer W)
  reconcile = Reconcile.reconcile op kind
