-- ===== src/Controllers/Restore.antt =====
-- controllers/restore_controller.go: the reconciler of restores, from a backup or a snapshot.
pub mod Laws
use cita_node_operator.Base.{
  String, ◌<>◌, ◌==◌, ◌||◌, not, Bool, Option, none, some, List, [], ◌∷◌, ◌++◌, Exec, failure,
}
use cita_node_operator.Base.{if◌then◌else◌}
use cita_node_operator.Base.Effects.{pure, raise, deref, when, ◌>>=◌, ◌>>◌}
use cita_node_operator.Base.Int.{ℤ}
use cita_node_operator.Base.Text.Decimal.{format_int}
use cita_node_operator.Kube.{NamespacedName, Container}
use cita_node_operator.Node.Common.{
  Action, DeployMethod, python_operator, cloud_config, restore_source_volume_path,
  restore_dest_volume_path, config_mount_path,
}
use cita_node_operator.Controllers.Labels.{labels_for_node, set_affinity}
use cita_node_operator.Controllers.Jobs.{
  Resource, Job, job_container, node_job, claim_volume, config_volume, beside, default_action,
  image_or_default, default_pull_policy, default_ttl,
}
use cita_node_operator.Controllers.Jobs.Reconcile
use cita_node_operator.Controllers.Jobs.Reconcile.{Operator, Kind, Answer, keyed_job}
use cita_node_operator.Controllers.Fallback.Job.{filter_crypto_and_consensus}
use cita_node_operator.Controllers.Backup.{Backup}
use cita_node_operator.Controllers.Snapshot.{Snapshot}
use cita_node_operator.Controllers.Recover.{dest_claim}

-- `RestoreSpec`
pub record RestoreSpec : Type 0 where
  pub chain : String
  pub node : String
  pub deploy_method : DeployMethod
  pub backup : String
  pub snapshot : String
  pub action : Action
  pub image : String
  pub pull_policy : String
  pub ttl_seconds_after_finished : ℤ
  pub pod_affinity_flag : Bool
  pub delete_consensus_data : Bool

-- `Restore`
abbrev pub Restore : Type 0
Restore = Resource RestoreSpec (Unit {0})

-- `setDefaultSpec`
unfoldable pub set_default_spec : RestoreSpec → Bool × RestoreSpec
set_default_spec spec =
    let action = default_action spec.action in
    let image = image_or_default spec.image in
    let pull_policy = default_pull_policy spec.pull_policy in
    let ttl = default_ttl spec.ttl_seconds_after_finished in
    (
      action.0 || image.0 || pull_policy.0 || ttl.0,
      record spec {
        action = action.1;
        image = image.1;
        pull_policy = pull_policy.1;
        ttl_seconds_after_finished = ttl.1;
      },
    )

-- The words that say which node a job is for.
abbrev node_words : Restore → List String → List String
node_words restore more =
    let spec = restore.spec in
    "--namespace" ∷ restore.key.namespace ∷ "--chain" ∷ spec.chain ∷ "--node" ∷ spec.node
    ∷ "--deploy-method" ∷ spec.deploy_method ∷ "--action" ∷ spec.action ∷ more

-- `buildArgsForFile`
unfoldable pub build_args_for_file : Restore → List String
build_args_for_file restore =
    "restore"
    ∷ node_words restore
        (if restore.spec.delete_consensus_data then "--delete-consensus-data" ∷ [] else [])

-- `buildArgsForSnapshot`: there are no words for an empty `crypto`.
unfoldable pub build_args_for_snapshot : Restore → Snapshot → String → String → List String
build_args_for_snapshot restore snapshot crypto consensus =
    "snapshot-recover"
    ∷ node_words restore (
        "--block-height"
        ∷ format_int snapshot.spec.block_height
        ∷ ((if crypto == "" then [] else "--crypto" ∷ crypto ∷ [])
            ++ ("--consensus"
                ∷ consensus
                ∷ (if restore.spec.delete_consensus_data
                    then "--delete-consensus-data" ∷ []
                    else []))))

-- The job of a restore from a backup, for the key of the node's label.
abbrev pub restore_job : Restore → String → Job
restore_job restore node_key =
    let spec = restore.spec in
    node_job restore.key (labels_for_node spec.chain spec.node)
      (set_affinity spec.pod_affinity_flag node_key spec.node)
      (job_container spec.image spec.pull_policy (build_args_for_file restore) (
        record { name = "restore-source"; mount_path = restore_source_volume_path }
        ∷ record { name = "restore-dest"; mount_path = restore_dest_volume_path }
        ∷ []))
      (claim_volume "restore-source" spec.backup
        ∷ claim_volume "restore-dest" (dest_claim spec.deploy_method spec.node)
        ∷ [])

-- The job of a restore from a snapshot, for the crypto and the consensus of the node.
abbrev pub snapshot_recover_job : Restore → Snapshot → String × String → String → Job
snapshot_recover_job restore snapshot found node_key =
    let spec = restore.spec in
    node_job restore.key (labels_for_node spec.chain spec.node)
      (set_affinity spec.pod_affinity_flag node_key spec.node)
      (job_container spec.image spec.pull_policy
        (build_args_for_snapshot restore snapshot found.0 found.1)
        (record { name = "restore-source"; mount_path = restore_source_volume_path }
          ∷ record { name = "restore-dest"; mount_path = restore_dest_volume_path }
          ∷ record { name = "cita-config"; mount_path = config_mount_path }
          ∷ []))
      (claim_volume "restore-source" spec.snapshot
        ∷ claim_volume "restore-dest" (dest_claim spec.deploy_method spec.node)
        ∷ config_volume (spec.node <> "-config")
        ∷ [])

module _ {W : Type 0} (op : Operator W RestoreSpec (Unit {0}))
    (get_backup : NamespacedName → Exec W Backup)
    (get_snapshot : NamespacedName → Exec W Snapshot) where
  -- The backup and the snapshot that are named are to be there. The snapshot is kept in the
  -- reconciler, `r.snapshot`, which the same run reads again.
  unfoldable pub check_sources : Restore → Exec W (Option Snapshot)
  check_sources restore = do
    when (not (restore.spec.backup == ""))
        do backup ← get_backup (beside restore.key restore.spec.backup); pure tt
    if restore.spec.snapshot == "" then pure none else (do
      snapshot ← get_snapshot (beside restore.key restore.spec.snapshot)
      pure (some snapshot))

  -- `jobForRestore`
  unfoldable pub job_for_restore : Restore → Exec W Job
  job_for_restore restore = keyed_job op restore.spec.deploy_method restore (restore_job restore)

  crypto_and_consensus : Restore → Exec W (String × String)
  crypto_and_consensus restore =
      if restore.spec.deploy_method == python_operator
      then pure ("", "")
      else if restore.spec.deploy_method == cloud_config
      then (do
        sts ← op.api.get_stateful_set (beside restore.key restore.spec.node)
        pure (filter_crypto_and_consensus sts.spec.containers))
      else pure ("", "")

  -- `jobForSnapshotRecover`, with `r.snapshot`.
  unfoldable pub job_for_snapshot_recover : Option Snapshot → Restore → Exec W Job
  unfolding crypto_and_consensus
  job_for_snapshot_recover checked restore = do
    found ← crypto_and_consensus restore
    snapshot ← deref checked
    keyed_job op restore.spec.deploy_method restore (snapshot_recover_job restore snapshot found)

  -- The job that is created: the second one where both sources are named. `Create` refuses the nil
  -- pointer that is left where none is.
  unfoldable pub job_of_sources : Option Snapshot → Restore → Exec W Job
  job_of_sources checked restore =
      if restore.spec.backup == ""
      then (if restore.spec.snapshot == ""
          then raise (failure "expected pointer, but got nil")
          else job_for_snapshot_recover checked restore)
      else (do
        job ← job_for_restore restore
        if restore.spec.snapshot == "" then pure job else job_for_snapshot_recover checked restore)

  abbrev pub kind : Kind W RestoreSpec (Unit {0}) (Option Snapshot)
  kind = record {
    set_default_spec = set_default_spec;
    ttl_seconds_after_finished = λ spec. spec.ttl_seconds_after_finished;
    check = check_sources;
    guard = λ _. pure tt;
    job_for = job_of_sources;
    result = λ _ _. pure (some tt);
  }

  -- `Reconcile`
  unfoldable pub reconcile : NamespacedName → Exec W (Answer W)
  reconcile = Reconcile.reconcile op kind
