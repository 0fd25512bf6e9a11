-- ===== src/Cmd/Jobs/Runs.antt =====
-- The jobs that the reconcilers make run the subcommands that they are meant to.
use cita_node_operator.Base.{String, ◌≡◌, refl, some, List, [], ◌∷◌, Dict, Result}
use cita_node_operator.Kube.{Container}
use cita_node_operator.Cmd.Flags.{Value, CobraLaws, Invocation, Runs}
use cita_node_operator.Cmd.Jobs.{
  recover_run, restore_run, snapshot_run, snapshot_recover_run, fallback_run, chown_run,
  switchover_run,
}
use cita_node_operator.Cmd.Jobs.Words.{
  recover_args-Runs, build_args_for_file-Runs, snapshot_args-Runs, build_args_for_snapshot-Runs,
  build_args-Runs, chown_args-Runs, switchover_args-Runs,
}
use cita_node_operator.Base.Int.{IsInt64}
use cita_node_operator.Base.{◌<>◌}
use cita_node_operator.Controllers.Jobs.Describes.{the_claim, the_config_map, JobFor}
use cita_node_operator.Controllers.Jobs.{Job, beside}
use cita_node_operator.Controllers.Jobs.Reconcile.Owned.{KeyedBy}
use cita_node_operator.Controllers.Snapshot.{
  Snapshot, SnapshotSpec, SnapshotSize, snapshot_args, job_for_snapshot,
}
use cita_node_operator.Controllers.Snapshot.Found.{IsJobOf, job_for_snapshot-IsJobOf}
use cita_node_operator.Controllers.Fallback.Job.Found as Fallbacks
use cita_node_operator.Controllers.Fallback.Job.Found.{
  last_said, crypto_said, consensus_said, job_for-IsJobOf,
}
use cita_node_operator.Controllers.Jobs.NewClaim.{Claims}
use cita_node_operator.Controllers.Jobs.Reconcile.{Operator}
use cita_node_operator.Controllers.Jobs.Reconcile.Transitions.{State, OperatorLaws}
use cita_node_operator.Controllers.Objects.{ClientKeeps}
use cita_node_operator.Base.{sym}
use cita_node_operator.Base.Hoare.{Triple, Triple-map}
use cita_node_operator.Kube.{Workload}
use cita_node_operator.Controllers.Duplicate.{Duplicate}
use cita_node_operator.Controllers.Recover.{Recover, Backend}
use cita_node_operator.Controllers.Recover.Laws.{
  IsRecoverJob, RecoverMakes, IsRecoverJob-Makes, dest_claim_lem,
}
use cita_node_operator.Controllers.Restore.Laws.{restore_job-JobFor, snapshot_recover_job-JobFor}
use cita_node_operator.Controllers.Restore.{
  Restore, restore_job, snapshot_recover_job, build_args_for_file, build_args_for_snapshot,
}
use cita_node_operator.Controllers.ChangeOwner.{ChangeOwner}
use cita_node_operator.Controllers.ChangeOwner.Laws.{IsChownJob}
use cita_node_operator.Controllers.Switchover.{Switchover}
use cita_node_operator.Controllers.Switchover.Laws.{IsSwitchoverJob}
use cita_node_operator.Controllers.Fallback.{BlockHeightFallback, FallbackSpec}
use cita_node_operator.Controllers.Fallback.Job.{build_args, new_job, job_for}
use cita_node_operator.Controllers.Backup.{Backup}

-- The claim of the data of a cloud-config node.
abbrev pub DataClaim : Restore → String → Type 0
DataClaim r dest =
    r.spec.deploy_method ≡ "cloud-config" → dest ≡ ("datadir-" <> r.spec.node <> "-0")

-- The one container of a job runs what is told.
abbrev pub JobRuns : (Dict Value → List String → Result (Dict Value)) → Job → Invocation → Type 0
JobRuns parse job i =
    (container : Container) × (job.containers ≡ container ∷ [])
    × (container.command ≡ "/cita-node-cli" ∷ [])
    × Runs parse container.args i

module _ {parse : Dict Value → List String → Result (Dict Value)} (L : CobraLaws parse) where
  -- The job of a recovery runs the subcommand restore from the path of its backend to
  -- /restore-dest, decompressed and checked where the recovery says so; it finds the claim of the
  -- backend at the mount point of that path. The job of a restore from a backup runs the subcommand
  -- restore from /restore-source, where it finds the claim of the backup, to /restore-dest, and that
  -- from a snapshot the subcommand snapshot-recover with the height of the snapshot, where that is
  -- an int64, with the claim of the snapshot at /restore-source. For a cloud-config node the claim
  -- of its data is at /restore-dest. Each has the action and the deletion of consensus data of its
  -- resource. The parser of flags is as its documentation says.
  pub restores-JobRuns :
      (v : Recover) (r : Restore) (s : Snapshot) (crypto consensus : String) (i j k : Job)
      → IsInt64 s.spec.block_height
      → IsRecoverJob v i
      → KeyedBy r.spec.deploy_method r (restore_job r) j
      → KeyedBy r.spec.deploy_method r (snapshot_recover_job r s (crypto, consensus)) k
      → ((backend : Backend) × (v.spec.backend ≡ some backend)
          × JobRuns parse i (recover_run v backend)
          × RecoverMakes v backend i)
        × (JobRuns parse j (restore_run r)
            × ((dest : String) × DataClaim r dest
                × JobFor r.key r.spec.image "restore"
                    (("/restore-source", the_claim r.spec.backup)
                      ∷ ("/restore-dest", the_claim dest)
                      ∷ [])
                    j))
        × (JobRuns parse k (snapshot_recover_run r s crypto consensus)
            × ((dest : String) × DataClaim r dest
                × JobFor r.key r.spec.image "snapshot-recover"
                    (("/restore-source", the_claim r.spec.snapshot)
                      ∷ ("/restore-dest", the_claim dest)
                      ∷ ("/cita-config", the_config_map (r.spec.node <> "-config"))
                      ∷ [])
                    k))
  unfolding build_args_for_file build_args_for_snapshot
  restores-JobRuns v r s crypto consensus i j k range made from_file from_snapshot = (
    (
      made.0,
      made.1,
      rw made.4.2 (_, refl, refl, recover_args-Runs L v made.0),
      IsRecoverJob-Makes v i made,
    ),
    (
      rw from_file.2 (_, refl, refl, build_args_for_file-Runs L r),
      (_, dest_claim_lem r.spec.deploy_method r.spec.node, restore_job-JobFor r j from_file),
    ),
    (
      rw from_snapshot.2 (_, refl, refl, build_args_for_snapshot-Runs L r s crypto consensus range),
      (
        _,
        dest_claim_lem r.spec.deploy_method r.spec.node,
        snapshot_recover_job-JobFor r s (crypto, consensus) k from_snapshot,
      ),
    ),
  )

  snapshot_made-JobRuns :
      (s : Snapshot) (x : Workload) (job : Job)
      → IsInt64 s.spec.block_height
      → IsJobOf x s job
      → JobRuns parse job (
          snapshot_run s
            (last_said crypto_said x.spec.containers)
            (last_said consensus_said x.spec.containers))
  snapshot_made-JobRuns s x job range made =
      rw made.2.2 (_, refl, refl, go made.0.crypto made.0.consensus made.1.0 made.1.1)
    where
      go :
          (crypto consensus : String)
          → crypto ≡ last_said crypto_said x.spec.containers
          → consensus ≡ last_said consensus_said x.spec.containers
          → Runs parse (snapshot_args s crypto consensus) (
              snapshot_run s
                (last_said crypto_said x.spec.containers)
                (last_said consensus_said x.spec.containers))
      go crypto consensus e f = rw (sym e, sym f) (snapshot_args-Runs L s crypto consensus range)

  fallback_made-JobRuns :
      (b : BlockHeightFallback) (y : Workload) (job : Job)
      → IsInt64 b.spec.block_height
      → Fallbacks.IsJobOf y b job
      → JobRuns parse job (
          fallback_run b
            (last_said crypto_said y.spec.containers)
            (last_said consensus_said y.spec.containers))
  unfolding build_args new_job
  fallback_made-JobRuns b y job height made =
      rw made.2 (_, refl, refl, build_args-Runs L b _ _ height)

  -- In a state in which the StatefulSets of two cloud-config nodes are `x` and `y`: a job that the
  -- reconciler of snapshots makes for a snapshot of the first runs the subcommand snapshot, and a
  -- job that is made for a fallback of the second the subcommand fallback, for the node and with the
  -- action and the block height of the resource, where that is an int64, and with the crypto and the
  -- consensus that the containers of the StatefulSet say, by the last that says one; but for an empty crypto: then the default "sm" is taken. Calls for claims leave snapshots and
  -- jobs alone. The parser of flags is as its documentation says.
  pub heights-JobRuns :
      {W V : Type 0} {op : Operator W SnapshotSpec SnapshotSize} (M : OperatorLaws op)
      (claims : Claims W SnapshotSpec SnapshotSize) (c : State SnapshotSpec SnapshotSize)
      (claims_keep : ClientKeeps claims.client (λ w. M.state w ≡ c))
      {fallbacks : Operator V FallbackSpec (Unit {0})} (N : OperatorLaws fallbacks)
      (d : State FallbackSpec (Unit {0})) (s : Snapshot) (b : BlockHeightFallback) (x y : Workload)
      → s.spec.deploy_method ≡ "cloud-config"
      → b.spec.deploy_method ≡ "cloud-config"
      → IsInt64 s.spec.block_height
      → IsInt64 b.spec.block_height
      → Triple
          (λ w. M.state w ≡ c)
          (op.api.get_stateful_set (beside s.key s.spec.node))
          (λ z w. (M.state w ≡ c) × (z ≡ x))
          (λ w. M.state w ≡ c)
      → Triple
          (λ w. N.state w ≡ d)
          (fallbacks.api.get_stateful_set (beside b.key b.spec.node))
          (λ z w. (N.state w ≡ d) × (z ≡ y))
          (λ w. N.state w ≡ d)
      → Triple
          (λ w. M.state w ≡ c)
          (job_for_snapshot op claims s)
          (λ job _. JobRuns parse job (
            snapshot_run s
              (last_said crypto_said x.spec.containers)
              (last_said consensus_said x.spec.containers)))
          (λ w. M.state w ≡ c)
        × Triple
            (λ w. N.state w ≡ d)
            (job_for fallbacks.api fallbacks.list_deployments fallbacks.set_controller_reference b)
            (λ job _. JobRuns parse job (
              fallback_run b
                (last_said crypto_said y.spec.containers)
                (last_said consensus_said y.spec.containers)))
            (λ w. N.state w ≡ d)
  heights-JobRuns M claims c claims_keep {fallbacks = fallbacks} N d s b x y method method' range
        height read read' =
      (
        Triple-map (job_for_snapshot-IsJobOf M claims c claims_keep s x method read)
            (λ job w h. snapshot_made-JobRuns s x job range h.1) (λ w h. h),
        Triple-map
            (job_for-IsJobOf fallbacks.api fallbacks.list_deployments (λ w. N.state w ≡ d) b y
              method' read' fallbacks.set_controller_reference N.reference_law)
            (λ job w h. fallback_made-JobRuns b y job height h.1) (λ w h. h),
      )

  -- The job of a change of owner runs the subcommand chown with the user and the group of the
  -- resource, where they are int64s, and that of a switchover the subcommand switchover with its
  -- two nodes. The parser of flags is as its documentation says.
  pub owners-JobRuns :
      (o : ChangeOwner) (s : Switchover) (i j : Job)
      → IsInt64 o.spec.uid
      → IsInt64 o.spec.gid
      → IsChownJob o i
      → IsSwitchoverJob s j
      → JobRuns parse i (chown_run o) × JobRuns parse j (switchover_run s)
  owners-JobRuns o s i j user group made again = (
    rw made.2.2 (_, refl, refl, chown_args-Runs L o user group),
    rw again (_, refl, refl, switchover_args-Runs L s),
  )
