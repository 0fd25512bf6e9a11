-- ===== src/Controllers/Restore/Laws.antt =====
-- The job of a restore, and what its reconciler does between its writes.
use cita_node_operator.Base.{
  String, ◌==◌, ◌≡◌, refl, ap, not, Exec, true, false, Option, none, some, [], ◌∷◌, eq_iff, ◌<>◌,
}
use cita_node_operator.Base.Effects.{pure, ◌>>=◌}
use cita_node_operator.Base.Hoare.{
  Triple, Triple-bind, Triple-map, Triple-if, Triple-pre, Triple-raise, Triple-pure, Triple-deref,
  Triple-when, Keeps, Keeps-pure, Keeps-bind, Keeps-if,
}
use cita_node_operator.Kube.{NamespacedName}
use cita_node_operator.Controllers.Jobs.{Job, beside}
use cita_node_operator.Controllers.Jobs.Defaults.{
  action_again, image_again, policy_again, ttl_again,
}
use cita_node_operator.Controllers.Jobs.Reconcile.{Operator}
use cita_node_operator.Controllers.Jobs.Reconcile.Owned.{KeyedBy, keyed_job_lem}
use cita_node_operator.Controllers.Jobs.Reconcile.Transitions.{State, OperatorLaws, KindLaws, Step}
use cita_node_operator.Controllers.Jobs.Describes.{
  true-not_false, the_claim, the_config_map, JobFor, node_job-JobFor, KindLaws-map,
}
use cita_node_operator.Controllers.Jobs.Reconcile.Steps.{reconcile-Step}
use cita_node_operator.Controllers.Backup.{Backup}
use cita_node_operator.Controllers.Snapshot.{Snapshot}
use cita_node_operator.Controllers.Recover.{dest_claim}
use cita_node_operator.Controllers.Recover.Laws.{dest_claim_lem}
use cita_node_operator.Controllers.Restore.{
  reconcile, build_args_for_file, build_args_for_snapshot, RestoreSpec, Restore, set_default_spec,
  restore_job, snapshot_recover_job, check_sources, job_for_restore, crypto_and_consensus,
  job_for_snapshot_recover, job_of_sources, kind,
}

pub set_default_spec_again :
    (spec : RestoreSpec)
    → set_default_spec (set_default_spec spec).1 ≡ (false, (set_default_spec spec).1)
unfolding set_default_spec
set_default_spec_again spec =
    rw
      (
        action_again spec.action,
        image_again spec.image,
        policy_again spec.pull_policy,
        ttl_again spec.ttl_seconds_after_finished,
      )
      refl

-- The job reads the backup where no snapshot is named, and the snapshot where one is.
pub data IsRestoreJob (restore : Restore) (job : Job) : Type 0 where
  from_backup :
      (restore.spec.backup == "") ≡ false
      → (restore.spec.snapshot == "") ≡ true
      → KeyedBy restore.spec.deploy_method restore (restore_job restore) job
      → IsRestoreJob restore job
  from_snapshot :
      (restore.spec.snapshot == "") ≡ false
      → (snapshot : Snapshot) (found : String × String)
      → KeyedBy restore.spec.deploy_method restore (snapshot_recover_job restore snapshot found) job
      → IsRestoreJob restore job

-- The job of a restore finds the claim of the snapshot or of the backup, and the claim of the node's
-- data; a restore from a snapshot the config map of the node as well.
pub data RestoreMakes (restore : Restore) (job : Job) : Type 0 where
  makes_from_backup :
      (dest : String)
      → (restore.spec.backup ≡ "" → ⊥)
      → restore.spec.snapshot ≡ ""
      → (restore.spec.deploy_method ≡ "cloud-config"
          → dest ≡ ("datadir-" <> restore.spec.node <> "-0"))
      → JobFor restore.key restore.spec.image "restore"
          (("/restore-source", the_claim restore.spec.backup)
            ∷ ("/restore-dest", the_claim dest)
            ∷ [])
          job
      → RestoreMakes restore job
  makes_from_snapshot :
      (dest : String)
      → (restore.spec.snapshot ≡ "" → ⊥)
      → (restore.spec.deploy_method ≡ "cloud-config"
          → dest ≡ ("datadir-" <> restore.spec.node <> "-0"))
      → JobFor restore.key restore.spec.image "snapshot-recover"
          (("/restore-source", the_claim restore.spec.snapshot)
            ∷ ("/restore-dest", the_claim dest)
            ∷ ("/cita-config", the_config_map (restore.spec.node <> "-config"))
            ∷ [])
          job
      → RestoreMakes restore job

not_empty : (s : String) → (s == "") ≡ false → s ≡ "" → ⊥
not_empty s h e = true-not_false ((eq_iff s "").1 e) h

pub restore_job-JobFor :
    (restore : Restore) (job : Job)
    → KeyedBy restore.spec.deploy_method restore (restore_job restore) job
    → JobFor restore.key restore.spec.image "restore"
        (("/restore-source", the_claim restore.spec.backup)
          ∷ ("/restore-dest", the_claim (dest_claim restore.spec.deploy_method restore.spec.node))
          ∷ [])
        job
unfolding build_args_for_file
restore_job-JobFor restore job keyed = rw keyed.2 (node_job-JobFor refl)

pub snapshot_recover_job-JobFor :
    (restore : Restore) (snapshot : Snapshot) (found : String × String) (job : Job)
    → KeyedBy restore.spec.deploy_method restore (snapshot_recover_job restore snapshot found) job
    → JobFor restore.key restore.spec.image "snapshot-recover"
        (("/restore-source", the_claim restore.spec.snapshot)
          ∷ ("/restore-dest", the_claim (dest_claim restore.spec.deploy_method restore.spec.node))
          ∷ ("/cita-config", the_config_map (restore.spec.node <> "-config"))
          ∷ [])
        job
unfolding build_args_for_snapshot
snapshot_recover_job-JobFor restore snapshot found job keyed = rw keyed.2 (node_job-JobFor refl)

IsRestoreJob-Makes :
    (restore : Restore) (job : Job) → IsRestoreJob restore job → RestoreMakes restore job
IsRestoreJob-Makes restore job (from_backup named none_named keyed) =
    makes_from_backup _ (not_empty restore.spec.backup named)
      ((eq_iff restore.spec.snapshot "").0 none_named)
      (dest_claim_lem restore.spec.deploy_method restore.spec.node)
      (restore_job-JobFor restore job keyed)
IsRestoreJob-Makes restore job (from_snapshot named snapshot found keyed) =
    makes_from_snapshot _ (not_empty restore.spec.snapshot named)
      (dest_claim_lem restore.spec.deploy_method restore.spec.node)
      (snapshot_recover_job-JobFor restore snapshot found job keyed)

RestoreMakes-key :
    (restore : Restore) (job : Job) → RestoreMakes restore job → job.key ≡ restore.key
RestoreMakes-key restore job (makes_from_backup _ _ _ _ made) = made.key_is
RestoreMakes-key restore job (makes_from_snapshot _ _ _ made) = made.key_is

IsRestoreJob-key :
    (restore : Restore) (job : Job) → IsRestoreJob restore job → job.key ≡ restore.key
IsRestoreJob-key restore job (from_backup named none_named keyed) = ap (λ (j : Job). j.key) keyed.2
IsRestoreJob-key restore job (from_snapshot named snapshot found keyed) =
    ap (λ (j : Job). j.key) keyed.2

module _ {W : Type 0} {op : Operator W RestoreSpec (Unit {0})} (L : OperatorLaws op)
    (get_backup : NamespacedName → Exec W Backup) (get_snapshot : NamespacedName → Exec W Snapshot)
    (get_backup_keeps : (c : State RestoreSpec (Unit {0})) (k : NamespacedName)
      → Keeps (λ w. L.state w ≡ c) (get_backup k))
    (get_snapshot_keeps : (c : State RestoreSpec (Unit {0})) (k : NamespacedName)
      → Keeps (λ w. L.state w ≡ c) (get_snapshot k)) where
  check-Keeps :
      (c : State RestoreSpec (Unit {0})) (restore : Restore)
      → Keeps (λ w. L.state w ≡ c) (check_sources op get_backup get_snapshot restore)
  unfolding check_sources
  check-Keeps c restore =
      Keeps-bind
        (Triple-when (not (restore.spec.backup == ""))
          {m = get_backup (beside restore.key restore.spec.backup) >>= λ _. pure tt}
          (λ _.
            Keeps-bind (get_backup_keeps c (beside restore.key restore.spec.backup))
              λ _. Keeps-pure tt)
          λ _ w h. h)
        λ _. Keeps-if (restore.spec.snapshot == "") _ _ (Keeps-pure none) (
          Keeps-bind (get_snapshot_keeps c (beside restore.key restore.spec.snapshot))
            λ snapshot. Keeps-pure (some snapshot))

  found-Keeps :
      (c : State RestoreSpec (Unit {0})) (restore : Restore)
      → Keeps (λ w. L.state w ≡ c) (crypto_and_consensus op get_backup get_snapshot restore)
  unfolding crypto_and_consensus
  found-Keeps c restore =
      Keeps-if _ _ _ (Keeps-pure _)
        (Keeps-if _ _ _ (Keeps-bind (L.stateful_sets_keep c _) λ sts. Keeps-pure _) (Keeps-pure _))

  recover_lem :
      (c : State RestoreSpec (Unit {0})) (checked : Option Snapshot) (restore : Restore)
      → (restore.spec.snapshot == "") ≡ false
      → Triple
          (λ w. L.state w ≡ c)
          (job_for_snapshot_recover op get_backup get_snapshot checked restore)
          (λ job w. (L.state w ≡ c) × IsRestoreJob restore job)
          (λ w. L.state w ≡ c)
  unfolding job_for_snapshot_recover crypto_and_consensus
  recover_lem c checked restore named = Triple-bind (found-Keeps c restore) λ found.
      Triple-bind {R = λ _ w. L.state w ≡ c} (Triple-deref checked (λ _ _ w h. h) (λ w h. h))
        λ snapshot.
          Triple-map
            (keyed_job_lem L c restore.spec.deploy_method restore
              (snapshot_recover_job restore snapshot found))
            (λ job v k. (k.0, from_snapshot named snapshot found k.1)) (λ v k. k)

  made_for :
      (c : State RestoreSpec (Unit {0})) (checked : Option Snapshot) (restore : Restore)
      → Triple
          (λ w. L.state w ≡ c)
          (job_of_sources op get_backup get_snapshot checked restore)
          (λ job w. (L.state w ≡ c) × IsRestoreJob restore job)
          (λ w. L.state w ≡ c)
  unfolding job_of_sources job_for_restore
  made_for c checked restore =
      Triple-if (restore.spec.backup == "") _ _
        (λ _.
          Triple-if (restore.spec.snapshot == "") _ _ (λ _. Triple-raise _ λ w h. h)
            (recover_lem c checked restore))
        λ backup_named.
          Triple-bind (keyed_job_lem L c restore.spec.deploy_method restore (restore_job restore))
            λ job.
              Triple-if (restore.spec.snapshot == "") _ _
                (λ e. Triple-pure job λ w h. (h.0, from_backup backup_named e h.1))
                λ named. Triple-pre (λ w h. h.0) (recover_lem c checked restore named)

  -- The job of a restore reads the backup where no snapshot is named and the snapshot where one
  -- is, and what the reconciler does between its writes leaves the restores and the jobs alone.
  pub restore-KindLaws : KindLaws L (kind op get_backup get_snapshot) IsRestoreJob
  restore-KindLaws = record {
    check_keeps = check-Keeps;
    guard_keeps = λ c r. Keeps-pure tt;
    job_law = made_for;
    result_keeps = λ c r job. Keeps-pure (some tt);
    made_key = IsRestoreJob-key;
  }

  -- One run of the reconciler of restores, however it ends, makes at most one step on the
  -- restores and the jobs: it completes the specification or the status of the one asked for, or
  -- makes its job where there is none and it is not finished, or lets its status follow the job.
  -- Where a snapshot is named the job runs the subcommand snapshot-recover, with the claim of
  -- the snapshot at /restore-source and the config map <node>-config at /cita-config; otherwise a
  -- backup is named, and the job runs the subcommand restore with its claim at /restore-source. For
  -- a cloud-config node the claim datadir-<node>-0 is at /restore-dest. Reads of backups and snapshots leave restores and jobs alone.
  pub restore-Step :
      (req : NamespacedName) (c : State RestoreSpec (Unit {0}))
      → Triple
          (λ w. L.state w ≡ c)
          (reconcile op get_backup get_snapshot req)
          (λ _ w. Step set_default_spec RestoreMakes req c (L.state w))
          (λ w. Step set_default_spec RestoreMakes req c (L.state w))
  unfolding reconcile
  restore-Step =
      reconcile-Step L (KindLaws-map IsRestoreJob-Makes RestoreMakes-key restore-KindLaws)
