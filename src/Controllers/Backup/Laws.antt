-- ===== src/Controllers/Backup/Laws.antt =====
-- The job of a backup, what its reconciler does between its writes, and where it cannot go on.
use cita_node_operator.Base.{String, ◌<>◌, ◌==◌, ◌≡◌, refl, ap, false, some, [], ◌∷◌}
use cita_node_operator.Base.Hoare.{
  Triple, Triple-bind, Triple-map, Triple-if, Triple-pure, Keeps, Keeps-pure, Keeps-bind, Keeps-if,
}
use cita_node_operator.Kube.{NamespacedName, VolumeClaim}
use cita_node_operator.Node.Common.{python_operator}
use cita_node_operator.Controllers.Objects.{Objects, ClientKeeps}
use cita_node_operator.Controllers.Jobs.{Job}
use cita_node_operator.Controllers.Jobs.Claims.Keeps.{required_claim-Keeps, size_from_pod-Keeps}
use cita_node_operator.Controllers.Jobs.NewClaim.{Claims}
use cita_node_operator.Controllers.Jobs.NewClaim.Keeps.{
  sized_resources-Keeps, size_or_claim-Keeps, make_claim-Keeps,
}
use cita_node_operator.Controllers.Jobs.NewClaim.Stuck.{ClaimsLaws, get-Keeps, make_claim-stuck}
use cita_node_operator.Controllers.Jobs.Defaults.{
  action_again, image_again, policy_again, ttl_again,
}
use cita_node_operator.Controllers.Jobs.Reconcile.{Operator}
use cita_node_operator.Controllers.Jobs.Reconcile.Owned.{KeyedBy, keyed_job_lem}
use cita_node_operator.Controllers.Jobs.Reconcile.Transitions.{State, OperatorLaws, KindLaws, Step}
use cita_node_operator.Controllers.Jobs.Describes.{the_claim, JobFor, node_job-JobFor, KindLaws-map}
use cita_node_operator.Controllers.Jobs.Reconcile.Steps.{reconcile-Step}
use cita_node_operator.Controllers.Backup.{
  reconcile, BackupSpec, BackupSize, Backup, set_default_spec, backup_job, backup_source,
  job_for_backup, with_actual, backup_result, kind,
}

pub set_default_spec_again :
    (spec : BackupSpec)
    → set_default_spec (set_default_spec spec).1 ≡ (false, (set_default_spec spec).1)
unfolding set_default_spec
set_default_spec_again spec =
    rw
      (
        action_again spec.action,
        image_again spec.image,
        policy_again spec.pull_policy,
        ttl_again spec.ttl_seconds_after_finished,
      )
      refl

-- The claim is that of the node's StatefulSet, but for a node that is a Deployment.
abbrev pub ClaimOf : Backup → String → Type 0
ClaimOf backup claim =
    (backup.spec.deploy_method == python_operator) ≡ false
    → claim ≡ ("datadir-" <> backup.spec.node <> "-0")

abbrev pub IsBackupJob : Backup → Job → Type 0
IsBackupJob backup job =
    (claim : String) × ClaimOf backup claim
    × KeyedBy backup.spec.deploy_method backup (backup_job backup claim) job

-- The job of a backup finds the claim of the node's data at one path, and the claim that has the
-- name of the backup at the other.
abbrev pub BackupMakes : Backup → Job → Type 0
BackupMakes backup job =
    (claim : String) × ClaimOf backup claim
    × JobFor backup.key backup.spec.image "backup"
        (("/backup-source", the_claim claim) ∷ ("/backup-dest", the_claim backup.key.name) ∷ []) job

pub IsBackupJob-Makes :
    (backup : Backup) (job : Job) → IsBackupJob backup job → BackupMakes backup job
IsBackupJob-Makes backup job made = rw made.2.2 (made.0, made.1, node_job-JobFor refl)

module _ {W : Type 0} (op : Operator W BackupSpec BackupSize)
    (claims : Claims W BackupSpec BackupSize) {P : W → Type 0}
    (deployments_keep : (k : NamespacedName) → Keeps P (op.api.get_deployment k))
    (stateful_sets_keep : (k : NamespacedName) → Keeps P (op.api.get_stateful_set k))
    (claims_keep : (k : NamespacedName) → Keeps P (claims.client.get k)) where
  source_lem :
      (backup : Backup)
      → Triple P (backup_source op claims backup) (λ source w. P w × ClaimOf backup source.0) P
  unfolding backup_source
  source_lem backup =
      Triple-if (backup.spec.deploy_method == python_operator) _ _
        (λ e.
          Triple-map
            (Keeps-bind (deployments_keep _) λ deploy.
              Keeps-bind (required_claim-Keeps deploy) λ claim.
                Keeps-bind (size_or_claim-Keeps claims claims_keep _ _)
                  λ resources. Keeps-pure (claim, resources))
            (λ source w h. (h, λ other. cc)) (λ w h. h))
        (λ _.
          Triple-bind
            (Keeps-if (backup.spec.pvc_size == "") _ _
              (Keeps-bind (stateful_sets_keep _) λ sts. Keeps-pure _)
              (sized_resources-Keeps claims _))
            λ resources. Triple-pure _ λ w h. (h, λ _. refl))

module _ {W : Type 0} {op : Operator W BackupSpec BackupSize} (L : OperatorLaws op)
    (claims : Claims W BackupSpec BackupSize)
    (claims_keep : (c : State BackupSpec BackupSize)
      → ClientKeeps claims.client (λ w. L.state w ≡ c)) where
  made_for :
      (c : State BackupSpec BackupSize) (backup : Backup)
      → Triple
          (λ w. L.state w ≡ c)
          (job_for_backup op claims backup)
          (λ job w. (L.state w ≡ c) × IsBackupJob backup job)
          (λ w. L.state w ≡ c)
  unfolding job_for_backup
  made_for c backup =
      Triple-bind
        (source_lem op claims (L.deployments_keep c) (L.stateful_sets_keep c)
          (claims_keep c).get_keeps backup)
        λ source. record {
          run = λ w h.
              (Triple-bind
                  (make_claim-Keeps claims (claims_keep c).create_keeps backup source.1
                    backup.spec.storage_class)
                  λ _.
                    Triple-map
                      (keyed_job_lem L c backup.spec.deploy_method backup
                        (backup_job backup source.0))
                      (λ job v k. (k.0, (source.0, h.1, k.1))) (λ v k. k)).run
                w h.0;
        }

  pub backup-KindLaws : KindLaws L (kind op claims) IsBackupJob
  unfolding backup_result
  backup-KindLaws = record {
    check_keeps = λ c r. Keeps-pure tt;
    guard_keeps = λ c r. Keeps-pure tt;
    job_law = λ c checked backup. made_for c backup;
    result_keeps = λ c backup job.
        Keeps-bind (size_from_pod-Keeps op.api (L.pods_keep c) "backup-size" backup job)
          λ size. Keeps-pure (with_actual op claims backup.status.more size);
    made_key = λ backup job made. ap (λ (j : Job). j.key) made.2.2;
  }

  -- One run of the reconciler of backups, whatever the cluster answers and however it ends,
  -- makes at most one step on the backups and the jobs: it completes the specification or the
  -- status of the one asked for, or makes its job where there is none and it is not finished, or
  -- lets its status follow the job. The job runs the subcommand backup; but for
  -- a python node it has the claim datadir-<node>-0 at /backup-source, and it has the claim of the
  -- backup's name at /backup-dest. Calls for claims leave backups and jobs alone.
  pub backup-Step :
      (req : NamespacedName) (c : State BackupSpec BackupSize)
      → Triple
          (λ w. L.state w ≡ c)
          (reconcile op claims req)
          (λ _ w. Step set_default_spec BackupMakes req c (L.state w))
          (λ w. Step set_default_spec BackupMakes req c (L.state w))
  unfolding reconcile
  backup-Step =
      reconcile-Step L
        (KindLaws-map IsBackupJob-Makes (λ r job made. made.2.key_is) backup-KindLaws)

module _ {W : Type 0} (op : Operator W BackupSpec BackupSize)
    {claims : Claims W BackupSpec BackupSize} (C : ClaimsLaws claims)
    (deployments_keep : (f : Objects VolumeClaim) (k : NamespacedName)
      → Keeps (λ w. C.stored w ≡ f) (op.api.get_deployment k))
    (stateful_sets_keep : (f : Objects VolumeClaim) (k : NamespacedName)
      → Keeps (λ w. C.stored w ≡ f) (op.api.get_stateful_set k)) where
  -- Where a claim of the backup's name is there already, as it is when an earlier run has made it
  -- and then failed to make the job, no job is made for the backup: it fails, however often it is
  -- tried, and the claims stay as they are.
  pub job_for_backup-stuck :
      (f : Objects VolumeClaim) (backup : Backup) (x : VolumeClaim)
      → f backup.key ≡ some x
      → Triple
          (λ w. C.stored w ≡ f)
          (job_for_backup op claims backup)
          (λ _ _. ⊥)
          (λ w. C.stored w ≡ f)
  unfolding job_for_backup
  job_for_backup-stuck f backup x there =
      Triple-bind {R = λ _ w. C.stored w ≡ f}
        (Triple-map
          (source_lem op claims (deployments_keep f) (stateful_sets_keep f) (get-Keeps C f) backup)
          (λ _ w h. h.0) (λ w h. h))
        λ source.
          Triple-bind (make_claim-stuck C f backup x there source.1 backup.spec.storage_class)
            λ _. record { run = λ w h. absurd h }
