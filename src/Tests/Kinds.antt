-- ===== src/Tests/Kinds.antt =====
-- The claims on the kinds of jobs, at one resource of each kind.
use cita_node_operator.Base.{◌≡◌, refl, true, none, some, ok, Exec}
use cita_node_operator.Base.Effects.{pure}
use cita_node_operator.Base.Hoare.{Post}
use cita_node_operator.Base.Int.{pos}
use cita_node_operator.Kube.{NamespacedName}
use cita_node_operator.Controllers.Objects.{put, ClientKeeps}
use cita_node_operator.Controllers.Jobs.{Resource, completed}
use cita_node_operator.Controllers.Jobs.Defaults.{IsComplete}
use cita_node_operator.Controllers.Jobs.NewClaim.{Claims}
use cita_node_operator.Controllers.Jobs.Reconcile.Transitions.{State, Step}
use cita_node_operator.Controllers.Defaults.{all_completed_again}
use cita_node_operator.Tests.Objects.{silent, silent-Keeps}
use cita_node_operator.Tests.Jobs.{operator, operator_laws, request}
use cita_node_operator.Controllers.Backup
use cita_node_operator.Controllers.Backup.{BackupSpec, BackupSize}
use cita_node_operator.Controllers.Backup.Laws.{BackupMakes, backup-Step}
use cita_node_operator.Controllers.Snapshot
use cita_node_operator.Controllers.Snapshot.{SnapshotSpec, SnapshotSize}
use cita_node_operator.Controllers.Snapshot.Laws.{SnapshotMakes, snapshot-Step}
use cita_node_operator.Controllers.Duplicate
use cita_node_operator.Controllers.Duplicate.{DuplicateSpec, DuplicateSize}
use cita_node_operator.Controllers.Recover
use cita_node_operator.Controllers.Recover.{RecoverSpec}
use cita_node_operator.Controllers.Recover.Laws.{MakesRecover, recover-Step}
use cita_node_operator.Controllers.Restore
use cita_node_operator.Controllers.Restore.{RestoreSpec}
use cita_node_operator.Controllers.Restore.Laws.{RestoreMakes, restore-Step}
use cita_node_operator.Controllers.ChangeOwner
use cita_node_operator.Controllers.ChangeOwner.{ChangeOwnerSpec}
use cita_node_operator.Controllers.ChangeOwner.Laws.{ChownMakes, chown-Step}
use cita_node_operator.Controllers.Switchover
use cita_node_operator.Controllers.Switchover.{SwitchoverSpec}
use cita_node_operator.Controllers.Switchover.Laws.{SwitchoverMakes, switchover-Step}

-- Claims of another cluster: they are made, and no state is kept of them.
abbrev pub claims : {S E : Type 0} → Claims (State S E) S E
claims = record {
  client = silent;
  parse_quantity = some;
  set_claim_reference = λ r claim. ok (record claim { owner = some r.key.name });
}

pub claims_keep :
    {S E : Type 0} (c : State S E) → ClientKeeps (claims {S = S} {E = E}).client (λ w. w ≡ c)
claims_keep c = silent-Keeps (λ w. w ≡ c)

module _ {S E : Type 0} where
  abbrev new_resource : S → E → Resource S E
  new_resource spec more = record {
    key = request;
    creation_timestamp = 1000;
    spec = spec;
    status = record { start_time = none; end_time = none; status = ""; message = ""; more = more };
  }

  abbrev pub only : Resource S E → State S E
  only r = record { resources = put request r (λ _. none); jobs = λ _. none }

abbrev pub new_backup : Backup.Backup
new_backup =
    new_resource
      (record {
        chain = "chain";
        node = "node-a";
        deploy_method = "cloud-config";
        action = "StopAndStart";
        image = "image";
        pull_policy = "IfNotPresent";
        ttl_seconds_after_finished = pos 30;
        pod_affinity_flag = true;
        storage_class = "standard";
        pvc_size = "";
      })
      (record { allocate = pos 0; actual = pos 0; block_height = pos 0 })

backup-Step_example :
    Post
      (λ _ d. Step Backup.set_default_spec BackupMakes request (only new_backup) d)
      (λ d. Step Backup.set_default_spec BackupMakes request (only new_backup) d)
      (Backup.reconcile operator claims request (only new_backup))
backup-Step_example =
    (backup-Step operator_laws claims claims_keep request (only new_backup)).run (only new_backup)
      refl

abbrev pub new_snapshot : Snapshot.Snapshot
new_snapshot =
    new_resource
      (record {
        chain = "chain";
        node = "node-a";
        deploy_method = "cloud-config";
        action = "StopAndStart";
        image = "image";
        pull_policy = "IfNotPresent";
        ttl_seconds_after_finished = pos 30;
        pod_affinity_flag = true;
        block_height = pos 30;
        storage_class = "standard";
        pvc_size = "10Gi";
      })
      (record { allocate = pos 0; actual = pos 0 })

snapshot-Step_example :
    Post
      (λ _ d. Step Snapshot.set_default_spec SnapshotMakes request (only new_snapshot) d)
      (λ d. Step Snapshot.set_default_spec SnapshotMakes request (only new_snapshot) d)
      (Snapshot.reconcile operator claims request (only new_snapshot))
snapshot-Step_example =
    (snapshot-Step operator_laws claims claims_keep request (only new_snapshot)).run
      (only new_snapshot) refl

abbrev pub new_duplicate : Duplicate.Duplicate
new_duplicate =
    new_resource
      (record {
        chain = "chain";
        node = "node-a";
        deploy_method = "cloud-config";
        action = "StopAndStart";
        image = "image";
        pull_policy = "IfNotPresent";
        ttl_seconds_after_finished = pos 30;
        pod_affinity_flag = true;
        backend = some (record { pvc = "pvc-backend"; path = "/backup/node-a" });
        compress = none;
      })
      (record { allocate = pos 0; actual = pos 0; md5 = ""; block_height = pos 0 })

abbrev pub new_recovery : Recover.Recover
new_recovery =
    new_resource
      (record {
        chain = "chain";
        node = "node-a";
        deploy_method = "cloud-config";
        action = "StopAndStart";
        image = "image";
        pull_policy = "IfNotPresent";
        ttl_seconds_after_finished = pos 30;
        pod_affinity_flag = true;
        backend = some (record { pvc = "pvc-backend"; path = "/backup/node-a" });
        decompress = none;
        delete_consensus_data = true;
      })
      (tt)

recover-Step_example :
    Post
      (λ _ d. Step Recover.set_default_spec MakesRecover request (only new_recovery) d)
      (λ d. Step Recover.set_default_spec MakesRecover request (only new_recovery) d)
      (Recover.reconcile operator request (only new_recovery))
recover-Step_example =
    (recover-Step operator_laws request (only new_recovery)).run (only new_recovery) refl

abbrev find_backup : NamespacedName → Exec (State RestoreSpec (Unit {0})) Backup.Backup
find_backup k = pure new_backup

abbrev find_snapshot : NamespacedName → Exec (State RestoreSpec (Unit {0})) Snapshot.Snapshot
find_snapshot k = pure new_snapshot

abbrev pub new_restore : Restore.Restore
new_restore =
    new_resource
      (record {
        chain = "chain";
        node = "node-a";
        deploy_method = "cloud-config";
        action = "StopAndStart";
        image = "image";
        pull_policy = "IfNotPresent";
        ttl_seconds_after_finished = pos 30;
        pod_affinity_flag = true;
        backup = "backup";
        snapshot = "";
        delete_consensus_data = true;
      })
      (tt)

restore-Step_example :
    Post
      (λ _ d. Step Restore.set_default_spec RestoreMakes request (only new_restore) d)
      (λ d. Step Restore.set_default_spec RestoreMakes request (only new_restore) d)
      (Restore.reconcile operator find_backup find_snapshot request (only new_restore))
restore-Step_example =
    (restore-Step operator_laws find_backup find_snapshot (λ c k. record { run = λ w h. h })
        (λ c k. record { run = λ w h. h }) request (only new_restore)).run
      (only new_restore) refl

abbrev pub new_owner : ChangeOwner.ChangeOwner
new_owner =
    new_resource
      (record {
        chain = "chain";
        node = "node-a";
        deploy_method = "cloud-config";
        action = "StopAndStart";
        image = "image";
        pull_policy = "IfNotPresent";
        ttl_seconds_after_finished = pos 30;
        pod_affinity_flag = true;
        uid = pos 1000;
        gid = pos 1000;
      })
      (tt)

chown-Step_example :
    Post
      (λ _ d. Step ChangeOwner.set_default_spec ChownMakes request (only new_owner) d)
      (λ d. Step ChangeOwner.set_default_spec ChownMakes request (only new_owner) d)
      (ChangeOwner.reconcile operator request (only new_owner))
chown-Step_example = (chown-Step operator_laws request (only new_owner)).run (only new_owner) refl

abbrev pub new_switchover : Switchover.Switchover
new_switchover =
    new_resource
      (record {
        chain = "chain";
        source_node = "node-a";
        dest_node = "node-b";
        image = "image";
        pull_policy = "IfNotPresent";
        ttl_seconds_after_finished = pos 30;
      })
      (tt)

switchover-Step_example :
    Post
      (λ _ d. Step Switchover.set_default_spec SwitchoverMakes request (only new_switchover) d)
      (λ d. Step Switchover.set_default_spec SwitchoverMakes request (only new_switchover) d)
      (Switchover.reconcile operator (λ _. pure tt) request (only new_switchover))
switchover-Step_example =
    (switchover-Step operator_laws (λ _. pure tt) (λ c k. record { run = λ w h. h }) request
        (only new_switchover)).run
      (only new_switchover) refl

all_completed_again_example :
    IsComplete Backup.set_default_spec (completed Backup.set_default_spec new_backup)
    × IsComplete Snapshot.set_default_spec (completed Snapshot.set_default_spec new_snapshot)
    × IsComplete Duplicate.set_default_spec (completed Duplicate.set_default_spec new_duplicate)
    × IsComplete Recover.set_default_spec (completed Recover.set_default_spec new_recovery)
    × IsComplete Restore.set_default_spec (completed Restore.set_default_spec new_restore)
    × IsComplete ChangeOwner.set_default_spec (completed ChangeOwner.set_default_spec new_owner)
    × IsComplete Switchover.set_default_spec (completed Switchover.set_default_spec new_switchover)
all_completed_again_example =
    all_completed_again new_backup new_snapshot new_duplicate new_recovery new_restore new_owner
      new_switchover
