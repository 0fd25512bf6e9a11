-- ===== src/Tests/Stuck.antt =====
-- Backups and snapshots whose claims are there already.
use cita_node_operator.Base.{◌≡◌, refl, false, none, some, [], ◌∷◌, ok}
use cita_node_operator.Base.Effects.{pure}
use cita_node_operator.Base.Hoare.{Post}
use cita_node_operator.Kube.{VolumeClaim}
use cita_node_operator.Controllers.Objects.{put, Objects}
use cita_node_operator.Controllers.Jobs.{Resource, Job}
use cita_node_operator.Controllers.Jobs.NewClaim.{Claims}
use cita_node_operator.Controllers.Jobs.NewClaim.Stuck.{ClaimsLaws, claims_place}
use cita_node_operator.Controllers.Jobs.Reconcile.{Operator}
use cita_node_operator.Tests.Objects.{memory, memory_laws, silent, calm_api}
use cita_node_operator.Tests.Jobs.{request}
use cita_node_operator.Controllers.Backup
use cita_node_operator.Controllers.Backup.{BackupSpec, BackupSize}
use cita_node_operator.Controllers.Backup.Laws.{job_for_backup-stuck}
use cita_node_operator.Controllers.Snapshot
use cita_node_operator.Controllers.Snapshot.{SnapshotSpec, SnapshotSize}
use cita_node_operator.Controllers.Snapshot.Laws.{job_for_snapshot-stuck}
use cita_node_operator.Tests.Kinds.{new_backup, new_snapshot}

-- A cluster that keeps claims alone.
module _ {S E : Type 0} where
  abbrev claims_operator : Operator (Objects VolumeClaim) S E
  claims_operator = record {
    api = calm_api;
    rbac = record { service_accounts = silent; roles = silent; role_bindings = silent };
    resources = silent;
    jobs = silent;
    list_deployments = λ _ _. pure [];
    delete_job = λ _. pure tt;
    sleep = λ _. pure tt;
    set_controller_reference = λ r job. ok (record job { owner = some r.key.name });
    is_equal = λ _ _. false;
  }

  abbrev stored_claims : Claims (Objects VolumeClaim) S E
  stored_claims = record {
    client = memory claims_place;
    parse_quantity = some;
    set_claim_reference = λ r claim. ok (record claim { owner = some r.key.name });
  }

  claim_owner_is_set :
      (r : Resource S E) (claim owned : VolumeClaim)
      → stored_claims.set_claim_reference r claim ≡ ok owned
      → owned ≡ record claim { owner = some r.key.name }
  claim_owner_is_set r claim owned e = cc

  abbrev stored_claims_laws : ClaimsLaws stored_claims
  stored_claims_laws = record {
    stored = λ f. f;
    client_laws = memory_laws claims_place;
    claim_reference_law = claim_owner_is_set;
  }

abbrev old_claim : VolumeClaim
old_claim = record {
  key = request;
  access_modes = "ReadWriteOnce" ∷ [];
  resources = record { limits = []; requests = [] };
  storage_class = "standard";
  owner = some "fallback";
}

abbrev with_claim : Objects VolumeClaim
with_claim = put request old_claim (λ _. none)

job_for_backup-stuck_example :
    Post {A = Job}
      (λ _ _. ⊥)
      (λ f. f ≡ with_claim)
      (Backup.job_for_backup claims_operator stored_claims new_backup with_claim)
job_for_backup-stuck_example =
    (job_for_backup-stuck claims_operator stored_claims_laws (λ f k. record { run = λ w h. h })
        (λ f k. record { run = λ w h. h }) with_claim new_backup old_claim refl).run
      with_claim refl

job_for_snapshot-stuck_example :
    Post {A = Job}
      (λ _ _. ⊥)
      (λ f. f ≡ with_claim)
      (Snapshot.job_for_snapshot claims_operator stored_claims new_snapshot with_claim)
job_for_snapshot-stuck_example =
    (job_for_snapshot-stuck claims_operator stored_claims_laws (λ f k. record { run = λ w h. h })
        (λ f k. record { run = λ w h. h }) with_claim new_snapshot old_claim refl).run
      with_claim refl
