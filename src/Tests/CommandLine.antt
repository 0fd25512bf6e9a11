-- ===== src/Tests/CommandLine.antt =====
-- A parser of flags that keeps the laws, and the jobs of one resource of each kind.
use cita_node_operator.Base.{
  String, ◌≡◌, refl, Bool, true, none, some, List, [], ◌∷◌, Dict, lookup, Result, ok, err, message,
  arith,
}
use cita_node_operator.Base.Text.Decimal.{parse_int, parse_int-format_int}
use cita_node_operator.Cmd.Flags.{Value, text, number, on_off, CobraLaws}
use cita_node_operator.Cmd.Jobs.{
  recover_run, restore_run, snapshot_run, snapshot_recover_run, fallback_run, chown_run,
  switchover_run,
}
use cita_node_operator.Cmd.Jobs.Runs.{
  JobRuns, DataClaim, restores-JobRuns, heights-JobRuns, owners-JobRuns,
}
use cita_node_operator.Controllers.Labels.{get_mount_point, get_node_label_key_by_type}
use cita_node_operator.Base.Text.{split}
use cita_node_operator.Controllers.Backup.{backup_job}
use cita_node_operator.Controllers.Duplicate.{duplicate_job}
use cita_node_operator.Controllers.Recover.{Backend, recover_job}
use cita_node_operator.Controllers.Restore.{restore_job, snapshot_recover_job}
use cita_node_operator.Controllers.Snapshot.{job_for_snapshot}
use cita_node_operator.Controllers.ChangeOwner.{chown_job}
use cita_node_operator.Controllers.Switchover.{switchover_job}
use cita_node_operator.Controllers.Fallback.Job.{job_for, filter_crypto_and_consensus}
use cita_node_operator.Controllers.Fallback.Job.Found.{
  last_said, crypto_said, consensus_said, filter_crypto_and_consensus_lem,
}
use cita_node_operator.Kube.{Container}
use cita_node_operator.Controllers.Fallback.{FallbackSpec}
use cita_node_operator.Base.Hoare.{Triple}
use cita_node_operator.Tests.Objects.{workload}
use cita_node_operator.Controllers.Jobs.{Job, beside, job_container}
use cita_node_operator.Controllers.Jobs.Describes.{the_claim, the_config_map, JobFor}
use cita_node_operator.Controllers.Recover.Laws.{RecoverMakes}
use cita_node_operator.Tests.Jobs.{operator, operator_laws, new_fallback, request}
use cita_node_operator.Tests.Kinds.{
  claims, claims_keep, only, new_backup, new_snapshot, new_duplicate, new_recovery, new_restore,
  new_owner, new_switchover,
}

parse : Dict Value → List String → Result (Dict Value)
parse values [] = ok values
parse values (name ∷ []) = elim (lookup name values) [
  | none ↦ err (message "unknown flag")
  | some v ↦ elim v [
    | text _ ↦ err (message "no value")
    | number _ ↦ err (message "no value")
    | on_off _ ↦ ok ((name, on_off true) ∷ values)
  ]
]
parse values (name ∷ value ∷ words) = elim (lookup name values) [
  | none ↦ err (message "unknown flag")
  | some v ↦ elim v [
    | text _ ↦ parse ((name, text value) ∷ values) words
    | number _ ↦ elim (parse_int value) [
      | ok n ↦ parse ((name, number n) ∷ values) words
      | err e ↦ err e
    ]
    | on_off _ ↦ parse ((name, on_off true) ∷ values) (value ∷ words)
  ]
]

parse-on_off :
    (values : Dict Value) (name : String) {b : Bool} (words : List String)
    → lookup name values ≡ some (on_off b)
    → parse values (name ∷ words) ≡ parse ((name, on_off true) ∷ values) words
unfolding parse
parse-on_off values name [] e = rw (e, parse) refl
parse-on_off values name (value ∷ words) e = rw (e, parse) refl

laws : CobraLaws parse
unfolding parse
laws = record {
  end_law = refl;
  text_law = λ e. rw (e, parse) refl;
  number_law = λ {n = n} e range. rw (e, parse_int-format_int n range, parse) refl;
  on_off_law =
      λ {values = values} {name = name} {words = words} e. parse-on_off values name words e;
}

abbrev owned : Job → Job
owned job = record job { owner = some "fallback" }

abbrev node_label : String
node_label = "app.kubernetes.io/chain-node"

abbrev backend : Backend
backend = record { pvc = "pvc-backend"; path = "/backup/node-a" }

abbrev backup_made : Job
backup_made = owned (backup_job new_backup "datadir-node-a-0" node_label)

abbrev duplicate_made : Job
duplicate_made = owned (duplicate_job new_duplicate "datadir-node-a-0" backend "/backup" node_label)

mounted : get_mount_point "/backup/node-a" ≡ ok "/backup"
unfolding get_mount_point split
mounted = refl

abbrev recover_made : Job
recover_made = owned (recover_job new_recovery backend "/backup" node_label)

abbrev restore_made : Job
restore_made = owned (restore_job new_restore node_label)

abbrev snapshot_recover_made : Job
snapshot_recover_made =
    owned (snapshot_recover_job new_restore new_snapshot ("eth", "raft") node_label)

restores-JobRuns_example :
    ((b : Backend) × (new_recovery.spec.backend ≡ some b)
      × JobRuns parse recover_made (recover_run new_recovery b)
      × RecoverMakes new_recovery b recover_made)
    × (JobRuns parse restore_made (restore_run new_restore)
        × ((dest : String) × DataClaim new_restore dest
            × JobFor request "image" "restore"
                (("/restore-source", the_claim "backup") ∷ ("/restore-dest", the_claim dest) ∷ [])
                restore_made))
    × (JobRuns parse snapshot_recover_made
          (snapshot_recover_run new_restore new_snapshot "eth" "raft")
        × ((dest : String) × DataClaim new_restore dest
            × JobFor request "image" "snapshot-recover"
                (("/restore-source", the_claim "")
                  ∷ ("/restore-dest", the_claim dest)
                  ∷ ("/cita-config", the_config_map "node-a-config")
                  ∷ [])
                snapshot_recover_made))
unfolding get_node_label_key_by_type
restores-JobRuns_example =
    restores-JobRuns laws new_recovery new_restore new_snapshot "eth" "raft" recover_made
      restore_made snapshot_recover_made (omega arith)
      (backend, refl, "/backup", mounted, (node_label, refl, refl)) (node_label, refl, refl)
      (node_label, refl, refl)

heights-JobRuns_example :
    Triple
      (λ w. w ≡ only new_snapshot)
      (job_for_snapshot operator claims new_snapshot)
      (λ job _. JobRuns parse job (snapshot_run new_snapshot "" ""))
      (λ w. w ≡ only new_snapshot)
    × Triple
        (λ w. w ≡ only new_fallback)
        (job_for
          (operator {S = FallbackSpec} {E = Unit {0}}).api
          (operator {S = FallbackSpec} {E = Unit {0}}).list_deployments
          (operator {S = FallbackSpec} {E = Unit {0}}).set_controller_reference
          new_fallback)
        (λ job _. JobRuns parse job (fallback_run new_fallback "" ""))
        (λ w. w ≡ only new_fallback)
heights-JobRuns_example =
    heights-JobRuns laws operator_laws claims (only new_snapshot) (claims_keep (only new_snapshot))
      operator_laws (only new_fallback) new_snapshot new_fallback
      (workload (beside request "node-a")) (workload (beside request "node-a")) refl refl
      (omega arith) (omega arith) (record { run = λ w h. (h, refl) })
      (record { run = λ w h. (h, refl) })

abbrev chown_made : Job
chown_made = owned (chown_job new_owner "datadir-node-a-0" node_label)

abbrev switchover_made : Job
switchover_made = owned (switchover_job new_switchover)

owners-JobRuns_example :
    JobRuns parse chown_made (chown_run new_owner)
    × JobRuns parse switchover_made (switchover_run new_switchover)
unfolding get_node_label_key_by_type
owners-JobRuns_example =
    owners-JobRuns laws new_owner new_switchover chown_made switchover_made (omega arith)
      (omega arith) ("datadir-node-a-0", λ _. refl, (node_label, refl, refl)) refl

abbrev container_of : String → String → Container
container_of name image = record (job_container image "IfNotPresent" [] []) {
  name = name;
  image = image;
}

abbrev some_containers : List Container
some_containers =
    container_of "consensus" "citacloud/consensus_raft"
    ∷ container_of "kms" "citacloud/kms_eth"
    ∷ container_of "storage" "citacloud/storage_rocksdb"
    ∷ []

filter_crypto_and_consensus_lem_example :
    filter_crypto_and_consensus some_containers
    ≡ (last_said crypto_said some_containers, last_said consensus_said some_containers)
filter_crypto_and_consensus_lem_example = filter_crypto_and_consensus_lem some_containers
