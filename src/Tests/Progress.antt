-- ===== src/Tests/Progress.antt =====
-- A backup whose job has succeeded, in a cluster with the one pod of that job.
use cita_node_operator.Base.{◌≡◌, refl, ap, inl, true, none, some, [], ◌∷◌}
use cita_node_operator.Base.Effects.{pure}
use cita_node_operator.Base.Hoare.{Post}
use cita_node_operator.Base.{lookup}
use cita_node_operator.Base.Text.Decimal.{parse_int}
use cita_node_operator.Base.Int.{pos}
use cita_node_operator.Kube.{NamespacedName, Pod}
use cita_node_operator.Controllers.Objects.{put, present}
use cita_node_operator.Controllers.JobRbac.{
  ensure, ensure_service_account, ensure_role, ensure_role_binding,
}
use cita_node_operator.Controllers.Jobs.{Job, completed, set_default_status}
use cita_node_operator.Controllers.Jobs.Claims.{size_from_pod}
use cita_node_operator.Controllers.Jobs.Reconcile.{Operator, job_pod, one_pod}
use cita_node_operator.Controllers.Jobs.Reconcile.Transitions.{State, OperatorLaws}
use cita_node_operator.Controllers.Jobs.Reconcile
use cita_node_operator.Controllers.Jobs.Reconcile.Progress.{Answering, Ended, reconcile-Complete}
use cita_node_operator.Controllers.Backup.{
  BackupSpec, BackupSize, Backup, backup_job, backup_result, set_default_spec, kind,
}
use cita_node_operator.Tests.Objects.{calm_api}
use cita_node_operator.Tests.Jobs.{operator, operator_laws, request}
use cita_node_operator.Tests.Kinds.{claims, new_backup}

abbrev job_pod_there : Pod
job_pod_there = record {
  key = request;
  annotations = ("backup-size", "4096") ∷ [];
  container_statuses = [];
}

abbrev with_pod : Operator (State BackupSpec BackupSize) BackupSpec BackupSize
with_pod = record operator {
  api = record calm_api { list_pods = λ _ _. pure (job_pod_there ∷ []) };
}

abbrev with_pod_laws : OperatorLaws with_pod
with_pod_laws = record {
  state = λ c. c;
  resources_laws = operator_laws.resources_laws;
  jobs_laws = operator_laws.jobs_laws;
  accounts_keep = operator_laws.accounts_keep;
  roles_keep = operator_laws.roles_keep;
  bindings_keep = operator_laws.bindings_keep;
  stateful_sets_keep = λ c k. record { run = λ w h. h };
  deployments_keep = λ c k. record { run = λ w h. h };
  pods_keep = λ c n l. record { run = λ w h. h };
  list_deployments_keep = λ c n l. record { run = λ w h. h };
  sleep_keeps = λ c t. record { run = λ w h. h };
  delete_law = λ c job. record { run = λ w h. inl h };
  reference_law = operator_laws.reference_law;
}

abbrev active_backup : Backup
active_backup = completed set_default_spec new_backup

abbrev done_job : Job
done_job = record (backup_job new_backup "datadir-node-a-0" "node") {
  status = record {
    active = 0;
    failed = 0;
    succeeded = 1;
    condition_times = 1060 ∷ [];
    completion_time = some 1060;
  };
}

abbrev with_done : State BackupSpec BackupSize
with_done = record {
  resources = put request active_backup (λ _. none);
  jobs = put request done_job (λ _. none);
}

abbrev size : BackupSize
size = record { allocate = pos 0; actual = pos 4096; block_height = pos 0 }

is_equal_law : (x y : Backup) → with_pod.is_equal x y ≡ true → x ≡ y
is_equal_law x y e = cc

all_answer :
    Answering with_pod_laws (kind with_pod claims) with_done active_backup done_job (some size)
unfolding ensure ensure_service_account ensure_role ensure_role_binding present backup_result
    size_from_pod job_pod one_pod parse_int lookup set_default_status
all_answer = record {
  resource_read = record { run = λ w h. rw h (refl, refl) };
  job_read = record { run = λ w h. rw h (refl, refl) };
  rights_given = λ j. record { run = λ w h. rw h (refl, tt) };
  checked = record { run = λ w h. (h, tt) };
  guarded = record { run = λ w h. (h, tt) };
  result_read = record { run = λ w h. rw h (refl, refl) };
  status_written = λ x k. record {
    run = λ w h.
        rw (h, k)
          (ap
            (λ (j : NamespacedName). record with_done {
              resources = put j (record active_backup { status = x.status }) with_done.resources;
            })
            k);
  };
}

reconcile-Complete_example :
    Post
      (λ _ d.
        Ended with_pod_laws (kind with_pod claims) with_done active_backup done_job (some size) d)
      (λ _. ⊥)
      (Reconcile.reconcile with_pod (kind with_pod claims) request with_done)
unfolding set_default_spec set_default_status
reconcile-Complete_example =
    (reconcile-Complete with_pod_laws (kind with_pod claims) with_done active_backup done_job
        (some size) all_answer refl refl refl refl is_equal_law refl refl refl).run
      with_done refl
