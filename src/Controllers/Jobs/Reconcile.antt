-- ===== src/Controllers/Jobs/Reconcile.antt =====
-- controllers/*_controller.go, ttl.go and common.go: the reconciler of a kind of job. The eight
-- `Reconcile` methods are alike but for what `Kind` holds.
pub mod Reads
pub mod Owned
pub mod Transitions
pub mod Follow
pub mod Steps
pub mod Traces
pub mod Progress
use cita_node_operator.Base.{ℕ, String, ◌==◌, ◌||◌, ◌=ℕ◌, Bool, true, false, Option, none, some}
use cita_node_operator.Base.{
  List, [], ◌∷◌, Dict, Exec, Result, ok, err, not_found, message, if◌then◌else◌,
}
use cita_node_operator.Base.{lookup}
use cita_node_operator.Base.Effects.{pure, raise, panic, try, lift, ◌>>=◌, ◌>>◌}
use cita_node_operator.Base.Int.{ℤ}
use cita_node_operator.Kube.{NamespacedName, Pod, Workload, Api}
use cita_node_operator.Controllers.Objects.{Client}
use cita_node_operator.Node.Common.{DeployMethod}
use cita_node_operator.Controllers.Labels.{get_node_label_key_by_type}
use cita_node_operator.Controllers.JobRbac.{RbacClient, ensure}
use cita_node_operator.Controllers.Jobs.{
  Resource, Job, job_active, job_complete, job_failed, job_service_account, set_default_status,
}

-- The client of a reconciler, and what it calls of other libraries: the wait of a timer,
-- `SetControllerReference`, and `equality.Semantic.DeepEqual`.
pub record Operator (W S E : Type 0) : Type 0 where
  pub api : Api W
  pub rbac : RbacClient W
  pub resources : Client W (Resource S E)
  pub jobs : Client W Job
  pub list_deployments : String → Dict String → Exec W (List Workload)
  pub delete_job : Job → Exec W Unit
  pub sleep : ℤ → Exec W Unit
  pub set_controller_reference : Resource S E → Job → Result Job
  pub is_equal : Resource S E → Resource S E → Bool

-- What tells the kinds of job apart. `check` comes before the default status and hands `C` to
-- `job_for`, `guard` comes after the rights, and `result` reads what a job that has succeeded adds
-- to the status; where it is none, the reconciler returns at once.
pub record Kind (W S E C : Type 0) : Type 0 where
  pub set_default_spec : S → Bool × S
  pub ttl_seconds_after_finished : S → ℤ
  pub check : Resource S E → Exec W C
  pub guard : Resource S E → Exec W Unit
  pub job_for : C → Resource S E → Exec W Job
  pub result : Resource S E → Job → Exec W (Option E)

-- `ctrl.Result`, and the goroutines that were started.
pub record Answer (W : Type 0) : Type 0 where
  pub requeue : Bool
  pub started : List (Exec W Unit)

abbrev pub finished : String → Bool
finished status = status == job_complete || status == job_failed

-- The annotation of a pod: the empty text where there is none.
abbrev pub annotation : String → Pod → String
annotation name pod = elim (lookup name pod.annotations) [ none ↦ "" | some s ↦ s ]

-- `len(podList.Items) != 1`, and the one pod.
unfoldable pub one_pod : List Pod → Option Pod
one_pod (pod ∷ []) = some pod
one_pod _ = none

module _ {W : Type 0} (api : Api W) where
  -- The pods of a job.
  unfoldable pub job_pod : String → String → String → Exec W (Option Pod)
  unfolding one_pod
  job_pod namespace name job_id = do
    pods ← api.list_pods namespace (("job-name", name) ∷ ("controller-uid", job_id) ∷ [])
    pure (one_pod pods)

  error_log_of : Option Pod → Exec W String
  error_log_of (some pod) = pure (annotation "err-log" pod)
  error_log_of none = raise (message "job's pod != 1")

  -- `GetErrorLogFromPod`
  unfoldable pub get_error_log_from_pod : String → String → String → Exec W String
  unfolding error_log_of job_pod
  get_error_log_from_pod namespace name job_id = do
    pod ← job_pod namespace name job_id
    error_log_of pod

-- `job.Status.Conditions[0]`
unfoldable pub first_time : {W : Type 0} → List ℕ → Exec W ℕ
first_time [] = panic "index out of range"
first_time (t ∷ _) = pure t

module _ {W S E C : Type 0} (op : Operator W S E) (kind : Kind W S E C) where
  abbrev quiet : Exec W (Answer W)
  quiet = pure (record { requeue = false; started = [] })

  abbrev again : Exec W (Answer W)
  again = pure (record { requeue = true; started = [] })

  -- `CleanJob`
  pub clean_job : Job → ℤ → Exec W Unit
  clean_job job ttl = do op.sleep ttl; deleted ← try (op.delete_job job); pure tt

  -- The resource with the status of a job that has succeeded.
  succeeded_with : Resource S E → Job → Option E → Option (Resource S E)
  succeeded_with r job none = none
  succeeded_with r job (some more) =
      let given = r.status in
      some (record r {
        status = record given {
          status = job_complete;
          end_time = job.status.completion_time;
          more = more;
        };
      })

  -- `cur`: the resource with the status of its job.
  status_from : Resource S E → Job → Exec W (Option (Resource S E))
  unfolding get_error_log_from_pod first_time succeeded_with
  status_from r job =
      let given = r.status in
      if job.status.active =ℕ 1
      then pure (some (record r { status = record given { status = job_active } }))
      else if job.status.failed =ℕ 1
      then (do
        err_log ← get_error_log_from_pod op.api r.key.namespace r.key.name job.uid
        end_time ← first_time job.status.condition_times
        pure (
            some (record r {
              status = record given {
                message = err_log;
                status = job_failed;
                end_time = some end_time;
              };
            })))
      else if job.status.succeeded =ℕ 1
      then (do more ← kind.result r job; pure (succeeded_with r job more))
      else pure (some r)

  write_status : Resource S E → Option (Resource S E) → Exec W (Answer W)
  write_status r none = quiet
  write_status r (some cur) =
      if op.is_equal cur r then quiet else op.resources.update_status cur >> quiet

  -- The status of the resource follows that of its job.
  pub follow : Resource S E → Job → Exec W (Answer W)
  unfolding status_from write_status
  follow r job = status_from r job >>= write_status r

  -- A job that has finished is deleted later on.
  cleanup : Resource S E → Result Job → List (Exec W Unit)
  unfolding clean_job
  cleanup r (ok job) = clean_job job (kind.ttl_seconds_after_finished r.spec) ∷ []
  cleanup r (err _) = []

  make_job : C → Resource S E → Exec W (Answer W)
  make_job checked r = do job ← kind.job_for checked r; op.jobs.create job; again

  on_job : NamespacedName → C → Resource S E → Result Job → Exec W (Answer W)
  unfolding make_job follow
  on_job req checked r (err not_found) = make_job checked r
  on_job req checked r (err e) = raise e
  on_job req checked r (ok _) = op.jobs.get req >>= follow r

  -- A resource that has all its defaults.
  run_job : NamespacedName → C → Resource S E → Exec W (Answer W)
  unfolding cleanup on_job
  run_job req checked r = do
    ensure op.rbac (record {
      namespace = req.namespace;
      service_account = job_service_account;
      role = "cita-node-job";
      role_binding = "cita-node-job";
    })
    kind.guard r
    found ← try (op.jobs.get r.key)
    if finished r.status.status
        then pure (record { requeue = false; started = cleanup r found })
        else on_job req checked r found

  with_checked : NamespacedName → Resource S E → C → Exec W (Answer W)
  unfolding run_job
  with_checked req r checked =
      let defaults = set_default_status r in
      let r' = record r { status = defaults.1 } in
      if defaults.0 then op.resources.update_status r' >> again else run_job req checked r'

  with_resource : NamespacedName → Resource S E → Exec W (Answer W)
  unfolding with_checked
  with_resource req r =
      let defaults = kind.set_default_spec r.spec in
      let r' = record r { spec = defaults.1 } in
      if defaults.0 then op.resources.update r' >> again else kind.check r' >>= with_checked req r'

  on_resource : NamespacedName → Result (Resource S E) → Exec W (Answer W)
  unfolding with_resource
  on_resource req (err not_found) = quiet
  on_resource req (err e) = raise e
  on_resource req (ok r) = with_resource req r

  -- `Reconcile`
  unfoldable pub reconcile : NamespacedName → Exec W (Answer W)
  unfolding on_resource
  reconcile req = do found ← try (op.resources.get req); on_resource req found

module _ {W S E : Type 0} (op : Operator W S E) where
  -- The end of every function that makes a job for a node: the key of the node's label, and the
  -- controller reference.
  unfoldable pub keyed_job : DeployMethod → Resource S E → (String → Job) → Exec W Job
  keyed_job deploy_method r make = do
    node_key ← lift (get_node_label_key_by_type deploy_method)
    lift (op.set_controller_reference r (make node_key))
