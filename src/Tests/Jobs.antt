-- ===== src/Tests/Jobs.antt =====
-- A cluster in memory for any kind of job, and the claims on fallbacks.
use cita_node_operator.Base.{
  ◌≡◌, refl, inl, true, false, none, some, [], ◌∷◌, ok, String, Dict, arith,
}
use cita_node_operator.Base.Effects.{pure}
use cita_node_operator.Base.Hoare.{Post}
use cita_node_operator.Base.Int.{pos}
use cita_node_operator.Kube.{NamespacedName}
use cita_node_operator.Controllers.Objects.{put}
use cita_node_operator.Controllers.JobRbac.{}
use cita_node_operator.Controllers.Jobs.{Resource, Job, completed, node_job, job_container}
use cita_node_operator.Controllers.Jobs.Defaults.{IsComplete}
use cita_node_operator.Controllers.Jobs.Reconcile.{Operator}
use cita_node_operator.Controllers.Jobs.Reconcile
use cita_node_operator.Controllers.Jobs.Reconcile.Transitions.{
  State, OperatorLaws, Step, resources_place, jobs_place,
}
use cita_node_operator.Controllers.Jobs.Reconcile.Steps.{reconcile-Step}
use cita_node_operator.Controllers.Jobs.Reconcile.Traces.{
  start, reconciled, cleaned, Settled, Runs-Settled,
}
use cita_node_operator.Controllers.Jobs.Reconcile.Progress.{}
use cita_node_operator.Controllers.Fallback.{FallbackSpec, BlockHeightFallback, set_default_spec}
use cita_node_operator.Controllers.Fallback.Defaults.{completed_again}
use cita_node_operator.Controllers.Fallback.Job.{build_args}
use cita_node_operator.Controllers.Fallback.Job.Frame.{IsJobFor}
use cita_node_operator.Controllers.Fallback.Job.Flags.{rest, read_flags, Says, build_args-Says}
use cita_node_operator.Controllers.Fallback.Reconcile.{kind}
use cita_node_operator.Controllers.Fallback.Reconcile.Laws.{fallback-KindLaws}
use cita_node_operator.Tests.Objects.{memory, memory_laws, silent, silent-Keeps, calm_api}

module _ {S E : Type 0} where
  abbrev pub operator : Operator (State S E) S E
  operator = record {
    api = calm_api;
    rbac = record { service_accounts = silent; roles = silent; role_bindings = silent };
    resources = memory resources_place;
    jobs = memory jobs_place;
    list_deployments = λ _ _. pure [];
    delete_job = λ _. pure tt;
    sleep = λ _. pure tt;
    set_controller_reference = λ r job. ok (record job { owner = some r.key.name });
    is_equal = λ _ _. false;
  }

  pub owner_is_set :
      (r : Resource S E) (job owned : Job)
      → operator.set_controller_reference r job ≡ ok owned
      → owned ≡ record job { owner = some r.key.name }
  owner_is_set r job owned e = cc

  abbrev pub operator_laws : OperatorLaws operator
  operator_laws = record {
    state = λ c. c;
    resources_laws = memory_laws resources_place;
    jobs_laws = memory_laws jobs_place;
    accounts_keep = λ c. silent-Keeps (λ w. w ≡ c);
    roles_keep = λ c. silent-Keeps (λ w. w ≡ c);
    bindings_keep = λ c. silent-Keeps (λ w. w ≡ c);
    stateful_sets_keep = λ c k. record { run = λ w h. h };
    deployments_keep = λ c k. record { run = λ w h. h };
    pods_keep = λ c n l. record { run = λ w h. h };
    list_deployments_keep = λ c n l. record { run = λ w h. h };
    sleep_keeps = λ c t. record { run = λ w h. h };
    delete_law = λ c job. record { run = λ w h. inl h };
    reference_law = owner_is_set;
  }

abbrev pub request : NamespacedName
request = record { namespace = "app"; name = "fallback" }

abbrev pub new_fallback : BlockHeightFallback
new_fallback = record {
  key = request;
  creation_timestamp = 1000;
  spec = record {
    chain = "chain";
    node = "node-a";
    block_height = pos 30;
    deploy_method = "cloud-config";
    action = "";
    image = "";
    pull_policy = "";
    ttl_seconds_after_finished = pos 0;
    pod_affinity_flag = true;
    delete_consensus_data = false;
  };
  status = record { start_time = none; end_time = none; status = ""; message = ""; more = tt };
}

abbrev with_new : State FallbackSpec (Unit {0})
with_new = record { resources = put request new_fallback (λ _. none); jobs = λ _. none }

reconcile-Step_example :
    Post
      (λ _ d. Step set_default_spec IsJobFor request with_new d)
      (λ d. Step set_default_spec IsJobFor request with_new d)
      (Reconcile.reconcile operator (kind operator) request with_new)
reconcile-Step_example =
    (reconcile-Step operator_laws (fallback-KindLaws operator_laws) request with_new).run with_new
      refl

abbrev complete_fallback : BlockHeightFallback
complete_fallback = record new_fallback {
  status = record {
    start_time = some 1000;
    end_time = some 1060;
    status = "Complete";
    message = "";
    more = tt;
  };
}

abbrev with_complete : State FallbackSpec (Unit {0})
with_complete = record { resources = put request complete_fallback (λ _. none); jobs = λ _. none }

abbrev deleted_job : Job
deleted_job = node_job request [] none (job_container "image" "IfNotPresent" [] []) []

complete-Settled : Settled request "Complete" none with_complete
complete-Settled = record {
  resource = complete_fallback;
  resource_there = refl;
  status_is = refl;
  job_is = inl refl;
}

-- The reconciler runs for the fallback, and a job of its name is deleted.
Runs-Settled_example :
    Settled request "Complete" none
      (Reconcile.clean_job operator
        (kind operator)
        deleted_job
        (pos 30)
        (Reconcile.reconcile operator (kind operator) request with_complete).1).1
Runs-Settled_example =
    Runs-Settled operator_laws (fallback-KindLaws operator_laws) request "Complete" none refl
      with_complete _ complete-Settled
      (cleaned deleted_job (pos 30) (reconciled request start refl) refl)

completed_again_example : IsComplete set_default_spec (completed set_default_spec new_fallback)
completed_again_example = completed_again new_fallback

build_args-Says_example :
    (build_args new_fallback "sm" "bft" ≡ "fallback" ∷ rest (build_args new_fallback "sm" "bft"))
    × ((flags : Dict String) × (read_flags (rest (build_args new_fallback "sm" "bft")) ≡ some flags)
        × Says new_fallback "sm" "bft" flags)
build_args-Says_example = build_args-Says new_fallback "sm" "bft" (omega arith)
