-- ===== src/Controllers/Jobs/Reconcile/Transitions.antt =====
-- The state of the resources of one kind and of the jobs as an abstract machine, the laws of the
-- clients and of the kind, and the steps.
use cita_node_operator.Base.{ℕ, String, ◌≡◌, ◌⊎◌, Bool, false, none, some}
use cita_node_operator.Base.{Dict, ok}
use cita_node_operator.Base.Hoare.{Triple, Keeps}
use cita_node_operator.Base.Int.{ℤ}
use cita_node_operator.Kube.{NamespacedName}
use cita_node_operator.Controllers.Objects.{Objects, put, remove, Place, ClientKeeps, ClientLaws}
use cita_node_operator.Controllers.Jobs.{ResourceStatus, Resource, Job, completed}
use cita_node_operator.Controllers.Jobs.Reconcile.{Operator, Kind, finished}

-- The resources and the jobs of a cluster.
pub record State (S E : Type 0) : Type 0 where
  pub resources : Objects (Resource S E)
  pub jobs : Objects Job

module _ {S E : Type 0} where
  -- An update keeps the status that is stored, and an update of the status all else.
  abbrev pub resources_place : Place (State S E) (Resource S E)
  resources_place = record {
    objects = λ c. c.resources;
    store = λ f c. record c { resources = f };
    key_of = λ x. x.key;
    on_update = λ old x. record x { status = old.status };
    on_status = λ old x. record old { status = x.status };
  }

  abbrev pub jobs_place : Place (State S E) Job
  jobs_place = record {
    objects = λ c. c.jobs;
    store = λ f c. record c { jobs = f };
    key_of = λ x. x.key;
    on_update = λ old x. record x { status = old.status };
    on_status = λ old x. record old { status = x.status };
  }

-- A job is deleted, at once or later on.
abbrev pub MaybeDeleted : {S E : Type 0} → State S E → Job → State S E → Type 0
MaybeDeleted c job d = (d ≡ c) ⊎ (d ≡ record c { jobs = remove job.key c.jobs })

-- The calls for other kinds of objects leave the resources and the jobs alone.
pub record OperatorLaws {W S E : Type 0} (op : Operator W S E) : Type 1 where
  pub state : W → State S E
  pub resources_laws : ClientLaws op.resources state resources_place
  pub jobs_laws : ClientLaws op.jobs state jobs_place
  pub accounts_keep : (c : State S E) → ClientKeeps op.rbac.service_accounts (λ w. state w ≡ c)
  pub roles_keep : (c : State S E) → ClientKeeps op.rbac.roles (λ w. state w ≡ c)
  pub bindings_keep : (c : State S E) → ClientKeeps op.rbac.role_bindings (λ w. state w ≡ c)
  pub stateful_sets_keep :
      (c : State S E) (k : NamespacedName) → Keeps (λ w. state w ≡ c) (op.api.get_stateful_set k)
  pub deployments_keep :
      (c : State S E) (k : NamespacedName) → Keeps (λ w. state w ≡ c) (op.api.get_deployment k)
  pub pods_keep :
      (c : State S E) (n : String) (l : Dict String)
      → Keeps (λ w. state w ≡ c) (op.api.list_pods n l)
  pub list_deployments_keep :
      (c : State S E) (n : String) (l : Dict String)
      → Keeps (λ w. state w ≡ c) (op.list_deployments n l)
  pub sleep_keeps : (c : State S E) (t : ℤ) → Keeps (λ w. state w ≡ c) (op.sleep t)
  pub delete_law :
      (c : State S E) (job : Job)
      → Triple
          (λ w. state w ≡ c)
          (op.delete_job job)
          (λ _ w. MaybeDeleted c job (state w))
          (λ w. MaybeDeleted c job (state w))
  -- `SetControllerReference` sets the owner and nothing else.
  pub reference_law :
      (r : Resource S E) (job owned : Job)
      → op.set_controller_reference r job ≡ ok owned
      → owned ≡ record job { owner = some r.key.name }

-- What a kind does between the writes leaves the resources and the jobs alone, and the job that it
-- makes is as `Made` says, under the key of its resource.
pub record KindLaws {W S E C : Type 0} {op : Operator W S E} (L : OperatorLaws op)
    (kind : Kind W S E C) (Made : Resource S E → Job → Type 0) : Type 0 where
  pub check_keeps : (c : State S E) (r : Resource S E) → Keeps (λ w. L.state w ≡ c) (kind.check r)
  pub guard_keeps : (c : State S E) (r : Resource S E) → Keeps (λ w. L.state w ≡ c) (kind.guard r)
  pub job_law :
      (c : State S E) (checked : C) (r : Resource S E)
      → Triple
          (λ w. L.state w ≡ c)
          (kind.job_for checked r)
          (λ job w. (L.state w ≡ c) × Made r job)
          (λ w. L.state w ≡ c)
  pub result_keeps :
      (c : State S E) (r : Resource S E) (job : Job)
      → Keeps (λ w. L.state w ≡ c) (kind.result r job)
  pub made_key : (r : Resource S E) (job : Job) → Made r job → job.key ≡ r.key

-- The status that goes with a job.
pub data Follows {E : Type 0} (job : Job) (old new : ResourceStatus E) : Type 0 where
  is_active : job.status.active ≡ 1 → new ≡ record old { status = "Active" } → Follows job old new
  has_failed :
      (log : String) (t : ℕ)
      → job.status.failed ≡ 1
      → new ≡ record old { status = "Failed"; message = log; end_time = some t }
      → Follows job old new
  has_succeeded :
      (more : E)
      → job.status.succeeded ≡ 1
      → new ≡ record old { status = "Complete"; end_time = job.status.completion_time; more = more }
      → Follows job old new
  says_nothing : new ≡ old → Follows job old new

-- A step from `c` to `d` for the resource that is stored under `req`.
pub data Step {S E : Type 0} (set_default_spec : S → Bool × S) (Made : Resource S E → Job → Type 0)
    (req : NamespacedName) (c d : State S E) : Type 0 where
  idle : d ≡ c → Step set_default_spec Made req c d
  spec_completed :
      (r : Resource S E)
      → c.resources r.key ≡ some r
      → r.key ≡ req
      → d ≡ record c {
        resources = put r.key (record r { spec = (completed set_default_spec r).spec }) c.resources;
      }
      → Step set_default_spec Made req c d
  status_completed :
      (r : Resource S E)
      → c.resources r.key ≡ some r
      → r.key ≡ req
      → d ≡ record c {
        resources =
            put r.key (record r { status = (completed set_default_spec r).status }) c.resources;
      }
      → Step set_default_spec Made req c d
  job_made :
      (r : Resource S E) (job : Job)
      → c.resources r.key ≡ some r
      → r.key ≡ req
      → finished (completed set_default_spec r).status.status ≡ false
      → c.jobs r.key ≡ none
      → Made (completed set_default_spec r) job
      → d ≡ record c { jobs = put r.key job c.jobs }
      → Step set_default_spec Made req c d
  followed :
      (r : Resource S E) (job : Job) (status : ResourceStatus E)
      → c.resources r.key ≡ some r
      → r.key ≡ req
      → finished (completed set_default_spec r).status.status ≡ false
      → c.jobs req ≡ some job
      → Follows job (completed set_default_spec r).status status
      → d ≡ record c { resources = put r.key (record r { status = status }) c.resources }
      → Step set_default_spec Made req c d
