-- ===== src/Controllers/Jobs.antt =====
-- controllers: what the reconcilers of the eight kinds of job share: the resource that asks for a
-- job, its defaults, and the job that is made for it.
pub mod Defaults
pub mod Describes
pub mod Reconcile
pub mod Claims
pub mod NewClaim
use cita_node_operator.Base.{
  ℕ, String, ◌==◌, ◌=ℕ◌, ◌||◌, Bool, true, false, Option, none, some, List, [], ◌∷◌, Dict,
}
use cita_node_operator.Base.{Exec, Result, if◌then◌else◌}
use cita_node_operator.Base.Effects.{pure, deref, ◌>>=◌}
use cita_node_operator.Base.Int.{ℤ, pos, negsuc}
use cita_node_operator.Kube.{NamespacedName, Volume, VolumeMount, EnvVar, Container}
use cita_node_operator.Node.Common.{Action, stop_and_start}
use cita_node_operator.Controllers.Labels.{Affinity}

-- `JobConditionType`
abbrev pub job_active : String
job_active = "Active"

abbrev pub job_complete : String
job_complete = "Complete"

abbrev pub job_failed : String
job_failed = "Failed"

abbrev pub default_image : String
default_image = "citacloud/cita-node-job:v0.0.2"

abbrev pub job_service_account : String
job_service_account = "cita-node-job"

-- The status of a resource, with its times in seconds. `E` is what a kind has beside the fields
-- that all kinds have.
pub record ResourceStatus (E : Type 0) : Type 0 where
  pub start_time : Option ℕ
  pub end_time : Option ℕ
  pub status : String
  pub message : String
  pub more : E

-- A resource with the specification `S`.
pub record Resource (S E : Type 0) : Type 0 where
  pub key : NamespacedName
  pub creation_timestamp : ℕ
  pub spec : S
  pub status : ResourceStatus E

abbrev pub is_zero : ℤ → Bool
is_zero (pos n) = n =ℕ 0
is_zero (negsuc _) = false

abbrev pub is_none : {A : Type 0} → Option A → Bool
is_none none = true
is_none (some _) = false

-- A default, and whether it was put in.
abbrev pub or_else : {A : Type 0} → Bool → A → A → Bool × A
or_else true default given = (true, default)
or_else false default given = (false, given)

-- The defaults of four fields that most kinds have.
abbrev pub default_action : Action → Bool × Action
default_action action = or_else (action == "") stop_and_start action

abbrev pub image_or_default : String → Bool × String
image_or_default image = or_else (image == "") default_image image

abbrev pub default_pull_policy : String → Bool × String
default_pull_policy policy = or_else (policy == "") "IfNotPresent" policy

abbrev pub default_ttl : ℤ → Bool × ℤ
default_ttl ttl = or_else (is_zero ttl) (pos 30) ttl

-- `v1.JobStatus`
pub record JobStatus : Type 0 where
  pub active : ℕ
  pub failed : ℕ
  pub succeeded : ℕ
  -- `LastTransitionTime` of each condition
  pub condition_times : List ℕ
  pub completion_time : Option ℕ

-- `v1.Job`, with the fields in use. The owner is the name of the controlling object.
pub record Job : Type 0 where
  pub key : NamespacedName
  pub uid : String
  pub labels : Dict String
  pub backoff_limit : ℕ
  pub affinity : Affinity
  pub service_account_name : String
  pub restart_policy : String
  pub containers : List Container
  pub volumes : List Volume
  pub owner : Option String
  pub status : JobStatus

-- The container of a job.
abbrev pub job_container : String → String → List String → List VolumeMount → Container
job_container image pull_policy args mounts = record {
  name = "cita-node-cli";
  image = image;
  image_pull_policy = pull_policy;
  command = "/cita-node-cli" ∷ [];
  args = args;
  env =
      record { name = "MY_POD_NAME"; field_path = "metadata.name" }
      ∷ record { name = "MY_POD_NAMESPACE"; field_path = "metadata.namespace" }
      ∷ [];
  ports = [];
  working_dir = "";
  volume_mounts = mounts;
  termination_message_path = "";
  termination_message_policy = "";
}

-- The job of one container, before `SetControllerReference`. The cluster sets its identifier and
-- its status.
abbrev pub node_job : NamespacedName → Dict String → Affinity → Container → List Volume → Job
node_job key labels affinity container volumes = record {
  key = key;
  uid = "";
  labels = labels;
  backoff_limit = 0;
  affinity = affinity;
  service_account_name = job_service_account;
  restart_policy = "Never";
  containers = container ∷ [];
  volumes = volumes;
  owner = none;
  status = record {
    active = 0;
    failed = 0;
    succeeded = 0;
    condition_times = [];
    completion_time = none;
  };
}

abbrev pub claim_volume : String → String → Volume
claim_volume name claim = record { name = name; config_map = none; claim_name = some claim }

abbrev pub config_volume : String → Volume
config_volume config_map = record {
  name = "cita-config";
  config_map = some config_map;
  claim_name = none;
}

abbrev pub beside : NamespacedName → String → NamespacedName
beside key name = record { namespace = key.namespace; name = name }

-- The claim of the first volume of the name `datadir`, in the loops that look for one: none leaves
-- the empty text. A volume of that name that is no claim is a nil pointer.
unfoldable pub data_claim : {W : Type 0} → List Volume → Exec W String
data_claim [] = pure ""
data_claim (volume ∷ volumes) =
    if volume.name == "datadir" then deref volume.claim_name else data_claim volumes

module _ {S E : Type 0} where
  -- `setDefaultStatus`: whether it is to be written, and the status.
  unfoldable pub set_default_status : Resource S E → Bool × ResourceStatus E
  set_default_status r =
      let given = r.status in
      let status = or_else (given.status == "") job_active given.status in
      let start = or_else (is_none given.start_time) (some r.creation_timestamp) given.start_time in
      (status.0 || start.0, record given { status = status.1; start_time = start.1 })

  -- The resource in memory after both defaults, whether or not it is written.
  abbrev pub completed : (S → Bool × S) → Resource S E → Resource S E
  completed set_default_spec r =
      let with_spec = record r { spec = (set_default_spec r.spec).1 } in
      record with_spec { status = (set_default_status with_spec).1 }
