-- ===== src/Kube.antt =====
-- The Kubernetes objects that the operator reads and writes, with the fields that it uses, and the
-- client that it reaches them by. The client, `wait` and `retry` are parameters.
pub mod Laws
pub mod Edits
use cita_node_operator.Base.{ℕ, String, Bool, Option, List, Dict, Exec, ◌==◌, ◌&&◌}

pub record NamespacedName : Type 0 where
  pub namespace : String
  pub name : String

abbrev pub same_key : NamespacedName → NamespacedName → Bool
same_key a b = a.namespace == b.namespace && a.name == b.name

-- A volume of a pod: a config map, or the claim of a persistent volume.
pub record Volume : Type 0 where
  pub name : String
  pub config_map : Option String
  pub claim_name : Option String

pub record VolumeMount : Type 0 where
  pub name : String
  pub mount_path : String

-- A variable taken from a field of the pod.
pub record EnvVar : Type 0 where
  pub name : String
  pub field_path : String

pub record ContainerPort : Type 0 where
  pub container_port : ℕ
  pub protocol : String
  pub name : String

pub record Container : Type 0 where
  pub name : String
  pub image : String
  pub image_pull_policy : String
  pub command : List String
  pub args : List String
  pub env : List EnvVar
  pub ports : List ContainerPort
  pub working_dir : String
  pub volume_mounts : List VolumeMount
  pub termination_message_path : String
  pub termination_message_policy : String

-- Quantities are canonical texts.
pub record ResourceRequirements : Type 0 where
  pub limits : Dict String
  pub requests : Dict String

-- A persistent volume claim, also as a template of a StatefulSet. The owner is the name of the
-- controlling object.
pub record VolumeClaim : Type 0 where
  pub key : NamespacedName
  pub access_modes : List String
  pub resources : ResourceRequirements
  pub storage_class : String
  pub owner : Option String

-- The specification of a StatefulSet or a Deployment. No number of replicas means one. Only a
-- StatefulSet has templates of claims.
pub record WorkloadSpec : Type 0 where
  pub replicas : Option ℕ
  pub claim_templates : List VolumeClaim
  pub volumes : List Volume
  pub containers : List Container

pub record WorkloadStatus : Type 0 where
  pub replicas : ℕ
  pub ready_replicas : ℕ

pub record Workload : Type 0 where
  pub key : NamespacedName
  pub labels : Dict String
  pub spec : WorkloadSpec
  pub status : WorkloadStatus

pub record Pod : Type 0 where
  pub key : NamespacedName
  pub annotations : Dict String
  -- `Ready` of each container
  pub container_statuses : List Bool

-- What the job binary and the reconcilers ask of a cluster. `poll` is given the interval and the
-- timeout in seconds.
pub record Api (W : Type 0) : Type 0 where
  pub get_stateful_set : NamespacedName → Exec W Workload
  pub update_stateful_set : Workload → Exec W Unit
  pub create_stateful_set : Workload → Exec W Unit
  pub get_deployment : NamespacedName → Exec W Workload
  pub update_deployment : Workload → Exec W Unit
  pub list_pods : String → Dict String → Exec W (List Pod)
  pub get_pod : NamespacedName → Exec W Pod
  pub update_pod : Pod → Exec W Unit
  pub retry_on_conflict : Exec W Unit → Exec W Unit
  pub poll : ℕ → ℕ → Exec W Bool → Exec W Unit
  pub getenv : String → String
