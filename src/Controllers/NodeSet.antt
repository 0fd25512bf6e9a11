-- ===== src/Controllers/NodeSet.antt =====
-- controllers/statefulset.go: the StatefulSet that is wanted for a CITA node.
pub mod Update
use cita_node_operator.Base.{ℕ, String, ◌<>◌, ◌==◌, Bool, Option, none, some, List, [], ◌∷◌, Dict}
use cita_node_operator.Base.{if◌then◌else◌}
use cita_node_operator.Kube.{NamespacedName, Container, ContainerPort, Volume}
use cita_node_operator.Controllers.CitaNode.{CitaNode, stopped}
use cita_node_operator.Controllers.NodeNames.{
  data_volume_name, data_volume_mount_path, kms_db_mount_path, node_config_volume_name,
  log_config_volume_name, node_config_volume_mount_path, log_config_volume_mount_path, network_port,
  executor_port, get_log_config_name,
}

-- A container that runs first, with the quantities that it requests.
pub record InitContainer : Type 0 where
  pub container : Container
  pub requests : Dict String

-- A template of a claim. The owner is the name of the controlling object.
pub record ClaimTemplate : Type 0 where
  pub claim_key : NamespacedName
  pub access_modes : List String
  pub storage : String
  pub storage_class_name : Option String
  pub claim_owner : Option String

-- `appsv1.StatefulSetSpec`, with the fields in use.
pub record NodeSetSpec : Type 0 where
  pub replicas : Option ℕ
  pub update_strategy : String
  pub pod_management_policy : String
  pub selector : Dict String
  pub claim_templates : List ClaimTemplate
  pub template_labels : Dict String
  pub init_containers : List InitContainer
  pub containers : List Container
  pub volumes : List Volume

-- `appsv1.StatefulSet`
pub record NodeSet : Type 0 where
  pub key : NamespacedName
  pub labels : Dict String
  pub owner : Option String
  pub spec : NodeSetSpec

abbrev config_file : String
config_file = node_config_volume_mount_path <> "/config.toml"

abbrev log_file : String → String
log_file service = log_config_volume_mount_path <> "/" <> service <> "-log4rs.yaml"

-- The command of a service that logs to its file.
abbrev logged : String → List String
logged service = service ∷ "run" ∷ "-c" ∷ config_file ∷ "-l" ∷ log_file service ∷ []

abbrev to_stdout : String → List String
to_stdout service = service ∷ "run" ∷ "-c" ∷ config_file ∷ "--stdout" ∷ []

-- `getNetworkCmdStr`
abbrev pub get_network_cmd_str : Bool → List String
get_network_cmd_str enable_tls = if enable_tls then to_stdout "network" else logged "network"

-- `getConsensusCmdStr`
abbrev pub get_consensus_cmd_str : String → List String
get_consensus_cmd_str consensus_type =
    if consensus_type == "BFT"
    then logged "consensus"
    else if consensus_type == "Raft"
    then to_stdout "consensus"
    else []

abbrev port : ℕ → String → ContainerPort
port number name = record { container_port = number; protocol = "TCP"; name = name }

-- What the six containers of a node share.
abbrev node_container : CitaNode → String → String → List ContainerPort → List String → Container
node_container node name image ports command = record {
  name = name;
  image = image;
  image_pull_policy = node.spec.pull_policy;
  command = command;
  args = [];
  env = [];
  ports = ports;
  working_dir = data_volume_mount_path;
  volume_mounts =
      record { name = data_volume_name; mount_path = data_volume_mount_path }
      ∷ record { name = node_config_volume_name; mount_path = node_config_volume_mount_path }
      ∷ record { name = log_config_volume_name; mount_path = log_config_volume_mount_path }
      ∷ [];
  termination_message_path = "/dev/termination-log";
  termination_message_policy = "File";
}

abbrev pub node_containers : CitaNode → List Container
node_containers node =
    let spec = node.spec in
    node_container node "network" spec.network_image
      (port network_port "network" ∷ port 50000 "grpc" ∷ []) (get_network_cmd_str spec.enable_tls)
    ∷ node_container node "consensus" spec.consensus_image (port 50001 "grpc" ∷ [])
        (get_consensus_cmd_str spec.consensus_type)
    ∷ node_container node "executor" spec.executor_image (port executor_port "grpc" ∷ [])
        (logged "executor")
    ∷ node_container node "storage" spec.storage_image (port 50003 "grpc" ∷ []) (logged "storage")
    ∷ node_container node "controller" spec.controller_image (port 50004 "grpc" ∷ [])
        (logged "controller")
    ∷ node_container node "kms" spec.kms_image (port 50005 "grpc" ∷ []) (logged "kms")
    ∷ []

abbrev pub init_container : CitaNode → InitContainer
init_container node = record {
  container = record {
    name = "init";
    image = "busybox:stable";
    image_pull_policy = node.spec.pull_policy;
    command = "/bin/sh" ∷ [];
    args =
        "-c"
        ∷ ("if [ ! -f \"" <> data_volume_mount_path <> "/kms.db\" ]; then cp " <> kms_db_mount_path
            <> "/kms.db " <> data_volume_mount_path <> ";fi;")
        ∷ [];
    env = [];
    ports = [];
    working_dir = "";
    volume_mounts =
        record { name = node_config_volume_name; mount_path = kms_db_mount_path }
        ∷ record { name = data_volume_name; mount_path = data_volume_mount_path }
        ∷ [];
    termination_message_path = "/dev/termination-log";
    termination_message_policy = "File";
  };
  requests = ("cpu", "10m") ∷ ("memory", "10Mi") ∷ [];
}

-- `GetVolumes`
abbrev pub node_volumes : CitaNode → List Volume
node_volumes node =
    record {
      name = node_config_volume_name;
      config_map = some node.spec.config_map_ref;
      claim_name = none;
    }
    ∷ record {
      name = log_config_volume_name;
      config_map = some (get_log_config_name node.key.name);
      claim_name = none;
    }
    ∷ []

abbrev pub wanted_replicas : CitaNode → ℕ
wanted_replicas node = if node.spec.desired_state == stopped then 0 else 1
