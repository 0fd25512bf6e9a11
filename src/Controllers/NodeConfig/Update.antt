-- ===== src/Controllers/NodeConfig/Update.antt =====
-- controllers/configmap.go and service.go: the config maps and the service of a CITA node.
pub mod Keeps
use cita_node_operator.Base.{ℕ, String, Bool, true, false, Option, none, List, [], ◌∷◌, Dict}
use cita_node_operator.Base.{Exec, Result, ok, err, not_found, if◌then◌else◌}
use cita_node_operator.Base.Effects.{pure, raise, lift, try, ◌>>=◌, ◌>>◌}
use cita_node_operator.Kube.{NamespacedName}
use cita_node_operator.Controllers.Objects.{Client}
use cita_node_operator.Controllers.Labels.{labels_for_node, merge_labels}
use cita_node_operator.Controllers.CitaNode.{CitaNode}
use cita_node_operator.Controllers.Jobs.{beside}
use cita_node_operator.Controllers.NodeNames.{
  network_port, controller_port, executor_port, get_node_port_service_name, get_log_config_name,
}
use cita_node_operator.Controllers.NodeConfig.{
  generate_controller_log_config, generate_executor_log_config, generate_kms_log_config,
  generate_network_log_config, generate_storage_log_config, generate_consensus_log_config,
}

-- `corev1.ConfigMap`. The owner is the name of the controlling object.
pub record ConfigMap : Type 0 where
  pub key : NamespacedName
  pub labels : Dict String
  pub owner : Option String
  pub contents : Dict String

pub record ServicePort : Type 0 where
  pub name : String
  pub port : ℕ
  pub target_port : ℕ

-- `corev1.Service`
pub record Service : Type 0 where
  pub key : NamespacedName
  pub labels : Dict String
  pub owner : Option String
  pub selector : Dict String
  pub ports : List ServicePort
  pub service_type : String

-- The clients, `SetControllerReference` and `equality.Semantic.DeepEqual`.
pub record ConfigOperator (W : Type 0) : Type 0 where
  pub config_maps : Client W ConfigMap
  pub services : Client W Service
  pub set_map_owner : CitaNode → ConfigMap → Result ConfigMap
  pub set_service_owner : CitaNode → Service → Result Service
  pub equal_maps : ConfigMap → ConfigMap → Bool

abbrev empty_map : NamespacedName → ConfigMap
empty_map key = record { key = key; labels = []; owner = none; contents = [] }

-- `MergeLabels` of the labels of an object and those of the node.
abbrev labels_with : CitaNode → Dict String → Dict String
labels_with node labels =
    merge_labels (labels ∷ labels_for_node node.spec.chain_name node.key.name ∷ [])

-- `old`, which is an empty object where the read fails.
abbrev map_or_empty : Result ConfigMap → ConfigMap
map_or_empty (ok old) = old
map_or_empty (err _) = empty_map (record { namespace = ""; name = "" })

abbrev same_port : String → ℕ → ServicePort
same_port name port = record { name = name; port = port; target_port = port }

module _ {W : Type 0} (op : ConfigOperator W) where
  -- `ReconcileConfigMap`
  unfoldable pub reconcile_config_map : CitaNode → Exec W Bool
  reconcile_config_map node = do
    found ← try (op.config_maps.get (beside node.key node.spec.config_map_ref))
    let old = map_or_empty found
    cur ← lift (op.set_map_owner node (record old { labels = labels_with node old.labels }))
    if op.equal_maps old cur then pure false else (do op.config_maps.update cur; pure true)

  -- `updateLogConfigMap`
  update_log_config_map : CitaNode → ConfigMap → Exec W ConfigMap
  update_log_config_map node config_map = do
    owned ←
        lift (
          op.set_map_owner node (record config_map { labels = labels_with node config_map.labels }))
    pure (record owned {
      contents =
          ("controller-log4rs.yaml", generate_controller_log_config node)
          ∷ ("executor-log4rs.yaml", generate_executor_log_config node)
          ∷ ("kms-log4rs.yaml", generate_kms_log_config node)
          ∷ ("network-log4rs.yaml", generate_network_log_config node)
          ∷ ("storage-log4rs.yaml", generate_storage_log_config node)
          ∷ ("consensus-log4rs.yaml", generate_consensus_log_config node)
          ∷ [];
    })

  on_log_config_map : CitaNode → Result ConfigMap → Exec W Bool
  unfolding update_log_config_map
  on_log_config_map node (err not_found) = do
    config_map ←
        update_log_config_map node (empty_map (beside node.key (get_log_config_name node.key.name)))
    op.config_maps.create config_map
    pure false
  on_log_config_map node (err e) = raise e
  on_log_config_map node (ok old) = do
    cur ← update_log_config_map node old
    if op.equal_maps old cur then pure false else pure true

  -- `ReconcileLogConfigMap`: whether it has changed. It is not written then.
  unfoldable pub reconcile_log_config_map : CitaNode → Exec W Bool
  unfolding on_log_config_map
  reconcile_log_config_map node = do
    found ← try (op.config_maps.get (beside node.key (get_log_config_name node.key.name)))
    on_log_config_map node found

  -- `updateService`
  update_service : CitaNode → Service → Exec W Service
  update_service node service = do
    let labels = labels_with node service.labels
    owned ← lift (op.set_service_owner node (record service { labels = labels }))
    pure (record owned {
      selector = labels;
      ports =
          same_port "network" network_port
          ∷ same_port "rpc" controller_port
          ∷ same_port "call" executor_port
          ∷ [];
      service_type = "NodePort";
    })

  on_service : CitaNode → Result Service → Exec W Unit
  unfolding update_service
  on_service node (err not_found) = do
    service ← update_service node (record {
      key = beside node.key (get_node_port_service_name node.key.name);
      labels = [];
      owner = none;
      selector = [];
      ports = [];
      service_type = "";
    })
    op.services.create service
  on_service node (err e) = raise e
  on_service node (ok old) = pure tt

  -- `ReconcileService`: one that is there is left alone.
  unfoldable pub reconcile_service : CitaNode → Exec W Unit
  unfolding on_service
  reconcile_service node = do
    found ← try (op.services.get (beside node.key (get_node_port_service_name node.key.name)))
    on_service node found
