-- ===== src/Controllers/NodeConfig/Update/Keeps.antt =====
-- What is done to config maps and services leaves all else alone.
use cita_node_operator.Base.{Result, ok, err, not_found}
use cita_node_operator.Base.Hoare.{Keeps, Keeps-bind, Keeps-try, keeps_rules}
use cita_node_operator.Controllers.Objects.{ClientKeeps}
use cita_node_operator.Controllers.CitaNode.{CitaNode}
use cita_node_operator.Controllers.NodeConfig.Update.{
  ConfigOperator, ConfigMap, Service, update_log_config_map, on_log_config_map, update_service,
  on_service, reconcile_config_map, reconcile_log_config_map, reconcile_service,
}

module _ {W : Type 0} (configs : ConfigOperator W) {P : W → Type 0}
    (maps_keep : ClientKeeps configs.config_maps P)
    (services_keep : ClientKeeps configs.services P) where
  pub reconcile_config_map-Keeps : (node : CitaNode) → Keeps P (reconcile_config_map configs node)
  unfolding reconcile_config_map
  reconcile_config_map-Keeps node =
      search (keeps_rules, maps_keep.get_keeps, maps_keep.update_keeps)

  on_log_config_map-Keeps :
      (node : CitaNode) (found : Result ConfigMap) → Keeps P (on_log_config_map configs node found)
  unfolding on_log_config_map update_log_config_map
  on_log_config_map-Keeps node (ok old) = search (keeps_rules)
  on_log_config_map-Keeps node (err not_found) = search (keeps_rules, maps_keep.create_keeps)
  on_log_config_map-Keeps node (err _) = search (keeps_rules)

  pub reconcile_log_config_map-Keeps :
      (node : CitaNode) → Keeps P (reconcile_log_config_map configs node)
  unfolding reconcile_log_config_map
  reconcile_log_config_map-Keeps node =
      Keeps-bind (Keeps-try (maps_keep.get_keeps _)) (on_log_config_map-Keeps node)

  on_service-Keeps :
      (node : CitaNode) (found : Result Service) → Keeps P (on_service configs node found)
  unfolding on_service update_service
  on_service-Keeps node (ok old) = search (keeps_rules)
  on_service-Keeps node (err not_found) = search (keeps_rules, services_keep.create_keeps)
  on_service-Keeps node (err _) = search (keeps_rules)

  pub reconcile_service-Keeps : (node : CitaNode) → Keeps P (reconcile_service configs node)
  unfolding reconcile_service
  reconcile_service-Keeps node =
      Keeps-bind (Keeps-try (services_keep.get_keeps _)) (on_service-Keeps node)
