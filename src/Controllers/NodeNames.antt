-- ===== src/Controllers/NodeNames.antt =====
-- controllers/constant.go and names.go: the names that the resources of a CITA node have.
use cita_node_operator.Base.{ℕ, String, ◌<>◌}

abbrev pub data_volume_name : String
data_volume_name = "datadir"

abbrev pub data_volume_mount_path : String
data_volume_mount_path = "/data"

abbrev pub kms_db_mount_path : String
kms_db_mount_path = "/mnt"

abbrev pub node_config_volume_name : String
node_config_volume_name = "node-config"

abbrev pub log_config_volume_name : String
log_config_volume_name = "log-config"

abbrev pub node_config_volume_mount_path : String
node_config_volume_mount_path = "/etc/cita-cloud/config"

abbrev pub log_config_volume_mount_path : String
log_config_volume_mount_path = "/etc/cita-cloud/log"

abbrev pub log_dir : String
log_dir = data_volume_mount_path <> "/logs"

abbrev pub network_port : ℕ
network_port = 40000

abbrev pub controller_port : ℕ
controller_port = 50004

abbrev pub executor_port : ℕ
executor_port = 50002

-- `GetNodePortServiceName`
abbrev pub get_node_port_service_name : String → String
get_node_port_service_name node_name = node_name <> "-nodeport"

-- `GetLogConfigName`
abbrev pub get_log_config_name : String → String
get_log_config_name node_name = node_name <> "-log"
