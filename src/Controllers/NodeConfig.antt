-- ===== src/Controllers/NodeConfig.antt =====
-- controllers/node_service.go: how the services of a CITA node write their logs.
pub mod Update
use cita_node_operator.Base.{String, ◌<>◌}
use cita_node_operator.Controllers.CitaNode.{CitaNode}
use cita_node_operator.Controllers.NodeNames.{log_dir}

-- The text that the six services share, but for their names.
abbrev log_config : String → String → String
log_config service level =
    "# Scan this file for changes every 30 seconds\n" <> "refresh_rate: 30 seconds\n" <> "\n"
    <> "appenders:\n" <> "# An appender named \"stdout\" that writes to stdout\n" <> "  stdout:\n"
    <> "    kind: console\n" <> "\n" <> "  journey-service:\n" <> "    kind: rolling_file\n"
    <> "    path: \"" <> log_dir <> "/" <> service <> "-service.log\"\n" <> "    policy:\n"
    <> "      # Identifies which policy is to be used. If no kind is specified, it will\n"
    <> "      # default to \"compound\".\n" <> "      kind: compound\n"
    <> "      # The remainder of the configuration is passed along to the policy's\n"
    <> "      # deserializer, and will vary based on the kind of policy.\n" <> "      trigger:\n"
    <> "        kind: size\n" <> "        limit: 50mb\n" <> "      roller:\n"
    <> "        kind: fixed_window\n" <> "        base: 1\n" <> "        count: 5\n"
    <> "        pattern: \"" <> log_dir <> "/" <> service <> "-service.{}.gz\"\n" <> "\n"
    <> "# Set the default logging level and attach the default appender to the root\n" <> "root:\n"
    <> "  level: " <> level <> "\n" <> "  appenders:\n" <> "    - stdout\n"
    <> "    - journey-service"

-- `GenerateControllerLogConfig`
abbrev pub generate_controller_log_config : CitaNode → String
generate_controller_log_config node = log_config "controller" node.spec.log_level

-- `GenerateExecutorLogConfig`
abbrev pub generate_executor_log_config : CitaNode → String
generate_executor_log_config node = log_config "executor" node.spec.log_level

-- `GenerateKmsLogConfig`
abbrev pub generate_kms_log_config : CitaNode → String
generate_kms_log_config node = log_config "kms" node.spec.log_level

-- `GenerateNetworkLogConfig`
abbrev pub generate_network_log_config : CitaNode → String
generate_network_log_config node = log_config "network" node.spec.log_level

-- `GenerateConsensusLogConfig`
abbrev pub generate_consensus_log_config : CitaNode → String
generate_consensus_log_config node = log_config "consensus" node.spec.log_level

-- `GenerateStorageLogConfig`
abbrev pub generate_storage_log_config : CitaNode → String
generate_storage_log_config node = log_config "storage" node.spec.log_level
