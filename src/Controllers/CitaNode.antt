-- ===== src/Controllers/CitaNode.antt =====
-- controllers/citanode_controller.go and api/v1/citanode_types.go: the status of a CITA node and how
-- the reconciler moves it.
pub mod Moves
pub mod Status
pub mod Reconcile
use cita_node_operator.Base.{ℕ, String, ◌<>◌, ◌==◌, ◌=ℕ◌, Bool, true, false, Option, none, some}
use cita_node_operator.Base.{
  List, [], ◌∷◌, Exec, Result, ok, err, not_found, message, if◌then◌else◌,
}
use cita_node_operator.Base.Effects.{pure, raise, try, ◌>>=◌, ◌>>◌}
use cita_node_operator.Base.Int.{ℤ}
use cita_node_operator.Kube.{NamespacedName, Api}
use cita_node_operator.Controllers.Objects.{Client, Objects, put}

-- `Status` is a string, and an object may hold any.
abbrev pub running : String
running = "Running"

abbrev pub stopped : String
stopped = "Stopped"

abbrev pub stopping : String
stopping = "Stopping"

abbrev pub starting : String
starting = "Starting"

abbrev pub upgrading : String
upgrading = "Upgrading"

abbrev pub error : String
error = "Error"

-- `status.Condition` of operator-lib.
pub record Condition : Type 0 where
  pub type : String
  pub status : String
  pub reason : String
  pub message : String

-- `CitaNodeStatus`
pub record CitaNodeStatus : Type 0 where
  pub status : String
  pub conditions : List Condition

-- `CitaNodeSpec`, with `ImageInfo`. `DesiredState`, `LogLevel` and `ConsensusType` are strings.
pub record CitaNodeSpec : Type 0 where
  pub chain_name : String
  pub enable_tls : Bool
  pub consensus_type : String
  pub config_map_ref : String
  pub log_level : String
  pub storage_class_name : Option String
  pub storage_size : Option ℤ
  pub desired_state : String
  pub pull_policy : String
  pub network_image : String
  pub consensus_image : String
  pub executor_image : String
  pub storage_image : String
  pub controller_image : String
  pub kms_image : String

-- `CitaNode`
pub record CitaNode : Type 0 where
  pub key : NamespacedName
  pub spec : CitaNodeSpec
  pub status : CitaNodeStatus

-- `NodeMap`, by the status of its values.
abbrev pub NodeMap : Type 0
NodeMap = Objects String

-- The clients of the reconciler, its recorder of events (a type, a reason and a message), and
-- `SetCondition`, which says whether it changed anything.
pub record NodeOperator (W : Type 0) : Type 0 where
  pub api : Api W
  pub nodes : Client W CitaNode
  pub event : CitaNode → String → String → String → Exec W Unit
  pub set_condition : List Condition → Condition → Bool × List Condition

-- `cr`, after the `switch` on the new status.
abbrev pub external_reason : String → String
external_reason status =
    if status == starting
    then "ExternalStartAction"
    else if status == stopping
    then "ExternalStopAction"
    else if status == upgrading
    then "ContainerAllReady"
    else ""

-- The loop over the statuses of containers.
pub all_ready : List Bool → Bool
all_ready [] = true
all_ready (ready ∷ statuses) = if ready then all_ready statuses else false

module _ {W : Type 0} (op : NodeOperator W) where
  -- The write of the status and the event if it fails.
  write_status : CitaNode → String → Result (Unit {0}) → Exec W Unit
  write_status node reason (ok _) = pure tt
  write_status node reason (err e) =
      op.event node "Warning" reason "Failed to update resource status" >> raise e

  -- `SetStatusAndCondition`: the status is written only if the condition has changed.
  unfoldable pub set_status_and_condition :
      String → CitaNode → String → String → String → String → String → Exec W Unit
  unfolding write_status
  set_status_and_condition wanted node condition_type condition_status reason msg event_type =
      let changed = op.set_condition node.status.conditions (record {
        type = condition_type;
        status = condition_status;
        reason = reason;
        message = msg;
      }) in
      let node' = record node { status = record { status = wanted; conditions = changed.1 } } in
      do
        op.event
            (record node {
              status = record { status = wanted; conditions = node.status.conditions };
            })
            event_type reason msg
        if changed.0
            then (do
              written ← try (op.nodes.update_status node')
              write_status node' reason written)
            else pure tt

  -- `SetDefaultStatus`: whether the status was set.
  unfoldable pub set_default_status : CitaNode → Exec W Bool
  set_default_status node =
      let given = node.status in
      let node' = record node { status = record given { status = starting } } in
      if node.status.status == ""
      then (do
        op.nodes.update_status node'
        op.event node' "Normal" starting "Create CITA Node"
        pure true)
      else pure false

  pod_key : CitaNode → NamespacedName
  pod_key node = record { namespace = node.key.namespace; name = node.key.name <> "-0" }

  sync_starting : CitaNode → Exec W Unit
  sync_starting node = do
    sts ← op.api.get_stateful_set node.key
    if sts.status.replicas =ℕ sts.status.ready_replicas
        then set_status_and_condition running node "PodReady" "True" "ContainerAllReady"
            "Containers are all ready" "Normal"
        else pure tt

  -- The pod of a node that stops.
  after_stop : CitaNode → Result (Unit {0}) → Exec W Unit
  after_stop node (ok _) = pure tt
  after_stop node (err not_found) =
      set_status_and_condition stopped node "PodReady" "False" "CitaNodeStopped"
        "CITA Node has stopped" "Normal"
  after_stop node (err e) = raise e

  sync_stopping : CitaNode → Exec W Unit
  unfolding after_stop pod_key
  sync_stopping node = do
    found ← try (op.api.get_pod (pod_key node) >>= λ _. pure tt)
    after_stop node found

  sync_running : CitaNode → Exec W Unit
  unfolding pod_key all_ready
  sync_running node = do
    pod ← op.api.get_pod (pod_key node)
    if all_ready pod.container_statuses
        then pure tt
        else set_status_and_condition error node "PodReady" "False" "ContainerNotReady"
            "Containers are not ready" "Warning"

  sync_error : CitaNode → Exec W Unit
  unfolding pod_key all_ready
  sync_error node = do
    pod ← op.api.get_pod (pod_key node)
    if all_ready pod.container_statuses
        then set_status_and_condition running node "PodReady" "True" "ContainerAllReady"
            "Containers are all ready" "Normal"
        else pure tt

  -- The cases of `SyncStatus` for a node whose status is the one of `NodeMap`.
  sync_same : String → CitaNode → Exec W Unit
  unfolding sync_starting sync_stopping sync_running sync_error
  sync_same value node =
      if value == starting
      then sync_starting node
      else if value == stopping
      then sync_stopping node
      else if value == running
      then sync_running node
      else if value == error
      then sync_error node
      else pure tt

  sync_value : Option String → CitaNode → Exec W Unit
  unfolding sync_same
  sync_value none node = raise (message "load error")
  sync_value (some value) node =
      if value == node.status.status
      then sync_same value node
      else set_status_and_condition value node "ExternalTrigger" "True" (external_reason value)
          ("External action: [" <> node.status.status <> "] -> [" <> value <> "]") "Normal"

  -- `SyncStatus`
  unfoldable pub sync_status : NodeMap → CitaNode → Exec W Unit
  unfolding sync_value
  sync_status node_map node = sync_value (node_map node.key) node
