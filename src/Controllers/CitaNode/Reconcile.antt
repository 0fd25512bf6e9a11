-- ===== src/Controllers/CitaNode/Reconcile.antt =====
-- controllers/citanode_controller.go and cache.go: a run of the reconciler of CITA nodes, on the
-- cluster and the variable `NodeMap`.
pub mod Asked
pub mod Runs
use cita_node_operator.Base.{String, ◌==◌, Bool, Option, none, some, Exec, if◌then◌else◌}
use cita_node_operator.Base.{Result, ok, err, not_found, message}
use cita_node_operator.Base.Effects.{Outcome, pure, raise, try, ◌>>=◌, ◌>>◌}
use cita_node_operator.Kube.{NamespacedName, same_key}
use cita_node_operator.Controllers.Objects.{put}
use cita_node_operator.Controllers.CitaNode.{
  CitaNode, NodeMap, NodeOperator, set_default_status, sync_status,
}
use cita_node_operator.Controllers.NodeSet.Update.{SetOperator, reconcile_stateful_set}
use cita_node_operator.Controllers.NodeConfig.Update.{
  ConfigOperator, reconcile_config_map, reconcile_log_config_map, reconcile_service,
}

-- The cluster and `NodeMap`.
pub record Memory (W : Type 0) : Type 0 where
  pub world : W
  pub node_map : NodeMap

module _ {W : Type 0} where
  abbrev with_map : {A : Type 0} → NodeMap → Outcome A × W → Outcome A × Memory W
  with_map node_map (o, w) = (o, record { world = w; node_map = node_map })

  -- Work on the cluster alone.
  abbrev pub on_cluster : {A : Type 0} → Exec W A → Exec (Memory W) A
  on_cluster m s = with_map s.node_map (m s.world)

  -- `NodeMap.Load`, `Store` and `Delete`
  abbrev pub load : NamespacedName → Exec (Memory W) (Option String)
  load key s = pure (s.node_map key) s

  abbrev pub store : NamespacedName → String → Exec (Memory W) Unit
  store key status s = pure tt (record s { node_map = put key status s.node_map })

  abbrev pub delete : NamespacedName → Exec (Memory W) Unit
  delete key s =
      pure tt (record s { node_map = λ k. if same_key key k then none else s.node_map k })

module _ {W : Type 0} (op : NodeOperator W) (sets : SetOperator W)
    (configs : ConfigOperator W) where
  store_change : NamespacedName → String → Option String → Exec (Memory W) Unit
  store_change key status none = raise (message "load error")
  store_change key status (some old) = if old == status then pure tt else store key status

  -- The end of `ReconcileAllRecourse`. An error beside a status is not looked at.
  after_set : CitaNode → Option String × Result (Unit {0}) → Exec (Memory W) Unit
  unfolding store_change
  after_set node (none, _) = pure tt
  after_set node (some status, _) = do old ← load node.key; store_change node.key status old

  -- `ReconcileAllRecourse`
  unfoldable pub reconcile_all_recourse : CitaNode → Exec (Memory W) Unit
  unfolding after_set
  reconcile_all_recourse node = do
    config_map_changed ← on_cluster (reconcile_config_map configs node)
    log_changed ← on_cluster (reconcile_log_config_map configs node)
    on_cluster (reconcile_service configs node)
    change ← on_cluster (reconcile_stateful_set sets node)
    after_set node change

  -- `SyncStatus`, with the variable.
  sync : CitaNode → Exec (Memory W) Unit
  sync node s = on_cluster (sync_status op s.node_map node) s

  with_status : NamespacedName → CitaNode → Bool → Exec (Memory W) Unit
  unfolding sync
  with_status req node set_by_default =
      if set_by_default
      then pure tt
      else store req node.status.status >> (reconcile_all_recourse node >> sync node)

  on_node : NamespacedName → Result CitaNode → Exec (Memory W) Unit
  unfolding with_status
  on_node req (err not_found) = delete req
  on_node req (err e) = delete req >> raise e
  on_node req (ok node) = on_cluster (set_default_status op node) >>= with_status req node

  -- `Reconcile`. Its `ctrl.Result` is always empty.
  unfoldable pub reconcile : NamespacedName → Exec (Memory W) Unit
  unfolding on_node
  reconcile req = do found ← on_cluster (try (op.nodes.get req)); on_node req found
