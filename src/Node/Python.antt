-- ===== src/Node/Python.antt =====
-- pkg/node/python: a node that is a Deployment of its own, below the volume of its chain.
pub mod Deployment
use cita_node_operator.Base.{ℕ, String, ◌<>◌, Bool, false, Option, some, ◌=ℕ◌, not, length}
use cita_node_operator.Base.{[], ◌∷◌, Exec, Result, ok, err, message, if◌then◌else◌}
use cita_node_operator.Base.Effects.{pure, raise, panic, try, ◌>>=◌, ◌>>◌}
use cita_node_operator.Base.Int.{ℤ}
use cita_node_operator.Base.Text.Decimal.{format_int}
use cita_node_operator.Host.{Host}
use cita_node_operator.Kube.{Api, NamespacedName}
use cita_node_operator.Common.{CompressOptions, DecompressOptions}
use cita_node_operator.Behavior
use cita_node_operator.Node.{Node}
use cita_node_operator.Node.Common.{
  Action, around, ensure_dir, add_annotations, volume_mount_path, backup_source_volume_path,
  backup_dest_volume_path, change_owner_volume_path,
}

-- `pyNode`; its `Client` and `behavior` are the parameters `api` and `host`.
pub record PyNode : Type 0 where
  pub namespace : String
  pub name : String
  pub chain : String

abbrev pub key : PyNode → NamespacedName
key p = record { namespace = p.namespace; name = p.name }

module _ {W : Type 0} (api : Api W) (host : Host W) (p : PyNode) where
  -- `Stop` and `Start`, but for the number of replicas.
  scale : ℕ → Exec W Unit
  scale replicas = do
    dep ← api.get_deployment (key p)
    let spec = dep.spec
    api.update_deployment (record dep { spec = record spec { replicas = some replicas } })

  -- `Stop`
  stop : Exec W Unit
  unfolding scale
  stop = scale 0

  -- `Start`
  start : Exec W Unit
  unfolding scale
  start = scale 1

  -- The pods of the node that are still there, also those that terminate.
  no_pod_left : Exec W Bool
  no_pod_left = do
    pods ← api.list_pods p.namespace (("node_name", p.name) ∷ [])
    pure (not (length pods =ℕ 1))

  -- The condition that `CheckStopped` polls.
  has_stopped : Exec W Bool
  unfolding no_pod_left
  has_stopped = do
    found ← api.get_deployment (key p)
    if found.status.ready_replicas =ℕ 0 then no_pod_left else pure false

  timed_out : Result (Unit {0}) → Exec W Unit
  timed_out (ok _) = pure tt
  timed_out (err _) = raise (message "wait deployment replicas to 0 timeout")

  -- `CheckStopped`
  check_stopped : Exec W Unit
  unfolding has_stopped timed_out
  check_stopped = do polled ← try (api.poll 3 60 has_stopped); timed_out polled

  -- `fmt.Sprintf("%s/%s", path, p.name)`
  abbrev below : String → String
  below path = path <> "/" <> p.name

  change_owner : Action → ℤ → ℤ → Exec W Unit
  unfolding around
  change_owner action uid gid =
      around action stop check_stopped start
        (Behavior.change_owner host uid gid (below change_owner_volume_path))

  restore : Action → String → String → Option DecompressOptions → Bool → Exec W Unit
  unfolding around
  restore action source_path dest_path options delete_consensus_data =
      around action stop check_stopped start
        (Behavior.restore host source_path dest_path options delete_consensus_data)

  fallback : Action → ℤ → String → String → Bool → Exec W Unit
  unfolding around
  fallback action block_height crypto consensus delete_consensus_data =
      around action stop check_stopped start (
        Behavior.fallback host block_height (below volume_mount_path) (below volume_mount_path)
          crypto consensus delete_consensus_data)

  snapshot : Action → ℤ → String → String → Exec W Unit
  unfolding around
  snapshot action block_height crypto consensus = around action stop check_stopped start do
    snapshot_size ←
        Behavior.snapshot host block_height (below backup_source_volume_path)
          (below backup_source_volume_path) backup_dest_volume_path crypto consensus
    add_annotations api (("snapshot-size", format_int snapshot_size) ∷ [])

  backup : Action → String → String → Option CompressOptions → Exec W Unit
  unfolding around
  backup action source_path dest_path options = around action stop check_stopped start do
    ensure_dir host dest_path
    result ← Behavior.backup host source_path dest_path options
    add_annotations api (("backup-size", format_int result.size) ∷ ("md5", result.md5) ∷ [])

  -- `newPyNode`, with the methods of the node. Three of them are not implemented.
  pub new_py_node : Node W
  new_py_node = record {
    stop = stop;
    check_stopped = check_stopped;
    fallback = fallback;
    start = start;
    backup = backup;
    restore = restore;
    get_name = p.name;
    get_account_configmap = panic "implement me";
    update_account_configmap = λ _. panic "implement me";
    snapshot = snapshot;
    snapshot_recover = λ _ _ _ _ _. panic "implement me";
    change_owner = change_owner;
  }
