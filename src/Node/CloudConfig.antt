-- ===== src/Node/CloudConfig.antt =====
-- pkg/node/cloud_config: a node that is a StatefulSet of its own.
pub mod Scaling
pub mod Commands
pub mod Views
pub mod Account
use cita_node_operator.Base.{ℕ, String, ◌==◌, Bool, Option, none, some, ◌=ℕ◌}
use cita_node_operator.Base.{List, [], ◌∷◌, Exec, Result, ok, err, message, if◌then◌else◌}
use cita_node_operator.Base.Effects.{pure, raise, deref, try, ◌>>=◌, ◌>>◌}
use cita_node_operator.Base.Int.{ℤ, pos}
use cita_node_operator.Base.Text.Decimal.{format_int}
use cita_node_operator.Host.{Host}
use cita_node_operator.Kube.{Api, NamespacedName, Volume}
use cita_node_operator.Common.{CompressOptions, DecompressOptions}
use cita_node_operator.Behavior
use cita_node_operator.Node.{Node}
use cita_node_operator.Node.Common.{
  Action, around, ensure_dir, add_annotations, config_mount_path, volume_mount_path,
  backup_source_volume_path, backup_dest_volume_path, restore_source_volume_path,
  restore_dest_volume_path, change_owner_volume_path,
}

-- `cloudConfigNode`; its `Client` and `behavior` are the parameters `api` and `host`.
pub record CloudConfigNode : Type 0 where
  pub namespace : String
  pub name : String
  pub chain : String

abbrev pub key : CloudConfigNode → NamespacedName
key c = record { namespace = c.namespace; name = c.name }

-- The name of the config map of a volume that is one. The field is a pointer.
abbrev account_volume : String
account_volume = "node-account"

-- `for _, vol := range volumes { if vol.Name == … { return … } }; return ""`. `none` is a volume
-- of that name with no config map, where the code dereferences a nil pointer.
pub find_account : List Volume → Option String
find_account [] = some ""
find_account (vol ∷ volumes) =
    if vol.name == account_volume then vol.config_map else find_account volumes

cons? : Option Volume → Option (List Volume) → Option (List Volume)
cons? (some vol) (some volumes) = some (vol ∷ volumes)
cons? _ _ = none

-- The assignment in the loop of `UpdateAccountConfigmap`, through the pointer of each volume.
rename : String → Volume → Option Volume
rename new_configmap vol = elim vol.config_map [
  | none ↦ none
  | some _ ↦ some (record vol { config_map = some new_configmap })
]

assign : String → Volume → Option Volume
unfolding rename
assign new_configmap vol = if vol.name == account_volume then rename new_configmap vol else some vol

pub set_account : String → List Volume → Option (List Volume)
unfolding cons? assign
set_account new_configmap [] = some []
set_account new_configmap (vol ∷ volumes) =
    cons? (assign new_configmap vol) (set_account new_configmap volumes)

module _ {W : Type 0} (api : Api W) (host : Host W) (c : CloudConfigNode) where
  -- `GetAccountConfigmap`
  unfoldable pub get_account_configmap : Exec W String
  unfolding find_account
  get_account_configmap = do
    sts ← api.get_stateful_set (key c)
    deref (find_account sts.spec.volumes)

  update_account : String → Exec W Unit
  unfolding set_account
  update_account new_configmap = do
    sts ← api.get_stateful_set (key c)
    volumes ← deref (set_account new_configmap sts.spec.volumes)
    let spec = sts.spec
    api.update_stateful_set (record sts { spec = record spec { volumes = volumes } })

  -- `UpdateAccountConfigmap`
  unfoldable pub update_account_configmap : String → Exec W Unit
  unfolding update_account
  update_account_configmap new_configmap = api.retry_on_conflict (update_account new_configmap)

  -- The attempt of `Stop` and of `Start`.
  scale : Option ℕ → Exec W Unit
  scale replicas = do
    sts ← api.get_stateful_set (key c)
    let spec = sts.spec
    api.update_stateful_set (record sts { spec = record spec { replicas = replicas } })

  -- `Stop`
  unfoldable pub stop : Exec W Unit
  unfolding scale
  stop = api.retry_on_conflict (scale (some 0))

  -- `Start`
  unfoldable pub start : Exec W Unit
  unfolding scale
  start = api.retry_on_conflict (scale (some 1))

  -- The condition that `CheckStopped` polls.
  has_stopped : Exec W Bool
  has_stopped = do found ← api.get_stateful_set (key c); pure (found.status.ready_replicas =ℕ 0)

  timed_out : Result (Unit {0}) → Exec W Unit
  timed_out (ok _) = pure tt
  timed_out (err _) = raise (message "wait statefulset replicas to 0 timeout")

  -- `CheckStopped`
  unfoldable pub check_stopped : Exec W Unit
  unfolding has_stopped timed_out
  check_stopped = do polled ← try (api.poll 3 60 has_stopped); timed_out polled

  unfoldable pub change_owner : Action → ℤ → ℤ → Exec W Unit
  unfolding around
  change_owner action uid gid =
      around action stop check_stopped start
        (Behavior.change_owner host uid gid change_owner_volume_path)

  unfoldable pub restore : Action → String → String → Option DecompressOptions → Bool → Exec W Unit
  unfolding around
  restore action source_path dest_path options delete_consensus_data =
      around action stop check_stopped start
        (Behavior.restore host source_path dest_path options delete_consensus_data)

  unfoldable pub fallback : Action → ℤ → String → String → Bool → Exec W Unit
  unfolding around
  fallback action block_height crypto consensus delete_consensus_data =
      around action stop check_stopped start (
        Behavior.fallback host block_height volume_mount_path config_mount_path crypto consensus
          delete_consensus_data)

  unfoldable pub snapshot : Action → ℤ → String → String → Exec W Unit
  unfolding around
  snapshot action block_height crypto consensus = around action stop check_stopped start do
    snapshot_size ←
        Behavior.snapshot host block_height backup_source_volume_path config_mount_path
          backup_dest_volume_path crypto consensus
    add_annotations api (("snapshot-size", format_int snapshot_size) ∷ [])

  unfoldable pub snapshot_recover : Action → ℤ → String → String → Bool → Exec W Unit
  unfolding around
  snapshot_recover action block_height crypto consensus delete_consensus_data =
      around action stop check_stopped start do
        Behavior.snapshot_recover host block_height restore_dest_volume_path config_mount_path
            restore_source_volume_path crypto consensus delete_consensus_data
        Behavior.change_owner host (pos 1000) (pos 1000) restore_dest_volume_path

  unfoldable pub backup : Action → String → String → Option CompressOptions → Exec W Unit
  unfolding around
  backup action source_path dest_path options = around action stop check_stopped start do
    ensure_dir host dest_path
    result ← Behavior.backup host source_path dest_path options
    add_annotations api (("backup-size", format_int result.size) ∷ ("md5", result.md5) ∷ [])

  -- `newCloudConfigNode`, with the methods of the node.
  unfoldable pub new_cloud_config_node : Node W
  new_cloud_config_node = record {
    stop = stop;
    check_stopped = check_stopped;
    fallback = fallback;
    start = start;
    backup = backup;
    restore = restore;
    get_name = c.name;
    get_account_configmap = get_account_configmap;
    update_account_configmap = update_account_configmap;
    snapshot = snapshot;
    snapshot_recover = snapshot_recover;
    change_owner = change_owner;
  }
