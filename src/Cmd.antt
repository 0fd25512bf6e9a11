-- ===== src/Cmd.antt =====
-- pkg/cmd: the subcommands of the job binary, from their flags to their exit code.
pub mod Exit
pub mod Flags
pub mod Jobs
use cita_node_operator.Base.{
  ℕ, String, ◌==◌, ◌||◌, Bool, Option, some, [], ◌∷◌, Exec, if◌then◌else◌,
}
use cita_node_operator.Base.{Error, Result, ok, err, message}
use cita_node_operator.Base.Effects.{pure, raise, lift, try, ◌>>=◌, ◌>>◌}
use cita_node_operator.Base.Int.{ℤ}
use cita_node_operator.Common.{CompressOptions, DecompressOptions}
use cita_node_operator.Node.{Node}
use cita_node_operator.Node.Common.{
  Action, DeployMethod, helm, python_operator, cloud_config, stop_and_start, direct,
  add_annotations,
}
use cita_node_operator.Node.Helm.{HelmState, outside}
use cita_node_operator.Node.Registry.{create_node, nodes}
use cita_node_operator.Switchover.{switch}
use cita_node_operator.Host.{Host}
use cita_node_operator.Kube.{Api}

-- The subcommands that act on one node, with the flags that they pass to it.
pub data Command : Type 0 where
  backup : Action → String → String → Option CompressOptions → Command
  restore : Action → String → String → Option DecompressOptions → Bool → Command
  fallback : Action → ℤ → String → String → Bool → Command
  snapshot : Action → ℤ → String → String → Command
  snapshot_recover : Action → ℤ → String → String → Bool → Command
  chown : Action → ℤ → ℤ → Command

abbrev pub action_of : Command → Action
action_of (backup action _ _ _) = action
action_of (restore action _ _ _ _) = action
action_of (fallback action _ _ _ _) = action
action_of (snapshot action _ _ _) = action
action_of (snapshot_recover action _ _ _ _) = action
action_of (chown action _ _) = action

-- The function that is given to `AddLogToPodAnnotation`.
unfoldable pub execute : {S : Type 0} → Node S → Command → Exec S Unit
execute n (backup action source_path dest_path options) =
    n.backup action source_path dest_path options
execute n (restore action source_path dest_path options delete_consensus_data) =
    n.restore action source_path dest_path options delete_consensus_data
execute n (fallback action block_height crypto consensus delete_consensus_data) =
    n.fallback action block_height crypto consensus delete_consensus_data
execute n (snapshot action block_height crypto consensus) =
    n.snapshot action block_height crypto consensus
execute n (snapshot_recover action block_height crypto consensus delete_consensus_data) =
    n.snapshot_recover action block_height crypto consensus delete_consensus_data
execute n (chown action uid gid) = n.change_owner action uid gid

-- The flags that say which node a subcommand acts on.
pub record Target : Type 0 where
  pub namespace : String
  pub chain : String
  pub node : String
  pub deploy_method : String

-- The cases of the `switch` on the flag of the deploy method and of the action.
abbrev pub known_deploy_method : String → Bool
known_deploy_method s = s == helm || s == python_operator || s == cloud_config

abbrev pub known_action : String → Bool
known_action s = s == stop_and_start || s == direct

-- `dm` after the `switch`. That of `fallback` has no default case and leaves it empty.
abbrev deploy_method_of : Command → String → Result DeployMethod
deploy_method_of (fallback _ _ _ _ _) s = ok (if known_deploy_method s then s else "")
deploy_method_of _ s =
    if known_deploy_method s then ok s else err (message "invalid parameter for deploy method")

abbrev check_action : Action → Result (Unit {0})
check_action s = if known_action s then ok tt else err (message "invalid parameter for action")

abbrev exit_code : Result (Unit {0}) → ℕ
exit_code (ok _) = 0
exit_code (err _) = 1

-- The switchover of `switchoverFunc`, with its two nodes.
pub record SwitchoverTarget : Type 0 where
  pub namespace : String
  pub chain : String
  pub source_node : String
  pub dest_node : String

module _ {W : Type 0} (api : Api W) (host : Host W) (describe : Error → String)
    (init_k8s_client : Exec W Unit) where
  -- The part of `AddLogToPodAnnotation` after the call of its function. The description of an
  -- error is that of `errors.Wrap` and `%+v`.
  abbrev pub report : Result (Unit {0}) → Exec (HelmState W) Unit
  report (ok _) = pure tt
  report (err e) = outside (add_annotations api (("err-log", describe e) ∷ [])) >> raise e

  -- `AddLogToPodAnnotation`, on the state of the nodes.
  unfoldable pub log_to_pod : Exec (HelmState W) Unit → Exec (HelmState W) Unit
  log_to_pod fn = do result ← try fn; report result

  -- From the client to the end of the work: whatever fails is logged, and the exit code is 1.
  unfoldable pub subcommand_work : Target → Command → Exec (HelmState W) Unit
  subcommand_work t m = do
    outside init_k8s_client
    dm ← lift (deploy_method_of m t.deploy_method)
    lift (check_action (action_of m))
    node ← lift (create_node (nodes api host) dm t.namespace t.node t.chain)
    log_to_pod (execute node m)

  -- What the functions of the subcommands share.
  unfoldable pub subcommand : Target → Command → Exec (HelmState W) ℕ
  unfolding subcommand_work
  subcommand t m = do result ← try (subcommand_work t m); pure (exit_code result)

  -- `backupFunc`
  abbrev pub backup_func :
      Target → Action → String → String → Bool → String → String → Exec (HelmState W) ℕ
  backup_func t action source_path dest_path compress compress_type output = subcommand t (
      backup action source_path dest_path
        (some (record { enable = compress; c_type = compress_type; output = output })))

  -- `restoreFunc`
  abbrev pub restore_func :
      Target → Action → String → String → Bool → String → String → Bool → Exec (HelmState W) ℕ
  restore_func t action source_path dest_path decompress md5 input delete_consensus_data =
      subcommand t (
        restore action source_path dest_path
          (some (record { enable = decompress; md5 = md5; input = input })) delete_consensus_data)

  -- `fallBackFunc`
  abbrev pub fallback_func : Target → Action → ℤ → String → String → Bool → Exec (HelmState W) ℕ
  fallback_func t action block_height crypto consensus delete_consensus_data =
      subcommand t (fallback action block_height crypto consensus delete_consensus_data)

  -- `snapshotFunc`
  abbrev pub snapshot_func : Target → Action → ℤ → String → String → Exec (HelmState W) ℕ
  snapshot_func t action block_height crypto consensus =
      subcommand t (snapshot action block_height crypto consensus)

  -- `snapshotRecoverFunc`
  abbrev pub snapshot_recover_func :
      Target → Action → ℤ → String → String → Bool → Exec (HelmState W) ℕ
  snapshot_recover_func t action block_height crypto consensus delete_consensus_data =
      subcommand t (snapshot_recover action block_height crypto consensus delete_consensus_data)

  -- `chownFunc`
  abbrev pub chown_func : Target → Action → ℤ → ℤ → Exec (HelmState W) ℕ
  chown_func t action uid gid = subcommand t (chown action uid gid)

  -- `switchoverFunc`
  unfoldable pub switchover_func : SwitchoverTarget → Exec (HelmState W) ℕ
  switchover_func t = do
    result ← try do
      outside init_k8s_client
      source_node ←
          lift (create_node (nodes api host) cloud_config t.namespace t.source_node t.chain)
      dest_node ← lift (create_node (nodes api host) cloud_config t.namespace t.dest_node t.chain)
      log_to_pod (switch source_node dest_node)
    pure (exit_code result)
