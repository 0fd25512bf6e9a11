-- ===== src/Node/Helm.antt =====
-- pkg/node/helm: the nodes of a chain share a StatefulSet that is named after the chain.
pub mod Outside
pub mod Replicas
use cita_node_operator.Base.{ℕ, String, ◌<>◌, Bool, Option, ◌=ℕ◌, Outcome}
use cita_node_operator.Base.{Exec, Result, ok, err, message}
use cita_node_operator.Base.Effects.{pure, raise, panic, deref, try, ◌>>=◌, ◌>>◌}
use cita_node_operator.Base.Int.{ℤ}
use cita_node_operator.Host.{Host}
use cita_node_operator.Kube.{Api, NamespacedName}
use cita_node_operator.Common.{DecompressOptions}
use cita_node_operator.Behavior
use cita_node_operator.Node.{Node}
use cita_node_operator.Node.Common.{Action, around, volume_mount_path}

-- The fields of `helmNode` that never change.
pub record HelmNode : Type 0 where
  pub namespace : String
  pub name : String
  pub chain : String

-- The world, and the field `replicas` of the node, which `Stop` sets.
pub record HelmState (W : Type 0) : Type 0 where
  pub world : W
  pub replicas : Option ℕ

abbrev pub key : HelmNode → NamespacedName
key h = record { namespace = h.namespace; name = h.chain }

module _ {W A : Type 0} where
  abbrev beside : Option ℕ → Outcome A × W → Outcome A × HelmState W
  beside replicas (o, w) = (o, record { world = w; replicas = replicas })

  -- A call that does not touch the node.
  abbrev pub outside : Exec W A → Exec (HelmState W) A
  outside m s = beside s.replicas (m s.world)

abbrev set_replicas : {W : Type 0} → Option ℕ → Exec (HelmState W) Unit
set_replicas replicas s = pure tt (record s { replicas = replicas })

abbrev saved_replicas : {W : Type 0} → Exec (HelmState W) (Option ℕ)
saved_replicas s = pure s.replicas s

module _ {W : Type 0} (api : Api W) (host : Host W) (h : HelmNode) where
  -- `Stop`
  stop : Exec (HelmState W) Unit
  stop = do
    sts ← outside (api.get_stateful_set (key h))
    let spec = sts.spec
    set_replicas spec.replicas
    outside
        (api.update_stateful_set (record sts { spec = record spec { replicas = Option.some 0 } }))

  -- The condition that `CheckStopped` polls.
  has_stopped : Exec W Bool
  has_stopped = do found ← api.get_stateful_set (key h); pure (found.status.ready_replicas =ℕ 0)

  timed_out : Result (Unit {0}) → Exec W Unit
  timed_out (ok _) = pure tt
  timed_out (err _) = raise (message "wait statefulset replicas to 0 timeout")

  -- `CheckStopped`
  check_stopped : Exec (HelmState W) Unit
  unfolding has_stopped timed_out
  check_stopped = outside do polled ← try (api.poll 3 60 has_stopped); timed_out polled

  -- `Start`. The number is printed in the end, through the pointer.
  start : Exec (HelmState W) Unit
  start = do
    sts ← outside (api.get_stateful_set (key h))
    replicas ← saved_replicas
    let spec = sts.spec
    outside (api.update_stateful_set (record sts { spec = record spec { replicas = replicas } }))
    printed ← deref replicas
    pure tt

  restore : Action → String → String → Option DecompressOptions → Bool → Exec (HelmState W) Unit
  unfolding around
  restore action source_path dest_path options delete_consensus_data =
      around action stop check_stopped start
        (outside (Behavior.restore host source_path dest_path options delete_consensus_data))

  -- The action is not looked at.
  pub fallback : Action → ℤ → String → String → Bool → Exec (HelmState W) Unit
  fallback action block_height crypto consensus delete_consensus_data =
      let path = volume_mount_path <> "/" <> h.name in
      do
        stop
        check_stopped
        outside
            (Behavior.fallback host block_height path path crypto consensus delete_consensus_data)
        start

  -- `newHelmNode`, with the methods of the node. `Backup` does nothing and succeeds.
  pub new_helm_node : Node (HelmState W)
  new_helm_node = record {
    stop = stop;
    check_stopped = check_stopped;
    fallback = fallback;
    start = start;
    backup = λ _ _ _ _. pure tt;
    restore = restore;
    get_name = h.name;
    get_account_configmap = panic "implement me";
    update_account_configmap = λ _. panic "implement me";
    snapshot = λ _ _ _ _. panic "implement me";
    snapshot_recover = λ _ _ _ _ _. panic "implement me";
    change_owner = λ _ _ _. panic "implement me";
  }
