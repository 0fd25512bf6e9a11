-- ===== src/Node/Registry.antt =====
-- pkg/node: the creators of nodes by deploy method, as `init` of each package registers them.
use cita_node_operator.Base.{String, ◌<>◌, Option, none, some, Dict, [], Result, ok, err, message}
use cita_node_operator.Base.{lookup, insert}
use cita_node_operator.Host.{Host}
use cita_node_operator.Kube.{Api}
use cita_node_operator.Node.{Node}
use cita_node_operator.Node.Common.{DeployMethod, python_operator, helm, cloud_config}
use cita_node_operator.Node.CloudConfig.{new_cloud_config_node}
use cita_node_operator.Node.Python.{new_py_node}
use cita_node_operator.Node.Helm.{HelmState, outside, new_helm_node}

-- `Creator`, of the namespace, the name and the chain. The client and the executor are parameters
-- of the creators.
abbrev pub Creator : Type 0 → Type 0
Creator S = String → String → String → Result (Node S)

module _ {S : Type 0} where
  -- `Register`
  unfoldable pub register : DeployMethod → Creator S → Dict (Creator S) → Dict (Creator S)
  register deploy_method creator nodes = insert deploy_method creator nodes

  -- The lookup in `CreateNode`.
  abbrev create_by : Option (Creator S) → DeployMethod → Creator S
  create_by none deploy_method namespace name chain =
      err (message ("invalid deploy type: " <> deploy_method))
  create_by (some f) deploy_method namespace name chain = f namespace name chain

  -- `CreateNode`
  unfoldable pub create_node : Dict (Creator S) → DeployMethod → Creator S
  create_node nodes deploy_method = create_by (lookup deploy_method nodes) deploy_method

-- A node that has no state of its own, beside the field of a Helm node.
unfoldable pub beside_helm : {W : Type 0} → Node W → Node (HelmState W)
beside_helm n = record {
  stop = outside n.stop;
  check_stopped = outside n.check_stopped;
  fallback = λ action block_height crypto consensus delete.
      outside (n.fallback action block_height crypto consensus delete);
  start = outside n.start;
  backup = λ action source_path dest_path options.
      outside (n.backup action source_path dest_path options);
  restore = λ action source_path dest_path options delete.
      outside (n.restore action source_path dest_path options delete);
  get_name = n.get_name;
  get_account_configmap = outside n.get_account_configmap;
  update_account_configmap = λ new_configmap. outside (n.update_account_configmap new_configmap);
  snapshot = λ action block_height crypto consensus.
      outside (n.snapshot action block_height crypto consensus);
  snapshot_recover = λ action block_height crypto consensus delete.
      outside (n.snapshot_recover action block_height crypto consensus delete);
  change_owner = λ action uid gid. outside (n.change_owner action uid gid);
}

-- `nodes`, after the `init` functions.
unfoldable pub nodes : {W : Type 0} → Api W → Host W → Dict (Creator (HelmState W))
unfolding register
nodes api host =
    register cloud_config
      (λ namespace name chain. ok (
        beside_helm (
          new_cloud_config_node api host
            (record { namespace = namespace; name = name; chain = chain }))))
      (register helm
        (λ namespace name chain.
          ok
            (new_helm_node api host (record { namespace = namespace; name = name; chain = chain })))
        (register python_operator
          (λ namespace name chain. ok (
            beside_helm (
              new_py_node api host (record { namespace = namespace; name = name; chain = chain }))))
          []))
