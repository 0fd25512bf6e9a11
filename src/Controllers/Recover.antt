-- ===== src/Controllers/Recover.antt =====
-- controllers/recover_controller.go: the reconciler of recoveries from a volume.
pub mod Laws
use cita_node_operator.Base.{
  String, ◌<>◌, ◌==◌, ◌||◌, Bool, Option, none, some, List, [], ◌∷◌, ◌++◌,
}
use cita_node_operator.Base.{Exec, if◌then◌else◌}
use cita_node_operator.Base.Effects.{pure, deref, lift, ◌>>=◌}
use cita_node_operator.Base.Int.{ℤ}
use cita_node_operator.Kube.{NamespacedName}
use cita_node_operator.Node.Common.{
  Action, DeployMethod, python_operator, cloud_config, restore_dest_volume_path,
}
use cita_node_operator.Controllers.Labels.{labels_for_node, set_affinity, get_mount_point}
use cita_node_operator.Controllers.Jobs.{
  Resource, Job, job_container, node_job, claim_volume, default_action, image_or_default,
  default_pull_policy, default_ttl,
}
use cita_node_operator.Controllers.Jobs.Reconcile
use cita_node_operator.Controllers.Jobs.Reconcile.{Operator, Kind, Answer, keyed_job}

-- `Backend`
pub record Backend : Type 0 where
  pub pvc : String
  pub path : String

-- `Decompress`
pub record Decompress : Type 0 where
  pub md5 : String
  pub file : String

-- `RecoverSpec`
pub record RecoverSpec : Type 0 where
  pub chain : String
  pub node : String
  pub deploy_method : DeployMethod
  pub backend : Option Backend
  pub action : Action
  pub image : String
  pub pull_policy : String
  pub ttl_seconds_after_finished : ℤ
  pub pod_affinity_flag : Bool
  pub decompress : Option Decompress
  pub delete_consensus_data : Bool

-- `Recover`
abbrev pub Recover : Type 0
Recover = Resource RecoverSpec (Unit {0})

-- `setDefaultSpec`
unfoldable pub set_default_spec : RecoverSpec → Bool × RecoverSpec
set_default_spec spec =
    let action = default_action spec.action in
    let image = image_or_default spec.image in
    let pull_policy = default_pull_policy spec.pull_policy in
    let ttl = default_ttl spec.ttl_seconds_after_finished in
    (
      action.0 || image.0 || pull_policy.0 || ttl.0,
      record spec {
        action = action.1;
        image = image.1;
        pull_policy = pull_policy.1;
        ttl_seconds_after_finished = ttl.1;
      },
    )

-- `pvcDestName`: only a node of its own StatefulSet has one.
abbrev pub dest_claim : DeployMethod → String → String
dest_claim deploy_method node =
    if deploy_method == python_operator
    then ""
    else if deploy_method == cloud_config
    then "datadir-" <> node <> "-0"
    else ""

abbrev decompress_args : Option Decompress → List String
decompress_args none = []
decompress_args (some d) = "--decompress" ∷ "--md5" ∷ d.md5 ∷ "--input" ∷ d.file ∷ []

-- The words of the job.
abbrev pub recover_args : Recover → Backend → List String
recover_args recover backend =
    let spec = recover.spec in
    "restore"
    ∷ "--namespace"
    ∷ recover.key.namespace
    ∷ "--chain"
    ∷ spec.chain
    ∷ "--node"
    ∷ spec.node
    ∷ "--deploy-method"
    ∷ spec.deploy_method
    ∷ "--action"
    ∷ spec.action
    ∷ "--source-path"
    ∷ backend.path
    ∷ "--dest-path"
    ∷ restore_dest_volume_path
    ∷ (decompress_args spec.decompress
        ++ (if spec.delete_consensus_data then "--delete-consensus-data" ∷ [] else []))

-- The job for a backend, its mount point and the key of the node's label.
abbrev pub recover_job : Recover → Backend → String → String → Job
recover_job recover backend mount_point node_key =
    let spec = recover.spec in
    node_job recover.key (labels_for_node spec.chain spec.node)
      (set_affinity spec.pod_affinity_flag node_key spec.node)
      (job_container spec.image spec.pull_policy (recover_args recover backend) (
        record { name = "restore-source"; mount_path = mount_point }
        ∷ record { name = "restore-dest"; mount_path = restore_dest_volume_path }
        ∷ []))
      (claim_volume "restore-source" backend.pvc
        ∷ claim_volume "restore-dest" (dest_claim spec.deploy_method spec.node)
        ∷ [])

module _ {W : Type 0} (op : Operator W RecoverSpec (Unit {0})) where
  -- `jobForRecover`. A backend that is not given is a nil pointer.
  unfoldable pub job_for_recover : Recover → Exec W Job
  job_for_recover recover = do
    backend ← deref recover.spec.backend
    mount_point ← lift (get_mount_point backend.path)
    keyed_job op recover.spec.deploy_method recover (recover_job recover backend mount_point)

  abbrev pub kind : Kind W RecoverSpec (Unit {0}) (Unit {0})
  kind = record {
    set_default_spec = set_default_spec;
    ttl_seconds_after_finished = λ spec. spec.ttl_seconds_after_finished;
    check = λ _. pure tt;
    guard = λ _. pure tt;
    job_for = λ _. job_for_recover;
    result = λ _ _. pure (some tt);
  }

  -- `Reconcile`
  unfoldable pub reconcile : NamespacedName → Exec W (Answer W)
  reconcile = Reconcile.reconcile op kind
