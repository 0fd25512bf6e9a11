-- ===== src/Controllers/Duplicate.antt =====
-- controllers/duplicate_controller.go: the reconciler of backups onto a volume that is given.
pub mod Laws
use cita_node_operator.Base.{
  String, ◌<>◌, ◌==◌, ◌||◌, Bool, Option, none, some, List, [], ◌∷◌, ◌++◌, Exec, if◌then◌else◌,
}
use cita_node_operator.Base.Effects.{pure, deref, lift, ◌>>=◌}
use cita_node_operator.Base.Int.{ℤ}
use cita_node_operator.Base.Text.{join}
use cita_node_operator.Kube.{NamespacedName, Volume, VolumeMount, Pod}
use cita_node_operator.Node.Common.{
  Action, DeployMethod, python_operator, backup_source_volume_path,
}
use cita_node_operator.Controllers.Labels.{labels_for_node, set_affinity, get_mount_point}
use cita_node_operator.Controllers.Jobs.{
  Resource, Job, job_container, node_job, claim_volume, beside, default_action, image_or_default,
  default_pull_policy, default_ttl,
}
use cita_node_operator.Controllers.Jobs.Claims.{required_claim, size_from_pod}
use cita_node_operator.Controllers.Jobs.Reconcile
use cita_node_operator.Controllers.Jobs.Reconcile.{Operator, Kind, Answer, keyed_job, annotation}
use cita_node_operator.Controllers.Recover.{Backend}

-- `Compress`
pub record Compress : Type 0 where
  pub c_type : String
  pub file : String

-- `DuplicateSpec`
pub record DuplicateSpec : Type 0 where
  pub chain : String
  pub node : String
  pub deploy_method : DeployMethod
  pub backend : Option Backend
  pub action : Action
  pub image : String
  pub pull_policy : String
  pub ttl_seconds_after_finished : ℤ
  pub pod_affinity_flag : Bool
  pub compress : Option Compress

-- What `DuplicateStatus` has beside the fields of all kinds.
pub record DuplicateSize : Type 0 where
  pub allocate : ℤ
  pub actual : ℤ
  pub md5 : String
  pub block_height : ℤ

-- `Duplicate`
abbrev pub Duplicate : Type 0
Duplicate = Resource DuplicateSpec DuplicateSize

-- `setDefaultSpec`
unfoldable pub set_default_spec : DuplicateSpec → Bool × DuplicateSpec
set_default_spec spec =
    let action = default_action spec.action in
    let image = image_or_default spec.image in
    let pull_policy = default_pull_policy spec.pull_policy in
    let ttl = default_ttl spec.ttl_seconds_after_finished in
    (
      action.0 || image.0 || pull_policy.0 || ttl.0,
      record spec {
        action = action.1;
        image = image.1;
        pull_policy = pull_policy.1;
        ttl_seconds_after_finished = ttl.1;
      },
    )

-- `--compress` and what goes with it: the archive has the name of the resource if no file is given.
abbrev compress_args : Duplicate → List String
compress_args duplicate = elim duplicate.spec.compress [
  | none ↦ []
  | some c ↦
      "--compress"
      ∷ "--compress-type"
      ∷ c.c_type
      ∷ "--output"
      ∷ (if c.file == "" then duplicate.key.name else c.file)
      ∷ []
]

-- The words of the job for a source path.
abbrev pub duplicate_args : Duplicate → Backend → String → List String
duplicate_args duplicate backend source_path =
    let spec = duplicate.spec in
    "backup"
    ∷ "--namespace"
    ∷ duplicate.key.namespace
    ∷ "--chain"
    ∷ spec.chain
    ∷ "--node"
    ∷ spec.node
    ∷ "--deploy-method"
    ∷ spec.deploy_method
    ∷ "--action"
    ∷ spec.action
    ∷ "--source-path"
    ∷ source_path
    ∷ "--dest-path"
    ∷ backend.path
    ∷ compress_args duplicate

-- Whether the node's data and the backup are on one volume. It is then mounted once.
abbrev one_pvc : String → Backend → Bool
one_pvc claim backend = claim == backend.pvc

abbrev pub source_path : Duplicate → Backend → String → String → String
source_path duplicate backend claim mount_point =
    if one_pvc claim backend
    then join mount_point duplicate.spec.node
    else backup_source_volume_path

abbrev duplicate_volumes : String → Backend → List Volume
duplicate_volumes claim backend =
    claim_volume "backup-source" claim
    ∷ (if one_pvc claim backend then [] else claim_volume "backup-dest" backend.pvc ∷ [])

abbrev duplicate_mounts : String → Backend → String → List VolumeMount
duplicate_mounts claim backend mount_point =
    if one_pvc claim backend
    then record { name = "backup-source"; mount_path = mount_point } ∷ []
    else record { name = "backup-source"; mount_path = backup_source_volume_path }
      ∷ record { name = "backup-dest"; mount_path = mount_point }
      ∷ []

-- The job for a claim of the node's data, a backend, its mount point and the key of the node's
-- label.
abbrev pub duplicate_job : Duplicate → String → Backend → String → String → Job
duplicate_job duplicate claim backend mount_point node_key =
    let spec = duplicate.spec in
    node_job duplicate.key (labels_for_node spec.chain spec.node)
      (set_affinity spec.pod_affinity_flag node_key spec.node)
      (job_container spec.image spec.pull_policy
        (duplicate_args duplicate backend (source_path duplicate backend claim mount_point))
        (duplicate_mounts claim backend mount_point))
      (duplicate_volumes claim backend)

module _ {W : Type 0} (op : Operator W DuplicateSpec DuplicateSize) where
  -- `pvcSourceName`
  duplicate_claim : Duplicate → Exec W String
  duplicate_claim duplicate =
      if duplicate.spec.deploy_method == python_operator
      then (op.api.get_deployment (beside duplicate.key duplicate.spec.node) >>= required_claim)
      else pure ("datadir-" <> duplicate.spec.node <> "-0")

  -- `jobForDuplicate`. A backend that is not given is a nil pointer.
  unfoldable pub job_for_duplicate : Duplicate → Exec W Job
  unfolding duplicate_claim
  job_for_duplicate duplicate = do
    claim ← duplicate_claim duplicate
    backend ← deref duplicate.spec.backend
    mount_point ← lift (get_mount_point backend.path)
    keyed_job op duplicate.spec.deploy_method duplicate
        (duplicate_job duplicate claim backend mount_point)

  with_actual : DuplicateSize → Option (ℤ × Pod) → Option DuplicateSize
  with_actual more none = none
  with_actual more (some (size, pod)) =
      some (record more { actual = size; md5 = annotation "md5" pod })

  -- The size and the checksum that the job has written to its pod.
  unfoldable pub duplicate_result : Duplicate → Job → Exec W (Option DuplicateSize)
  unfolding with_actual
  duplicate_result duplicate job = do
    size ← size_from_pod op.api "backup-size" duplicate job
    pure (with_actual duplicate.status.more size)

  abbrev pub kind : Kind W DuplicateSpec DuplicateSize (Unit {0})
  kind = record {
    set_default_spec = set_default_spec;
    ttl_seconds_after_finished = λ spec. spec.ttl_seconds_after_finished;
    check = λ _. pure tt;
    guard = λ _. pure tt;
    job_for = λ _. job_for_duplicate;
    result = duplicate_result;
  }

  -- `Reconcile`
  unfoldable pub reconcile : NamespacedName → Exec W (Answer W)
  reconcile = Reconcile.reconcile op kind
