-- ===== src/Controllers/ChangeOwner.antt =====
-- controllers/changeowner_controller.go: the reconciler of changes of a node's owner.
pub mod Laws
use cita_node_operator.Base.{String, ◌<>◌, ◌==◌, ◌||◌, Bool, some, List, [], ◌∷◌, Exec}
use cita_node_operator.Base.{if◌then◌else◌}
use cita_node_operator.Base.Effects.{pure, ◌>>=◌}
use cita_node_operator.Base.Int.{ℤ, pos}
use cita_node_operator.Base.Text.Decimal.{format_int}
use cita_node_operator.Kube.{NamespacedName}
use cita_node_operator.Node.Common.{Action, DeployMethod, python_operator, change_owner_volume_path}
use cita_node_operator.Controllers.Labels.{labels_for_node, set_affinity}
use cita_node_operator.Controllers.Jobs.{
  Resource, Job, job_container, node_job, claim_volume, beside, data_claim, or_else, is_zero,
  default_action, image_or_default, default_pull_policy, default_ttl,
}
use cita_node_operator.Controllers.Jobs.Reconcile
use cita_node_operator.Controllers.Jobs.Reconcile.{Operator, Kind, Answer, keyed_job}

-- `ChangeOwnerSpec`
pub record ChangeOwnerSpec : Type 0 where
  pub chain : String
  pub node : String
  pub deploy_method : DeployMethod
  pub action : Action
  pub uid : ℤ
  pub gid : ℤ
  pub image : String
  pub pull_policy : String
  pub ttl_seconds_after_finished : ℤ
  pub pod_affinity_flag : Bool

-- `ChangeOwner`
abbrev pub ChangeOwner : Type 0
ChangeOwner = Resource ChangeOwnerSpec (Unit {0})

-- `setDefaultSpec`. The owner 0 is taken as not given.
unfoldable pub set_default_spec : ChangeOwnerSpec → Bool × ChangeOwnerSpec
set_default_spec spec =
    let action = default_action spec.action in
    let image = image_or_default spec.image in
    let pull_policy = default_pull_policy spec.pull_policy in
    let ttl = default_ttl spec.ttl_seconds_after_finished in
    let uid = or_else (is_zero spec.uid) (pos 1000) spec.uid in
    let gid = or_else (is_zero spec.gid) (pos 1000) spec.gid in
    (
      action.0 || image.0 || pull_policy.0 || ttl.0 || uid.0 || gid.0,
      record spec {
        action = action.1;
        image = image.1;
        pull_policy = pull_policy.1;
        ttl_seconds_after_finished = ttl.1;
        uid = uid.1;
        gid = gid.1;
      },
    )

-- The words of the job.
abbrev pub chown_args : ChangeOwner → List String
chown_args owner =
    let spec = owner.spec in
    "chown"
    ∷ "--namespace"
    ∷ owner.key.namespace
    ∷ "--chain"
    ∷ spec.chain
    ∷ "--node"
    ∷ spec.node
    ∷ "--deploy-method"
    ∷ spec.deploy_method
    ∷ "--action"
    ∷ spec.action
    ∷ "--uid"
    ∷ format_int spec.uid
    ∷ "--gid"
    ∷ format_int spec.gid
    ∷ []

-- The job for a claim and the key of the node's label.
abbrev pub chown_job : ChangeOwner → String → String → Job
chown_job owner claim node_key =
    let spec = owner.spec in
    node_job owner.key (labels_for_node spec.chain spec.node)
      (set_affinity spec.pod_affinity_flag node_key spec.node)
      (job_container spec.image spec.pull_policy (chown_args owner)
        (record { name = "change-owner"; mount_path = change_owner_volume_path } ∷ []))
      (claim_volume "change-owner" claim ∷ [])

module _ {W : Type 0} (op : Operator W ChangeOwnerSpec (Unit {0})) where
  -- `pvcSourceName`
  chown_claim : ChangeOwner → Exec W String
  chown_claim owner =
      if owner.spec.deploy_method == python_operator
      then (do
        deploy ← op.api.get_deployment (beside owner.key owner.spec.node)
        data_claim deploy.spec.volumes)
      else pure ("datadir-" <> owner.spec.node <> "-0")

  -- `jobForChangeOwner`
  unfoldable pub job_for_change_owner : ChangeOwner → Exec W Job
  unfolding chown_claim
  job_for_change_owner owner = do
    claim ← chown_claim owner
    keyed_job op owner.spec.deploy_method owner (chown_job owner claim)

  abbrev pub kind : Kind W ChangeOwnerSpec (Unit {0}) (Unit {0})
  kind = record {
    set_default_spec = set_default_spec;
    ttl_seconds_after_finished = λ spec. spec.ttl_seconds_after_finished;
    check = λ _. pure tt;
    guard = λ _. pure tt;
    job_for = λ _. job_for_change_owner;
    result = λ _ _. pure (some tt);
  }

  -- `Reconcile`
  unfoldable pub reconcile : NamespacedName → Exec W (Answer W)
  reconcile = Reconcile.reconcile op kind
