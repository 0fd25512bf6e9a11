-- ===== src/Controllers/Switchover.antt =====
-- controllers/switchover_controller.go: the reconciler of switchovers.
pub mod Laws
use cita_node_operator.Base.{String, ◌<>◌, ◌||◌, Bool, none, some, [], ◌∷◌, List, Exec}
use cita_node_operator.Base.Effects.{pure, lift, ◌>>=◌, ◌>>◌}
use cita_node_operator.Base.Int.{ℤ}
use cita_node_operator.Kube.{NamespacedName}
use cita_node_operator.Controllers.Labels.{labels_for_chain}
use cita_node_operator.Controllers.Jobs.{
  Resource, Job, job_container, node_job, beside, image_or_default, default_pull_policy,
  default_ttl,
}
use cita_node_operator.Controllers.Jobs.Reconcile
use cita_node_operator.Controllers.Jobs.Reconcile.{Operator, Kind, Answer}

-- `SwitchoverSpec`
pub record SwitchoverSpec : Type 0 where
  pub chain : String
  pub source_node : String
  pub dest_node : String
  pub image : String
  pub pull_policy : String
  pub ttl_seconds_after_finished : ℤ

-- `Switchover`
abbrev pub Switchover : Type 0
Switchover = Resource SwitchoverSpec (Unit {0})

-- `setDefaultSpec`
unfoldable pub set_default_spec : SwitchoverSpec → Bool × SwitchoverSpec
set_default_spec spec =
    let image = image_or_default spec.image in
    let pull_policy = default_pull_policy spec.pull_policy in
    let ttl = default_ttl spec.ttl_seconds_after_finished in
    (
      image.0 || pull_policy.0 || ttl.0,
      record spec {
        image = image.1;
        pull_policy = pull_policy.1;
        ttl_seconds_after_finished = ttl.1;
      },
    )

-- The words of the job.
abbrev pub switchover_args : Switchover → List String
switchover_args switchover =
    let spec = switchover.spec in
    "switchover" ∷ "--namespace" ∷ switchover.key.namespace ∷ "--chain" ∷ spec.chain
    ∷ "--source-node" ∷ spec.source_node ∷ "--dest-node" ∷ spec.dest_node ∷ []

abbrev pub switchover_job : Switchover → Job
switchover_job switchover =
    let spec = switchover.spec in
    node_job switchover.key (labels_for_chain spec.chain) none
      (job_container spec.image spec.pull_policy (switchover_args switchover) []) []

module _ {W : Type 0} (op : Operator W SwitchoverSpec (Unit {0}))
    (get_config_map : NamespacedName → Exec W Unit) where
  -- Both nodes are to have a config map.
  unfoldable pub find_config_maps : Switchover → Exec W Unit
  find_config_maps switchover = do
    get_config_map (beside switchover.key (switchover.spec.source_node <> "-config"))
    get_config_map (beside switchover.key (switchover.spec.dest_node <> "-config"))

  -- `jobForSwitchover`
  unfoldable pub job_for_switchover : Switchover → Exec W Job
  job_for_switchover switchover =
      lift (op.set_controller_reference switchover (switchover_job switchover))

  abbrev pub kind : Kind W SwitchoverSpec (Unit {0}) (Unit {0})
  kind = record {
    set_default_spec = set_default_spec;
    ttl_seconds_after_finished = λ spec. spec.ttl_seconds_after_finished;
    check = λ _. pure tt;
    guard = find_config_maps;
    job_for = λ _. job_for_switchover;
    result = λ _ _. pure (some tt);
  }

  -- `Reconcile`
  unfoldable pub reconcile : NamespacedName → Exec W (Answer W)
  reconcile = Reconcile.reconcile op kind
