-- ===== src/Controllers/Switchover/Laws.antt =====
-- The job of a switchover, and what its reconciler does between its writes.
use cita_node_operator.Base.{◌≡◌, refl, ap, false, some, Exec, [], none}
use cita_node_operator.Base.Hoare.{Triple, Keeps, Keeps-pure, keeps_rules}
use cita_node_operator.Kube.{NamespacedName}
use cita_node_operator.Controllers.Jobs.{Job}
use cita_node_operator.Controllers.Jobs.Defaults.{image_again, policy_again, ttl_again}
use cita_node_operator.Controllers.Jobs.Reconcile.{Operator}
use cita_node_operator.Controllers.Jobs.Reconcile.Owned.{OwnedBy, owned_lem}
use cita_node_operator.Controllers.Jobs.Reconcile.Transitions.{State, OperatorLaws, KindLaws, Step}
use cita_node_operator.Controllers.Jobs.Describes.{JobFor, node_job-JobFor, KindLaws-map}
use cita_node_operator.Controllers.Jobs.Reconcile.Steps.{reconcile-Step}
use cita_node_operator.Controllers.Switchover.{
  reconcile, SwitchoverSpec, Switchover, set_default_spec, switchover_job, find_config_maps,
  job_for_switchover, kind,
}

pub set_default_spec_again :
    (spec : SwitchoverSpec)
    → set_default_spec (set_default_spec spec).1 ≡ (false, (set_default_spec spec).1)
unfolding set_default_spec
set_default_spec_again spec =
    rw
      (
        image_again spec.image,
        policy_again spec.pull_policy,
        ttl_again spec.ttl_seconds_after_finished,
      )
      refl

abbrev pub IsSwitchoverJob : Switchover → Job → Type 0
IsSwitchoverJob switchover job = OwnedBy switchover (switchover_job switchover) job

-- The job of a switchover runs anywhere and finds nothing mounted.
abbrev pub SwitchoverMakes : Switchover → Job → Type 0
SwitchoverMakes switchover job =
    (job.affinity ≡ none)
    × (job.volumes ≡ [])
    × JobFor switchover.key switchover.spec.image "switchover" [] job

pub IsSwitchoverJob-Makes :
    (switchover : Switchover) (job : Job)
    → IsSwitchoverJob switchover job
    → SwitchoverMakes switchover job
IsSwitchoverJob-Makes switchover job made = rw made (refl, refl, node_job-JobFor refl)

module _ {W : Type 0} {op : Operator W SwitchoverSpec (Unit {0})} (L : OperatorLaws op)
    (get_config_map : NamespacedName → Exec W Unit)
    (config_maps_keep : (c : State SwitchoverSpec (Unit {0})) (k : NamespacedName)
      → Keeps (λ w. L.state w ≡ c) (get_config_map k)) where
  pub switchover-KindLaws : KindLaws L (kind op get_config_map) IsSwitchoverJob
  unfolding job_for_switchover find_config_maps
  switchover-KindLaws = record {
    check_keeps = λ c r. Keeps-pure tt;
    guard_keeps = λ c r. search (keeps_rules, config_maps_keep);
    job_law = λ c checked switchover. owned_lem L c switchover (switchover_job switchover);
    result_keeps = λ c r job. Keeps-pure (some tt);
    made_key = λ switchover job made. ap (λ (j : Job). j.key) made;
  }

  -- One run of the reconciler of switchovers, however it ends, makes at most one step on the
  -- switchovers and the jobs: it completes the specification or the status of the one asked for,
  -- or makes its job where there is none and it is not finished, or lets its status follow the
  -- job. The job runs the subcommand switchover and has no affinity, no volume and no mounted path. Reads of config maps leave switchovers and jobs
  -- alone.
  pub switchover-Step :
      (req : NamespacedName) (c : State SwitchoverSpec (Unit {0}))
      → Triple
          (λ w. L.state w ≡ c)
          (reconcile op get_config_map req)
          (λ _ w. Step set_default_spec SwitchoverMakes req c (L.state w))
          (λ w. Step set_default_spec SwitchoverMakes req c (L.state w))
  unfolding reconcile
  switchover-Step =
      reconcile-Step L
        (KindLaws-map IsSwitchoverJob-Makes (λ r job made. made.2.key_is) switchover-KindLaws)
