-- ===== src/Controllers/Fallback/Reconcile.antt =====
-- controllers/blockheightfallback_controller.go: the reconciler of fallbacks.
pub mod Laws
use cita_node_operator.Base.{Exec, some}
use cita_node_operator.Base.Effects.{pure}
use cita_node_operator.Kube.{NamespacedName}
use cita_node_operator.Controllers.Jobs.Reconcile
use cita_node_operator.Controllers.Jobs.Reconcile.{Operator, Kind, Answer}
use cita_node_operator.Controllers.Fallback.{FallbackSpec, set_default_spec}
use cita_node_operator.Controllers.Fallback.Job.{job_for}

module _ {W : Type 0} (op : Operator W FallbackSpec (Unit {0})) where
  abbrev pub kind : Kind W FallbackSpec (Unit {0}) (Unit {0})
  kind = record {
    set_default_spec = set_default_spec;
    ttl_seconds_after_finished = λ spec. spec.ttl_seconds_after_finished;
    check = λ _. pure tt;
    guard = λ _. pure tt;
    job_for = λ _. job_for op.api op.list_deployments op.set_controller_reference;
    result = λ _ _. pure (some tt);
  }

  -- `Reconcile`
  unfoldable pub reconcile : NamespacedName → Exec W (Answer W)
  reconcile = Reconcile.reconcile op kind
