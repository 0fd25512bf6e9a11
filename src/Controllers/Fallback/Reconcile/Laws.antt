-- ===== src/Controllers/Fallback/Reconcile/Laws.antt =====
-- What the reconciler of fallbacks does between its writes.
use cita_node_operator.Base.{some, ◌≡◌}
use cita_node_operator.Base.Hoare.{Keeps-pure}
use cita_node_operator.Controllers.Jobs.Reconcile.{Operator}
use cita_node_operator.Controllers.Jobs.Reconcile.Transitions.{OperatorLaws, KindLaws}
use cita_node_operator.Controllers.Fallback.{FallbackSpec}
use cita_node_operator.Controllers.Fallback.Job.Frame.{IsJobFor, IsJobFor-key, job_for_lem}
use cita_node_operator.Controllers.Fallback.Reconcile.{kind}

module _ {W : Type 0} {op : Operator W FallbackSpec (Unit {0})} (L : OperatorLaws op) where
  pub fallback-KindLaws : KindLaws L (kind op) IsJobFor
  fallback-KindLaws = record {
    check_keeps = λ c r. Keeps-pure tt;
    guard_keeps = λ c r. Keeps-pure tt;
    job_law = λ c checked r.
        job_for_lem op.api op.list_deployments (λ w. L.state w ≡ c) (L.stateful_sets_keep c)
          (L.deployments_keep c) (L.list_deployments_keep c) op.set_controller_reference
          L.reference_law r;
    result_keeps = λ c r job. Keeps-pure (some tt);
    made_key = IsJobFor-key;
  }
