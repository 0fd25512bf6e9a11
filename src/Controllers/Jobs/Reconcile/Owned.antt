-- ===== src/Controllers/Jobs/Reconcile/Owned.antt =====
-- A job that is made belongs to its resource.
use cita_node_operator.Base.{String, ◌≡◌, some, ok}
use cita_node_operator.Base.Effects.{lift}
use cita_node_operator.Base.Hoare.{Triple, Triple-bind, Triple-lift}
use cita_node_operator.Node.Common.{DeployMethod}
use cita_node_operator.Controllers.Labels.{get_node_label_key_by_type}
use cita_node_operator.Controllers.Jobs.{Resource, Job}
use cita_node_operator.Controllers.Jobs.Reconcile.{Operator, keyed_job}
use cita_node_operator.Controllers.Jobs.Reconcile.Transitions.{State, OperatorLaws}

module _ {S E : Type 0} where
  -- The job as it was made, with its owner.
  abbrev pub OwnedBy : Resource S E → Job → Job → Type 0
  OwnedBy r job owned = owned ≡ record job { owner = some r.key.name }

  -- The job that `make` gives for the key of the label of the deploy method, with its owner.
  abbrev pub KeyedBy : DeployMethod → Resource S E → (String → Job) → Job → Type 0
  KeyedBy deploy_method r make job =
      (node_key : String) × (get_node_label_key_by_type deploy_method ≡ ok node_key)
      × OwnedBy r (make node_key) job

module _ {W S E : Type 0} {op : Operator W S E} (L : OperatorLaws op) (c : State S E) where
  pub owned_lem :
      (r : Resource S E) (job : Job)
      → Triple
          (λ w. L.state w ≡ c)
          (lift (op.set_controller_reference r job))
          (λ owned w. (L.state w ≡ c) × OwnedBy r job owned)
          (λ w. L.state w ≡ c)
  owned_lem r job =
      Triple-lift (op.set_controller_reference r job)
        (λ owned e w h. (h, L.reference_law r job owned e)) (λ w h. h)

  pub keyed_job_lem :
      (deploy_method : DeployMethod) (r : Resource S E) (make : String → Job)
      → Triple
          (λ w. L.state w ≡ c)
          (keyed_job op deploy_method r make)
          (λ job w. (L.state w ≡ c) × KeyedBy deploy_method r make job)
          (λ w. L.state w ≡ c)
  unfolding keyed_job
  keyed_job_lem deploy_method r make =
      Triple-bind
        {R = λ node_key w.
          (L.state w ≡ c) × (get_node_label_key_by_type deploy_method ≡ ok node_key)}
        (Triple-lift (get_node_label_key_by_type deploy_method) (λ node_key e w h. (h, e))
          (λ w h. h))
        λ node_key.
          Triple-lift (op.set_controller_reference r (make node_key))
            (λ job e w h. (h.0, (node_key, h.1, L.reference_law r (make node_key) job e)))
            (λ w h. h.0)
