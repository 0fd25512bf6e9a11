-- ===== src/Controllers/Jobs/Claims/Keeps.antt =====
-- The reads of claims and sizes change nothing.
use cita_node_operator.Base.{String, Option, none, some, Dict, ◌==◌}
use cita_node_operator.Base.Hoare.{Keeps, Keeps-if, Keeps-raise, Keeps-pure, keeps_rules}
use cita_node_operator.Kube.{Pod, Workload, Api}
use cita_node_operator.Controllers.Jobs.{Resource, Job}
use cita_node_operator.Controllers.Jobs.Reconcile.Reads.{data_claim-Keeps, job_pod-Keeps}
use cita_node_operator.Controllers.Jobs.Claims.{
  claim_or_error, required_claim, sized, size_from_pod,
}

module _ {W : Type 0} {P : W → Type 0} where
  claim_or_error-Keeps : (claim : String) → Keeps P (claim_or_error claim)
  unfolding claim_or_error
  claim_or_error-Keeps claim = Keeps-if (claim == "") _ _ (Keeps-raise _) (Keeps-pure claim)

  pub required_claim-Keeps : (deployment : Workload) → Keeps P (required_claim deployment)
  unfolding required_claim
  required_claim-Keeps deployment = search (keeps_rules, data_claim-Keeps, claim_or_error-Keeps)

  sized-Keeps : (name : String) (pod : Option Pod) → Keeps P (sized name pod)
  unfolding sized
  sized-Keeps name none = search (keeps_rules)
  sized-Keeps name (some pod) = search (keeps_rules)

  pub size_from_pod-Keeps :
      {S E : Type 0} (api : Api W)
      → ((n : String) (l : Dict String) → Keeps P (api.list_pods n l))
      → (name : String) (r : Resource S E) (job : Job) → Keeps P (size_from_pod api name r job)
  unfolding size_from_pod
  size_from_pod-Keeps api pods_keep name r job =
      search (keeps_rules, job_pod-Keeps api pods_keep, sized-Keeps)
