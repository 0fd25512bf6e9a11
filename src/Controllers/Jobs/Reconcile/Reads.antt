-- ===== src/Controllers/Jobs/Reconcile/Reads.antt =====
-- The reads of the reconcilers change nothing.
use cita_node_operator.Base.{ℕ, String, ◌==◌, Option, none, some, List, [], ◌∷◌, Dict}
use cita_node_operator.Base.Hoare.{Keeps, Keeps-if, Keeps-deref, Keeps-pure, keeps_rules}
use cita_node_operator.Kube.{Volume, Pod, Api}
use cita_node_operator.Controllers.Jobs.{data_claim}
use cita_node_operator.Controllers.Jobs.Reconcile.{
  job_pod, error_log_of, get_error_log_from_pod, first_time,
}

module _ {W : Type 0} {P : W → Type 0} where
  pub data_claim-Keeps : (volumes : List Volume) → Keeps P (data_claim volumes)
  unfolding data_claim
  data_claim-Keeps [] = Keeps-pure ""
  data_claim-Keeps (v ∷ volumes) =
      Keeps-if (v.name == "datadir") _ _ (Keeps-deref v.claim_name) (data_claim-Keeps volumes)

  pub first_time-Keeps : (times : List ℕ) → Keeps P (first_time times)
  unfolding first_time
  first_time-Keeps [] = record { run = λ w h. h }
  first_time-Keeps (t ∷ _) = record { run = λ w h. h }

  module _ (api : Api W)
      (pods_keep : (n : String) (l : Dict String) → Keeps P (api.list_pods n l)) where
    pub job_pod-Keeps :
        (namespace name job_id : String) → Keeps P (job_pod api namespace name job_id)
    unfolding job_pod
    job_pod-Keeps namespace name job_id = search (keeps_rules, pods_keep)

    error_log_of-Keeps : (pod : Option Pod) → Keeps P (error_log_of api pod)
    unfolding error_log_of
    error_log_of-Keeps none = search (keeps_rules)
    error_log_of-Keeps (some pod) = search (keeps_rules)

    pub error_log-Keeps :
        (namespace name job_id : String)
        → Keeps P (get_error_log_from_pod api namespace name job_id)
    unfolding get_error_log_from_pod
    error_log-Keeps namespace name job_id = search (keeps_rules, job_pod-Keeps, error_log_of-Keeps)
