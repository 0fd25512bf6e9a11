-- ===== src/Controllers/Fallback/Job/Frame.antt =====
-- What the making of a job reads changes nothing, and the job that it makes.
use cita_node_operator.Base.{String, ◌≡◌, ap, some, List, [], ◌∷◌, Dict, Exec, Result, ok, ◌==◌}
use cita_node_operator.Base.Hoare.{
  Triple, Triple-bind, Triple-lift, Keeps, Keeps-if, Keeps-deref, keeps_rules,
}
use cita_node_operator.Kube.{NamespacedName, Volume, Workload, Api}
use cita_node_operator.Controllers.Labels.{get_node_label_key_by_type}
use cita_node_operator.Controllers.Jobs.{Job}
use cita_node_operator.Controllers.Fallback.{BlockHeightFallback}
use cita_node_operator.Controllers.Fallback.Job.{
  new_job, job_for, get_volumes, get_crypto_and_consensus, get_helm_pvc, get_py_pvc, find_claim,
  first_deployment,
}

-- The job that is made for a fallback, but for its volumes and what was read of the containers.
abbrev pub IsJobFor : BlockHeightFallback → Job → Type 0
IsJobFor b job =
    (volumes : List Volume) × (crypto : String) × (consensus : String) × (node_key : String) × (job
      ≡ record (new_job b volumes crypto consensus node_key) { owner = some b.key.name })

module _ {W : Type 0} (api : Api W)
    (list_deployments : String → Dict String → Exec W (List Workload)) (P : W → Type 0)
    (stateful_sets_keep : (k : NamespacedName) → Keeps P (api.get_stateful_set k))
    (deployments_keep : (k : NamespacedName) → Keeps P (api.get_deployment k))
    (list_deployments_keep : (n : String) (l : Dict String) → Keeps P (list_deployments n l)) where
  find_claim-Keeps : (volumes : List Volume) → Keeps P (find_claim volumes)
  unfolding find_claim
  find_claim-Keeps [] = search (keeps_rules)
  find_claim-Keeps (v ∷ volumes) =
      Keeps-if (v.name == "datadir") _ _ (Keeps-deref v.claim_name) (find_claim-Keeps volumes)

  first_deployment-Keeps :
      (deployments : List Workload) → Keeps P (first_deployment api list_deployments deployments)
  unfolding first_deployment
  first_deployment-Keeps [] = search (keeps_rules)
  first_deployment-Keeps (d ∷ _) = search (keeps_rules)

  get_volumes-Keeps : (b : BlockHeightFallback) → Keeps P (get_volumes api list_deployments b)
  unfolding get_volumes get_helm_pvc get_py_pvc
  get_volumes-Keeps b =
      search
        (
          keeps_rules, stateful_sets_keep, list_deployments_keep, find_claim-Keeps,
          first_deployment-Keeps,
        )
        depth 9

  get_crypto_and_consensus-Keeps :
      (b : BlockHeightFallback) → Keeps P (get_crypto_and_consensus api list_deployments b)
  unfolding get_crypto_and_consensus
  get_crypto_and_consensus-Keeps b = search (keeps_rules, stateful_sets_keep, deployments_keep)

  pub job_for_lem :
      (set_controller_reference : BlockHeightFallback → Job → Result Job)
      → ((b : BlockHeightFallback) (job owned : Job)
          → set_controller_reference b job ≡ ok owned
          → owned ≡ record job { owner = some b.key.name })
      → (b : BlockHeightFallback)
      → Triple P
          (job_for api list_deployments set_controller_reference b)
          (λ job w. P w × IsJobFor b job)
          P
  unfolding job_for
  job_for_lem set_controller_reference law b = Triple-bind (get_volumes-Keeps b) λ volumes.
      Triple-bind (get_crypto_and_consensus-Keeps b) λ found.
        Triple-bind {R = λ _. P}
          (Triple-lift (get_node_label_key_by_type b.spec.deploy_method) (λ _ _ w h. h) (λ w h. h))
          λ node_key.
            Triple-lift (set_controller_reference b (new_job b volumes found.0 found.1 node_key))
              (λ job e w h. (h, (volumes, found.0, found.1, node_key, law b _ job e))) (λ w h. h)

pub IsJobFor-key : (b : BlockHeightFallback) (job : Job) → IsJobFor b job → job.key ≡ b.key
unfolding new_job
IsJobFor-key b job made = ap (λ (j : Job). j.key) made.4
