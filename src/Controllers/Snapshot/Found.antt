-- ===== src/Controllers/Snapshot/Found.antt =====
-- The crypto and the consensus of the job of a snapshot are those of the node's StatefulSet.
use cita_node_operator.Base.{String, ◌==◌, ◌≡◌, ap, ◌∙◌, false}
use cita_node_operator.Base.Hoare.{
  Triple, Triple-bind, Triple-map, Triple-pure, Keeps-pure, Keeps-if,
}
use cita_node_operator.Kube.{Workload}
use cita_node_operator.Controllers.Objects.{ClientKeeps}
use cita_node_operator.Controllers.Jobs.{Job, beside}
use cita_node_operator.Controllers.Jobs.NewClaim.{Claims}
use cita_node_operator.Controllers.Jobs.NewClaim.Keeps.{sized_resources-Keeps, make_claim-Keeps}
use cita_node_operator.Controllers.Jobs.Reconcile.{Operator}
use cita_node_operator.Controllers.Jobs.Reconcile.Owned.{KeyedBy, keyed_job_lem}
use cita_node_operator.Controllers.Jobs.Reconcile.Transitions.{State, OperatorLaws}
use cita_node_operator.Controllers.Fallback.Job.{filter_crypto_and_consensus}
use cita_node_operator.Controllers.Fallback.Job.Found.{
  last_said, crypto_said, consensus_said, filter_crypto_and_consensus_lem,
}
use cita_node_operator.Controllers.Snapshot.{
  SnapshotSpec, SnapshotSize, Snapshot, Source, snapshot_job, snapshot_source, job_for_snapshot,
}

-- What the containers of a workload say.
abbrev pub FoundIn : Workload → Source → Type 0
FoundIn x source =
    (source.crypto ≡ last_said crypto_said x.spec.containers)
    × (source.consensus ≡ last_said consensus_said x.spec.containers)

abbrev pub IsJobOf : Workload → Snapshot → Job → Type 0
IsJobOf x s job =
    (source : Source) × FoundIn x source
    × KeyedBy s.spec.deploy_method s (snapshot_job s source) job

module _ {W : Type 0} {op : Operator W SnapshotSpec SnapshotSize} (L : OperatorLaws op)
    (claims : Claims W SnapshotSpec SnapshotSize) (c : State SnapshotSpec SnapshotSize)
    (claims_keep : ClientKeeps claims.client (λ w. L.state w ≡ c)) (s : Snapshot) (sts : Workload)
    (method : s.spec.deploy_method ≡ "cloud-config")
    (read : Triple
      (λ w. L.state w ≡ c)
      (op.api.get_stateful_set (beside s.key s.spec.node))
      (λ x w. (L.state w ≡ c) × (x ≡ sts))
      (λ w. L.state w ≡ c)) where
  not_python : (s.spec.deploy_method == "python") ≡ false
  not_python = ap (λ (m : String). m == "python") method

  source-FoundIn :
      Triple
        (λ w. L.state w ≡ c)
        (snapshot_source op claims s)
        (λ source w. (L.state w ≡ c) × FoundIn sts source)
        (λ w. L.state w ≡ c)
  unfolding snapshot_source
  source-FoundIn = rw not_python (
      Triple-bind read λ x. record {
        run = λ w h.
            (Triple-bind
                (Keeps-if (s.spec.pvc_size == "") _ _ (Keeps-pure _)
                  (sized_resources-Keeps claims _))
                λ resources.
                  Triple-pure {Q = λ source v. (L.state v ≡ c) × FoundIn sts source} _ λ v k. (
                    k,
                    (
                      ap (λ (y : Workload). (filter_crypto_and_consensus y.spec.containers).0) h.1
                          ∙ ap (λ (f : String × String). f.0)
                              (filter_crypto_and_consensus_lem sts.spec.containers),
                      ap (λ (y : Workload). (filter_crypto_and_consensus y.spec.containers).1) h.1
                          ∙ ap (λ (f : String × String). f.1)
                              (filter_crypto_and_consensus_lem sts.spec.containers),
                    ),
                  )).run
              w h.0;
      })

  pub job_for_snapshot-IsJobOf :
      Triple
        (λ w. L.state w ≡ c)
        (job_for_snapshot op claims s)
        (λ job w. (L.state w ≡ c) × IsJobOf sts s job)
        (λ w. L.state w ≡ c)
  unfolding job_for_snapshot
  job_for_snapshot-IsJobOf = Triple-bind source-FoundIn λ source. record {
    run = λ w h.
        (Triple-bind
            (make_claim-Keeps claims claims_keep.create_keeps s source.resources
              s.spec.storage_class)
            λ _.
              Triple-map (keyed_job_lem L c s.spec.deploy_method s (snapshot_job s source))
                (λ job v k. (k.0, (source, h.1, k.1))) (λ v k. k)).run
          w h.0;
  }
