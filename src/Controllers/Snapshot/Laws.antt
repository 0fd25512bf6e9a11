-- ===== src/Controllers/Snapshot/Laws.antt =====
-- The job of a snapshot, what its reconciler does between its writes, and where it cannot go on.
use cita_node_operator.Base.{
  String, ◌<>◌, ◌==◌, ◌≡◌, refl, ap, false, some, [], ◌∷◌, inl, inr, Bool-cases, eq_iff, List,
}
use cita_node_operator.Base.Hoare.{
  Triple, Triple-bind, Triple-map, Triple-if, Triple-pure, Keeps, Keeps-pure, Keeps-bind, Keeps-if,
}
use cita_node_operator.Kube.{NamespacedName, VolumeClaim}
use cita_node_operator.Node.Common.{python_operator}
use cita_node_operator.Controllers.Objects.{Objects, ClientKeeps}
use cita_node_operator.Controllers.Jobs.{Job}
use cita_node_operator.Controllers.Jobs.Claims.Keeps.{required_claim-Keeps, size_from_pod-Keeps}
use cita_node_operator.Controllers.Jobs.NewClaim.{Claims}
use cita_node_operator.Controllers.Jobs.NewClaim.Keeps.{
  sized_resources-Keeps, size_or_claim-Keeps, make_claim-Keeps,
}
use cita_node_operator.Controllers.Jobs.NewClaim.Stuck.{ClaimsLaws, get-Keeps, make_claim-stuck}
use cita_node_operator.Controllers.Jobs.Defaults.{
  action_again, image_again, policy_again, ttl_again,
}
use cita_node_operator.Controllers.Jobs.Reconcile.{Operator}
use cita_node_operator.Controllers.Jobs.Reconcile.Owned.{KeyedBy, keyed_job_lem}
use cita_node_operator.Controllers.Jobs.Reconcile.Transitions.{State, OperatorLaws, KindLaws, Step}
use cita_node_operator.Controllers.Jobs.Describes.{
  true-not_false, Mounted, the_claim, the_config_map, JobFor, node_job-JobFor, KindLaws-map,
}
use cita_node_operator.Controllers.Jobs.Reconcile.Steps.{reconcile-Step}
use cita_node_operator.Controllers.Snapshot.{
  reconcile, SnapshotSpec, SnapshotSize, Snapshot, Source, set_default_spec, snapshot_job,
  snapshot_source, job_for_snapshot, with_actual, snapshot_result, kind,
}

pub set_default_spec_again :
    (spec : SnapshotSpec)
    → set_default_spec (set_default_spec spec).1 ≡ (false, (set_default_spec spec).1)
unfolding set_default_spec
set_default_spec_again spec =
    rw
      (
        action_again spec.action,
        image_again spec.image,
        policy_again spec.pull_policy,
        ttl_again spec.ttl_seconds_after_finished,
      )
      refl

-- The claim is that of the node's StatefulSet, but for a node that is a Deployment.
abbrev pub ClaimOf : Snapshot → String → Type 0
ClaimOf snapshot claim =
    (snapshot.spec.deploy_method == python_operator) ≡ false
    → claim ≡ ("datadir-" <> snapshot.spec.node <> "-0")

abbrev pub IsSnapshotJob : Snapshot → Job → Type 0
IsSnapshotJob snapshot job =
    (source : Source) × ClaimOf snapshot source.claim
    × KeyedBy snapshot.spec.deploy_method snapshot (snapshot_job snapshot source) job

-- The job of a snapshot finds the claim of the node's data at one path, the claim that has the name
-- of the snapshot at another, and for a cloud-config node its config map at a third.
abbrev pub SnapshotMakes : Snapshot → Job → Type 0
SnapshotMakes snapshot job =
    (claim : String) × ClaimOf snapshot claim
    × (config : List (String × Mounted)) × (snapshot.spec.deploy_method ≡ "cloud-config"
        → config ≡ ("/cita-config", the_config_map (snapshot.spec.node <> "-config")) ∷ [])
    × ((snapshot.spec.deploy_method ≡ "cloud-config" → ⊥) → config ≡ [])
    × JobFor snapshot.key snapshot.spec.image "snapshot"
        (("/backup-source", the_claim claim)
          ∷ ("/backup-dest", the_claim snapshot.key.name)
          ∷ config)
        job

pub IsSnapshotJob-Makes :
    (snapshot : Snapshot) (job : Job) → IsSnapshotJob snapshot job → SnapshotMakes snapshot job
IsSnapshotJob-Makes snapshot job made =
    elim (Bool-cases (snapshot.spec.deploy_method == "cloud-config")) [
      | inl e ↦ rw made.2.2 (
        made.0.claim,
        made.1,
        ("/cita-config", the_config_map (snapshot.spec.node <> "-config")) ∷ [],
        (λ _. refl),
        (λ other. absurd (other ((eq_iff snapshot.spec.deploy_method "cloud-config").0 e))),
        rw e (node_job-JobFor refl),
      )
      | inr e ↦ rw made.2.2 (
        made.0.claim,
        made.1,
        [],
        (λ is.
            absurd (true-not_false ((eq_iff snapshot.spec.deploy_method "cloud-config").1 is) e)),
        (λ _. refl),
        rw e (node_job-JobFor refl),
      )
    ]

module _ {W : Type 0} (op : Operator W SnapshotSpec SnapshotSize)
    (claims : Claims W SnapshotSpec SnapshotSize) {P : W → Type 0}
    (deployments_keep : (k : NamespacedName) → Keeps P (op.api.get_deployment k))
    (stateful_sets_keep : (k : NamespacedName) → Keeps P (op.api.get_stateful_set k))
    (claims_keep : (k : NamespacedName) → Keeps P (claims.client.get k)) where
  source_lem :
      (snapshot : Snapshot)
      → Triple P
          (snapshot_source op claims snapshot)
          (λ source w. P w × ClaimOf snapshot source.claim)
          P
  unfolding snapshot_source
  source_lem snapshot =
      Triple-if (snapshot.spec.deploy_method == python_operator) _ _
        (λ e.
          Triple-map
            (Keeps-bind (deployments_keep _) λ deploy.
              Keeps-bind (required_claim-Keeps deploy) λ claim.
                Keeps-bind (size_or_claim-Keeps claims claims_keep _ _) λ resources. Keeps-pure _)
            (λ source w h. (h, λ other. cc)) (λ w h. h))
        (λ _. Triple-bind (stateful_sets_keep _) λ sts.
          Triple-bind
            (Keeps-if (snapshot.spec.pvc_size == "") _ _ (Keeps-pure _)
              (sized_resources-Keeps claims _))
            λ resources. Triple-pure _ λ w h. (h, λ _. refl))

module _ {W : Type 0} {op : Operator W SnapshotSpec SnapshotSize} (L : OperatorLaws op)
    (claims : Claims W SnapshotSpec SnapshotSize)
    (claims_keep : (c : State SnapshotSpec SnapshotSize)
      → ClientKeeps claims.client (λ w. L.state w ≡ c)) where
  made_for :
      (c : State SnapshotSpec SnapshotSize) (snapshot : Snapshot)
      → Triple
          (λ w. L.state w ≡ c)
          (job_for_snapshot op claims snapshot)
          (λ job w. (L.state w ≡ c) × IsSnapshotJob snapshot job)
          (λ w. L.state w ≡ c)
  unfolding job_for_snapshot
  made_for c snapshot =
      Triple-bind
        (source_lem op claims (L.deployments_keep c) (L.stateful_sets_keep c)
          (claims_keep c).get_keeps snapshot)
        λ source. record {
          run = λ w h.
              (Triple-bind
                  (make_claim-Keeps claims (claims_keep c).create_keeps snapshot source.resources
                    snapshot.spec.storage_class)
                  λ _.
                    Triple-map
                      (keyed_job_lem L c snapshot.spec.deploy_method snapshot
                        (snapshot_job snapshot source))
                      (λ job v k. (k.0, (source, h.1, k.1))) (λ v k. k)).run
                w h.0;
        }

  pub snapshot-KindLaws : KindLaws L (kind op claims) IsSnapshotJob
  unfolding snapshot_result
  snapshot-KindLaws = record {
    check_keeps = λ c r. Keeps-pure tt;
    guard_keeps = λ c r. Keeps-pure tt;
    job_law = λ c checked snapshot. made_for c snapshot;
    result_keeps = λ c snapshot job.
        Keeps-bind (size_from_pod-Keeps op.api (L.pods_keep c) "snapshot-size" snapshot job)
          λ size. Keeps-pure (with_actual op claims snapshot.status.more size);
    made_key = λ snapshot job made. ap (λ (j : Job). j.key) made.2.2;
  }

  -- One run of the reconciler of snapshots, however it ends, makes at most one step on the
  -- snapshots and the jobs: it completes the specification or the status of the one asked for,
  -- or makes its job where there is none and it is not finished, or lets its status follow the
  -- job. The job runs the subcommand snapshot; but for a python node it has the claim
  -- datadir-<node>-0 at /backup-source, it has the claim of the snapshot's name at /backup-dest,
  -- and the config map <node>-config at /cita-config just where the node is a cloud-config node. Calls for claims leave snapshots and jobs alone.
  pub snapshot-Step :
      (req : NamespacedName) (c : State SnapshotSpec SnapshotSize)
      → Triple
          (λ w. L.state w ≡ c)
          (reconcile op claims req)
          (λ _ w. Step set_default_spec SnapshotMakes req c (L.state w))
          (λ w. Step set_default_spec SnapshotMakes req c (L.state w))
  unfolding reconcile
  snapshot-Step =
      reconcile-Step L
        (KindLaws-map IsSnapshotJob-Makes (λ r job made. made.5.key_is) snapshot-KindLaws)

module _ {W : Type 0} (op : Operator W SnapshotSpec SnapshotSize)
    {claims : Claims W SnapshotSpec SnapshotSize} (C : ClaimsLaws claims)
    (deployments_keep : (f : Objects VolumeClaim) (k : NamespacedName)
      → Keeps (λ w. C.stored w ≡ f) (op.api.get_deployment k))
    (stateful_sets_keep : (f : Objects VolumeClaim) (k : NamespacedName)
      → Keeps (λ w. C.stored w ≡ f) (op.api.get_stateful_set k)) where
  -- Where a claim of the snapshot's name is there already, as it is when an earlier run has made it
  -- and then failed to make the job, no job is made for the snapshot: it fails, however often it is
  -- tried, and the claims stay as they are.
  pub job_for_snapshot-stuck :
      (f : Objects VolumeClaim) (snapshot : Snapshot) (x : VolumeClaim)
      → f snapshot.key ≡ some x
      → Triple
          (λ w. C.stored w ≡ f)
          (job_for_snapshot op claims snapshot)
          (λ _ _. ⊥)
          (λ w. C.stored w ≡ f)
  unfolding job_for_snapshot
  job_for_snapshot-stuck f snapshot x there =
      Triple-bind {R = λ _ w. C.stored w ≡ f}
        (Triple-map
          (source_lem op claims (deployments_keep f) (stateful_sets_keep f) (get-Keeps C f)
            snapshot)
          (λ _ w h. h.0) (λ w h. h))
        λ source.
          Triple-bind
            (make_claim-stuck C f snapshot x there source.resources snapshot.spec.storage_class)
            λ _. record { run = λ w h. absurd h }
