-- ===== src/Controllers/Duplicate/Laws.antt =====
-- The job of a duplicate, and what its reconciler does between its writes.
use cita_node_operator.Base.{
  String, ◌<>◌, ◌==◌, ◌≡◌, refl, ap, false, some, ok, [], ◌∷◌, eq_iff, ==-of_ne,
}
use cita_node_operator.Base.Hoare.{
  Triple, Triple-bind, Triple-map, Triple-if, Triple-lift, Triple-deref, Triple-pure, Keeps-bind,
  Keeps-pure,
}
use cita_node_operator.Base.Text.{join}
use cita_node_operator.Node.Common.{python_operator}
use cita_node_operator.Controllers.Labels.{get_mount_point}
use cita_node_operator.Controllers.Jobs.{Job}
use cita_node_operator.Controllers.Jobs.Claims.Keeps.{required_claim-Keeps, size_from_pod-Keeps}
use cita_node_operator.Controllers.Jobs.Defaults.{
  action_again, image_again, policy_again, ttl_again,
}
use cita_node_operator.Controllers.Jobs.Reconcile.{Operator}
use cita_node_operator.Controllers.Jobs.Reconcile.Owned.{KeyedBy, keyed_job_lem}
use cita_node_operator.Controllers.Jobs.Reconcile.Transitions.{State, OperatorLaws, KindLaws}
use cita_node_operator.Controllers.Jobs.Describes.{the_claim, JobFor, node_job-JobFor}
use cita_node_operator.Controllers.Recover.{Backend}
use cita_node_operator.Controllers.Duplicate.{
  DuplicateSpec, DuplicateSize, Duplicate, set_default_spec, duplicate_job, source_path,
  duplicate_claim, job_for_duplicate, with_actual, duplicate_result, kind,
}

pub set_default_spec_again :
    (spec : DuplicateSpec)
    → set_default_spec (set_default_spec spec).1 ≡ (false, (set_default_spec spec).1)
unfolding set_default_spec
set_default_spec_again spec =
    rw
      (
        action_again spec.action,
        image_again spec.image,
        policy_again spec.pull_policy,
        ttl_again spec.ttl_seconds_after_finished,
      )
      refl

-- The claim is that of the node's StatefulSet, but for a node that is a Deployment.
abbrev pub ClaimOf : Duplicate → String → Type 0
ClaimOf duplicate claim =
    (duplicate.spec.deploy_method == python_operator) ≡ false
    → claim ≡ ("datadir-" <> duplicate.spec.node <> "-0")

abbrev pub IsDuplicateJob : Duplicate → Job → Type 0
IsDuplicateJob duplicate job =
    (claim : String) × ClaimOf duplicate claim
    × (backend : Backend) × (duplicate.spec.backend ≡ some backend)
    × (mount_point : String) × (get_mount_point backend.path ≡ ok mount_point)
    × KeyedBy duplicate.spec.deploy_method duplicate
        (duplicate_job duplicate claim backend mount_point) job

-- Where the data and the backend are on one claim, it is mounted once, at the mount point of the
-- backend, and the data is below that; otherwise each is mounted.
abbrev pub DuplicateMounts : Duplicate → Backend → String → String → String → Job → Type 0
DuplicateMounts duplicate backend claim mount_point source job =
    (claim ≡ backend.pvc
      → (source ≡ join mount_point duplicate.spec.node)
        × JobFor duplicate.key duplicate.spec.image "backup" ((mount_point, the_claim claim) ∷ [])
            job)
    × ((claim ≡ backend.pvc → ⊥)
        → (source ≡ "/backup-source")
          × JobFor duplicate.key duplicate.spec.image "backup"
              (("/backup-source", the_claim claim) ∷ (mount_point, the_claim backend.pvc) ∷ []) job)

-- The job of a duplicate, which reads `source`.
abbrev pub DuplicateMakes : Duplicate → Backend → String → Job → Type 0
DuplicateMakes duplicate backend source job =
    (claim : String) × ClaimOf duplicate claim
    × (mount_point : String) × (get_mount_point backend.path ≡ ok mount_point)
    × (job.key ≡ duplicate.key)
    × DuplicateMounts duplicate backend claim mount_point source job

abbrev pub MakesDuplicate : Duplicate → Job → Type 0
MakesDuplicate duplicate job =
    (backend : Backend) × (duplicate.spec.backend ≡ some backend)
    × (source : String) × DuplicateMakes duplicate backend source job

duplicate_job-Mounts :
    (duplicate : Duplicate) (backend : Backend) (claim mount_point : String) (job : Job)
    → KeyedBy duplicate.spec.deploy_method duplicate
        (duplicate_job duplicate claim backend mount_point)
        job
    → DuplicateMounts duplicate backend claim mount_point
        (source_path duplicate backend claim mount_point)
        job
duplicate_job-Mounts duplicate backend claim mount_point job keyed = rw keyed.2 (
  (λ same. let e = (eq_iff claim backend.pvc).1 same in (rw e refl, rw e (node_job-JobFor refl))),
  (λ other. let e = ==-of_ne claim backend.pvc other in (rw e refl, rw e (node_job-JobFor refl))),
)

pub IsDuplicateJob-Makes :
    (duplicate : Duplicate) (job : Job)
    → (made : IsDuplicateJob duplicate job)
    → DuplicateMakes duplicate made.2 (source_path duplicate made.2 made.0 made.4) job
IsDuplicateJob-Makes duplicate job made = (
  made.0,
  made.1,
  made.4,
  made.5,
  ap (λ (j : Job). j.key) made.6.2,
  duplicate_job-Mounts duplicate made.2 made.0 made.4 job made.6,
)

module _ {W : Type 0} {op : Operator W DuplicateSpec DuplicateSize} (L : OperatorLaws op) where
  claim_lem :
      (c : State DuplicateSpec DuplicateSize) (duplicate : Duplicate)
      → Triple
          (λ w. L.state w ≡ c)
          (duplicate_claim op duplicate)
          (λ claim w. (L.state w ≡ c) × ClaimOf duplicate claim)
          (λ w. L.state w ≡ c)
  unfolding duplicate_claim
  claim_lem c duplicate =
      Triple-if (duplicate.spec.deploy_method == python_operator) _ _
        (λ e.
          Triple-map (Keeps-bind (L.deployments_keep c _) required_claim-Keeps)
            (λ claim w h. (h, λ other. cc)) (λ w h. h))
        (λ _. Triple-pure _ λ w h. (h, λ _. refl))

  made_for :
      (c : State DuplicateSpec DuplicateSize) (duplicate : Duplicate)
      → Triple
          (λ w. L.state w ≡ c)
          (job_for_duplicate op duplicate)
          (λ job w. (L.state w ≡ c) × IsDuplicateJob duplicate job)
          (λ w. L.state w ≡ c)
  unfolding job_for_duplicate
  made_for c duplicate = Triple-bind (claim_lem c duplicate) λ claim.
      Triple-bind
        {R = λ backend w.
          (L.state w ≡ c) × ClaimOf duplicate claim × (duplicate.spec.backend ≡ some backend)}
        (Triple-deref duplicate.spec.backend (λ _ e w h. (h.0, h.1, e)) (λ w h. h.0))
        λ backend.
          Triple-bind
            {R = λ mount_point w.
              (L.state w ≡ c)
              × ClaimOf duplicate claim
              × (duplicate.spec.backend ≡ some backend)
              × (get_mount_point backend.path ≡ ok mount_point)}
            (Triple-lift (get_mount_point backend.path) (λ _ g w h. (h.0, h.1, h.2, g))
              (λ w h. h.0))
            λ mount_point. record {
              run = λ w h.
                  (Triple-map
                      (keyed_job_lem L c duplicate.spec.deploy_method duplicate
                        (duplicate_job duplicate claim backend mount_point))
                      (λ job v k. (k.0, (claim, h.1, backend, h.2, mount_point, h.3, k.1)))
                      (λ v k. k)).run
                    w h.0;
            }

  pub duplicate-KindLaws : KindLaws L (kind op) IsDuplicateJob
  unfolding duplicate_result
  duplicate-KindLaws = record {
    check_keeps = λ c r. Keeps-pure tt;
    guard_keeps = λ c r. Keeps-pure tt;
    job_law = λ c checked duplicate. made_for c duplicate;
    result_keeps = λ c duplicate job.
        Keeps-bind (size_from_pod-Keeps op.api (L.pods_keep c) "backup-size" duplicate job)
          λ size. Keeps-pure (with_actual op duplicate.status.more size);
    made_key = λ duplicate job made. ap (λ (j : Job). j.key) made.6.2;
  }
