-- ===== src/Controllers/Recover/Laws.antt =====
-- The job of a recovery, and what its reconciler does between its writes.
use cita_node_operator.Base.{String, ◌≡◌, refl, ap, false, some, ok, [], ◌∷◌, ◌<>◌}
use cita_node_operator.Base.Hoare.{
  Triple, Triple-bind, Triple-map, Triple-lift, Triple-deref, Keeps-pure,
}
use cita_node_operator.Controllers.Labels.{get_mount_point}
use cita_node_operator.Kube.{NamespacedName}
use cita_node_operator.Controllers.Jobs.{Job}
use cita_node_operator.Controllers.Jobs.Defaults.{
  action_again, image_again, policy_again, ttl_again,
}
use cita_node_operator.Controllers.Jobs.Reconcile.{Operator}
use cita_node_operator.Controllers.Jobs.Reconcile.Owned.{KeyedBy, keyed_job_lem}
use cita_node_operator.Controllers.Jobs.Reconcile.Transitions.{State, OperatorLaws, KindLaws, Step}
use cita_node_operator.Controllers.Jobs.Describes.{the_claim, JobFor, node_job-JobFor, KindLaws-map}
use cita_node_operator.Controllers.Jobs.Reconcile.Steps.{reconcile-Step}
use cita_node_operator.Controllers.Recover.{
  reconcile, Backend, RecoverSpec, Recover, set_default_spec, recover_job, dest_claim,
  job_for_recover, kind,
}

pub set_default_spec_again :
    (spec : RecoverSpec)
    → set_default_spec (set_default_spec spec).1 ≡ (false, (set_default_spec spec).1)
unfolding set_default_spec
set_default_spec_again spec =
    rw
      (
        action_again spec.action,
        image_again spec.image,
        policy_again spec.pull_policy,
        ttl_again spec.ttl_seconds_after_finished,
      )
      refl

-- The backend is mounted at the first directory of its path.
abbrev pub IsRecoverJob : Recover → Job → Type 0
IsRecoverJob recover job =
    (backend : Backend) × (recover.spec.backend ≡ some backend)
    × (mount_point : String) × (get_mount_point backend.path ≡ ok mount_point)
    × KeyedBy recover.spec.deploy_method recover (recover_job recover backend mount_point) job

-- The claim of the data of a cloud-config node is that of its StatefulSet.
pub dest_claim_lem :
    (deploy_method node : String)
    → deploy_method ≡ "cloud-config"
    → dest_claim deploy_method node ≡ ("datadir-" <> node <> "-0")
dest_claim_lem deploy_method node e = rw e refl

-- The job of a recovery finds the claim of the backend at the mount point, and the claim of the
-- node's data at another path.
abbrev pub RecoverMakes : Recover → Backend → Job → Type 0
RecoverMakes recover backend job =
    (mount_point : String) × (get_mount_point backend.path ≡ ok mount_point)
    × (dest : String) × (recover.spec.deploy_method ≡ "cloud-config"
        → dest ≡ ("datadir-" <> recover.spec.node <> "-0"))
    × JobFor recover.key recover.spec.image "restore"
        ((mount_point, the_claim backend.pvc) ∷ ("/restore-dest", the_claim dest) ∷ []) job

abbrev pub MakesRecover : Recover → Job → Type 0
MakesRecover recover job =
    (backend : Backend) × (recover.spec.backend ≡ some backend) × RecoverMakes recover backend job

pub IsRecoverJob-Makes :
    (recover : Recover) (job : Job)
    → (made : IsRecoverJob recover job) → RecoverMakes recover made.0 job
IsRecoverJob-Makes recover job made = rw made.4.2 (
  made.2,
  made.3,
  dest_claim recover.spec.deploy_method recover.spec.node,
  dest_claim_lem recover.spec.deploy_method recover.spec.node,
  node_job-JobFor refl,
)

module _ {W : Type 0} {op : Operator W RecoverSpec (Unit {0})} (L : OperatorLaws op) where
  made_for :
      (c : State RecoverSpec (Unit {0})) (recover : Recover)
      → Triple
          (λ w. L.state w ≡ c)
          (job_for_recover op recover)
          (λ job w. (L.state w ≡ c) × IsRecoverJob recover job)
          (λ w. L.state w ≡ c)
  unfolding job_for_recover
  made_for c recover =
      Triple-bind {R = λ backend w. (L.state w ≡ c) × (recover.spec.backend ≡ some backend)}
        (Triple-deref recover.spec.backend (λ _ e w h. (h, e)) (λ w h. h))
        λ backend.
          Triple-bind
            {R = λ mount_point w.
              (L.state w ≡ c)
              × (recover.spec.backend ≡ some backend)
              × (get_mount_point backend.path ≡ ok mount_point)}
            (Triple-lift (get_mount_point backend.path) (λ _ g w h. (h.0, h.1, g)) (λ w h. h.0))
            λ mount_point. record {
              run = λ w h.
                  (Triple-map
                      (keyed_job_lem L c recover.spec.deploy_method recover
                        (recover_job recover backend mount_point))
                      (λ job v k. (k.0, (backend, h.1, mount_point, h.2, k.1))) (λ v k. k)).run
                    w h.0;
            }

  pub recover-KindLaws : KindLaws L (kind op) IsRecoverJob
  recover-KindLaws = record {
    check_keeps = λ c r. Keeps-pure tt;
    guard_keeps = λ c r. Keeps-pure tt;
    job_law = λ c checked recover. made_for c recover;
    result_keeps = λ c r job. Keeps-pure (some tt);
    made_key = λ recover job made. ap (λ (j : Job). j.key) made.4.2;
  }

  -- One run of the reconciler of recoveries, however it ends, makes at most one step on the
  -- recoveries and the jobs: it completes the specification or the status of the one asked for,
  -- or makes its job where there is none and it is not finished, or lets its status follow the
  -- job. A job is made only for a recovery with a backend, whose path has a mount point; it
  -- runs the subcommand restore, with the claim of the backend at the mount point and, for a
  -- cloud-config node, the claim datadir-<node>-0 at /restore-dest.
  pub recover-Step :
      (req : NamespacedName) (c : State RecoverSpec (Unit {0}))
      → Triple
          (λ w. L.state w ≡ c)
          (reconcile op req)
          (λ _ w. Step set_default_spec MakesRecover req c (L.state w))
          (λ w. Step set_default_spec MakesRecover req c (L.state w))
  unfolding reconcile
  recover-Step = reconcile-Step L (
      KindLaws-map (λ recover job made. (made.0, made.1, IsRecoverJob-Makes recover job made))
        (λ r job made. made.2.4.key_is) recover-KindLaws)
