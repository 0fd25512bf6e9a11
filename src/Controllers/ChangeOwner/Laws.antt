-- ===== src/Controllers/ChangeOwner/Laws.antt =====
-- The job of a change of owner, and what its reconciler does between its writes.
use cita_node_operator.Base.{String, ◌<>◌, ◌==◌, ◌≡◌, refl, ap, false, some, [], ◌∷◌}
use cita_node_operator.Base.Hoare.{
  Triple, Triple-bind, Triple-map, Triple-if, Triple-pure, Keeps-bind, Keeps-pure,
}
use cita_node_operator.Base.Int.{pos}
use cita_node_operator.Node.Common.{python_operator}
use cita_node_operator.Kube.{NamespacedName}
use cita_node_operator.Controllers.Jobs.{Job, is_zero}
use cita_node_operator.Controllers.Jobs.Defaults.{
  action_again, image_again, policy_again, ttl_again, or_else_again,
}
use cita_node_operator.Controllers.Jobs.Reconcile.{Operator}
use cita_node_operator.Controllers.Jobs.Reconcile.Reads.{data_claim-Keeps}
use cita_node_operator.Controllers.Jobs.Reconcile.Owned.{KeyedBy, keyed_job_lem}
use cita_node_operator.Controllers.Jobs.Reconcile.Transitions.{State, OperatorLaws, KindLaws, Step}
use cita_node_operator.Controllers.Jobs.Describes.{the_claim, JobFor, node_job-JobFor, KindLaws-map}
use cita_node_operator.Controllers.Jobs.Reconcile.Steps.{reconcile-Step}
use cita_node_operator.Controllers.ChangeOwner.{
  reconcile, ChangeOwnerSpec, ChangeOwner, set_default_spec, chown_job, chown_claim,
  job_for_change_owner, kind,
}

pub set_default_spec_again :
    (spec : ChangeOwnerSpec)
    → set_default_spec (set_default_spec spec).1 ≡ (false, (set_default_spec spec).1)
unfolding set_default_spec
set_default_spec_again spec =
    rw
      (
        action_again spec.action,
        image_again spec.image,
        policy_again spec.pull_policy,
        ttl_again spec.ttl_seconds_after_finished,
        or_else_again is_zero (pos 1000) spec.uid refl,
        or_else_again is_zero (pos 1000) spec.gid refl,
      )
      refl

-- The claim is that of the node's StatefulSet, but for a node that is a Deployment.
abbrev ClaimOf : ChangeOwner → String → Type 0
ClaimOf owner claim =
    (owner.spec.deploy_method == python_operator) ≡ false
    → claim ≡ ("datadir-" <> owner.spec.node <> "-0")

abbrev pub IsChownJob : ChangeOwner → Job → Type 0
IsChownJob owner job =
    (claim : String) × ClaimOf owner claim
    × KeyedBy owner.spec.deploy_method owner (chown_job owner claim) job

-- The job of a change of owner finds the claim of the node's data.
abbrev pub ChownMakes : ChangeOwner → Job → Type 0
ChownMakes owner job =
    (claim : String) × ClaimOf owner claim
    × JobFor owner.key owner.spec.image "chown" (("/change-owner", the_claim claim) ∷ []) job

pub IsChownJob-Makes :
    (owner : ChangeOwner) (job : Job) → IsChownJob owner job → ChownMakes owner job
IsChownJob-Makes owner job made = rw made.2.2 (made.0, made.1, node_job-JobFor refl)

module _ {W : Type 0} {op : Operator W ChangeOwnerSpec (Unit {0})} (L : OperatorLaws op) where
  chown_claim_lem :
      (c : State ChangeOwnerSpec (Unit {0})) (owner : ChangeOwner)
      → Triple
          (λ w. L.state w ≡ c)
          (chown_claim op owner)
          (λ claim w. (L.state w ≡ c) × ClaimOf owner claim)
          (λ w. L.state w ≡ c)
  unfolding chown_claim
  chown_claim_lem c owner =
      Triple-if (owner.spec.deploy_method == python_operator) _ _
        (λ e.
          Triple-map
            (Keeps-bind (L.deployments_keep c _) λ deploy. data_claim-Keeps deploy.spec.volumes)
            (λ claim w h. (h, λ other. cc)) (λ w h. h))
        (λ _. Triple-pure _ λ w h. (h, λ _. refl))

  pub chown-KindLaws : KindLaws L (kind op) IsChownJob
  unfolding job_for_change_owner
  chown-KindLaws = record {
    check_keeps = λ c r. Keeps-pure tt;
    guard_keeps = λ c r. Keeps-pure tt;
    job_law = λ c checked owner. Triple-bind (chown_claim_lem c owner) λ claim. record {
      run = λ w h.
          (Triple-map (keyed_job_lem L c owner.spec.deploy_method owner (chown_job owner claim))
              (λ job v k. (k.0, (claim, h.1, k.1))) (λ v k. k)).run
            w h.0;
    };
    result_keeps = λ c r job. Keeps-pure (some tt);
    made_key = λ owner job made. ap (λ (j : Job). j.key) made.2.2;
  }

  -- One run of the reconciler of changes of owner, however it ends, makes at most one step on
  -- them and the jobs: it completes the specification or the status of the one asked for, or
  -- makes its job where there is none and it is not finished, or lets its status follow the job.
  -- The job runs the subcommand chown and, but for a python node, has the claim datadir-<node>-0
  -- at /change-owner.
  pub chown-Step :
      (req : NamespacedName) (c : State ChangeOwnerSpec (Unit {0}))
      → Triple
          (λ w. L.state w ≡ c)
          (reconcile op req)
          (λ _ w. Step set_default_spec ChownMakes req c (L.state w))
          (λ w. Step set_default_spec ChownMakes req c (L.state w))
  unfolding reconcile
  chown-Step =
      reconcile-Step L (KindLaws-map IsChownJob-Makes (λ r job made. made.2.key_is) chown-KindLaws)
