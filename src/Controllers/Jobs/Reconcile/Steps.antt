-- ===== src/Controllers/Jobs/Reconcile/Steps.antt =====
-- What one run of a reconciler does to the resources of its kind and to the jobs: at most one step.
use mathlib.Core.Option.{some-injective}
use cita_node_operator.Base.{
  ◌≡◌, refl, sym, ap, ◌∙◌, inl, inr, false, none, some, Exec, Result, ok, err, not_found,
}
use cita_node_operator.Base.Hoare.{
  Triple, Triple-bind, Triple-map, Triple-uncaught, Triple-pure, Triple-raise, Triple-if, Keeps,
}
use cita_node_operator.Kube.{NamespacedName}
use cita_node_operator.Controllers.Objects.{put, Merged, Answers}
use cita_node_operator.Controllers.JobRbac.{JobRbac, ensure}
use cita_node_operator.Controllers.JobRbac.Frame as JobRbacFrame
use cita_node_operator.Controllers.Jobs.{Resource, Job, set_default_status, completed}
use cita_node_operator.Controllers.Jobs.Reconcile.{
  Operator, Kind, finished, make_job, on_job, run_job, with_checked, with_resource, on_resource,
  reconcile,
}
use cita_node_operator.Controllers.Jobs.Reconcile.Transitions.{
  State, resources_place, jobs_place, OperatorLaws, KindLaws, Step, idle, spec_completed,
  status_completed, job_made,
}
use cita_node_operator.Controllers.Jobs.Reconcile.Follow.{update_status_lem, follow_lem}

module _ {W S E C : Type 0} {op : Operator W S E} (L : OperatorLaws op) {kind : Kind W S E C}
    {Made : Resource S E → Job → Type 0} (K : KindLaws L kind Made) where
  abbrev Moves : NamespacedName → State S E → State S E → Type 0
  Moves = Step kind.set_default_spec Made

  -- However the rights are given, resources and jobs stay.
  ensure-Keeps : (c : State S E) (r : JobRbac) → Keeps (λ w. L.state w ≡ c) (ensure op.rbac r)
  ensure-Keeps c r =
      JobRbacFrame.ensure-Keeps op.rbac (L.accounts_keep c) (L.roles_keep c) (L.bindings_keep c) r

  module _ (req : NamespacedName) (c : State S E) (b : Resource S E)
      (there : c.resources b.key ≡ some b) (here : b.key ≡ req) where
    abbrev whole : Resource S E
    whole = completed kind.set_default_spec b

    abbrev Steps : {A : Type 0} → Exec W A → Type 0
    Steps m =
        Triple (λ w. L.state w ≡ c) m (λ _ w. Moves req c (L.state w))
          (λ w. Moves req c (L.state w))

    make_job_lem :
        (checked : C)
        → c.jobs b.key ≡ none
        → finished whole.status.status ≡ false
        → Steps (make_job op kind checked whole)
    unfolding make_job
    make_job_lem checked absent open_yet =
        Triple-bind (Triple-map (K.job_law c checked whole) (λ job w h. h) (λ w h. idle h)) λ job.
          record {
            run = λ w h.
                (Triple-bind
                    (Triple-map (L.jobs_laws.create_law c job)
                      (λ _ v made. job_created job h.1 (L.state v) made.1)
                      (λ v m. elim m [
                        | inl same ↦ idle same
                        | inr made ↦ job_created job h.1 (L.state v) made.1
                      ]))
                    (λ _. Triple-pure _ λ v k. k)).run
                  w h.0;
          }
      where
        job_created :
            (job : Job)
            → Made whole job
            → (d : State S E) → d ≡ record c { jobs = put job.key job c.jobs }
            → Moves req c d
        job_created job made d e = job_made b job there here open_yet absent made (
            e
            ∙ ap (λ (k : NamespacedName). record c { jobs = put k job c.jobs })
                (K.made_key whole job made))

    on_job_lem :
        (checked : C) (r : Result Job)
        → Answers (jobs_place {S = S} {E = E}) b.key r (c.jobs b.key)
        → finished whole.status.status ≡ false
        → Steps (on_job op kind req checked whole r)
    unfolding on_job
    on_job_lem checked (ok _) found open_yet =
        Triple-bind {R = λ job w. (L.state w ≡ c) × (c.jobs req ≡ some job)}
          (Triple-map
            (Triple-uncaught {F = λ w. L.state w ≡ c} (L.jobs_laws.get_law c req) (λ _ w h. h.0)
              (λ w h. h))
            (λ job w h. (h.0, h.1.0)) (λ w h. idle h))
          λ job. record {
            run = λ w h. (follow_lem L K req c b there here job h.1 open_yet).run w h.0;
          }
    on_job_lem checked (err not_found) absent open_yet = make_job_lem checked absent open_yet
    on_job_lem checked (err _) found open_yet = Triple-raise _ λ w h. idle h

    run_job_lem : (checked : C) → Steps (run_job op kind req checked whole)
    unfolding run_job
    run_job_lem checked =
        Triple-bind (Triple-map (ensure-Keeps c _) (λ _ w h. h) (λ w h. idle h)) λ _.
          Triple-bind (Triple-map (K.guard_keeps c whole) (λ _ w h. h) (λ w h. idle h)) λ _.
            Triple-bind (Triple-map (L.jobs_laws.get_law c b.key) (λ r w h. h) (λ w h. idle h)) λ r.
              record {
                run = λ w h.
                    (Triple-if (finished whole.status.status) _ _ (λ _. Triple-pure _ λ v k. idle k)
                        (λ open_yet. on_job_lem checked r h.1 open_yet)).run
                      w h.0;
              }

    with_checked_lem :
        (checked : C) → Steps (with_checked op kind req (record b { spec = whole.spec }) checked)
    unfolding with_checked
    with_checked_lem checked =
        Triple-if (set_default_status (record b { spec = whole.spec })).0 _ _
          (λ _.
            Triple-bind
              (update_status_lem L K req c b there here whole refl
                λ d e. status_completed b there here e)
              λ _. Triple-pure _ λ v k. k)
          (λ _. run_job_lem checked)

    with_resource_lem : Steps (with_resource op kind req b)
    unfolding with_resource
    with_resource_lem =
        Triple-if (kind.set_default_spec b.spec).0 _ _
          (λ _.
            Triple-bind
              (Triple-map (L.resources_laws.update_law c (record b { spec = whole.spec }))
                (λ _ w m. spec_completed b there here (spec_put (L.state w) m))
                (λ w m. elim m [
                  | inl same ↦ idle same
                  | inr merged ↦ spec_completed b there here (spec_put (L.state w) merged)
                ]))
              λ _. Triple-pure _ λ v k. k)
          (λ _.
            Triple-bind
              (Triple-map (K.check_keeps c (record b { spec = whole.spec })) (λ _ w h. h)
                (λ w h. idle h))
              with_checked_lem)
      where
        spec_put :
            (d : State S E)
            → Merged
                (resources_place {S = S} {E = E})
                (λ old x. record x { status = old.status })
                c
                (record b { spec = whole.spec })
                d
            → d ≡ record c { resources = put b.key (record b { spec = whole.spec }) c.resources }
        spec_put d m =
            m.2
            ∙ ap
                (λ (o : Resource S E). record c {
                  resources =
                      put b.key (record b { spec = whole.spec; status = o.status }) c.resources;
                })
                (some-injective m.0 b (sym m.1 ∙ there))

  -- Whether it succeeds or fails, and whatever the requests to the cluster answer, one run of a
  -- reconciler makes at most one step on the resources of its kind and the jobs: it completes the
  -- specification, or the status, or makes the one job where there is none and the resource is not
  -- finished, or lets the status follow the job; it touches no resource but the one asked for.
  pub reconcile-Step :
      (req : NamespacedName) (c : State S E)
      → Triple
          (λ w. L.state w ≡ c)
          (reconcile op kind req)
          (λ _ w. Step kind.set_default_spec Made req c (L.state w))
          (λ w. Step kind.set_default_spec Made req c (L.state w))
  unfolding reconcile on_resource
  reconcile-Step req c =
      Triple-bind (Triple-map (L.resources_laws.get_law c req) (λ r w h. h) (λ w h. idle h)) after
    where
      after :
          (r : Result (Resource S E))
          → Triple
              (λ w.
                (L.state w ≡ c) × Answers (resources_place {S = S} {E = E}) req r (c.resources req))
              (on_resource op kind req r)
              (λ _ w. Step kind.set_default_spec Made req c (L.state w))
              (λ w. Step kind.set_default_spec Made req c (L.state w))
      after (ok b) = record {
        run = λ w h. (with_resource_lem req c b (ap c.resources h.1.1 ∙ h.1.0) h.1.1).run w h.0;
      }
      after (err not_found) = Triple-pure _ λ w h. idle h.0
      after (err _) = Triple-raise _ λ w h. idle h.0
