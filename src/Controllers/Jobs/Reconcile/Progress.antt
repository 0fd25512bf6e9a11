-- ===== src/Controllers/Jobs/Reconcile/Progress.antt =====
-- What a run of a reconciler brings about where the cluster answers.
use cita_node_operator.Base.{◌≡◌, refl, sym, ap, ◌∙◌, ◌=ℕ◌, true, false, Option, none, some}
use cita_node_operator.Base.{Exec, Result, ok, err}
use cita_node_operator.Base.Effects.{try}
use cita_node_operator.Base.Hoare.{
  Triple, Triple-bind, Triple-map, Triple-pure, Triple-if, Triple-try, Triple-pre, Caught,
}
use cita_node_operator.Kube.Edits.{same_key_refl}
use cita_node_operator.Controllers.Objects.{put}
use cita_node_operator.Controllers.JobRbac.{JobRbac, ensure}
use cita_node_operator.Controllers.Jobs.{Resource, Job, job_complete, set_default_status}
use cita_node_operator.Controllers.Jobs.Reconcile.{
  Operator, Kind, finished, reconcile, on_resource, with_resource, with_checked, run_job, on_job,
  follow, status_from, write_status, succeeded_with,
}
use cita_node_operator.Controllers.Jobs.Reconcile.Transitions.{State, OperatorLaws}

-- A computation that ends well, with a value as `Q` says, and keeps `P`.
abbrev pub Gives : {W A : Type 0} → (W → Type 0) → Exec W A → (A → Type 0) → Type 0
Gives P m Q = Triple P m (λ a w. P w × Q a) (λ _. ⊥)

module _ {W S E C : Type 0} {op : Operator W S E} (L : OperatorLaws op) (kind : Kind W S E C) where
  -- In the state `c` the calls of a run for `r` and its job succeed: both are read, the rights are
  -- given, the check and the guard of the kind pass, the read of the result gives `result`, and
  -- the status can be written.
  pub record Answering (c : State S E) (r : Resource S E) (job : Job) (result : Option E)
      : Type 0 where
    pub resource_read : Gives (λ w. L.state w ≡ c) (op.resources.get r.key) (λ x. x ≡ r)
    pub job_read : Gives (λ w. L.state w ≡ c) (op.jobs.get r.key) (λ x. x ≡ job)
    pub rights_given : (j : JobRbac) → Gives (λ w. L.state w ≡ c) (ensure op.rbac j) (λ _. Unit)
    pub checked : Gives (λ w. L.state w ≡ c) (kind.check r) (λ _. Unit)
    pub guarded : Gives (λ w. L.state w ≡ c) (kind.guard r) (λ _. Unit)
    pub result_read : Gives (λ w. L.state w ≡ c) (kind.result r job) (λ o. o ≡ result)
    pub status_written :
        (x : Resource S E)
        → x.key ≡ r.key
        → Triple
            (λ w. L.state w ≡ c)
            (op.resources.update_status x)
            (λ _ w.
              L.state w
              ≡ record c { resources = put r.key (record r { status = x.status }) c.resources })
            (λ _. ⊥)

  -- The resource is complete, with the time of its job and the result; without a result nothing
  -- has changed.
  abbrev pub Ended : State S E → Resource S E → Job → Option E → State S E → Type 0
  Ended c r job none d = d ≡ c
  Ended c r job (some more) d =
      d.resources r.key
      ≡ some (record r {
        status = record r.status {
          status = "Complete";
          end_time = job.status.completion_time;
          more = more;
        };
      })

  module _ (c : State S E) (r : Resource S E) (job : Job) (result : Option E)
      (A : Answering c r job result) (there : c.resources r.key ≡ some r)
      (spec_complete : kind.set_default_spec r.spec ≡ (false, r.spec))
      (status_complete : set_default_status r ≡ (false, r.status))
      (open_yet : finished r.status.status ≡ false)
      (is_equal_law : (x y : Resource S E) → op.is_equal x y ≡ true → x ≡ y) where
    abbrev Reaches : {A : Type 0} → Exec W A → Type 0
    Reaches m = Triple (λ w. L.state w ≡ c) m (λ _ w. Ended c r job result (L.state w)) (λ _. ⊥)

    write_status_lem :
        (o : Option E)
        → Triple
            (λ w. L.state w ≡ c)
            (write_status op kind r (succeeded_with op kind r job o))
            (λ _ w. Ended c r job o (L.state w))
            (λ _. ⊥)
    unfolding write_status succeeded_with
    write_status_lem none = Triple-pure _ λ w h. h
    write_status_lem (some more) =
        let cur : Resource S E = record r {
          status = record r.status {
            status = job_complete;
            end_time = job.status.completion_time;
            more = more;
          };
        } in
        Triple-if (op.is_equal cur r) _ _
          (λ e. Triple-pure _ λ w h. rw h (there ∙ ap some (sym (is_equal_law cur r e))))
          (λ _.
            Triple-bind (A.status_written cur refl)
              λ _. Triple-pure _ λ w h. rw (h, same_key_refl r.key) refl)

    -- What the job says of the status, where it has succeeded.
    status_from_lem :
        (job.status.active =ℕ 1) ≡ false
        → (job.status.failed =ℕ 1) ≡ false
        → (job.status.succeeded =ℕ 1) ≡ true
        → Gives
            (λ w. L.state w ≡ c)
            (status_from op kind r job)
            (λ o. o ≡ succeeded_with op kind r job result)
    unfolding status_from
    status_from_lem active failed succeeded =
        rw (active, failed, succeeded)
          (Triple-bind A.result_read
            λ o. Triple-pure _ λ w h. (h.0, ap (succeeded_with op kind r job) h.1))

    -- The rest of a run, for a result of the first read of the job.
    on_job_lem :
        (found : Result Job)
        → found ≡ ok job
        → Reaches (follow op kind r job)
        → (answer : C) → Reaches (on_job op kind r.key answer r found)
    unfolding on_job
    on_job_lem found is followed answer =
        rw is (Triple-bind A.job_read λ j. record { run = λ w h. rw h.1 (followed.run w h.0) })

    caught :
        {T : Type 0} {Q : T → Type 0} (x : Result T) (w : W)
        → Caught (λ t w. (L.state w ≡ c) × Q t) (λ _. ⊥) x w
        → (L.state w ≡ c) × ((t : T) × (x ≡ ok t) × Q t)
    caught (ok t) w h = (h.0, (t, refl, h.1))
    caught (err _) w h = absurd h

    try_Gives :
        {T : Type 0} {m : Exec W T} {Q : T → Type 0}
        → Gives (λ w. L.state w ≡ c) m Q
        → Gives (λ w. L.state w ≡ c) (try m) (λ x. (t : T) × (x ≡ ok t) × Q t)
    try_Gives g = Triple-map (Triple-try g) caught (λ w h. h)

    run_job_lem :
        Reaches (follow op kind r job) → (answer : C) → Reaches (run_job op kind r.key answer r)
    unfolding run_job
    run_job_lem followed answer = Triple-bind (A.rights_given _) λ _.
        Triple-bind {R = λ _ w. L.state w ≡ c}
          (Triple-pre (λ w h. h.0) (Triple-map A.guarded (λ _ w h. h.0) (λ w h. h)))
          λ _. Triple-bind (try_Gives A.job_read) λ found.
            rw open_yet record {
              run = λ w h. (on_job_lem found (rw h.1.2 at h.1.1) followed answer).run w h.0;
            }

    with_resource_lem : Reaches (follow op kind r job) → Reaches (with_resource op kind r.key r)
    unfolding with_resource with_checked
    with_resource_lem followed = rw spec_complete (
        Triple-bind (Triple-map A.checked (λ _ w h. h.0) (λ w h. h))
          λ answer. rw status_complete (run_job_lem followed answer))

    on_resource_lem :
        (found : Result (Resource S E))
        → found ≡ ok r
        → Reaches (follow op kind r job)
        → Reaches (on_resource op kind r.key found)
    unfolding on_resource
    on_resource_lem found is followed = rw is (with_resource_lem followed)

    -- A run for a resource that has its defaults and is not finished, whose job has succeeded and is
    -- neither active nor failed, ends well if the calls on the way succeed: the resource and the job
    -- are read, the rights are given, the check and the guard of the kind pass, and the status can be
    -- written. If the read of the result of the job gives one, the resource then has the status
    -- Complete, the time of the job's completion and that result; if it gives none, as where the
    -- job of a backup has not one pod, nothing has changed. Equal resources are the same.
    pub reconcile-Complete :
        (job.status.active =ℕ 1) ≡ false
        → (job.status.failed =ℕ 1) ≡ false
        → (job.status.succeeded =ℕ 1) ≡ true
        → Triple
            (λ w. L.state w ≡ c)
            (reconcile op kind r.key)
            (λ _ w. Ended c r job result (L.state w))
            (λ _. ⊥)
    unfolding reconcile follow
    reconcile-Complete active failed succeeded = Triple-bind (try_Gives A.resource_read) λ found.
        record {
          run = λ w h.
              (on_resource_lem found (rw h.1.2 at h.1.1) (
                  Triple-bind (status_from_lem active failed succeeded)
                    λ o. record { run = λ v k. rw k.1 ((write_status_lem result).run v k.0) })).run
                w h.0;
        }
