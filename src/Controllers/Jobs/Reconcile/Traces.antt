-- ===== src/Controllers/Jobs/Reconcile/Traces.antt =====
-- Any number of runs of a reconciler, for any resources of its kind in any order.
use mathlib.Core.Option.{some-injective}
use cita_node_operator.Base.{
  String, ◌==◌, eq_iff, ◌≡◌, refl, sym, ap, ◌∙◌, ◌⊎◌, inl, inr, Bool, true, false, Option, some,
  Bool-cases,
}
use cita_node_operator.Kube.{NamespacedName, same_key}
use cita_node_operator.Kube.Edits.{same_key-eq}
use cita_node_operator.Controllers.Objects.{put}
use cita_node_operator.Controllers.Jobs.{
  Resource, Job, job_complete, job_failed, set_default_status, completed,
}
use cita_node_operator.Controllers.Jobs.Reconcile.{Operator, Kind, finished, clean_job, reconcile}
use cita_node_operator.Controllers.Jobs.Reconcile.Steps.{reconcile-Step}
use cita_node_operator.Base.{none}
use cita_node_operator.Base.Int.{ℤ}
use cita_node_operator.Base.Effects.{Outcome, done, failed, panicked}
use cita_node_operator.Base.Hoare.{Post, Triple-map, Keeps, Keeps-bind, Keeps-pure, Keeps-try}
use cita_node_operator.Controllers.Jobs.Reconcile.Transitions.{
  State, OperatorLaws, KindLaws, MaybeDeleted, Step, idle, spec_completed, status_completed,
  job_made, followed,
}

-- From `w` to `v` by any number of runs of the reconciler, each for any resource and however it
-- ends, and of runs of CleanJob, for any job and after any wait.
pub data Runs {W S E C : Type 0} (op : Operator W S E) (kind : Kind W S E C) (w : W)
    : W → Type 0 where
  start : Runs op kind w w
  reconciled :
      {v u : W} (req : NamespacedName)
      → Runs op kind w v
      → u ≡ (reconcile op kind req v).1
      → Runs op kind w u
  cleaned :
      {v u : W} (job : Job) (ttl : ℤ)
      → Runs op kind w v
      → u ≡ (clean_job op kind job ttl v).1
      → Runs op kind w u

-- The resource under `k` has the status `status`, and its job is `job` or has been deleted.
pub record Settled {S E : Type 0} (k : NamespacedName) (status : String) (job : Option Job)
    (c : State S E) : Type 0 where
  pub resource : Resource S E
  pub resource_there : c.resources k ≡ some resource
  pub status_is : resource.status.status ≡ status
  pub job_is : (c.jobs k ≡ job) ⊎ (c.jobs k ≡ none)

true-not_false : {p : Bool} → p ≡ true → p ≡ false → ⊥
true-not_false h k = cc

finished-cases : (s : String) → finished s ≡ true → (s ≡ job_complete) ⊎ (s ≡ job_failed)
finished-cases s h = elim (Bool-cases (s == job_complete)) [
  | inl e ↦ inl ((eq_iff s job_complete).0 e)
  | inr e ↦ inr ((eq_iff s job_failed).0 (rw e at h))
]

-- The defaults leave the status of a finished resource alone.
completed-finished :
    {S E : Type 0} (set_default_spec : S → Bool × S) (b : Resource S E)
    → finished b.status.status ≡ true
    → (completed set_default_spec b).status.status ≡ b.status.status
unfolding set_default_status
completed-finished set_default_spec b h = elim (finished-cases b.status.status h) [
  | inl e ↦ rw e refl
  | inr e ↦ rw e refl
]

module _ {S E : Type 0} (set_default_spec : S → Bool × S) (Made : Resource S E → Job → Type 0)
    (k : NamespacedName) (status : String) (job : Option Job)
    (done_already : finished status ≡ true) where
  -- The resource that is stored under the key is the settled one.
  key-Settled :
      (c : State S E) (b : Resource S E)
      → Settled k status job c
      → c.resources b.key ≡ some b
      → same_key b.key k ≡ true
      → b.status.status ≡ status
  key-Settled c b s there e =
      ap (λ (o : Resource S E). o.status.status)
        (some-injective b s.resource
          (sym there ∙ ap c.resources (same_key-eq b.key k e) ∙ s.resource_there))
      ∙ s.status_is

  completed_is_finished :
      (b : Resource S E)
      → b.status.status ≡ status
      → finished (completed set_default_spec b).status.status ≡ true
  completed_is_finished b p =
      ap finished (completed-finished set_default_spec b (ap finished p ∙ done_already) ∙ p)
      ∙ done_already

  -- A write of a resource that keeps the status of a finished one.
  put-Settled :
      (c : State S E) (b : Resource S E) (new : Resource S E)
      → Settled k status job c
      → c.resources b.key ≡ some b
      → (b.status.status ≡ status → new.status.status ≡ status)
      → Settled k status job (record c { resources = put b.key new c.resources })
  put-Settled c b new s there same = elim (Bool-cases (same_key b.key k)) [
    | inl e ↦ record {
      resource = new;
      resource_there = rw e refl;
      status_is = same (key-Settled c b s there e);
      job_is = s.job_is;
    }
    | inr e ↦ record {
      resource = s.resource;
      resource_there = rw e s.resource_there;
      status_is = s.status_is;
      job_is = s.job_is;
    }
  ]

  -- A resource that is not finished stands under another key.
  other_key :
      (c : State S E) (b : Resource S E)
      → Settled k status job c
      → c.resources b.key ≡ some b
      → finished (completed set_default_spec b).status.status ≡ false
      → same_key b.key k ≡ false
  other_key c b s there open_yet = elim (Bool-cases (same_key b.key k)) [
    | inl e ↦ absurd (true-not_false (completed_is_finished b (key-Settled c b s there e)) open_yet)
    | inr e ↦ e
  ]

  Step-Settled :
      (req : NamespacedName) (c d : State S E)
      → Settled k status job c
      → Step set_default_spec Made req c d
      → Settled k status job d
  Step-Settled req c d s (idle e) = rw e s
  Step-Settled req c d s (spec_completed b there _ e) =
      rw e
        (put-Settled c b (record b { spec = (completed set_default_spec b).spec }) s there (λ h. h))
  Step-Settled req c d s (status_completed b there _ e) = rw e (
      put-Settled c b (record b { status = (completed set_default_spec b).status }) s there
        (λ h. completed-finished set_default_spec b (ap finished h ∙ done_already) ∙ h))
  Step-Settled req c d s (job_made b made there _ open_yet _ _ e) = rw e (record {
    resource = s.resource;
    resource_there = s.resource_there;
    status_is = s.status_is;
    job_is = rw (other_key c b s there open_yet) s.job_is;
  })
  Step-Settled req c d s (followed b made new there _ open_yet _ _ e) = rw e (record {
    resource = s.resource;
    resource_there = rw (other_key c b s there open_yet) s.resource_there;
    status_is = s.status_is;
    job_is = s.job_is;
  })

  removed-Settled :
      (c d : State S E) (x : Job)
      → Settled k status job c
      → MaybeDeleted c x d
      → Settled k status job d
  removed-Settled c d x s (inl same) = rw same s
  removed-Settled c d x s (inr gone) = rw gone (record {
    resource = s.resource;
    resource_there = s.resource_there;
    status_is = s.status_is;
    job_is = elim (Bool-cases (same_key x.key k)) [
      | inl e ↦ inr (rw e refl)
      | inr e ↦ rw e s.job_is
    ];
  })

Post-world : {W A : Type 0} (P : W → Type 0) (o : Outcome A × W) → Post (λ _ w. P w) P o → P o.1
Post-world P (done _, w) h = h
Post-world P (failed _, w) h = h
Post-world P (panicked _, w) h = h

module _ {W S E C : Type 0} {op : Operator W S E} (L : OperatorLaws op) {kind : Kind W S E C}
    {Made : Resource S E → Job → Type 0} (K : KindLaws L kind Made) (k : NamespacedName)
    (status : String) (job : Option Job) (done_already : finished status ≡ true) where
  abbrev Stays : W → Type 0
  Stays w = Settled k status job (L.state w)

  clean-Keeps : (x : Job) (ttl : ℤ) → Keeps Stays (clean_job op kind x ttl)
  unfolding clean_job
  clean-Keeps x ttl =
      Keeps-bind
        (record {
          run = λ w s.
              (Triple-map {Q = λ _ v. Stays v} {E = Stays} (L.sleep_keeps (L.state w) ttl)
                  (λ _ v e. rw e s) (λ v e. rw e s)).run
                w refl;
        })
        λ _.
          Keeps-bind
            (Keeps-try (record {
              run = λ w s.
                  (Triple-map {Q = λ _ v. Stays v} {E = Stays} (L.delete_law (L.state w) x)
                      (λ _ v e.
                        removed-Settled kind.set_default_spec Made k status job done_already
                          (L.state w) (L.state v) x s e)
                      (λ v e.
                        removed-Settled kind.set_default_spec Made k status job done_already
                          (L.state w) (L.state v) x s e)).run
                    w refl;
            }))
            λ _. Keeps-pure tt

  reconcile-Keeps : (req : NamespacedName) → Keeps Stays (reconcile op kind req)
  reconcile-Keeps req = record {
    run = λ w s.
        (Triple-map {Q = λ _ v. Stays v} {E = Stays} (reconcile-Step L K req (L.state w))
            (λ _ v step.
              Step-Settled kind.set_default_spec Made k status job done_already req (L.state w)
                (L.state v) s step)
            (λ v step.
              Step-Settled kind.set_default_spec Made k status job done_already req (L.state w)
                (L.state v) s step)).run
          w refl;
  }

  -- A resource whose status is Complete or Failed is settled: however often the reconciler runs,
  -- for whichever resources of its kind and however each run ends, and whatever jobs are deleted
  -- by CleanJob, the resource stays, its status is the same, and no job is made for it: the one that
  -- was there, if any, is still that one or has been deleted.
  pub Runs-Settled :
      (w v : W)
      → Settled k status job (L.state w)
      → Runs op kind w v
      → Settled k status job (L.state v)
  Runs-Settled w v s start = s
  Runs-Settled w v s (reconciled {v = u} req runs e) = rw e (
      Post-world Stays (reconcile op kind req u)
        ((reconcile-Keeps req).run u (Runs-Settled w u s runs)))
  Runs-Settled w v s (cleaned {v = u} x ttl runs e) = rw e (
      Post-world Stays (clean_job op kind x ttl u)
        ((clean-Keeps x ttl).run u (Runs-Settled w u s runs)))
