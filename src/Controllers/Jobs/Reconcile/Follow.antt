-- ===== src/Controllers/Jobs/Reconcile/Follow.antt =====
-- What one run of a reconciler makes of the status of a resource: it follows that of the job.
use mathlib.Core.Option.{some-injective}
use cita_node_operator.Base.{
  ◌=ℕ◌, =ℕ→eq, ◌≡◌, refl, sym, ap, ◌∙◌, inl, inr, false, Option, none, some, Exec,
}
use cita_node_operator.Base.Hoare.{Triple, Triple-bind, Triple-map, Triple-pure, Triple-if}
use cita_node_operator.Kube.{NamespacedName}
use cita_node_operator.Controllers.Objects.{put}
use cita_node_operator.Controllers.Jobs.{Resource, Job, completed}
use cita_node_operator.Controllers.Jobs.Reconcile.Reads.{error_log-Keeps, first_time-Keeps}
use cita_node_operator.Controllers.Jobs.Reconcile.{
  Operator, Kind, finished, succeeded_with, status_from, write_status, follow,
}
use cita_node_operator.Controllers.Jobs.Reconcile.Transitions.{
  State, OperatorLaws, KindLaws, Follows, is_active, has_failed, has_succeeded, says_nothing, Step,
  idle, followed,
}

module _ {W S E C : Type 0} {op : Operator W S E} (L : OperatorLaws op) {kind : Kind W S E C}
    {Made : Resource S E → Job → Type 0} (K : KindLaws L kind Made) where
  abbrev pub Moves : NamespacedName → State S E → State S E → Type 0
  Moves = Step kind.set_default_spec Made

  module _ (req : NamespacedName) (c : State S E) (b : Resource S E)
      (there : c.resources b.key ≡ some b) (here : b.key ≡ req) where
    abbrev pub whole : Resource S E
    whole = completed kind.set_default_spec b

    abbrev pub Steps : {A : Type 0} → Exec W A → Type 0
    Steps m =
        Triple (λ w. L.state w ≡ c) m (λ _ w. Moves req c (L.state w))
          (λ w. Moves req c (L.state w))

    -- What the status is said to be, if anything.
    abbrev Says : Job → Option (Resource S E) → Type 0
    Says job none = Unit
    Says job (some cur) = Follows job whole.status cur.status × (cur.key ≡ b.key)

    succeeded_with-Says :
        (job : Job) (more : Option E)
        → job.status.succeeded ≡ 1
        → Says job (succeeded_with op kind whole job more)
    unfolding succeeded_with
    succeeded_with-Says job none e = tt
    succeeded_with-Says job (some more) e = (has_succeeded more e refl, refl)

    status_from_lem :
        (job : Job)
        → Triple
            (λ w. L.state w ≡ c)
            (status_from op kind whole job)
            (λ cur w. (L.state w ≡ c) × Says job cur)
            (λ w. L.state w ≡ c)
    unfolding status_from
    status_from_lem job =
        Triple-if (job.status.active =ℕ 1) _ _
          (λ e. Triple-pure _ λ w h. (h, (is_active (=ℕ→eq _ _ e) refl, refl)))
          (λ _.
            Triple-if (job.status.failed =ℕ 1) _ _
              (λ e.
                Triple-bind {R = λ _ w. L.state w ≡ c}
                  (error_log-Keeps op.api (L.pods_keep c) _ _ _)
                  λ log.
                    Triple-bind {R = λ _ w. L.state w ≡ c}
                      (first_time-Keeps job.status.condition_times)
                      λ t. Triple-pure _ λ w h. (h, (has_failed log t (=ℕ→eq _ _ e) refl, refl)))
              (λ _.
                Triple-if (job.status.succeeded =ℕ 1) _ _
                  (λ e.
                    Triple-bind {R = λ _ w. L.state w ≡ c} (K.result_keeps c whole job)
                      λ more. Triple-pure _ λ w h. (h, succeeded_with-Says job more (=ℕ→eq _ _ e)))
                  (λ _. Triple-pure _ λ w h. (h, (says_nothing refl, refl)))))

    put_key :
        (f : Resource S E) (k : NamespacedName) (d : State S E)
        → k ≡ b.key
        → (old : Resource S E) × (c.resources k ≡ some old)
          × (d ≡ record c { resources = put k (record old { status = f.status }) c.resources })
        → d ≡ record c { resources = put b.key (record b { status = f.status }) c.resources }
    put_key f k d e m =
        m.2
        ∙ ap
            (λ (j : NamespacedName). record c {
              resources = put j (record m.0 { status = f.status }) c.resources;
            })
            e
        ∙ ap
            (λ (o : Resource S E). record c {
              resources = put b.key (record o { status = f.status }) c.resources;
            })
            (some-injective m.0 b (sym m.1 ∙ ap c.resources e ∙ there))

    -- The writes of an object that has the key of `b`.
    pub update_status_lem :
        (x : Resource S E)
        → x.key ≡ b.key
        → ((d : State S E)
            → d ≡ record c { resources = put b.key (record b { status = x.status }) c.resources }
            → Moves req c d)
        → Steps (op.resources.update_status x)
    update_status_lem x key step =
        Triple-map (L.resources_laws.update_status_law c x)
          (λ _ w m. step (L.state w) (put_key x x.key (L.state w) key m))
          (λ w m. elim m [
            | inl same ↦ idle same
            | inr merged ↦ step (L.state w) (put_key x x.key (L.state w) key merged)
          ])

    write_status_lem :
        (job : Job) (cur : Option (Resource S E))
        → c.jobs req ≡ some job
        → finished whole.status.status ≡ false
        → Says job cur
        → Steps (write_status op kind whole cur)
    unfolding write_status
    write_status_lem job none found open_yet says = Triple-pure _ λ v k. idle k
    write_status_lem job (some cur) found open_yet says =
        Triple-if (op.is_equal cur whole) _ _ (λ _. Triple-pure _ λ v k. idle k)
          (λ _.
            Triple-bind
              (update_status_lem cur says.1
                λ d e. followed b job cur.status there here open_yet found says.0 e)
              λ _. Triple-pure _ λ v k. k)

    pub follow_lem :
        (job : Job)
        → c.jobs req ≡ some job
        → finished whole.status.status ≡ false
        → Steps (follow op kind whole job)
    unfolding follow
    follow_lem job found open_yet =
        Triple-bind (Triple-map (status_from_lem job) (λ cur w h. h) (λ w h. idle h))
          λ cur. record { run = λ w h. (write_status_lem job cur found open_yet h.1).run w h.0 }
