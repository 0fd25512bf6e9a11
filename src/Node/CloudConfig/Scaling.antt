-- ===== src/Node/CloudConfig/Scaling.antt =====
-- How an operation scales the StatefulSet of its node down and up again.
use mathlib.Core.Option.{some-injective}
use cita_node_operator.Base.{ℕ, ◌≡◌, refl, ◌∙◌, ◌⊎◌, inl, inr, true, false}
use cita_node_operator.Base.{some, Exec, ◌==◌, =ℕ→eq}
use cita_node_operator.Base.{Result, ok, err}
use cita_node_operator.Base.Effects.{◌>>◌}
use cita_node_operator.Base.Hoare.{
  Triple, Triple-bind, Triple-map, Triple-pre, Triple-and, Triple-try, Triple-pure, Caught, Keeps,
}
use cita_node_operator.Host.{Host}
use cita_node_operator.Kube.{Api}
use cita_node_operator.Kube.Laws.{Specs, ApiLaws}
use cita_node_operator.Kube.Edits.{Edited, IsIdempotent, MaybeEdited, edit_workload_again}
use cita_node_operator.Kube.Edits.{with_replicas, rescaled}
use cita_node_operator.Node.Common.{Action, around, stop_and_start}
use cita_node_operator.Node.CloudConfig.{
  CloudConfigNode, key, scale, stop, start, has_stopped, timed_out, check_stopped,
}

with_replicas-IsIdempotent : (n : ℕ) → IsIdempotent (with_replicas n)
with_replicas-IsIdempotent n x y e = rw (← some-injective (record x { replicas = some n }) y e) refl

module _ {W : Type 0} (api : Api W) (L : ApiLaws api) (host : Host W) (c : CloudConfigNode) where
  -- The StatefulSet of the node has `n` replicas in `g`, and all else is as in `f`.
  abbrev pub Scaled : ℕ → Specs → Specs → Type 0
  Scaled n = Edited (key c) (with_replicas n)

  abbrev pub MaybeScaled : ℕ → Specs → Specs → Type 0
  MaybeScaled n = MaybeEdited (key c) (with_replicas n)

  scale_lem :
      (n : ℕ) (f : Specs)
      → Triple
          (λ w. L.stateful_sets w ≡ f)
          (api.retry_on_conflict (scale api host c (some n)))
          (λ _ w. Scaled n f (L.stateful_sets w))
          (λ w. MaybeScaled n f (L.stateful_sets w))
  unfolding scale
  scale_lem n f =
      Triple-pre (λ w h. inl h)
        (L.retry_law _ _ _ (
          edit_workload_again (key c) (with_replicas n) L.stateful_set_laws f
            (with_replicas-IsIdempotent n)))

  pub stop_lem :
      (f : Specs)
      → Triple
          (λ w. L.stateful_sets w ≡ f)
          (stop api host c)
          (λ _ w. Scaled 0 f (L.stateful_sets w))
          (λ w. MaybeScaled 0 f (L.stateful_sets w))
  unfolding stop
  stop_lem f = scale_lem 0 f

  pub start_once :
      (f : Specs)
      → Triple
          (λ w. L.stateful_sets w ≡ f)
          (start api host c)
          (λ _ w. Scaled 1 f (L.stateful_sets w))
          (λ w. MaybeScaled 1 f (L.stateful_sets w))
  unfolding start
  start_once f = scale_lem 1 f

  has_stopped_lem :
      (f : Specs)
      → Triple
          (λ w. L.stateful_sets w ≡ f)
          (has_stopped api host c)
          (λ b w. (L.stateful_sets w ≡ f) × (b ≡ true → L.ready_replicas w (key c) ≡ 0))
          (λ w. L.stateful_sets w ≡ f)
  unfolding has_stopped
  has_stopped_lem f =
      Triple-bind
        {R = λ x w.
          (L.stateful_sets w ≡ f) × (L.ready_replicas w (key c) ≡ x.status.ready_replicas)}
        (Triple-map
          (Triple-pre (λ w h. (h, tt))
            (Triple-and (L.stateful_set_laws.get_law f (key c)) (L.ready_replicas_law (key c))))
          (λ x w h. (h.0.0, h.1)) (λ w h. h.0))
        (λ x. Triple-pure _ (λ w h. (h.0, λ e. h.1 ∙ =ℕ→eq _ _ e)))

  pub check_stopped_lem :
      (f : Specs)
      → Triple
          (λ w. L.stateful_sets w ≡ f)
          (check_stopped api host c)
          (λ _ w. (L.stateful_sets w ≡ f) × (L.ready_replicas w (key c) ≡ 0))
          (λ w. L.stateful_sets w ≡ f)
  unfolding check_stopped
  check_stopped_lem f =
      Triple-bind (Triple-try (L.poll_law _ 3 60 (has_stopped api host c) f (has_stopped_lem f)))
        result
    where
      result :
          (r : Result (Unit {0}))
          → Triple
              (Caught
                (λ _ w. (L.stateful_sets w ≡ f) × (L.ready_replicas w (key c) ≡ 0))
                (λ w. L.stateful_sets w ≡ f)
                r)
              (timed_out api host c r)
              (λ _ w. (L.stateful_sets w ≡ f) × (L.ready_replicas w (key c) ≡ 0))
              (λ w. L.stateful_sets w ≡ f)
      result (ok _) = record { run = λ w h. h }
      result (err _) = record { run = λ w h. h }

  pub start_lem :
      (m : ℕ) (f : Specs)
      → Triple
          (λ w. Scaled m f (L.stateful_sets w))
          (start api host c)
          (λ _ w. Scaled 1 f (L.stateful_sets w))
          (λ w. Scaled m f (L.stateful_sets w) ⊎ Scaled 1 f (L.stateful_sets w))
  unfolding start
  start_lem m f = record {
    run = λ w p.
        (Triple-map (scale_lem 1 (L.stateful_sets w)) (λ _ v q. rescaled m 1 p q)
            (λ v e. elim e [ inl same ↦ inl (rw same p) | inr q ↦ inr (rescaled m 1 p q) ])).run
          w refl;
  }

  -- The files are worked on while the StatefulSet is scaled to 0 and no replica is ready.
  abbrev pub Stopped : Specs → W → Type 0
  Stopped f w = Scaled 0 f (L.stateful_sets w) × (L.ready_replicas w (key c) ≡ 0)

  -- `Stop` and `CheckStopped`
  pub stop-check_stopped :
      (f : Specs)
      → Triple
          (λ w. L.stateful_sets w ≡ f)
          (stop api host c >> check_stopped api host c)
          (λ _. Stopped f)
          (λ w. MaybeScaled 0 f (L.stateful_sets w))
  stop-check_stopped f = Triple-bind (stop_lem f) λ _. record {
    run = λ w p.
        (Triple-map (check_stopped_lem (L.stateful_sets w)) (λ _ v h. (rw h.0 p, h.1))
            (λ v h. inr (rw h p))).run
          w refl;
  }

  module _ (action : Action) (body : Exec W Unit) where
    abbrev around_body : Exec W Unit
    around_body = around action (stop api host c) (check_stopped api host c) (start api host c) body

    -- Without a stop the body alone is run.
    pub around_direct :
        (f : Specs)
        → (action == stop_and_start) ≡ false
        → Keeps (λ w. L.stateful_sets w ≡ f) body
        → Keeps (λ w. L.stateful_sets w ≡ f) around_body
    unfolding around
    around_direct f other k = rw other (Triple-bind k λ _. Triple-pure tt λ w h. h)

    -- With a stop the body is run between the two.
    pub around_scales :
        (f : Specs)
        → (action == stop_and_start) ≡ true
        → Triple
            (Stopped f)
            body
            (λ _ w. Scaled 0 f (L.stateful_sets w))
            (λ w. Scaled 0 f (L.stateful_sets w))
        → Triple
            (λ w. L.stateful_sets w ≡ f)
            around_body
            (λ _ w. Scaled 1 f (L.stateful_sets w))
            (λ w. MaybeScaled 0 f (L.stateful_sets w) ⊎ Scaled 1 f (L.stateful_sets w))
    unfolding around
    around_scales f same k = rw same (
        Triple-bind (Triple-map (stop-check_stopped f) (λ _ w h. h) (λ w h. inl h)) (λ _.
          Triple-bind (Triple-map k (λ _ w h. h) (λ w h. inl (inr h))) λ _.
            Triple-map (start_lem 0 f) (λ _ w h. h)
              λ w h. elim h [ inl p ↦ inl (inr p) | inr p ↦ inr p ]))

    pub around_fails :
        (f : Specs)
        → (action == stop_and_start) ≡ true
        → Triple (Stopped f) body (λ _ _. ⊥) (λ w. Scaled 0 f (L.stateful_sets w))
        → Triple
            (λ w. L.stateful_sets w ≡ f)
            around_body
            (λ _ _. ⊥)
            (λ w. MaybeScaled 0 f (L.stateful_sets w))
    unfolding around
    around_fails f same k = rw same (
        Triple-bind (stop-check_stopped f) λ _.
          Triple-bind (Triple-map k (λ _ w h. h) (λ w h. inr h))
            λ _. record { run = λ w h. absurd h })
