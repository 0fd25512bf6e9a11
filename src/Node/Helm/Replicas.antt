-- ===== src/Node/Helm/Replicas.antt =====
-- A fallback of a Helm chain puts back the number of replicas that it found.
use mathlib.Core.Option.{some-injective}
use cita_node_operator.Base.{
  ℕ, String, ◌≡◌, refl, sym, ap, ◌∙◌, ◌⊎◌, inl, inr, Bool, true, Option, none, some, Exec,
}
use cita_node_operator.Base.{Result, ok, err}
use cita_node_operator.Base.Effects.{pure, deref, ◌>>=◌}
use cita_node_operator.Base.Hoare.{Triple, Triple-bind, Triple-map, Triple-try, Caught, Keeps}
use cita_node_operator.Base.Int.{ℤ}
use cita_node_operator.Host.{Host}
use cita_node_operator.Kube.{NamespacedName, WorkloadSpec, Workload, Api}
use cita_node_operator.Kube.Laws.{Specs, store_at, ApiLaws}
use cita_node_operator.Kube.Edits.{store_at_self, store_at_twice, store_at_same}
use cita_node_operator.Behavior.Frame.{Leaves, fallback-Keeps}
use cita_node_operator.Node.Common.{Action}
use cita_node_operator.Node.Helm.Outside.{outside_lem}
use cita_node_operator.Node.Helm.{
  HelmNode, HelmState, key, outside, stop, has_stopped, timed_out, check_stopped, start, fallback,
}

module _ {W : Type 0} (api : Api W) (L : ApiLaws api) (host : Host W) (h : HelmNode) (f : Specs)
    (spec : WorkloadSpec) (there : f (key h) ≡ some spec) where
  abbrev with_number : Option ℕ → Specs
  with_number n = store_at (key h) (record spec { replicas = n }) f

  abbrev SpecsAre : Specs → HelmState W → Type 0
  SpecsAre g s = L.stateful_sets s.world ≡ g

  -- The specifications are as they were, or the chain is scaled to 0.
  abbrev pub MaybeStopped : HelmState W → Type 0
  MaybeStopped s = SpecsAre f s ⊎ SpecsAre (with_number (some 0)) s

  -- The write of the workload that was read, with another number of replicas.
  update_lem :
      (g : Specs) (x : Workload) (n : Option ℕ)
      → x.key ≡ key h
      → store_at (key h) (record x.spec { replicas = n }) g ≡ with_number n
      → let old = x.spec in
        Triple
          (λ w. L.stateful_sets w ≡ g)
          (api.update_stateful_set (record x { spec = record old { replicas = n } }))
          (λ _ w. L.stateful_sets w ≡ with_number n)
          (λ w. (L.stateful_sets w ≡ g) ⊎ (L.stateful_sets w ≡ with_number n))
  update_lem g x n same stored =
      let old = x.spec in
      Triple-map
        (L.stateful_set_laws.update_law g (record x { spec = record old { replicas = n } }))
        (λ _ w e.
          e ∙ ap (λ (k : NamespacedName). store_at k (record old { replicas = n }) g) same ∙ stored)
        (λ w e. elim e [
          | inl kept ↦ inl kept
          | inr put ↦ inr (
              put
              ∙ ap (λ (k : NamespacedName). store_at k (record old { replicas = n }) g) same
              ∙ stored)
        ])

  stop_lem :
      Triple
        (SpecsAre f)
        (stop api host h)
        (λ _ s. SpecsAre (with_number (some 0)) s × (s.replicas ≡ spec.replicas))
        MaybeStopped
  unfolding stop
  stop_lem = record {
    run = λ s e.
        (Triple-bind
            {R = λ x t.
              ((L.stateful_sets t.world ≡ f) × (f (key h) ≡ some x.spec) × (x.key ≡ key h))
              × (t.replicas ≡ s.replicas)}
            (Triple-map (outside_lem s.replicas (L.stateful_set_laws.get_law f (key h)))
              (λ x t p. p) (λ t p. inl p.0))
            (λ x. record {
              run = λ t p.
                  (Triple-map
                      (outside_lem x.spec.replicas (
                        update_lem f x (some 0) p.0.2 (
                          ap
                            (λ (o : WorkloadSpec).
                              store_at (key h) (record o { replicas = some 0 }) f)
                            (some-injective x.spec spec (sym p.0.1 ∙ there)))))
                      (λ _ u q. (
                        q.0,
                        q.1
                            ∙ ap (λ (o : WorkloadSpec). o.replicas)
                                (some-injective x.spec spec (sym p.0.1 ∙ there)),
                      ))
                      (λ u q. q.0)).run
                    (record t { replicas = x.spec.replicas }) (p.0.0, refl);
            })).run
          s (e, refl);
  }

  has_stopped_lem :
      (g : Specs)
      → Triple
          (λ w. L.stateful_sets w ≡ g)
          (has_stopped api host h)
          (λ b w. (L.stateful_sets w ≡ g) × (b ≡ true → Unit {0}))
          (λ w. L.stateful_sets w ≡ g)
  unfolding has_stopped
  has_stopped_lem g =
      Triple-bind (Triple-map (L.stateful_set_laws.get_law g (key h)) (λ x w e. e.0) (λ w e. e))
        λ x. record { run = λ w e. (e, λ _. tt) }

  check_stopped_lem :
      (g : Specs) (r : Option ℕ)
      → Keeps (λ s. SpecsAre g s × (s.replicas ≡ r)) (check_stopped api host h)
  unfolding check_stopped timed_out
  check_stopped_lem g r = outside_lem r (
      Triple-bind
        (Triple-try (
          Triple-map (L.poll_law (λ _. Unit) 3 60 (has_stopped api host h) g (has_stopped_lem g))
            (λ _ w e. e.0) (λ w e. e)))
        polled)
    where
      polled :
          (o : Result (Unit {0}))
          → Triple
              (Caught (λ _ w. L.stateful_sets w ≡ g) (λ w. L.stateful_sets w ≡ g) o)
              (timed_out api host h o)
              (λ _ w. L.stateful_sets w ≡ g)
              (λ w. L.stateful_sets w ≡ g)
      polled (ok _) = record { run = λ w e. e }
      polled (err _) = record { run = λ w e. e }

  -- The workload that is read while the chain is scaled to 0, with the number from before.
  put_back :
      (x : WorkloadSpec)
      → with_number (some 0) (key h) ≡ some x
      → store_at (key h) (record x { replicas = spec.replicas }) (with_number (some 0))
        ≡ with_number spec.replicas
  put_back x found =
      store_at_twice (key h) (record x { replicas = spec.replicas })
        (record spec { replicas = some 0 }) f
      ∙ ap (λ (o : WorkloadSpec). store_at (key h) (record o { replicas = spec.replicas }) f)
          (some-injective x (record spec { replicas = some 0 })
            (sym found ∙ store_at_self (key h) (record spec { replicas = some 0 }) f))

  print_lem :
      (o : Option ℕ)
      → Triple (SpecsAre f) (deref o >>= λ printed. pure tt) (λ _. SpecsAre f) MaybeStopped
  print_lem none = record { run = λ s e. inl e }
  print_lem (some n) = record { run = λ s e. e }

  -- The write and the print of `Start`, where `n` is the field of the node.
  abbrev after_read : Workload → Option ℕ → Exec (HelmState W) Unit
  after_read x n =
      let old = x.spec in
      outside (api.update_stateful_set (record x { spec = record old { replicas = n } })) >>= λ _.
      deref n >>= λ printed. pure tt

  written_back :
      (x : Workload) (n : Option ℕ)
      → n ≡ spec.replicas
      → x.key ≡ key h
      → store_at (key h) (record x.spec { replicas = spec.replicas }) (with_number (some 0))
        ≡ with_number spec.replicas
      → Triple
          (λ s. SpecsAre (with_number (some 0)) s × (s.replicas ≡ spec.replicas))
          (after_read x n)
          (λ _. SpecsAre f)
          MaybeStopped
  written_back x n same name stored = rw same (
      Triple-bind {R = λ _. SpecsAre f}
        (Triple-map
          (outside_lem spec.replicas
            (update_lem (with_number (some 0)) x spec.replicas name stored))
          (λ _ t q. q.0 ∙ store_at_same (key h) spec f there)
          (λ t q. elim q.0 [
            | inl kept ↦ inr kept
            | inr put ↦ inl (put ∙ store_at_same (key h) spec f there)
          ]))
        (λ _. print_lem spec.replicas))

  start_lem :
      Triple
        (λ s. SpecsAre (with_number (some 0)) s × (s.replicas ≡ spec.replicas))
        (start api host h)
        (λ _. SpecsAre f)
        MaybeStopped
  unfolding start
  start_lem =
      Triple-bind
        (Triple-map
          (outside_lem spec.replicas (L.stateful_set_laws.get_law (with_number (some 0)) (key h)))
          (λ x s p. p) (λ s p. inr p.0))
        (λ x. record {
          run = λ s p.
              (written_back x s.replicas p.1 p.0.2 (put_back x.spec p.0.1)).run s (p.0.0, p.1);
        })

  module _ (leaves : (g : Specs) → Leaves host (λ w. L.stateful_sets w ≡ g)) where
    -- A fallback of a Helm chain that succeeds leaves every specification as it was, the number of
    -- replicas of its chain included; if it fails, they are as they were or the chain is scaled to
    -- 0. The action makes no difference. The machine's commands change no specification.
    pub fallback_lem :
        (action : Action) (block_height : ℤ) (crypto consensus : String) (delete : Bool)
        → Triple
            (SpecsAre f)
            (fallback api host h action block_height crypto consensus delete)
            (λ _. SpecsAre f)
            MaybeStopped
    unfolding fallback
    fallback_lem action block_height crypto consensus delete = Triple-bind stop_lem λ _.
        Triple-bind
          (Triple-map (check_stopped_lem (with_number (some 0)) spec.replicas) (λ _ s p. p)
            (λ s p. inr p.0))
          λ _.
            Triple-bind
              (Triple-map
                (outside_lem spec.replicas
                  (fallback-Keeps host (leaves (with_number (some 0))) _ _ _ _ _ _))
                (λ _ s p. p) (λ s p. inr p.0))
              λ _. start_lem
