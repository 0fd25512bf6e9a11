-- ===== src/Controllers/NodeSet/Update/Changes.antt =====
-- What the reconciler of CITA nodes changes of a StatefulSet, and the status that it asks for.
use cita_node_operator.Base.{
  ℕ, String, ◌≡◌, refl, sym, ap, ◌∙◌, ◌⊎◌, inl, inr, true, Option, none, some,
}
use cita_node_operator.Base.{Result, ok, err, not_found}
use cita_node_operator.Base.Hoare.{
  Triple, Triple-bind, Triple-map, Triple-pure, Triple-raise, Triple-if, Triple-lift, Triple-deref,
  Triple-try, Caught,
}
use cita_node_operator.Kube.{NamespacedName}
use cita_node_operator.Controllers.Objects.{
  Objects, put, Place, Answers, Created, Merged, ClientLaws,
}
use cita_node_operator.Controllers.CitaNode.{CitaNode}
use cita_node_operator.Controllers.NodeSet.{NodeSet, wanted_replicas}
use cita_node_operator.Controllers.NodeSet.Update.{
  SetOperator, generate_pvc, generate_stateful_set, resized, compare_sets, merged, write_set,
  update_set, empty_set, on_set, reconcile_stateful_set,
}
use cita_node_operator.Controllers.NodeSet.Update.Resized.{unresized_lem, resized_lem}
use cita_node_operator.Controllers.NodeSet.Update.Wants.{
  Wanted, Same, Because, other_containers, fewer_replicas, more_replicas, SetChange, kept, made,
  updated, MaybeChange, wanted_replicas-Wants,
}

abbrev pub sets_place : Place (Objects NodeSet) NodeSet
sets_place = record {
  objects = λ c. c;
  store = λ f _. f;
  key_of = λ x. x.key;
  on_update = λ old x. x;
  on_status = λ old x. old;
}

-- `SetControllerReference` sets the owner and nothing else.
pub record SetLaws {W : Type 0} (op : SetOperator W) : Type 1 where
  pub stored : W → Objects NodeSet
  pub sets_laws : ClientLaws op.sets stored sets_place
  pub owner_law :
      (node : CitaNode) (set owned : NodeSet)
      → op.set_owner node set ≡ ok owned
      → owned ≡ record set { owner = some node.key.name }

module _ {W : Type 0} (op : SetOperator W) (L : SetLaws op) (c : Objects NodeSet)
    (node : CitaNode) where
  generate_lem :
      (set : NodeSet)
      → set.key ≡ node.key
      → Triple
          (λ w. L.stored w ≡ c)
          (generate_stateful_set op node set)
          (λ cur w. (L.stored w ≡ c) × Wanted op c node cur)
          (λ w. L.stored w ≡ c)
  unfolding generate_stateful_set generate_pvc
  generate_lem set same =
      Triple-bind {R = λ owned w. (L.stored w ≡ c) × (owned.key ≡ node.key)}
        (Triple-lift (op.set_owner node _)
          (λ owned e w h. (h, ap (λ (s : NodeSet). s.key) (L.owner_law node _ owned e) ∙ same))
          (λ w h. h))
        λ owned.
          Triple-bind {R = λ _ w. (L.stored w ≡ c) × (owned.key ≡ node.key)}
            (Triple-bind {R = λ _ w. (L.stored w ≡ c) × (owned.key ≡ node.key)}
              (Triple-deref node.spec.storage_size (λ _ _ w h. h) (λ w h. h.0))
              λ size. Triple-pure _ λ w h. h)
            λ claim.
              Triple-bind {R = λ _ w. (L.stored w ≡ c) × (owned.key ≡ node.key)}
                (Triple-lift (op.set_claim_owner node claim) (λ _ _ w h. h) (λ w h. h.0))
                λ owned_claim. Triple-pure _ λ w h. (
                  h.0,
                  record {
                    key_is = h.1;
                    containers_are = refl;
                    images_are = refl;
                    number = wanted_replicas node;
                    number_is = wanted_replicas-Wants op c node;
                    replicas_are = refl;
                  },
                )

  module _ (old : NodeSet) (there : c node.key ≡ some old) (here : old.key ≡ node.key) where
    -- What the comparison finds.
    abbrev Compared : NodeSet → Option String → Type 0
    Compared cur none = Same op c node old cur
    Compared cur (some status) = Because op c node old cur status

    compared :
        (cur : NodeSet) (before after : ℕ)
        → op.are_equal old.spec.containers cur.spec.containers ≡ true
        → old.spec.replicas ≡ some before
        → cur.spec.replicas ≡ some after
        → (o : Option String) → resized op before after ≡ o
        → Compared cur o
    compared cur before after e n m none is =
        (e, n ∙ ap some (unresized_lem op before after is) ∙ sym m)
    compared cur before after e n m (some status) is =
        elim (resized_lem op before after status is) [
          | inl fewer ↦ fewer_replicas before after e n m fewer.0 fewer.1
          | inr more ↦ more_replicas before after e n m more.0 more.1
        ]

    compare_lem :
        (cur : NodeSet)
        → Triple
            (λ w. L.stored w ≡ c)
            (compare_sets op old cur)
            (λ o w. (L.stored w ≡ c) × Compared cur o)
            (λ w. L.stored w ≡ c)
    unfolding compare_sets
    compare_lem cur =
        Triple-if (op.are_equal old.spec.containers cur.spec.containers) _ _
          (λ e.
            Triple-bind {R = λ before w. (L.stored w ≡ c) × (old.spec.replicas ≡ some before)}
              (Triple-deref old.spec.replicas (λ _ there w h. (h, there)) (λ w h. h))
              λ before.
                Triple-bind
                  {R = λ after w.
                    (L.stored w ≡ c)
                    × (old.spec.replicas ≡ some before)
                    × (cur.spec.replicas ≡ some after)}
                  (Triple-deref cur.spec.replicas (λ _ there w h. (h.0, h.1, there)) (λ w h. h.0))
                  λ after. Triple-pure _ λ w h.
                    (h.0, compared cur before after e h.1 h.2 (resized op before after) refl))
          (λ e. Triple-pure _ λ w h. (h, other_containers e refl))

    -- The update of the stored StatefulSet, whether or not it fails.
    write_lem :
        (cur : NodeSet) (o : Option String)
        → Wanted op c node cur
        → Compared cur o
        → Triple
            (λ w. L.stored w ≡ c)
            (write_set op old cur o)
            (λ r w. SetChange op c node (L.stored w) r.0)
            (λ w. MaybeChange op c node (L.stored w))
    unfolding write_set
    write_lem cur none wanted because = Triple-pure _ λ w h. kept old cur there wanted because h
    write_lem cur (some status) wanted because =
        Triple-bind {R = λ _ w. SetChange op c node (L.stored w) (some status)}
          (Triple-map (Triple-try (L.sets_laws.update_law c (merged op old cur))) ended
            (λ w h. inr (some status, changed w h)))
          λ _. Triple-pure _ λ w h. h
      where
        changed :
            (w : W)
            → (L.stored w ≡ c)
              ⊎ Merged sets_place sets_place.on_update c (merged op old cur) (L.stored w)
            → SetChange op c node (L.stored w) (some status)
        changed w (inl same) = updated old cur status there wanted because (inl same)
        changed w (inr m) = updated old cur status there wanted because (inr (m.2 ∙ rw here refl))

        ended :
            (r : Result (Unit {0})) (w : W)
            → Caught
                (λ _ w. Merged sets_place sets_place.on_update c (merged op old cur) (L.stored w))
                (λ w.
                  (L.stored w ≡ c)
                  ⊎ Merged sets_place sets_place.on_update c (merged op old cur) (L.stored w))
                r
                w
            → SetChange op c node (L.stored w) (some status)
        ended (ok _) w m = changed w (inr m)
        ended (err _) w m = changed w m

    update_lem :
        Triple
          (λ w. L.stored w ≡ c)
          (update_set op node old)
          (λ r w. SetChange op c node (L.stored w) r.0)
          (λ w. MaybeChange op c node (L.stored w))
    unfolding update_set
    update_lem = Triple-bind (Triple-map (generate_lem old here) (λ _ w h. h) (λ w h. inl h)) λ cur.
        record {
          run = λ w h.
              (Triple-bind (Triple-map (compare_lem cur) (λ _ v k. k) (λ v k. inl k))
                  λ o. record { run = λ v k. (write_lem cur o h.1 k.1).run v k.0 }).run
                w h.0;
        }

  pub reconcile_stateful_set-Change :
      Triple
        (λ w. L.stored w ≡ c)
        (reconcile_stateful_set op node)
        (λ r w. SetChange op c node (L.stored w) r.0)
        (λ w. MaybeChange op c node (L.stored w))
  unfolding reconcile_stateful_set on_set
  reconcile_stateful_set-Change =
      Triple-bind (Triple-map (L.sets_laws.get_law c node.key) (λ _ w h. h) (λ w h. inl h)) after
    where
      made_lem :
          (set : NodeSet) (w : W)
          → c node.key ≡ none
          → Wanted op c node set
          → Created sets_place c set (L.stored w)
          → SetChange op c node (L.stored w) none
      made_lem set w absent wanted created =
          made set absent wanted
            (created.1 ∙ ap (λ (k : NamespacedName). put k set c) wanted.key_is)

      after :
          (r : Result NodeSet)
          → Triple
              (λ w. (L.stored w ≡ c) × Answers sets_place node.key r (c node.key))
              (on_set op node r)
              (λ o w. SetChange op c node (L.stored w) o.0)
              (λ w. MaybeChange op c node (L.stored w))
      after (ok old) = record { run = λ w h. (update_lem old h.1.0 h.1.1).run w h.0 }
      after (err not_found) = record {
        run = λ w h.
            (Triple-bind
                (Triple-map (generate_lem (empty_set op node.key) refl) (λ _ v k. k) (λ v k. inl k))
                λ set. record {
                  run = λ v k.
                      (Triple-bind {R = λ _ x. SetChange op c node (L.stored x) none}
                          (Triple-map (L.sets_laws.create_law c set)
                            (λ _ x created. made_lem set x h.1 k.1 created)
                            (λ x e. elim e [
                              | inl same ↦ inl same
                              | inr created ↦ inr (none, made_lem set x h.1 k.1 created)
                            ]))
                          λ _. Triple-pure _ λ x change. change).run
                        v k.0;
                }).run
              w h.0;
      }
      after (err _) = Triple-raise _ λ w h. inl h.0
