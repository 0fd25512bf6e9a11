-- ===== src/Controllers/CitaNode/Reconcile/Runs.antt =====
-- What a run of the reconciler of CITA nodes does to them.
use mathlib.Core.Option.{some-injective}
use cita_node_operator.Base.{
  eq_iff, String, ◌==◌, ◌≡◌, refl, sym, ap, ◌∙◌, ◌⊎◌, inl, inr, Bool, true, false, some,
}
use cita_node_operator.Base.{Result, ok, err, not_found}
use cita_node_operator.Base.Effects.{◌>>=◌, ◌>>◌}
use cita_node_operator.Base.Hoare.{Triple, Triple-bind, Triple-map, Triple-pure, Triple-if}
use cita_node_operator.Kube.{NamespacedName}
use cita_node_operator.Kube.Edits.{same_key_refl}
use cita_node_operator.Controllers.Objects.{Objects, put, Answers, Merged, ClientKeeps}
use cita_node_operator.Controllers.CitaNode.{
  CitaNode, NodeMap, NodeOperator, starting, set_default_status,
}
use cita_node_operator.Controllers.CitaNode.Moves.{nodes_place, NodeOperatorLaws}
use cita_node_operator.Controllers.CitaNode.Status.{SomeMove, sync_status-Moves}
use cita_node_operator.Controllers.NodeSet.Update.{SetOperator}
use cita_node_operator.Controllers.NodeSet.Update.Changes.{SetLaws}
use cita_node_operator.Controllers.NodeConfig.Update.Keeps.{}
use cita_node_operator.Controllers.NodeConfig.Update.{ConfigOperator}
use cita_node_operator.Controllers.CitaNode.Reconcile.{
  on_cluster, store, delete, reconcile_all_recourse, sync, with_status, on_node, reconcile,
}
use cita_node_operator.Controllers.CitaNode.Reconcile.Asked.{
  Triple-on_cluster, IsAsked, In, Asked, resources_lem,
}

module _ {W : Type 0} (op : NodeOperator W) (L : NodeOperatorLaws op) (sets : SetOperator W)
    (S : SetLaws sets) (configs : ConfigOperator W)
    (sets_keep : (c : Objects CitaNode) → ClientKeeps sets.sets (λ w. L.nodes w ≡ c))
    (maps_keep : (c : Objects CitaNode) → ClientKeeps configs.config_maps (λ w. L.nodes w ≡ c))
    (services_keep : (c : Objects CitaNode) → ClientKeeps configs.services (λ w. L.nodes w ≡ c))
    (c : Objects CitaNode) where
  -- The nodes after a run for `req`.
  pub data RunMoves (req : NamespacedName) (d : Objects CitaNode) : Type 0 where
    unmoved : d ≡ c → RunMoves req d
    began :
        (node : CitaNode)
        → c node.key ≡ some node
        → node.key ≡ req
        → node.status.status ≡ ""
        → d ≡ put node.key (record node { status = record node.status { status = starting } }) c
        → RunMoves req d
    moved :
        (node : CitaNode) (there : c node.key ≡ some node) (value : String)
        → node.key ≡ req
        → IsAsked value node.status.status
        → SomeMove op L c node there value d
        → RunMoves req d

  -- The status that is set where there is none.
  default_lem :
      (node : CitaNode)
      → c node.key ≡ some node
      → Triple
          (λ w. L.nodes w ≡ c)
          (set_default_status op node)
          (λ b w. ((b ≡ false) × (L.nodes w ≡ c)) ⊎ ((b ≡ true) × RunMoves node.key (L.nodes w)))
          (λ w. RunMoves node.key (L.nodes w))
  unfolding set_default_status
  default_lem node there =
      Triple-if (node.status.status == "") _ _
        (λ e.
          Triple-bind {R = λ _ w. RunMoves node.key (L.nodes w)}
            (Triple-map
              (L.nodes_laws.update_status_law c
                (record node { status = record node.status { status = starting } }))
              (λ _ w m. began_by e (L.nodes w) m)
              (λ w m. elim m [
                | inl same ↦ unmoved same
                | inr merged ↦ began_by e (L.nodes w) merged
              ]))
            λ _.
              Triple-bind {R = λ _ w. RunMoves node.key (L.nodes w)}
                (record {
                  run = λ w h.
                      (Triple-map (L.events_keep (L.nodes w) _ _ _ _) (λ _ v k. rw k h)
                          (λ v k. rw k h)).run
                        w refl;
                })
                λ _. Triple-pure _ λ w h. inr (refl, h))
        (λ _. Triple-pure _ λ w h. inl (refl, h))
    where
      began_by :
          (node.status.status == "") ≡ true
          → (d : Objects CitaNode)
          → Merged nodes_place nodes_place.on_status c
              (record node { status = record node.status { status = starting } })
              d
          → RunMoves node.key d
      began_by e d m = began node there refl ((eq_iff node.status.status "").0 e) (
          m.2
          ∙ ap
              (λ (o : CitaNode).
                put node.key (record o { status = record node.status { status = starting } }) c)
              (some-injective m.0 node (sym m.1 ∙ there)))

  sync_lem :
      (node : CitaNode) (there : c node.key ≡ some node)
      → Triple
          (Asked op L sets S configs sets_keep maps_keep services_keep c node)
          (sync op sets configs node)
          (λ _ s. RunMoves node.key (L.nodes s.world))
          (λ s. RunMoves node.key (L.nodes s.world))
  unfolding sync
  sync_lem node there = record {
    run = λ s h.
        (Triple-map
            (Triple-on_cluster s.node_map
              (sync_status-Moves op L c node there s.node_map h.1.0 h.1.1))
            (λ _ t k. moved node there h.1.0 refl h.1.2 k.0)
            (λ t k. moved node there h.1.0 refl h.1.2 k.0)).run
          s (h.0, refl);
  }

  with_status_lem :
      (node : CitaNode) (b : Bool)
      → c node.key ≡ some node
      → Triple
          (λ s.
            ((b ≡ false) × (L.nodes s.world ≡ c))
            ⊎ ((b ≡ true) × RunMoves node.key (L.nodes s.world)))
          (with_status op sets configs node.key node b)
          (λ _ s. RunMoves node.key (L.nodes s.world))
          (λ s. RunMoves node.key (L.nodes s.world))
  unfolding with_status
  with_status_lem node true there =
      Triple-pure _ λ s h. elim h [ inl k ↦ unmoved k.1 | inr k ↦ k.1 ]
  with_status_lem node false there = record {
    run = λ s h. elim h [
      | inl k ↦ (rest s.node_map).run s (k.1, refl)
      | inr k ↦ absurd (false-not_true k.0)
    ];
  }
    where
      false-not_true : false ≡ true → ⊥
      false-not_true e = cc

      rest :
          (f : NodeMap)
          → Triple
              (In op L sets S configs sets_keep maps_keep services_keep c f)
              (store node.key node.status.status
                >> (reconcile_all_recourse op sets configs node >> sync op sets configs node))
              (λ _ s. RunMoves node.key (L.nodes s.world))
              (λ s. RunMoves node.key (L.nodes s.world))
      rest f =
          Triple-bind
            {R = λ _.
              In op L sets S configs sets_keep maps_keep services_keep c
                (put node.key node.status.status f)}
            {m = store node.key node.status.status}
            (record { run = λ s h. (h.0, ap (put node.key node.status.status) h.1) })
            λ _.
              Triple-bind
                (Triple-map
                  (resources_lem op L sets S configs sets_keep maps_keep services_keep c node
                    (put node.key node.status.status f) (rw (same_key_refl node.key) refl))
                  (λ _ s h. h) (λ s h. unmoved h))
                λ _. sync_lem node there

  -- Whatever the cluster answers, and whether it succeeds or fails, a run of Reconcile leaves the
  -- CITA nodes as they are or moves the status of the node it is for, once: from none to Starting,
  -- to Starting, Stopping or Upgrading where it had another status, or from Starting to Running, from Stopping to Stopped, from Running to Error or from Error to Running.
  -- No other node is touched. Calls for StatefulSets, config maps and services leave the nodes
  -- alone.
  pub reconcile-RunMoves :
      (req : NamespacedName)
      → Triple
          (λ s. L.nodes s.world ≡ c)
          (reconcile op sets configs req)
          (λ _ s. RunMoves req (L.nodes s.world))
          (λ s. RunMoves req (L.nodes s.world))
  unfolding reconcile on_node
  reconcile-RunMoves req = record {
    run = λ s h.
        (Triple-bind
            (Triple-map (Triple-on_cluster s.node_map (L.nodes_laws.get_law c req)) (λ _ t k. k.0)
              (λ t k. unmoved k.0))
            after).run
          s (h, refl);
  }
    where
      found_lem :
          (node : CitaNode)
          → c node.key ≡ some node
          → Triple
              (λ s. L.nodes s.world ≡ c)
              (on_cluster (set_default_status op node)
                >>= with_status op sets configs node.key node)
              (λ _ s. RunMoves node.key (L.nodes s.world))
              (λ s. RunMoves node.key (L.nodes s.world))
      found_lem node there = record {
        run = λ s h.
            (Triple-bind
                (Triple-map (Triple-on_cluster s.node_map (default_lem node there)) (λ _ t k. k.0)
                  (λ t k. k.0))
                λ b. with_status_lem node b there).run
              s (h, refl);
      }

      deleted : Triple (λ s. L.nodes s.world ≡ c) (delete req) (λ _ s. L.nodes s.world ≡ c) (λ _. ⊥)
      deleted = record { run = λ s h. h }

      after :
          (r : Result CitaNode)
          → Triple
              (λ s. (L.nodes s.world ≡ c) × Answers nodes_place req r (c req))
              (on_node op sets configs req r)
              (λ _ s. RunMoves req (L.nodes s.world))
              (λ s. RunMoves req (L.nodes s.world))
      after (ok node) = record {
        run = λ s h. rw (sym h.1.1) ((found_lem node (ap c h.1.1 ∙ h.1.0)).run s h.0);
      }
      after (err not_found) = record { run = λ s h. unmoved h.0 }
      after (err _) = record { run = λ s h. unmoved h.0 }
