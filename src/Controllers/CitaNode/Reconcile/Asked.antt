-- ===== src/Controllers/CitaNode/Reconcile/Asked.antt =====
-- The status that a run of the reconciler leaves in `NodeMap` before it moves the node's.
use cita_node_operator.Base.{String, ◌==◌, ◌≡◌, refl, sym, ap, ◌∙◌, Option, none, some, Exec}
use cita_node_operator.Base.{Result}
use cita_node_operator.Base.Effects.{Outcome, done, failed, panicked}
use cita_node_operator.Base.Hoare.{
  Post, Triple, Triple-bind, Triple-map, Triple-pure, Triple-if, Triple-and, Keeps,
}
use cita_node_operator.Kube.Edits.{same_key_refl}
use cita_node_operator.Controllers.Objects.{Objects, ClientKeeps}
use cita_node_operator.Controllers.CitaNode.{
  CitaNode, NodeMap, NodeOperator, starting, stopping, upgrading,
}
use cita_node_operator.Controllers.CitaNode.Moves.{NodeOperatorLaws}
use cita_node_operator.Controllers.NodeSet.Update.{SetOperator, reconcile_stateful_set}
use cita_node_operator.Controllers.NodeSet.{NodeSet}
use cita_node_operator.Controllers.NodeSet.Update.Changes.{SetLaws, reconcile_stateful_set-Change}
use cita_node_operator.Controllers.NodeSet.Update.Wants.{
  SetChange, updated, other_containers, fewer_replicas, more_replicas,
}
use cita_node_operator.Controllers.NodeSet.Update.Keeps.{reconcile_stateful_set-Keeps}
use cita_node_operator.Controllers.NodeConfig.Update.Keeps.{
  reconcile_config_map-Keeps, reconcile_log_config_map-Keeps, reconcile_service-Keeps,
}
use cita_node_operator.Controllers.NodeConfig.Update.{ConfigOperator}
use cita_node_operator.Controllers.CitaNode.Reconcile.{
  Memory, with_map, on_cluster, load, store_change, after_set, reconcile_all_recourse,
}

-- Work on the cluster alone leaves `NodeMap` as it is.
Post-on_cluster :
    {W A : Type 0} (Q : A → W → Type 0) (E : W → Type 0) (f : NodeMap) (o : Outcome A × W)
    → Post Q E o
    → Post
        (λ a s. Q a s.world × (s.node_map ≡ f))
        (λ s. E s.world × (s.node_map ≡ f))
        (with_map f o)
Post-on_cluster Q E f (done a, w) h = (h, refl)
Post-on_cluster Q E f (failed _, w) h = (h, refl)
Post-on_cluster Q E f (panicked _, w) h = (h, refl)

pub Triple-on_cluster :
    {W A : Type 0} {P : W → Type 0} {Q : A → W → Type 0} {E : W → Type 0} {m : Exec W A}
    (f : NodeMap)
    → Triple P m Q E
    → Triple
        (λ (s : Memory W). P s.world × (s.node_map ≡ f))
        (on_cluster m)
        (λ a s. Q a s.world × (s.node_map ≡ f))
        (λ s. E s.world × (s.node_map ≡ f))
Triple-on_cluster {Q = Q} {E = E} {m = m} f t = record {
  run = λ s h. rw (sym h.1) (Post-on_cluster Q E s.node_map (m s.world) (t.run s.world h.0));
}

none-not_some : (s : String) → none ≡ some s → ⊥
none-not_some s k = cc

-- What `NodeMap` may have for a node of the status `old` when its status is moved.
pub data IsAsked (value old : String) : Type 0 where
  nothing_asked : value ≡ old → IsAsked value old
  start_asked : value ≡ starting → IsAsked value old
  stop_asked : value ≡ stopping → IsAsked value old
  upgrade_asked : value ≡ upgrading → IsAsked value old

module _ {W : Type 0} (op : NodeOperator W) (L : NodeOperatorLaws op) (sets : SetOperator W)
    (S : SetLaws sets) (configs : ConfigOperator W)
    (sets_keep : (c : Objects CitaNode) → ClientKeeps sets.sets (λ w. L.nodes w ≡ c))
    (maps_keep : (c : Objects CitaNode) → ClientKeeps configs.config_maps (λ w. L.nodes w ≡ c))
    (services_keep : (c : Objects CitaNode) → ClientKeeps configs.services (λ w. L.nodes w ≡ c))
    (c : Objects CitaNode) where
  SetChange-IsAsked :
      (f d : Objects NodeSet) (node : CitaNode) (status old : String)
      → SetChange sets f node d (some status)
      → IsAsked status old
  SetChange-IsAsked f d node status old (updated set _ _ there _ (other_containers e is) ends) =
      upgrade_asked is
  SetChange-IsAsked f d node status old
        (updated set _ _ there _ (fewer_replicas n m e _ _ _ is) ends) =
      stop_asked is
  SetChange-IsAsked f d node status old
        (updated set _ _ there _ (more_replicas n m e _ _ _ is) ends) =
      start_asked is

  set_lem :
      (node : CitaNode)
      → Triple
          (λ w. L.nodes w ≡ c)
          (reconcile_stateful_set sets node)
          (λ r w.
            (L.nodes w ≡ c)
            × ((status : String) → r.0 ≡ some status → IsAsked status node.status.status))
          (λ w. L.nodes w ≡ c)
  set_lem node = record {
    run = λ w h.
        (Triple-map
            (Triple-and (reconcile_stateful_set-Keeps sets (sets_keep c) node)
              (reconcile_stateful_set-Change sets S (S.stored w) node))
            (λ r v k. (
              k.0,
              λ status is.
                  SetChange-IsAsked (S.stored w) (S.stored v) node status node.status.status
                    (rw is at k.1),
            ))
            (λ v k. k.0)).run
          w (h, refl);
  }

  abbrev pub In : NodeMap → Memory W → Type 0
  In f s = (L.nodes s.world ≡ c) × (s.node_map ≡ f)

  -- `NodeMap` has for the node what may be asked.
  abbrev pub Asked : CitaNode → Memory W → Type 0
  Asked node s =
      (L.nodes s.world ≡ c)
      × ((value : String) × (s.node_map node.key ≡ some value) × IsAsked value node.status.status)

  module _ (node : CitaNode) (f : NodeMap) (known : f node.key ≡ some node.status.status) where
    unasked : (s : Memory W) → In f s → Asked node s
    unasked s h = (
      h.0,
      (node.status.status, ap (λ (m : NodeMap). m node.key) h.1 ∙ known, nothing_asked refl),
    )

    store_lem :
        (status : String) (old : Option String)
        → IsAsked status node.status.status
        → old ≡ some node.status.status
        → Triple
            (In f)
            (store_change op sets configs node.key status old)
            (λ _. Asked node)
            (λ s. L.nodes s.world ≡ c)
    unfolding store_change
    store_lem status old is e = rw e (
        Triple-if (node.status.status == status) _ _ (λ _. Triple-pure _ unasked)
          (λ _. record { run = λ s h. (h.0, (status, rw (same_key_refl node.key) refl, is)) }))

    after_set_lem :
        (r : Option String × Result (Unit {0}))
        → Triple
            (λ s.
              ((L.nodes s.world ≡ c)
                × ((status : String) → r.0 ≡ some status → IsAsked status node.status.status))
              × (s.node_map ≡ f))
            (after_set op sets configs node r)
            (λ _. Asked node)
            (λ s. L.nodes s.world ≡ c)
    unfolding after_set
    after_set_lem (none, _) = Triple-pure _ λ s h. unasked s (h.0.0, h.1)
    after_set_lem (some status, _) =
        Triple-bind
          {R = λ o s. In f s × (o ≡ some node.status.status) × IsAsked status node.status.status}
          {m = load node.key}
          (record {
            run = λ s h.
                ((h.0.0, h.1), ap (λ (m : NodeMap). m node.key) h.1 ∙ known, h.0.1 status refl);
          })
          λ old. record { run = λ s h. (store_lem status old h.2 h.1).run s h.0 }

    pub resources_lem :
        Triple
          (In f)
          (reconcile_all_recourse op sets configs node)
          (λ _. Asked node)
          (λ s. L.nodes s.world ≡ c)
    unfolding reconcile_all_recourse
    resources_lem =
        Triple-bind (kept (reconcile_config_map-Keeps configs (maps_keep c) (services_keep c) node))
          λ _.
            Triple-bind
              (kept (reconcile_log_config_map-Keeps configs (maps_keep c) (services_keep c) node))
              λ _.
                Triple-bind
                  (kept (reconcile_service-Keeps configs (maps_keep c) (services_keep c) node))
                  λ _.
                    Triple-bind
                      (Triple-map (Triple-on_cluster f (set_lem node)) (λ _ s h. h) (λ s h. h.0))
                      after_set_lem
      where
        kept :
            {A : Type 0} {m : Exec W A}
            → Keeps (λ w. L.nodes w ≡ c) m
            → Triple (In f) (on_cluster m) (λ _. In f) (λ s. L.nodes s.world ≡ c)
        kept k = Triple-map (Triple-on_cluster f k) (λ _ s h. h) (λ s h. h.0)
