-- ===== src/Controllers/CitaNode/Status.antt =====
-- The moves of a CITA node's status that `SyncStatus` makes.
use mathlib.Core.Option.{some-injective}
use cita_node_operator.Base.{
  String, ◌==◌, ◌=ℕ◌, eq_iff, ◌≡◌, refl, sym, ap, ◌∙◌, ◌⊎◌, inl, inr, Bool, true, false, some,
}
use cita_node_operator.Base.{List, Exec, Result, ok, err, not_found}
use cita_node_operator.Base.Hoare.{
  Triple, Triple-bind, Triple-map, Triple-pure, Triple-raise, Triple-if, Triple-try, Caught, Keeps,
  Keeps-bind, Keeps-pure, Keeps-try,
}
use cita_node_operator.Kube.{Pod}
use cita_node_operator.Base.{if◌then◌else◌}
use cita_node_operator.Base.Effects.{◌>>=◌}
use cita_node_operator.Controllers.Objects.{Objects, put, Merged}
use cita_node_operator.Controllers.CitaNode.Moves.{
  nodes_place, NodeOperatorLaws, Moves, external, has_started, has_stopped, has_broken,
  has_recovered,
}
use cita_node_operator.Controllers.CitaNode.{
  Condition, CitaNode, NodeMap, NodeOperator, running, stopping, starting, upgrading, error,
  all_ready, write_status, set_status_and_condition, pod_key, sync_starting, after_stop,
  sync_stopping, sync_running, sync_error, sync_same, sync_value, sync_status,
}

true-not_false : {p : Bool} → p ≡ true → p ≡ false → ⊥
true-not_false h k = cc

module _ {W : Type 0} (op : NodeOperator W) (L : NodeOperatorLaws op) (c : Objects CitaNode)
    (node : CitaNode) (there : c node.key ≡ some node) where
  -- The node has moved to `status`, and no other node has changed.
  pub record Moved (status : String) (d : Objects CitaNode) : Type 0 where
    pub conditions : List Condition
    pub moved :
        d
        ≡ put node.key
            (record node { status = record { status = status; conditions = conditions } })
            c

  abbrev pub MaybeMoved : String → Objects CitaNode → Type 0
  MaybeMoved status d = (d ≡ c) ⊎ Moved status d

  abbrev Ends : Exec W Unit → String → Type 0
  Ends m status =
      Triple (λ w. L.nodes w ≡ c) m (λ _ w. MaybeMoved status (L.nodes w))
        (λ w. MaybeMoved status (L.nodes w))

  Merged-Moved :
      (status : String) (conditions : List Condition) (d : Objects CitaNode)
      → Merged nodes_place nodes_place.on_status c
          (record node { status = record { status = status; conditions = conditions } })
          d
      → Moved status d
  Merged-Moved status conditions d m = record {
    conditions = conditions;
    moved =
        m.2
        ∙ ap
            (λ (o : CitaNode).
              put node.key
                (record o { status = record { status = status; conditions = conditions } }) c)
            (some-injective m.0 node (sym m.1 ∙ there));
  }

  event-Keeps :
      (status : String) (x : CitaNode) (t r m : String)
      → Keeps (λ w. MaybeMoved status (L.nodes w)) (op.event x t r m)
  event-Keeps status x t r m = record {
    run = λ w h.
        (Triple-map {Q = λ _ v. MaybeMoved status (L.nodes v)}
            {E = λ v. MaybeMoved status (L.nodes v)} (L.events_keep (L.nodes w) x t r m)
            (λ _ v k. rw k h) (λ v k. rw k h)).run
          w refl;
  }

  -- The event after a write that failed.
  written :
      (status reason : String) (x : CitaNode) (r : Result (Unit {0}))
      → Triple
          (Caught (λ _ w. MaybeMoved status (L.nodes w)) (λ w. MaybeMoved status (L.nodes w)) r)
          (write_status op x reason r)
          (λ _ w. MaybeMoved status (L.nodes w))
          (λ w. MaybeMoved status (L.nodes w))
  unfolding write_status
  written status reason x (ok _) = record { run = λ w h. h }
  written status reason x (err e) =
      Triple-bind (event-Keeps status x "Warning" reason "Failed to update resource status")
        λ _. Triple-raise e λ w h. h

  set_status_lem :
      (wanted type condition_status reason msg event_type : String)
      → Ends
          (set_status_and_condition op wanted node type condition_status reason msg event_type)
          wanted
  unfolding set_status_and_condition
  set_status_lem wanted type condition_status reason msg event_type =
      Triple-bind (Triple-map (L.events_keep c _ _ _ _) (λ _ w h. h) (λ w h. inl h)) λ _.
        Triple-if changed.0 _ _
          (λ _.
            Triple-bind
              (Triple-try (
                Triple-map
                  (L.nodes_laws.update_status_law c
                    (record node { status = record { status = wanted; conditions = changed.1 } }))
                  (λ _ w m. inr (Merged-Moved wanted changed.1 (L.nodes w) m))
                  (λ w m. elim m [
                    | inl same ↦ inl same
                    | inr merged ↦ inr (Merged-Moved wanted changed.1 (L.nodes w) merged)
                  ])))
              (written wanted reason _))
          (λ _. Triple-pure tt λ w h. inl h)
    where
      changed : Bool × List Condition
      changed =
          op.set_condition node.status.conditions
            (record { type = type; status = condition_status; reason = reason; message = msg })

  -- What `SyncStatus` may do to the nodes, where `NodeMap` has `value` for this one.
  abbrev pub SomeMove : String → Objects CitaNode → Type 0
  SomeMove value d = (d ≡ c) ⊎ ((s : String) × Moves value node.status.status s × Moved s d)

  abbrev Syncs : String → Exec W Unit → Type 0
  Syncs value m =
      Triple (λ w. L.nodes w ≡ c) m (λ _ w. SomeMove value (L.nodes w))
        (λ w. SomeMove value (L.nodes w))

  by_move :
      {value s : String} {m : Exec W Unit}
      → Moves value node.status.status s
      → Ends m s
      → Syncs value m
  by_move {value = value} {s = s} move t =
      Triple-map t (λ _ w h. some_move (L.nodes w) h) (λ w h. some_move (L.nodes w) h)
    where
      some_move : (d : Objects CitaNode) → MaybeMoved s d → SomeMove value d
      some_move d (inl same) = inl same
      some_move d (inr moved) = inr (s, move, moved)

  no_move : {value : String} {m : Exec W Unit} → Keeps (λ w. L.nodes w ≡ c) m → Syncs value m
  no_move k = Triple-map k (λ _ w h. inl h) (λ w h. inl h)

  -- After the read of the node's pod.
  with_pod :
      {value : String} {f : Pod → Exec W Unit}
      → ((pod : Pod) → Syncs value (f pod))
      → Syncs value (op.api.get_pod (pod_key op node) >>= f)
  with_pod t =
      Triple-bind (Triple-map (L.pods_keep c (pod_key op node)) (λ _ w h. h) (λ w h. inl h)) t

  -- A move that is made where a test holds.
  if_move :
      {value s : String} {m n : Exec W Unit} (b : Bool)
      → Moves value node.status.status s
      → Ends m s
      → Keeps (λ w. L.nodes w ≡ c) n
      → Syncs value (if b then m else n)
  if_move b move t k = Triple-if b _ _ (λ _. by_move move t) (λ _. no_move k)

  sync_same_lem :
      (value : String) → value ≡ node.status.status → Syncs value (sync_same op value node)
  unfolding sync_same sync_starting sync_stopping sync_running sync_error after_stop
  sync_same_lem value same =
      Triple-if (value == starting) _ _
        (λ e.
          Triple-bind (Triple-map (L.stateful_sets_keep c node.key) (λ _ w h. h) (λ w h. inl h))
            λ sts.
              if_move (sts.status.replicas =ℕ sts.status.ready_replicas)
                (has_started same (sym same ∙ (eq_iff value starting).0 e))
                (set_status_lem _ _ _ _ _ _) (Keeps-pure tt))
        (λ _.
          Triple-if (value == stopping) _ _
            (λ e.
              Triple-bind
                (Triple-map
                  (Keeps-try (Keeps-bind (L.pods_keep c (pod_key op node)) λ _. Keeps-pure tt))
                  (λ _ w h. h) (λ w h. inl h))
                λ r. stop_lem (sym same ∙ (eq_iff value stopping).0 e) r)
            (λ _.
              Triple-if (value == running) _ _
                (λ e. with_pod λ pod.
                  Triple-if (all_ready pod.container_statuses) _ _ (λ _. no_move (Keeps-pure tt))
                    (λ _.
                      by_move (has_broken same (sym same ∙ (eq_iff value running).0 e))
                        (set_status_lem _ _ _ _ _ _)))
                (λ _.
                  Triple-if (value == error) _ _
                    (λ e. with_pod λ pod.
                      if_move (all_ready pod.container_statuses)
                        (has_recovered same (sym same ∙ (eq_iff value error).0 e))
                        (set_status_lem _ _ _ _ _ _) (Keeps-pure tt))
                    (λ _. no_move (Keeps-pure tt)))))
    where
      stop_lem :
          node.status.status ≡ stopping
          → (r : Result (Unit {0})) → Syncs value (after_stop op node r)
      stop_lem e (ok _) = no_move (Keeps-pure tt)
      stop_lem e (err not_found) = by_move (has_stopped same e) (set_status_lem _ _ _ _ _ _)
      stop_lem e (err _) = Triple-raise _ λ w h. inl h

  -- Whatever the cluster answers, and whether it succeeds or fails, `SyncStatus` leaves the nodes
  -- as they are, or moves the status of its own node alone: to the status that `NodeMap` has for
  -- it, where that is another one; and otherwise from Starting to Running, from Stopping to
  -- Stopped, from Running to Error, or from Error to Running.
  pub sync_status-Moves :
      (node_map : NodeMap) (value : String)
      → node_map node.key ≡ some value
      → Triple
          (λ w. L.nodes w ≡ c)
          (sync_status op node_map node)
          (λ _ w. SomeMove value (L.nodes w))
          (λ w. SomeMove value (L.nodes w))
  unfolding sync_status sync_value
  sync_status-Moves node_map value known = rw known (
      Triple-if (value == node.status.status) _ _
        (λ e. sync_same_lem value ((eq_iff value node.status.status).0 e))
        (λ e. by_move (external e) (set_status_lem _ _ _ _ _ _)))

  upgrading-stays :
      (d : Objects CitaNode) → node.status.status ≡ upgrading → SomeMove upgrading d → d ≡ c
  upgrading-stays d e (inl same) = same
  upgrading-stays d e (inr (s, move, moved)) = absurd (no_way s move)
    where
      no_way : (s : String) → Moves upgrading node.status.status s → ⊥
      no_way s (external other) = true-not_false refl (rw e at other)
      no_way s (has_started same from) = cc
      no_way s (has_stopped same from) = cc
      no_way s (has_broken same from) = cc
      no_way s (has_recovered same from) = cc

  -- A node whose status is Upgrading, in the cluster and in `NodeMap`, is left as it is by
  -- `SyncStatus`, whatever the state of its pods.
  pub sync_status-upgrading :
      (node_map : NodeMap)
      → node.status.status ≡ "Upgrading"
      → node_map node.key ≡ some "Upgrading"
      → Keeps (λ w. L.nodes w ≡ c) (sync_status op node_map node)
  sync_status-upgrading node_map e known =
      Triple-map (sync_status-Moves node_map upgrading known)
        (λ _ w h. upgrading-stays (L.nodes w) e h) (λ w h. upgrading-stays (L.nodes w) e h)
