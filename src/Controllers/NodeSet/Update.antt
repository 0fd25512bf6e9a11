-- ===== src/Controllers/NodeSet/Update.antt =====
-- controllers/statefulset.go: how the StatefulSet of a CITA node is made and kept up to date.
pub mod Resized
pub mod Wants
pub mod Changes
pub mod Keeps
use cita_node_operator.Base.{ℕ, ◌=ℕ◌, ltb, String, Bool, Option, none, some, List, [], ◌∷◌}
use cita_node_operator.Base.{Exec, Result, ok, err, not_found, if◌then◌else◌}
use cita_node_operator.Base.Effects.{pure, raise, deref, lift, try, ◌>>=◌, ◌>>◌}
use cita_node_operator.Base.Int.{ℤ}
use cita_node_operator.Kube.{NamespacedName, Container}
use cita_node_operator.Controllers.Objects.{Client}
use cita_node_operator.Controllers.Labels.{labels_for_node, merge_labels}
use cita_node_operator.Controllers.CitaNode.{CitaNode, starting, stopping, upgrading}
use cita_node_operator.Controllers.NodeNames.{data_volume_name}
use cita_node_operator.Controllers.NodeSet.{
  NodeSet, ClaimTemplate, node_containers, init_container, node_volumes, wanted_replicas,
}

-- The client of StatefulSets, and what is called of other libraries: `SetControllerReference`,
-- `resource.NewQuantity` and `equality.Semantic.DeepEqual`.
pub record SetOperator (W : Type 0) : Type 0 where
  pub sets : Client W NodeSet
  pub set_owner : CitaNode → NodeSet → Result NodeSet
  pub set_claim_owner : CitaNode → ClaimTemplate → Result ClaimTemplate
  pub new_quantity : ℤ → String
  pub are_equal : List Container → List Container → Bool

module _ {W : Type 0} (op : SetOperator W) where
  -- `GeneratePVC`, with the pointer to the size.
  generate_pvc : CitaNode → Exec W ClaimTemplate
  generate_pvc node = do
    size ← deref node.spec.storage_size
    pure (record {
      claim_key = record { namespace = node.key.namespace; name = data_volume_name };
      access_modes = "ReadWriteOnce" ∷ [];
      storage = op.new_quantity size;
      storage_class_name = node.spec.storage_class_name;
      claim_owner = none;
    })

  -- `generateStatefulSet`
  unfoldable pub generate_stateful_set : CitaNode → NodeSet → Exec W NodeSet
  unfolding generate_pvc
  generate_stateful_set node set =
      let labels =
        merge_labels (set.labels ∷ labels_for_node node.spec.chain_name node.key.name ∷ []) in
      do
        owned ← lift (op.set_owner node (record set { labels = labels }))
        claim ← generate_pvc node
        owned_claim ← lift (op.set_claim_owner node claim)
        pure (record owned {
          spec = record {
            replicas = some (wanted_replicas node);
            update_strategy = "RollingUpdate";
            pod_management_policy = "Parallel";
            selector = labels;
            claim_templates = owned_claim ∷ [];
            template_labels = labels;
            init_containers = init_container node ∷ [];
            containers = node_containers node;
            volumes = node_volumes node;
          };
        })

  -- The status that a change of the number of replicas leads to: none where there is no change.
  abbrev pub resized : ℕ → ℕ → Option String
  resized old cur =
      if old =ℕ cur then none else if ltb cur old then some stopping else some starting

  -- `nv`. The numbers are looked at where the containers are the same.
  compare_sets : NodeSet → NodeSet → Exec W (Option String)
  compare_sets old cur =
      if op.are_equal old.spec.containers cur.spec.containers
      then (do
        before ← deref old.spec.replicas
        after ← deref cur.spec.replicas
        pure (resized before after))
      else pure (some upgrading)

  -- The stored StatefulSet with the containers and the number of replicas of the wanted one.
  abbrev pub merged : NodeSet → NodeSet → NodeSet
  merged old cur =
      let spec = old.spec in
      record old {
        spec = record spec { containers = cur.spec.containers; replicas = cur.spec.replicas };
      }

  -- The error of the update is returned beside the status.
  write_set : NodeSet → NodeSet → Option String → Exec W (Option String × Result (Unit {0}))
  write_set old cur none = pure (none, ok tt)
  write_set old cur (some status) = do
    written ← try (op.sets.update (merged old cur))
    pure (some status, written)

  update_set : CitaNode → NodeSet → Exec W (Option String × Result (Unit {0}))
  unfolding compare_sets write_set
  update_set node old = do
    cur ← generate_stateful_set node old
    status ← compare_sets old cur
    write_set old cur status

  -- `newObj`
  abbrev empty_set : NamespacedName → NodeSet
  empty_set key = record {
    key = key;
    labels = [];
    owner = none;
    spec = record {
      replicas = none;
      update_strategy = "";
      pod_management_policy = "";
      selector = [];
      claim_templates = [];
      template_labels = [];
      init_containers = [];
      containers = [];
      volumes = [];
    };
  }

  on_set : CitaNode → Result NodeSet → Exec W (Option String × Result (Unit {0}))
  unfolding update_set
  on_set node (err not_found) = do
    set ← generate_stateful_set node (empty_set node.key)
    op.sets.create set
    pure (none, ok tt)
  on_set node (err e) = raise e
  on_set node (ok old) = update_set node old

  -- `ReconcileStatefulSet`: an error that comes alone fails, and an error beside a status is
  -- returned with it.
  unfoldable pub reconcile_stateful_set : CitaNode → Exec W (Option String × Result (Unit {0}))
  unfolding on_set
  reconcile_stateful_set node = do found ← try (op.sets.get node.key); on_set node found
