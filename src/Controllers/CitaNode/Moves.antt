-- ===== src/Controllers/CitaNode/Moves.antt =====
-- The moves of a CITA node's status, and what the clients of its reconciler promise.
use cita_node_operator.Base.{String, ◌==◌, ◌≡◌, false}
use cita_node_operator.Base.Hoare.{Keeps}
use cita_node_operator.Kube.{NamespacedName}
use cita_node_operator.Controllers.Objects.{Objects, Place, ClientLaws}
use cita_node_operator.Controllers.CitaNode.{CitaNode, NodeOperator}

abbrev pub nodes_place : Place (Objects CitaNode) CitaNode
nodes_place = record {
  objects = λ c. c;
  store = λ f _. f;
  key_of = λ x. x.key;
  on_update = λ old x. record x { status = old.status };
  on_status = λ old x. record old { status = x.status };
}

-- Reads of StatefulSets and pods, and events, change no CITA node.
pub record NodeOperatorLaws {W : Type 0} (op : NodeOperator W) : Type 1 where
  pub nodes : W → Objects CitaNode
  pub nodes_laws : ClientLaws op.nodes nodes nodes_place
  pub stateful_sets_keep :
      (c : Objects CitaNode) (k : NamespacedName)
      → Keeps (λ w. nodes w ≡ c) (op.api.get_stateful_set k)
  pub pods_keep :
      (c : Objects CitaNode) (k : NamespacedName) → Keeps (λ w. nodes w ≡ c) (op.api.get_pod k)
  pub events_keep :
      (c : Objects CitaNode) (x : CitaNode) (t r m : String)
      → Keeps (λ w. nodes w ≡ c) (op.event x t r m)

-- The moves from the status of a node, where `NodeMap` has `value` for it.
pub data Moves (value old : String) : String → Type 0 where
  external : (value == old) ≡ false → Moves value old value
  has_started : value ≡ old → old ≡ "Starting" → Moves value old "Running"
  has_stopped : value ≡ old → old ≡ "Stopping" → Moves value old "Stopped"
  has_broken : value ≡ old → old ≡ "Running" → Moves value old "Error"
  has_recovered : value ≡ old → old ≡ "Error" → Moves value old "Running"
