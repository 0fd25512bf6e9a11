-- ===== src/Controllers/NodeSet/Update/Keeps.antt =====
-- What is done to StatefulSets leaves all else alone.
use cita_node_operator.Base.{String, Option, none, some, Result, ok, err, not_found}
use cita_node_operator.Base.Hoare.{Keeps, Keeps-bind, Keeps-try, keeps_rules}
use cita_node_operator.Controllers.Objects.{ClientKeeps}
use cita_node_operator.Controllers.CitaNode.{CitaNode}
use cita_node_operator.Controllers.NodeSet.{NodeSet}
use cita_node_operator.Controllers.NodeSet.Update.{
  SetOperator, generate_pvc, generate_stateful_set, compare_sets, write_set, update_set, on_set,
  reconcile_stateful_set,
}

module _ {W : Type 0} (sets : SetOperator W) {P : W → Type 0} (K : ClientKeeps sets.sets P) where
  generate-Keeps : (node : CitaNode) (set : NodeSet) → Keeps P (generate_stateful_set sets node set)
  unfolding generate_stateful_set generate_pvc
  generate-Keeps node set = search (keeps_rules)

  write_set-Keeps :
      (old cur : NodeSet) (status : Option String) → Keeps P (write_set sets old cur status)
  unfolding write_set
  write_set-Keeps old cur none = search (keeps_rules)
  write_set-Keeps old cur (some status) = search (keeps_rules, K.update_keeps)

  compare_sets-Keeps : (old cur : NodeSet) → Keeps P (compare_sets sets old cur)
  unfolding compare_sets
  compare_sets-Keeps old cur = search (keeps_rules)

  on_set-Keeps : (node : CitaNode) (found : Result NodeSet) → Keeps P (on_set sets node found)
  unfolding on_set update_set
  on_set-Keeps node (ok old) =
      search (keeps_rules, generate-Keeps, compare_sets-Keeps, write_set-Keeps)
  on_set-Keeps node (err not_found) = search (keeps_rules, generate-Keeps, K.create_keeps)
  on_set-Keeps node (err _) = search (keeps_rules)

  pub reconcile_stateful_set-Keeps : (node : CitaNode) → Keeps P (reconcile_stateful_set sets node)
  unfolding reconcile_stateful_set
  reconcile_stateful_set-Keeps node =
      Keeps-bind (Keeps-try (K.get_keeps node.key)) (on_set-Keeps node)
