-- ===== src/Tests/Labels.antt =====
-- The claim on merged labels, at the labels of an object and those of its node.
use cita_node_operator.Base.{String, ◌≡◌, refl, some, List, [], ◌∷◌, Dict, lookup}
use cita_node_operator.Controllers.Labels.{labels_for_node, merge_labels}
use cita_node_operator.Controllers.Labels.Merge.{lookup-merge_labels}

abbrev two_labels : List (Dict String)
two_labels =
    (("app.kubernetes.io/chain-name", "old") ∷ ("team", "a") ∷ [])
    ∷ labels_for_node "chain" "node-a"
    ∷ []

lookup-merge_labels_example :
    lookup "app.kubernetes.io/chain-name" (merge_labels two_labels) ≡ some "chain"
unfolding labels_for_node lookup
lookup-merge_labels_example =
    lookup-merge_labels "app.kubernetes.io/chain-name" two_labels
      ((refl, (refl, tt)), ((refl, (refl, tt)), tt))
