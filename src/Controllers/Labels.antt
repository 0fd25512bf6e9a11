-- ===== src/Controllers/Labels.antt =====
-- controllers/labels.go, affinity.go and utils.go: labels, affinities and mount points.
pub mod Merge
use cita_node_operator.Base.{
  String, ◌<>◌, ◌==◌, Bool, Option, none, some, List, [], ◌∷◌, Dict, insert,
}
use cita_node_operator.Base.{Result, ok, err, message, if◌then◌else◌}
use cita_node_operator.Base.Text.{split}
use cita_node_operator.Node.Common.{DeployMethod, helm, python_operator, cloud_config}

-- `LabelsForNode`
unfoldable pub labels_for_node : String → String → Dict String
labels_for_node chain_name node_name =
    ("app.kubernetes.io/chain-name", chain_name) ∷ ("app.kubernetes.io/chain-node", node_name) ∷ []

-- `LabelsForChain`
unfoldable pub labels_for_chain : String → Dict String
labels_for_chain chain_name = ("app.kubernetes.io/chain-name", chain_name) ∷ []

-- The inner loop of `MergeLabels`; Go may take the entries of `label` in any order.
merge_into : Dict String → Dict String → Dict String
merge_into lb [] = lb
merge_into lb ((k, v) ∷ label) = merge_into (insert k v lb) label

-- The outer loop.
merge_from : Dict String → List (Dict String) → Dict String
unfolding merge_into
merge_from lb [] = lb
merge_from lb (label ∷ all_labels) = merge_from (merge_into lb label) all_labels

-- `MergeLabels`
unfoldable pub merge_labels : List (Dict String) → Dict String
unfolding merge_from
merge_labels all_labels = merge_from [] all_labels

-- `GetNodeLabelKeyByType`
unfoldable pub get_node_label_key_by_type : DeployMethod → Result String
get_node_label_key_by_type deploy_method =
    if deploy_method == helm
    then ok "app.kubernetes.io/chain-name"
    else if deploy_method == python_operator
    then ok "node_name"
    else if deploy_method == cloud_config
    then ok "app.kubernetes.io/chain-node"
    else err (message "mismatched deploy method")

-- The label that the pods on the same host have, where there is an affinity.
abbrev pub Affinity : Type 0
Affinity = Option (String × String)

-- `SetAffinity`
unfoldable pub set_affinity : Bool → String → String → Affinity
set_affinity pod_affinity_flag key value = if pod_affinity_flag then some (key, value) else none

-- The second element of the path, in `GetMountPoint`.
abbrev mount_point_of : List String → Result String
mount_point_of [] = err (message "path invaild")
mount_point_of (_ ∷ []) = err (message "path invaild")
mount_point_of (_ ∷ first ∷ _) = ok ("/" <> first)

-- `GetMountPoint`
unfoldable pub get_mount_point : String → Result String
get_mount_point path = mount_point_of (split path)
