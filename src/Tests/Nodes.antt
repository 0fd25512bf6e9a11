-- ===== src/Tests/Nodes.antt =====
-- The claims on the machine's files and on the nodes, at a small cluster: two nodes of two
-- StatefulSets, and a machine with one archive.
use cita_node_operator.Base.{
  arith, ◌≡◌, refl, String, true, false, none, some, [], ◌∷◌, if◌then◌else◌, ◌==◌,
}
use cita_node_operator.Base.{arith, done}
use cita_node_operator.Base.Hoare.{Post, Triple}
use cita_node_operator.Base.Int.{pos}
use cita_node_operator.Base.Text.Decimal.{format_int}
use cita_node_operator.Host.Laws.{Files}
use cita_node_operator.Kube.{WorkloadSpec, same_key}
use cita_node_operator.Kube.Laws.{Specs}
use cita_node_operator.Common.{CompressOptions, DecompressOptions}
use cita_node_operator.Behavior.{backup, restore, remove_consensus_data}
use cita_node_operator.Behavior.Consensus.{remove_consensus_data_lem, Cleaned}
use cita_node_operator.Behavior.Checksum.{HasMd5, restore-mismatch, backup-HasMd5}
use cita_node_operator.Node.CloudConfig.{CloudConfigNode, key, new_cloud_config_node}
use cita_node_operator.Node.CloudConfig.Commands.{execute-Scaled, Succeeded, Failed}
use cita_node_operator.Node.CloudConfig.{stop, check_stopped}
use cita_node_operator.Node.CloudConfig.Commands.{execute_failed, file_work}
use cita_node_operator.Node.CloudConfig.Scaling.{Scaled, MaybeScaled, Stopped, stop-check_stopped}
use cita_node_operator.Node.CloudConfig.Views.{view_of, account_in, view_at}
use cita_node_operator.Node.CloudConfig.Account.{new_cloud_config_node-Contract}
use cita_node_operator.Node.Contract.{View, At, Contract}
use cita_node_operator.Switchover.{switch}
use cita_node_operator.Switchover.Swap.{switch_lem, Unbroken}
use cita_node_operator.Base.Effects.{◌>>◌}
use cita_node_operator.Base.Text.{join}
use cita_node_operator.Node.Helm.{HelmNode, HelmState, fallback}
use cita_node_operator.Node.Helm.Replicas.{fallback_lem, MaybeStopped}
use cita_node_operator.Behavior.{calculate_size}
use cita_node_operator.Behavior.Size.{calculate_size_lem}
use cita_node_operator.Cmd
use cita_node_operator.Cmd.{Command, execute}
use cita_node_operator.Tests.World.{World, api, api_laws, host, host_laws, host-Leaves}

abbrev first : CloudConfigNode
first = record { namespace = "app"; name = "node-a"; chain = "chain" }

abbrev second : CloudConfigNode
second = record { namespace = "app"; name = "node-b"; chain = "chain" }

abbrev spec_of : String → WorkloadSpec
spec_of account = record {
  replicas = some 1;
  claim_templates = [];
  volumes = record { name = "node-account"; config_map = some account; claim_name = none } ∷ [];
  containers = [];
}

abbrev two_nodes : Specs
two_nodes k =
    if same_key k (key first)
    then some (spec_of "a-account")
    else if same_key k (key second)
    then some (spec_of "b-account")
    else none

abbrev some_files : Files
some_files q =
    if q == "/backup/archive"
    then some "data"
    else if q == "/node/raft-data-dir"
    then some "log"
    else none

abbrev initial : World
initial = record { stateful_sets = two_nodes; deployments = λ _. none; files = some_files }

calculate_size_lem_example : calculate_size host "/mnt" initial ≡ (done (pos 4096), initial)
unfolding format_int
calculate_size_lem_example =
    calculate_size_lem host "/mnt" "/mnt" (pos 4096) initial initial (omega arith) refl

-- The raft directory is removed.
remove_consensus_data_example :
    Post
      (λ _ w. Cleaned "/node/raft-data-dir" "/node/overlord_wal" some_files w.files)
      (λ _. Unit)
      (remove_consensus_data host "/node" initial)
unfolding join
remove_consensus_data_example =
    (remove_consensus_data_lem host host_laws some_files "/node" refl refl).run initial refl

abbrev from_archive : DecompressOptions
from_archive = record { enable = true; md5 = "other"; input = "archive" }

-- The archive holds other data than asked for.
restore-mismatch_example :
    Post
      (λ _ _. ⊥)
      (λ w. w.files ≡ some_files)
      (restore host "/backup" "/node" (some from_archive) true initial)
unfolding join
restore-mismatch_example =
    (restore-mismatch host host_laws some_files "/backup" from_archive "data" "/node" true refl
        (λ e. cc e) refl (λ e. cc e)).run
      initial refl

abbrev to_archive : CompressOptions
to_archive = record { enable = true; c_type = "gzip"; output = "archive" }

backup-HasMd5_example :
    Post
      (λ r w. HasMd5 host host_laws w.files "/backup/archive" r.md5)
      (λ _. Unit)
      (backup host "/node" "/backup" (some to_archive) initial)
unfolding join
backup-HasMd5_example =
    (backup-HasMd5 host host_laws "/node" "/backup" to_archive refl).run initial tt

abbrev chown_of_node : Command
chown_of_node = Cmd.chown "StopAndStart" (pos 1000) (pos 1000)

execute-Scaled_example :
    Post
      (λ _ w. Succeeded api api_laws host first true two_nodes w.stateful_sets)
      (λ w. Failed api api_laws host first true two_nodes w.stateful_sets)
      (execute (new_cloud_config_node api host first) chown_of_node initial)
execute-Scaled_example =
    (execute-Scaled api api_laws host first host-Leaves two_nodes chown_of_node).run initial refl

-- A restore that is given no options panics.
abbrev broken_restore : Command
broken_restore = Cmd.restore "StopAndStart" "/backup" "/node" none false

broken_restore-fails :
    Triple
      (Stopped api api_laws host first two_nodes)
      (file_work api api_laws host first broken_restore)
      (λ _ _. ⊥)
      (λ w. Scaled api api_laws host first 0 two_nodes w.stateful_sets)
unfolding restore
broken_restore-fails = record { run = λ w h. h.0 }

execute_failed_example :
    Post
      (λ _ _. ⊥)
      (λ w. MaybeScaled api api_laws host first 0 two_nodes w.stateful_sets)
      (execute (new_cloud_config_node api host first) broken_restore initial)
execute_failed_example =
    (execute_failed api api_laws host first two_nodes broken_restore refl broken_restore-fails).run
      initial refl

stop-check_stopped_example :
    Post
      (λ _. Stopped api api_laws host first two_nodes)
      (λ w. MaybeScaled api api_laws host first 0 two_nodes w.stateful_sets)
      ((stop api host first >> check_stopped api host first) initial)
stop-check_stopped_example = (stop-check_stopped api api_laws host first two_nodes).run initial refl

new_cloud_config_node-Contract_example :
    Contract
      (λ w. view_at (key first) w.stateful_sets)
      (λ w. view_at (key second) w.stateful_sets)
      (new_cloud_config_node api host first)
new_cloud_config_node-Contract_example =
    new_cloud_config_node-Contract api api_laws host first (key second) refl

second-Contract :
    Contract
      (λ w. view_at (key second) w.stateful_sets)
      (λ w. view_at (key first) w.stateful_sets)
      (new_cloud_config_node api host second)
second-Contract = new_cloud_config_node-Contract api api_laws host second (key first) refl

abbrev view_of_first : View
view_of_first = record { replicas = some 1; account = "a-account" }

abbrev view_of_second : View
view_of_second = record { replicas = some 1; account = "b-account" }

switch_lem_example :
    Post
      (λ _.
        At
          (λ w. view_at (key first) w.stateful_sets)
          (λ w. view_at (key second) w.stateful_sets)
          (record { replicas = some 1; account = "b-account" })
          (record { replicas = some 1; account = "a-account" }))
      (Unbroken
        (λ w. view_at (key first) w.stateful_sets)
        (λ w. view_at (key second) w.stateful_sets)
        view_of_first
        view_of_second)
      (switch
        (new_cloud_config_node api host first)
        (new_cloud_config_node api host second)
        initial)
unfolding view_at view_of account_in
switch_lem_example =
    (switch_lem (λ w. view_at (key first) w.stateful_sets)
        (λ w. view_at (key second) w.stateful_sets) (new_cloud_config_node api host first)
        (new_cloud_config_node api host second)
        (new_cloud_config_node-Contract api api_laws host first (key second) refl) second-Contract
        view_of_first view_of_second).run
      initial (refl, refl)

abbrev helm_node : HelmNode
helm_node = record { namespace = "app"; name = "node-0"; chain = "node-a" }

abbrev helm_initial : HelmState World
helm_initial = record { world = initial; replicas = none }

fallback_lem_example :
    Post
      (λ _ s. s.world.stateful_sets ≡ two_nodes)
      (λ s. MaybeStopped api api_laws host helm_node two_nodes (spec_of "a-account") refl s)
      (fallback api host helm_node "Direct" (pos 30) "sm" "bft" false helm_initial)
fallback_lem_example =
    (fallback_lem api api_laws host helm_node two_nodes (spec_of "a-account") refl host-Leaves
        "Direct" (pos 30) "sm" "bft" false).run
      helm_initial refl
