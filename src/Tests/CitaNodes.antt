-- ===== src/Tests/CitaNodes.antt =====
-- The claims on CITA nodes and their StatefulSets, at clusters in memory.
use cita_node_operator.Base.{
  String, ◌≡◌, refl, sym, inl, inr, true, false, Bool-cases, none, some, [], ◌∷◌, ok, not_found,
  failure, if◌then◌else◌,
}
use cita_node_operator.Base.Effects.{pure, raise, try}
use cita_node_operator.Base.Hoare.{Post, Triple}
use cita_node_operator.Base.Int.{pos}
use cita_node_operator.Kube.{NamespacedName, same_key}
use cita_node_operator.Kube.Edits.{same_key-eq}
use cita_node_operator.Controllers.Objects.{Client, Objects, put, Answers, ClientKeeps}
use cita_node_operator.Controllers.CitaNode.{CitaNode, NodeOperator, sync_status}
use cita_node_operator.Controllers.CitaNode.Moves.{NodeOperatorLaws, nodes_place}
use cita_node_operator.Controllers.CitaNode.Status.{
  SomeMove, sync_status-Moves, sync_status-upgrading,
}
use cita_node_operator.Controllers.CitaNode.Reconcile.{Memory, reconcile}
use cita_node_operator.Controllers.CitaNode.Reconcile.Runs.{RunMoves, reconcile-RunMoves}
use cita_node_operator.Controllers.NodeSet.{NodeSet, node_containers}
use cita_node_operator.Controllers.NodeSet.Update.{SetOperator}
use cita_node_operator.Controllers.NodeSet.Update.Changes.{SetLaws, sets_place}
use cita_node_operator.Controllers.NodeConfig.Update.{ConfigOperator}
use cita_node_operator.Tests.Objects.{memory, memory_laws, silent, silent-Keeps, calm_api}

abbrev node_operator : NodeOperator (Objects CitaNode)
node_operator = record {
  api = calm_api;
  nodes = memory nodes_place;
  event = λ _ _ _ _. pure tt;
  set_condition = λ conditions condition. (true, condition ∷ conditions);
}

abbrev node_laws : NodeOperatorLaws node_operator
node_laws = record {
  nodes = λ c. c;
  nodes_laws = memory_laws nodes_place;
  stateful_sets_keep = λ c k. record { run = λ w h. h };
  pods_keep = λ c k. record { run = λ w h. h };
  events_keep = λ c x t r m. record { run = λ w h. h };
}

abbrev node_key : NamespacedName
node_key = record { namespace = "app"; name = "node-a" }

abbrev node_in : String → CitaNode
node_in status = record {
  key = node_key;
  spec = record {
    chain_name = "chain";
    enable_tls = true;
    consensus_type = "BFT";
    config_map_ref = "node-a-config";
    log_level = "info";
    storage_class_name = some "standard";
    storage_size = some (pos 1000);
    desired_state = "Running";
    pull_policy = "IfNotPresent";
    network_image = "network";
    consensus_image = "consensus";
    executor_image = "executor";
    storage_image = "storage";
    controller_image = "controller";
    kms_image = "kms";
  };
  status = record { status = status; conditions = [] };
}

abbrev nodes_in : String → Objects CitaNode
nodes_in status = put node_key (node_in status) (λ _. none)

sync_status-Moves_example :
    Post
      (λ _ d.
        SomeMove node_operator node_laws
          (nodes_in "Starting")
          (node_in "Starting")
          refl
          "Starting"
          d)
      (λ d.
        SomeMove node_operator node_laws
          (nodes_in "Starting")
          (node_in "Starting")
          refl
          "Starting"
          d)
      (sync_status node_operator (λ _. some "Starting") (node_in "Starting") (nodes_in "Starting"))
sync_status-Moves_example =
    (sync_status-Moves node_operator node_laws (nodes_in "Starting") (node_in "Starting") refl
        (λ _. some "Starting") "Starting" refl).run
      (nodes_in "Starting") refl

sync_status-upgrading_example :
    Post
      (λ _ d. d ≡ nodes_in "Upgrading")
      (λ d. d ≡ nodes_in "Upgrading")
      (sync_status node_operator
        (λ _. some "Upgrading")
        (node_in "Upgrading")
        (nodes_in "Upgrading"))
sync_status-upgrading_example =
    (sync_status-upgrading node_operator node_laws (nodes_in "Upgrading") (node_in "Upgrading") refl
        (λ _. some "Upgrading") refl refl).run
      (nodes_in "Upgrading") refl

abbrev configs : {W : Type 0} → ConfigOperator W
configs = record {
  config_maps = silent;
  services = silent;
  set_map_owner = λ node x. ok (record x { owner = some node.key.name });
  set_service_owner = λ node x. ok (record x { owner = some node.key.name });
  equal_maps = λ _ _. false;
}

abbrev set_operator : {W : Type 0} → Client W NodeSet → SetOperator W
set_operator client = record {
  sets = client;
  set_owner = λ node set. ok (record set { owner = some node.key.name });
  set_claim_owner = λ node claim. ok (record claim { claim_owner = some node.key.name });
  new_quantity = λ _. "1000";
  are_equal = λ _ _. true;
}

set_owner_is :
    (node : CitaNode) (set owned : NodeSet)
    → ok (record set { owner = some node.key.name }) ≡ ok owned
    → owned ≡ record set { owner = some node.key.name }
set_owner_is node set owned e = cc

-- The StatefulSet of a node that has been scaled to 0.
abbrev small_set : NodeSet
small_set = record {
  key = node_key;
  labels = [];
  owner = some "node-a";
  spec = record {
    replicas = some 0;
    update_strategy = "RollingUpdate";
    pod_management_policy = "Parallel";
    selector = [];
    claim_templates = [];
    template_labels = [];
    init_containers = [];
    containers = node_containers (node_in "Stopped");
    volumes = [];
  };
}

abbrev with_small : Objects NodeSet
with_small = put node_key small_set (λ _. none)

abbrev set_laws : SetLaws (set_operator (memory sets_place))
set_laws = record { stored = λ c. c; sets_laws = memory_laws sets_place; owner_law = set_owner_is }

-- A client that reads one StatefulSet and refuses to write.
abbrev read_only : {W : Type 0} → Client W NodeSet
read_only = record {
  get = λ k. if same_key node_key k then pure small_set else raise not_found;
  create = λ _. raise (failure "refused");
  update = λ _. raise (failure "refused");
  update_status = λ _. raise (failure "refused");
}

read_only-read :
    {W : Type 0} (c : Objects NodeSet) (k : NamespacedName)
    → c ≡ with_small
    → Triple
        (λ (w : W). with_small ≡ c)
        (try (read_only.get k))
        (λ r w. (with_small ≡ c) × Answers sets_place k r (c k))
        (λ w. with_small ≡ c)
read_only-read c k e = elim (Bool-cases (same_key node_key k)) [
  | inl h ↦ rw (e, h) (record { run = λ w g. (g, (refl, same_key-eq node_key k h)) })
  | inr h ↦ rw (e, h) (record { run = λ w g. (g, refl) })
]

read_only_laws : {W : Type 0} → SetLaws (set_operator (read_only {W = W}))
read_only_laws = record {
  stored = λ _. with_small;
  sets_laws = record {
    get_law = λ c k. record { run = λ w h. (read_only-read c k (sym h)).run w h };
    create_law = λ c x. record { run = λ w h. inl h };
    update_law = λ c x. record { run = λ w h. inl h };
    update_status_law = λ c x. record { run = λ w h. inl h };
  };
  owner_law = set_owner_is;
}

read_only-Keeps : {W : Type 0} (P : W → Type 0) → ClientKeeps read_only P
read_only-Keeps P = record {
  get_keeps = λ k. elim (Bool-cases (same_key node_key k)) [
    | inl h ↦ rw h (record { run = λ w g. g })
    | inr h ↦ rw h (record { run = λ w g. g })
  ];
  create_keeps = λ x. record { run = λ w h. h };
  update_keeps = λ x. record { run = λ w h. h };
}

abbrev before_run : Memory (Objects CitaNode)
before_run = record { world = nodes_in "Starting"; node_map = λ _. none }

reconcile-RunMoves_example :
    Post
      (λ _ s.
        RunMoves node_operator node_laws
          (set_operator read_only)
          read_only_laws
          configs
          (λ c. read_only-Keeps (λ w. w ≡ c))
          (λ c. silent-Keeps (λ w. w ≡ c))
          (λ c. silent-Keeps (λ w. w ≡ c))
          (nodes_in "Starting")
          node_key
          s.world)
      (λ s.
        RunMoves node_operator node_laws
          (set_operator read_only)
          read_only_laws
          configs
          (λ c. read_only-Keeps (λ w. w ≡ c))
          (λ c. silent-Keeps (λ w. w ≡ c))
          (λ c. silent-Keeps (λ w. w ≡ c))
          (nodes_in "Starting")
          node_key
          s.world)
      (reconcile node_operator (set_operator read_only) configs node_key before_run)
reconcile-RunMoves_example =
    (reconcile-RunMoves node_operator node_laws (set_operator read_only) read_only_laws configs
        (λ c. read_only-Keeps (λ w. w ≡ c)) (λ c. silent-Keeps (λ w. w ≡ c))
        (λ c. silent-Keeps (λ w. w ≡ c)) (nodes_in "Starting") node_key).run
      before_run refl
