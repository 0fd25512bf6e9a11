-- ===== src/Controllers/NodeSet/Update/Wants.antt =====
-- What a node wants of its StatefulSet, and the changes of it that go with that.
use cita_node_operator.Base.{
  ℕ, String, ◌≡◌, refl, ◌⊎◌, true, false, Option, none, some, List, [], ◌∷◌, map, ◌<◌, eq_iff,
  ==-of_ne,
}
use cita_node_operator.Base.Hoare.{}
use cita_node_operator.Kube.{Container}
use cita_node_operator.Controllers.Objects.{Objects, put}
use cita_node_operator.Controllers.CitaNode.{CitaNode}
use cita_node_operator.Controllers.NodeSet.{NodeSet, node_containers, wanted_replicas}
use cita_node_operator.Controllers.NodeSet.Update.{SetOperator}

module _ {W : Type 0} (op : SetOperator W) (c : Objects NodeSet) (node : CitaNode) where
  -- A node that is to be stopped wants no pod, and any other wants one.
  abbrev pub Wants : ℕ → Type 0
  Wants n =
      (node.spec.desired_state ≡ "Stopped" → n ≡ 0)
      × ((node.spec.desired_state ≡ "Stopped" → ⊥) → n ≡ 1)

  -- The six containers, each with the image that the node has for it.
  abbrev pub Images : List Container → Type 0
  Images containers =
      map {B = String × String} (λ (x : Container). (x.name, x.image)) containers
      ≡ ("network", node.spec.network_image)
        ∷ ("consensus", node.spec.consensus_image)
        ∷ ("executor", node.spec.executor_image)
        ∷ ("storage", node.spec.storage_image)
        ∷ ("controller", node.spec.controller_image)
        ∷ ("kms", node.spec.kms_image)
        ∷ []

  -- A StatefulSet with the containers and the number of pods that the node wants.
  pub record Wanted (set : NodeSet) : Type 0 where
    pub key_is : set.key ≡ node.key
    pub containers_are : set.spec.containers ≡ node_containers node
    pub images_are : Images set.spec.containers
    pub number : ℕ
    pub number_is : Wants number
    pub replicas_are : set.spec.replicas ≡ some number

  -- Nothing is different between the stored StatefulSet and the wanted one.
  abbrev pub Same : NodeSet → NodeSet → Type 0
  Same old cur =
      (op.are_equal old.spec.containers cur.spec.containers ≡ true)
      × (old.spec.replicas ≡ cur.spec.replicas)

  -- The status goes with what is different between the stored StatefulSet and the wanted one.
  pub data Because (old cur : NodeSet) (status : String) : Type 0 where
    other_containers :
        op.are_equal old.spec.containers cur.spec.containers ≡ false
        → status ≡ "Upgrading"
        → Because old cur status
    fewer_replicas :
        (n m : ℕ)
        → op.are_equal old.spec.containers cur.spec.containers ≡ true
        → old.spec.replicas ≡ some n
        → cur.spec.replicas ≡ some m
        → m < n
        → status ≡ "Stopping"
        → Because old cur status
    more_replicas :
        (n m : ℕ)
        → op.are_equal old.spec.containers cur.spec.containers ≡ true
        → old.spec.replicas ≡ some n
        → cur.spec.replicas ≡ some m
        → n < m
        → status ≡ "Starting"
        → Because old cur status

  -- From the StatefulSets `c` to `d`, with the status that is asked for.
  pub data SetChange (d : Objects NodeSet) : Option String → Type 0 where
    kept :
        (old cur : NodeSet)
        → c node.key ≡ some old
        → Wanted cur
        → Same old cur
        → d ≡ c
        → SetChange d none
    made :
        (set : NodeSet) → c node.key ≡ none → Wanted set → d ≡ put node.key set c → SetChange d none
    updated :
        (old cur : NodeSet) (status : String)
        → c node.key ≡ some old
        → Wanted cur
        → Because old cur status
        → (d ≡ c)
          ⊎ (d
              ≡ put node.key
                  (record old {
                    spec = record old.spec {
                      containers = cur.spec.containers;
                      replicas = cur.spec.replicas;
                    };
                  })
                  c)
        → SetChange d (some status)

  -- A run that fails has changed nothing, or has done as one that succeeds.
  abbrev pub MaybeChange : Objects NodeSet → Type 0
  MaybeChange d = (d ≡ c) ⊎ ((r : Option String) × SetChange d r)

  pub wanted_replicas-Wants : Wants (wanted_replicas node)
  wanted_replicas-Wants = (
    λ e. rw ((eq_iff node.spec.desired_state "Stopped").1 e) refl,
    λ other. rw (==-of_ne node.spec.desired_state "Stopped" other) refl,
  )
