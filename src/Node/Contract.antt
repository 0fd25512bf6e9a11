-- ===== src/Node/Contract.antt =====
-- What a client of two nodes may rely on: each has a number of replicas and an account, and its
-- operations change its own alone. An operation that fails may have made its change or not.
use cita_node_operator.Base.{ℕ, String, ◌≡◌, ◌⊎◌, Option, some}
use cita_node_operator.Base.Hoare.{Triple, Keeps}
use cita_node_operator.Node.{Node}

-- The number of replicas that a node is scaled to, and the config map of its account.
pub record View : Type 0 where
  pub replicas : Option ℕ
  pub account : String

abbrev pub scaled : ℕ → View → View
scaled n a = record a { replicas = some n }

abbrev pub renamed : String → View → View
renamed x a = record a { account = x }

module _ {S : Type 0} (mine other : S → Option View) where
  -- The node at hand is seen as `a`, the other one as `b`.
  abbrev pub At : View → View → S → Type 0
  At a b s = (mine s ≡ some a) × (other s ≡ some b)

  pub record Contract (n : Node S) : Type 0 where
    pub stop_law :
        (a b : View)
        → Triple (At a b) n.stop (λ _. At (scaled 0 a) b) (λ s. At a b s ⊎ At (scaled 0 a) b s)
    pub start_law :
        (a b : View)
        → Triple (At a b) n.start (λ _. At (scaled 1 a) b) (λ s. At a b s ⊎ At (scaled 1 a) b s)
    pub check_stopped_law : (a b : View) → Keeps (At a b) n.check_stopped
    pub get_account_law :
        (a b : View)
        → Triple (At a b) n.get_account_configmap (λ x s. At a b s × (x ≡ a.account)) (At a b)
    pub update_account_law :
        (a b : View) (x : String)
        → Triple
            (At a b)
            (n.update_account_configmap x)
            (λ _. At (renamed x a) b)
            (λ s. At a b s ⊎ At (renamed x a) b s)
