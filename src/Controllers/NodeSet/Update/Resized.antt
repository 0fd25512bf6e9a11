-- ===== src/Controllers/NodeSet/Update/Resized.antt =====
-- The status that a change of the number of replicas asks for.
use mathlib.Core.Option.{some-injective}
use cita_node_operator.Base.{
  ℕ, String, ◌≡◌, sym, ◌⊎◌, inl, inr, true, false, none, some, Bool-cases, ◌=ℕ◌, =ℕ→eq, ltb, ◌<◌,
  arith,
}
use cita_node_operator.Base.Hoare.{}
use cita_node_operator.Controllers.Objects.{}
use cita_node_operator.Controllers.CitaNode.{stopping, starting}
use cita_node_operator.Controllers.NodeSet.Update.{SetOperator, resized}

none-not_some : (s : String) → none ≡ some s → ⊥
none-not_some s k = cc

ltb→lt : (m n : ℕ) → ltb m n ≡ true → m < n
ltb→lt m n h = ground arith

lt_of_not : (m n : ℕ) → (n =ℕ m) ≡ false → ltb m n ≡ false → n < m
lt_of_not m n e f = ground arith

pub unresized_lem : {W : Type 0} (op : SetOperator W) (n m : ℕ) → resized op n m ≡ none → n ≡ m
unresized_lem op n m = way (Bool-cases (n =ℕ m)) (Bool-cases (ltb m n))
  where
    way :
        ((n =ℕ m) ≡ true) ⊎ ((n =ℕ m) ≡ false)
        → ((ltb m n) ≡ true) ⊎ ((ltb m n) ≡ false)
        → resized op n m ≡ none
        → n ≡ m
    way (inl e) _ h = =ℕ→eq n m e
    way (inr e) (inl f) h = absurd (none-not_some stopping (sym (rw (e, f) at h)))
    way (inr e) (inr f) h = absurd (none-not_some starting (sym (rw (e, f) at h)))

-- Which way the number of replicas changes.
pub resized_lem :
    {W : Type 0} (op : SetOperator W) (n m : ℕ) (status : String)
    → resized op n m ≡ some status
    → ((m < n) × (status ≡ "Stopping")) ⊎ ((n < m) × (status ≡ "Starting"))
resized_lem op n m status = way (Bool-cases (n =ℕ m)) (Bool-cases (ltb m n))
  where
    way :
        ((n =ℕ m) ≡ true) ⊎ ((n =ℕ m) ≡ false)
        → ((ltb m n) ≡ true) ⊎ ((ltb m n) ≡ false)
        → resized op n m ≡ some status
        → ((m < n) × (status ≡ "Stopping")) ⊎ ((n < m) × (status ≡ "Starting"))
    way (inl e) _ h = absurd (none-not_some status (rw e at h))
    way (inr e) (inl f) h =
        inl (ltb→lt m n f, sym (some-injective stopping status (rw (e, f) at h)))
    way (inr e) (inr f) h =
        inr (lt_of_not m n e f, sym (some-injective starting status (rw (e, f) at h)))
