-- ===== src/Node/Helm/Outside.antt =====
-- Calls of the cluster and of the machine, seen from a Helm node and its field `replicas`.
use cita_node_operator.Base.{ℕ, ◌≡◌, refl, Option, Exec, Outcome, done, failed, panicked}
use cita_node_operator.Base.Hoare.{Post, Triple}
use cita_node_operator.Node.Helm.{beside, outside}

module _ {W A : Type 0} where
  Post-beside :
      (Q : A → W → Type 0) (E : W → Type 0) (r : Option ℕ) (o : Outcome A × W)
      → Post Q E o
      → Post
          (λ a s. Q a s.world × (s.replicas ≡ r))
          (λ s. E s.world × (s.replicas ≡ r))
          (beside r o)
  Post-beside Q E r (done a, w) h = (h, refl)
  Post-beside Q E r (failed e, w) h = (h, refl)
  Post-beside Q E r (panicked x, w) h = (h, refl)

  -- A call to the world leaves the field of the node.
  pub outside_lem :
      {P : W → Type 0} {Q : A → W → Type 0} {E : W → Type 0} {m : Exec W A} (r : Option ℕ)
      → Triple P m Q E
      → Triple
          (λ s. P s.world × (s.replicas ≡ r))
          (outside m)
          (λ a s. Q a s.world × (s.replicas ≡ r))
          (λ s. E s.world × (s.replicas ≡ r))
  outside_lem {Q = Q} {E = E} {m = m} r t = record {
    run = λ s h. rw h.1 (Post-beside Q E r (m s.world) (t.run s.world h.0));
  }
