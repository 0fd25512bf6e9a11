-- ===== src/Switchover/Swap.antt =====
-- What a switchover does to two nodes that keep the contract of nodes.
use cita_node_operator.Base.{ℕ, String, ◌≡◌, ◌⊎◌, inl, inr, Option, some, Exec}
use cita_node_operator.Base.Effects.{◌>>=◌, ◌>>◌}
use cita_node_operator.Base.Hoare.{Triple, Triple-bind, Triple-map, Triple-pre}
use cita_node_operator.Node.{Node}
use cita_node_operator.Node.Contract.{View, At, Contract, scaled, renamed}
use cita_node_operator.Switchover.{switch}

module _ {S : Type 0} (source dest : S → Option View) where
  abbrev pub Both : View → View → S → Type 0
  Both a b s = At source dest a b s

  module _ (a b : View) where
    -- The accounts are where they were, or both nodes are scaled to 0, or the accounts are
    -- exchanged: at no time does a node run while the other one has the same account, unless
    -- their accounts were the same before.
    pub data Unbroken (s : S) : Type 0 where
      untouched :
          (m n : Option ℕ)
          → Both (record a { replicas = m }) (record b { replicas = n }) s
          → Unbroken s
      stopped :
          (x y : String) → Both (renamed x (scaled 0 a)) (renamed y (scaled 0 b)) s → Unbroken s
      swapped :
          (m n : Option ℕ)
          → Both
              (record { replicas = m; account = b.account })
              (record { replicas = n; account = a.account })
              s
          → Unbroken s

module _ {S : Type 0} (source dest : S → Option View) (source_node dest_node : Node S)
    (on_source : Contract source dest source_node) (on_dest : Contract dest source dest_node) where
  -- The contract of the second node, with the two views in the same order.
  flip :
      {a b c d e f : View} {m : Exec S Unit}
      → Triple
          (At dest source b a)
          m
          (λ _. At dest source d c)
          (λ s. At dest source b a s ⊎ At dest source f e s)
      → Triple
          (Both source dest a b)
          m
          (λ _. Both source dest c d)
          (λ s. Both source dest a b s ⊎ Both source dest e f s)
  flip t =
      Triple-pre (λ s h. (h.1, h.0))
        (Triple-map t (λ _ s h. (h.1, h.0))
          (λ s h. elim h [ inl p ↦ inl (p.1, p.0) | inr p ↦ inr (p.1, p.0) ]))

  module _ (a b : View) where
    abbrev a0 : View
    a0 = scaled 0 a

    abbrev b0 : View
    b0 = scaled 0 b

    abbrev a1 : View
    a1 = renamed b.account a0

    abbrev b1 : View
    b1 = renamed a.account b0

    start-Both :
        Triple
          (Both source dest a1 b1)
          (source_node.start >> dest_node.start)
          (λ _. Both source dest (scaled 1 a1) (scaled 1 b1))
          (Unbroken source dest a b)
    start-Both =
        Triple-bind
          (Triple-map (on_source.start_law a1 b1) (λ _ s h. h)
            (λ s h. elim h [ inl p ↦ swapped _ _ p | inr p ↦ swapped _ _ p ]))
          (λ _.
            Triple-map (flip (on_dest.start_law b1 (scaled 1 a1))) (λ _ s h. h)
              (λ s h. elim h [ inl p ↦ swapped _ _ p | inr p ↦ swapped _ _ p ]))

    update-Both :
        Triple
          (Both source dest a0 b0)
          (source_node.update_account_configmap b.account
            >> (dest_node.update_account_configmap a.account
                >> (source_node.start >> dest_node.start)))
          (λ _. Both source dest (scaled 1 a1) (scaled 1 b1))
          (Unbroken source dest a b)
    update-Both =
        Triple-bind
          (Triple-map (on_source.update_account_law a0 b0 b.account) (λ _ s h. h)
            (λ s h. elim h [ inl p ↦ stopped _ _ p | inr p ↦ stopped _ _ p ]))
          (λ _.
            Triple-bind
              (Triple-map (flip (on_dest.update_account_law b0 a1 a.account)) (λ _ s h. h)
                (λ s h. elim h [ inl p ↦ stopped _ _ p | inr p ↦ stopped _ _ p ]))
              (λ _. start-Both))

    dest_account :
        (x : String)
        → Triple
            (λ s. Both source dest a0 b0 s × (x ≡ a.account))
            dest_node.get_account_configmap
            (λ y s. Both source dest a0 b0 s × (x ≡ a.account) × (y ≡ b.account))
            (Unbroken source dest a b)
    dest_account x = record {
      run = λ s h.
          (Triple-map {Q = λ y t. Both source dest a0 b0 t × (x ≡ a.account) × (y ≡ b.account)}
              {E = (Unbroken source dest a b)} (on_dest.get_account_law b0 a0)
              (λ y t e. ((e.0.1, e.0.0), h.1, e.1)) (λ t e. untouched _ _ (e.1, e.0))).run
            s (h.0.1, h.0.0);
    }

    read-Both :
        Triple
          (Both source dest a0 b0)
          (source_node.get_account_configmap >>= λ x. dest_node.get_account_configmap >>= λ y.
            source_node.update_account_configmap y
            >> (dest_node.update_account_configmap x >> (source_node.start >> dest_node.start)))
          (λ _. Both source dest (scaled 1 a1) (scaled 1 b1))
          (Unbroken source dest a b)
    read-Both =
        Triple-bind
          (Triple-map (on_source.get_account_law a0 b0) (λ _ s h. h) (λ s h. untouched _ _ h))
          (λ x.
            Triple-bind (dest_account x)
              (λ y. record { run = λ s h. rw (h.1, h.2) (update-Both.run s h.0) }))

    -- A switchover that succeeds exchanges the accounts of the two nodes and leaves each of them
    -- with one replica. One that fails, wherever it does, leaves the accounts where they were, or
    -- both nodes scaled to 0, or the accounts exchanged.
    pub switch_lem :
        Triple
          (Both source dest a b)
          (switch source_node dest_node)
          (λ _.
            Both source dest
              (record { replicas = some 1; account = b.account })
              (record { replicas = some 1; account = a.account }))
          (Unbroken source dest a b)
    unfolding switch
    switch_lem =
        Triple-bind
          (Triple-map (on_source.stop_law a b) (λ _ s h. h)
            (λ s h. elim h [ inl p ↦ untouched _ _ p | inr p ↦ untouched _ _ p ]))
          (λ _.
            Triple-bind
              (Triple-map (on_source.check_stopped_law a0 b) (λ _ s h. h) (λ s h. untouched _ _ h))
              (λ _.
                Triple-bind
                  (Triple-map (flip (on_dest.stop_law b a0)) (λ _ s h. h)
                    (λ s h. elim h [ inl p ↦ untouched _ _ p | inr p ↦ untouched _ _ p ]))
                  (λ _.
                    Triple-bind
                      (Triple-pre {R = λ s. At dest source b0 a0 s} (λ s h. (h.1, h.0))
                        (Triple-map (on_dest.check_stopped_law b0 a0) (λ _ s h. (h.1, h.0))
                          (λ s h. untouched _ _ (h.1, h.0))))
                      (λ _. read-Both))))
