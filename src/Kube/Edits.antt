-- ===== src/Kube/Edits.antt =====
-- Reading a workload, changing its specification and writing it back, once and under a retry.
use mathlib.Core.Option.{some-injective}
use cita_node_operator.Base.{
  Bool-cases, ℕ, ◌≡◌, refl, sym, ap, ◌∙◌, fun_ext, ◌⊎◌, inl, inr, Bool, true, false,
}
use cita_node_operator.Base.{
  Option, none, some, Exec, if◌then◌else◌, ==-refl, ◌==◌, ◌&&◌, eq_iff, String,
}
use cita_node_operator.Base.Effects.{deref, ◌>>=◌}
use cita_node_operator.Base.Hoare.{Triple, Triple-bind, Triple-map}
use cita_node_operator.Kube.{NamespacedName, same_key, WorkloadSpec, Workload}
use cita_node_operator.Kube.Laws.{Specs, store_at, WorkloadLaws}

pub same_parts : (p q : Bool) → (p && q) ≡ true → (p ≡ true) × (q ≡ true)
same_parts true true h = (refl, refl)
same_parts true false h = cc
same_parts false q h = cc

pub same_key_refl : (k : NamespacedName) → same_key k k ≡ true
same_key_refl k = rw (==-refl k.namespace, ==-refl k.name) refl

pub same_key-eq : (a b : NamespacedName) → same_key a b ≡ true → a ≡ b
same_key-eq a b h =
    let names = same_parts (a.namespace == b.namespace) (a.name == b.name) h in
    ap (λ (n : String). record { namespace = n; name = a.name })
      ((eq_iff a.namespace b.namespace).0 names.0)
    ∙ ap (λ (n : String). record { namespace = b.namespace; name = n })
        ((eq_iff a.name b.name).0 names.1)

pub store_at_self : (k : NamespacedName) (x : WorkloadSpec) (f : Specs) → store_at k x f k ≡ some x
store_at_self k x f = rw (same_key_refl k) refl

-- A specification that is stored where it already is.
pub store_at_same :
    (k : NamespacedName) (x : WorkloadSpec) (f : Specs) → f k ≡ some x → store_at k x f ≡ f
store_at_same k x f there = fun_ext λ j. elim (Bool-cases (same_key k j)) [
  | inl e ↦ rw e (sym there ∙ ap f (same_key-eq k j e))
  | inr e ↦ rw e refl
]

if_twice :
    (b : Bool) (x y z : Option WorkloadSpec)
    → (if b then x else (if b then y else z)) ≡ (if b then x else z)
if_twice true x y z = refl
if_twice false x y z = refl

-- The second of two writes at one place stays.
pub store_at_twice :
    (k : NamespacedName) (x y : WorkloadSpec) (f : Specs)
    → store_at k x (store_at k y f) ≡ store_at k x f
store_at_twice k x y f = fun_ext λ j. if_twice (same_key k j) (some x) (some y) (f j)

-- From the specifications `f` to `g` by one change at `k`.
pub record Edited (k : NamespacedName) (edit : WorkloadSpec → Option WorkloadSpec) (f g : Specs)
    : Type 0 where
  pub before : WorkloadSpec
  pub after : WorkloadSpec
  pub was : f k ≡ some before
  pub changed : edit before ≡ some after
  pub stored : g ≡ store_at k after f

-- A second change of the same kind finds nothing to do.
abbrev pub IsIdempotent : (WorkloadSpec → Option WorkloadSpec) → Type 0
IsIdempotent edit = (x y : WorkloadSpec) → edit x ≡ some y → edit y ≡ some y

module _ {k : NamespacedName} {first second : WorkloadSpec → Option WorkloadSpec} {f g h : Specs}
    (p : Edited k first f g) (q : Edited k second g h) where
  -- A change finds what the change before it left.
  pub before-after : q.before ≡ p.after
  before-after =
      some-injective q.before p.after
        (sym q.was ∙ ap (λ (s : Specs). s k) p.stored ∙ store_at_self k p.after f)

  pub stored-stored : h ≡ store_at k q.after f
  stored-stored = q.stored ∙ ap (store_at k q.after) p.stored ∙ store_at_twice k q.after p.after f

-- The change of the number of replicas alone.
abbrev pub with_replicas : ℕ → WorkloadSpec → Option WorkloadSpec
with_replicas n spec = some (record spec { replicas = some n })

-- Down and up again is up.
pub rescaled :
    {k : NamespacedName} (m n : ℕ) {f g h : Specs}
    → Edited k (with_replicas m) f g
    → Edited k (with_replicas n) g h
    → Edited k (with_replicas n) f h
rescaled m n p q = record {
  before = p.before;
  after = q.after;
  was = p.was;
  changed =
      ap (with_replicas n) (some-injective _ _ p.changed ∙ sym (before-after p q)) ∙ q.changed;
  stored = stored-stored p q;
}

module _ (k : NamespacedName) (edit : WorkloadSpec → Option WorkloadSpec) where
  Edited-trans :
      {f g h : Specs}
      → IsIdempotent edit
      → Edited k edit f g
      → Edited k edit g h
      → Edited k edit f h
  Edited-trans idem p q = record {
    before = p.before;
    after = q.after;
    was = p.was;
    changed =
        p.changed
        ∙ sym (idem p.before p.after p.changed)
        ∙ ap edit (sym (before-after p q))
        ∙ q.changed;
    stored = stored-stored p q;
  }

  -- Not changed, or changed: what a write that may have failed leaves.
  abbrev pub MaybeEdited : Specs → Specs → Type 0
  MaybeEdited f g = (g ≡ f) ⊎ Edited k edit f g

  module _ {W : Type 0} {get : NamespacedName → Exec W Workload} {update : Workload → Exec W Unit}
      {specs : W → Specs} (L : WorkloadLaws get update specs) where
    abbrev pub edit_workload : Exec W Unit
    edit_workload = do x ← get k; spec ← deref (edit x.spec); update (record x { spec = spec })

    write_back :
        (f : Specs) (x : Workload) (o : Option WorkloadSpec)
        → edit x.spec ≡ o
        → f k ≡ some x.spec
        → x.key ≡ k
        → Triple
            (λ w. specs w ≡ f)
            (deref o >>= λ spec. update (record x { spec = spec }))
            (λ _ w. Edited k edit f (specs w))
            (λ w. MaybeEdited f (specs w))
    write_back f x none e there same = record { run = λ w h. inl h }
    write_back f x (some y) e there same = record {
      run = λ w h.
          (Triple-map (L.update_law f (record x { spec = y }))
              (λ _ v s. edited (s ∙ ap (λ (j : NamespacedName). store_at j y f) same))
              (λ v m. elim m [
                | inl s ↦ inl s
                | inr s ↦ inr (edited (s ∙ ap (λ (j : NamespacedName). store_at j y f) same))
              ])).run
            w h;
    }
      where
        edited : {g : Specs} → g ≡ store_at k y f → Edited k edit f g
        edited s = record { before = x.spec; after = y; was = there; changed = e; stored = s }

    pub edit_workload_lem :
        (f : Specs)
        → Triple
            (λ w. specs w ≡ f)
            edit_workload
            (λ _ w. Edited k edit f (specs w))
            (λ w. MaybeEdited f (specs w))
    edit_workload_lem f =
        Triple-bind (Triple-map (L.get_law f k) (λ x w h. h) (λ w h. inl h))
          λ x. record { run = λ w h. (write_back f x (edit x.spec) refl h.1 h.2).run w h.0 }

    -- An attempt after failed ones still makes the one change.
    pub edit_workload_again :
        (f : Specs)
        → IsIdempotent edit
        → Triple
            (λ w. MaybeEdited f (specs w))
            edit_workload
            (λ _ w. Edited k edit f (specs w))
            (λ w. MaybeEdited f (specs w))
    edit_workload_again f idem = record {
      run = λ w h. elim h [
        | inl e ↦ (edit_workload_lem f).run w e
        | inr p ↦
            (Triple-map (edit_workload_lem (specs w)) (λ _ v q. Edited-trans idem p q)
                (λ v m. elim m [ inl e ↦ inr (rw e p) | inr q ↦ inr (Edited-trans idem p q) ])).run
              w refl
      ];
    }
