-- ===== src/Node/CloudConfig/Views.antt =====
-- What a StatefulSet shows of its node: its number of replicas and its account, and how changes of
-- the specification change them.
use mathlib.Core.Option.{some-injective}
use cita_node_operator.Base.{ℕ, String, ◌≡◌, refl, ap, ◌∙◌, inl, inr, true, false}
use cita_node_operator.Base.{Option, none, some, List, [], ◌∷◌, Bool-cases, ◌==◌, arith}
use cita_node_operator.Base.{if◌then◌else◌}
use cita_node_operator.Kube.{NamespacedName, same_key, Volume, WorkloadSpec}
use cita_node_operator.Kube.Laws.{Specs}
use cita_node_operator.Kube.Edits.{Edited, IsIdempotent, store_at_self}
use cita_node_operator.Node.Contract.{View, scaled, renamed}
use cita_node_operator.Node.CloudConfig.{account_volume, find_account, cons?, assign, set_account}
use cita_node_operator.Kube.Edits.{with_replicas}

-- The config map of the first account volume, if there is one.
unfoldable pub account_in : List Volume → Option String
account_in [] = none
account_in (vol ∷ volumes) =
    if vol.name == account_volume then vol.config_map else account_in volumes

pub find_account-account_in :
    (volumes : List Volume) (y : String)
    → account_in volumes ≡ some y
    → find_account volumes ≡ some y
unfolding find_account account_in
find_account-account_in [] y h = cc
find_account-account_in (vol ∷ volumes) y h = ground (arith, find_account-account_in volumes y)

cons?-eq_some :
    (o : Option Volume) (r : Option (List Volume)) (new : List Volume)
    → cons? o r ≡ some new
    → (v : Volume) × (vs : List Volume) × (o ≡ some v) × (r ≡ some vs) × (v ∷ vs ≡ new)
unfolding cons?
cons?-eq_some (some v) (some vs) new e = (v, vs, refl, refl, some-injective _ _ e)
cons?-eq_some none _ new e = cc
cons?-eq_some (some v) none new e = cc

-- The name stays; an account volume has the new config map.
assign-name :
    (x : String) (vol v : Volume)
    → assign x vol ≡ some v
    → (v.name ≡ vol.name) × ((vol.name == account_volume) ≡ true → v.config_map ≡ some x)
unfolding assign
assign-name x vol v e = ground arith

assign-again : (x : String) (vol v : Volume) → assign x vol ≡ some v → assign x v ≡ some v
unfolding assign
assign-again x vol v e = ground (arith, assign-name x vol v)

assign-config_map :
    (x : String) (vol v : Volume)
    → assign x vol ≡ some v
    → (vol.name == account_volume) ≡ false
    → v ≡ vol
unfolding assign
assign-config_map x vol v e other = ground arith

account_in-assign :
    (x y : String) (vol v : Volume) (volumes vs : List Volume)
    → assign x vol ≡ some v
    → (account_in volumes ≡ some y → account_in vs ≡ some x)
    → account_in (vol ∷ volumes) ≡ some y
    → account_in (v ∷ vs) ≡ some x
unfolding account_in
account_in-assign x y vol v volumes vs e ih h =
    let named = assign-name x vol v e in
    elim (Bool-cases (vol.name == account_volume)) [
      | inl here ↦ rw (named.0, here) (named.1 here)
      | inr other ↦ rw (named.0, other) (ih (rw other at h))
    ]

account_in-set_account :
    (x y : String) (volumes new_volumes : List Volume)
    → account_in volumes ≡ some y
    → set_account x volumes ≡ some new_volumes
    → account_in new_volumes ≡ some x
unfolding set_account
account_in-set_account x y [] new h e = absurd (unfold account_in in cc)
account_in-set_account x y (vol ∷ volumes) new h e =
    let (v, vs, one, rest, made) = cons?-eq_some (assign x vol) (set_account x volumes) new e in
    rw (← made) (
      account_in-assign x y vol v volumes vs one (λ k. account_in-set_account x y volumes vs k rest)
        h)

-- A second assignment of the account finds it assigned.
set_account-again :
    (x : String) (volumes new_volumes : List Volume)
    → set_account x volumes ≡ some new_volumes
    → set_account x new_volumes ≡ some new_volumes
unfolding set_account
set_account-again x [] new e = rw (← some-injective _ _ e) refl
set_account-again x (vol ∷ volumes) new e =
    let (v, vs, one, rest, made) = cons?-eq_some (assign x vol) (set_account x volumes) new e in
    rw (← made)
      (rw (assign-again x vol v one, set_account-again x volumes vs rest) (unfold cons? in refl))

-- The change of `UpdateAccountConfigmap`.
abbrev pub with_account : String → WorkloadSpec → Option WorkloadSpec
with_account x spec = elim (set_account x spec.volumes) [
  | none ↦ none
  | some volumes ↦ some (record spec { volumes = volumes })
]

with_account-eq_some :
    (x : String) (s t : WorkloadSpec)
    → with_account x s ≡ some t
    → (set_account x s.volumes ≡ some t.volumes) × (t.replicas ≡ s.replicas)
with_account-eq_some x s t e = ground arith

pub with_account-IsIdempotent : (x : String) → IsIdempotent (with_account x)
with_account-IsIdempotent x s t e =
    let again = set_account-again x s.volumes t.volumes (with_account-eq_some x s t e).0 in
    rw (again, with_account) refl

-- What the contract of nodes sees of a StatefulSet that mounts an account.
unfoldable pub view_of : WorkloadSpec → Option View
view_of spec = elim (account_in spec.volumes) [
  | none ↦ none
  | some account ↦ some (record { replicas = spec.replicas; account = account })
]

unfoldable pub view_at : NamespacedName → Specs → Option View
unfolding view_of account_in
view_at k f = elim (f k) [ none ↦ none | some spec ↦ view_of spec ]

pub view_of-with_replicas :
    (n : ℕ) (s t : WorkloadSpec) (a : View)
    → with_replicas n s ≡ some t
    → view_of s ≡ some a
    → view_of t ≡ some (scaled n a)
unfolding view_of
view_of-with_replicas n s t a e h = ground arith

pub view_of-with_account :
    (x : String) (s t : WorkloadSpec) (a : View)
    → with_account x s ≡ some t
    → view_of s ≡ some a
    → view_of t ≡ some (renamed x a)
unfolding view_of
view_of-with_account x s t a e h =
    ground
      (arith, with_account-eq_some x s t e, account_in-set_account x a.account s.volumes t.volumes)

pub view_at-Edited :
    (k : NamespacedName) (edit : WorkloadSpec → Option WorkloadSpec) (change : View → View)
    → ((s t : WorkloadSpec) (a : View)
        → edit s ≡ some t
        → view_of s ≡ some a
        → view_of t ≡ some (change a))
    → (f g : Specs) (a : View) → Edited k edit f g
    → view_at k f ≡ some a
    → view_at k g ≡ some (change a)
unfolding view_at
view_at-Edited k edit change step f g a p h =
    let stored : g k ≡ some p.after =
      ap (λ (s : Specs). s k) p.stored ∙ store_at_self k p.after f in
    rw (stored, view_at) (step p.before p.after a p.changed (rw (p.was, view_at) at h))

pub view_at-other :
    (k j : NamespacedName) (edit : WorkloadSpec → Option WorkloadSpec) (f g : Specs)
    → same_key k j ≡ false
    → Edited k edit f g
    → view_at j g ≡ view_at j f
unfolding view_at
view_at-other k j edit f g apart p =
    let kept : g j ≡ f j = ap (λ (s : Specs). s j) p.stored ∙ rw apart refl in
    rw (kept, view_at) refl
