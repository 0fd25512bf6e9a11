-- ===== src/Controllers/JobRbac/Rights.antt =====
-- What the service account of jobs may do after `Ensure`, and what others may still do.
use mathlib.Core.List.{append-nil, append_assoc}
use mathlib.Core.Option.{some-injective}
use cita_node_operator.Base.{
  ◌≡◌, refl, sym, ◌∙◌, ap, ◌⊎◌, inl, inr, ◌==◌, ◌&&◌, ◌||◌, Bool, true, false, Option, none, some,
}
use cita_node_operator.Base.{List, [], ◌∷◌, ◌++◌, eq_iff, Bool-cases}
use cita_node_operator.Kube.{NamespacedName, same_key}
use cita_node_operator.Kube.Edits.{same_parts, same_key_refl, same_key-eq}
use cita_node_operator.Controllers.Objects.{Objects, put, Place, ClientLaws}
use cita_node_operator.Controllers.JobRbac.{
  ServiceAccount, ClusterRole, Subject, ClusterRoleBinding, JobRbac, RbacClient, cluster_wide,
  account_key, subject_of, exists_account,
}

-- The part of a cluster's state that rights depend on.
pub record Rbac : Type 0 where
  pub service_accounts : Objects ServiceAccount
  pub roles : Objects ClusterRole
  pub role_bindings : Objects ClusterRoleBinding

-- A write of one of these kinds replaces the whole object.
abbrev pub accounts_place : Place Rbac ServiceAccount
accounts_place = record {
  objects = λ c. c.service_accounts;
  store = λ f c. record c { service_accounts = f };
  key_of = λ x. x.key;
  on_update = λ _ x. x;
  on_status = λ old _. old;
}

abbrev pub roles_place : Place Rbac ClusterRole
roles_place = record {
  objects = λ c. c.roles;
  store = λ f c. record c { roles = f };
  key_of = λ x. x.key;
  on_update = λ _ x. x;
  on_status = λ old _. old;
}

abbrev pub bindings_place : Place Rbac ClusterRoleBinding
bindings_place = record {
  objects = λ c. c.role_bindings;
  store = λ f c. record c { role_bindings = f };
  key_of = λ x. x.key;
  on_update = λ _ x. x;
  on_status = λ old _. old;
}

pub record RbacLaws {W : Type 0} (client : RbacClient W) (rbac : W → Rbac) : Type 0 where
  pub accounts_laws : ClientLaws client.service_accounts rbac accounts_place
  pub roles_laws : ClientLaws client.roles rbac roles_place
  pub bindings_laws : ClientLaws client.role_bindings rbac bindings_place

-- The service account is one of the subjects.
abbrev pub Bound : JobRbac → List Subject → Type 0
Bound r [] = ⊥
Bound r (s ∷ subjects) =
    ((s.name ≡ r.service_account) × (s.namespace ≡ r.namespace)) ⊎ Bound r subjects

-- The account, the role and the binding are there, and the binding has a subject of the account's
-- name and namespace.
pub record Granted (r : JobRbac) (c : Rbac) : Type 0 where
  pub account : ServiceAccount
  pub account_there : c.service_accounts (account_key r) ≡ some account
  pub role : ClusterRole
  pub role_there : c.roles (cluster_wide r.role) ≡ some role
  pub binding : ClusterRoleBinding
  pub binding_there : c.role_bindings (cluster_wide r.role_binding) ≡ some binding
  pub bound : Bound r binding.subjects

-- No object is lost, and a binding keeps its role and its subjects.
pub record Preserves (c d : Rbac) : Type 0 where
  pub accounts_kept :
      (k : NamespacedName) (x : ServiceAccount)
      → c.service_accounts k ≡ some x
      → d.service_accounts k ≡ some x
  pub roles_kept : (k : NamespacedName) (x : ClusterRole) → c.roles k ≡ some x → d.roles k ≡ some x
  pub bindings_kept :
      (k : NamespacedName) (b : ClusterRoleBinding)
      → c.role_bindings k ≡ some b
      → (more : List Subject) × (d.role_bindings k
          ≡ some (record b { subjects = b.subjects ++ more }))

pub put-none :
    {T : Type 0} (f : Objects T) (i k : NamespacedName) (x y : T)
    → f i ≡ none
    → f k ≡ some y
    → put i x f k ≡ some y
put-none f i k x y absent there = elim (Bool-cases (same_key i k)) [
  | inl e ↦ cc (absent, there, same_key-eq i k e)
  | inr e ↦ rw e there
]

pub subjects_path :
    (b : ClusterRoleBinding) {l m : List Subject}
    → l ≡ m
    → some (record b { subjects = l }) ≡ some (record b { subjects = m })
subjects_path b e = ap (λ (l : List Subject). some (record b { subjects = l })) e

pub Preserves-refl : (c : Rbac) → Preserves c c
Preserves-refl c = record {
  accounts_kept = λ k x h. h;
  roles_kept = λ k x h. h;
  bindings_kept = λ k b h. ([], h ∙ subjects_path b (sym (append-nil b.subjects)));
}

pub Preserves-trans : {c d e : Rbac} → Preserves c d → Preserves d e → Preserves c e
Preserves-trans p q = record {
  accounts_kept = λ k x h. q.accounts_kept k x (p.accounts_kept k x h);
  roles_kept = λ k x h. q.roles_kept k x (p.roles_kept k x h);
  bindings_kept = λ k b h.
      let first = p.bindings_kept k b h in
      let second = q.bindings_kept k (record b { subjects = b.subjects ++ first.0 }) first.1 in
      (first.0 ++ second.0, second.1 ∙ subjects_path b (append_assoc b.subjects first.0 second.0));
}

pub put_self : {T : Type 0} (k : NamespacedName) (x : T) (f : Objects T) → put k x f k ≡ some x
put_self k x f = rw (same_key_refl k) refl

-- A binding whose subjects grow.
pub put_more :
    (f : Objects ClusterRoleBinding) (i k : NamespacedName) (old b : ClusterRoleBinding)
    (more : List Subject)
    → f i ≡ some old
    → f k ≡ some b
    → (added : List Subject) × (put i (record old { subjects = old.subjects ++ more }) f k
        ≡ some (record b { subjects = b.subjects ++ added }))
put_more f i k old b more here there = elim (Bool-cases (same_key i k)) [
  | inl e ↦ (
    more,
    rw e (
        ap (λ (o : ClusterRoleBinding). some (record o { subjects = o.subjects ++ more }))
          (some-injective old b (sym here ∙ ap f (same_key-eq i k e) ∙ there))),
  )
  | inr e ↦ ([], rw e (there ∙ subjects_path b (sym (append-nil b.subjects))))
]

pub or_true : (b : Bool) {c : Bool} → c ≡ true → (b || c) ≡ true
or_true true e = refl
or_true false e = e

pub some-not_none : {T : Type 0} {o : Option T} {x : T} → o ≡ some x → o ≡ none → ⊥
some-not_none h k = cc

pub exists_account-Bound :
    (r : JobRbac) (subjects : List Subject) → exists_account r subjects ≡ true → Bound r subjects
unfolding exists_account
exists_account-Bound r [] e = cc
exists_account-Bound r (s ∷ subjects) e =
    elim (Bool-cases (s.name == r.service_account && s.namespace == r.namespace)) [
      | inl here ↦
          let names = same_parts (s.name == r.service_account) (s.namespace == r.namespace) here in
          inl (
            (eq_iff s.name r.service_account).0 names.0,
            (eq_iff s.namespace r.namespace).0 names.1,
          )
      | inr other ↦ inr (exists_account-Bound r subjects (rw other at e))
    ]

pub exists_account_of_Bound :
    (r : JobRbac) (subjects : List Subject) → Bound r subjects → exists_account r subjects ≡ true
unfolding exists_account
exists_account_of_Bound r [] h = elim h [ ]
exists_account_of_Bound r (s ∷ subjects) (inl (n, m)) =
    rw ((eq_iff s.name r.service_account).1 n, (eq_iff s.namespace r.namespace).1 m) refl
exists_account_of_Bound r (s ∷ subjects) (inr h) =
    or_true (s.name == r.service_account && s.namespace == r.namespace)
      (exists_account_of_Bound r subjects h)

pub Bound-subject :
    (r : JobRbac) (subjects : List Subject) → Bound r (subjects ++ (subject_of r ∷ []))
Bound-subject r [] = inl (refl, refl)
Bound-subject r (s ∷ subjects) = inr (Bound-subject r subjects)
