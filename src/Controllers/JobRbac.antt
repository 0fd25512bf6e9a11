-- ===== src/Controllers/JobRbac.antt =====
-- controllers/job_rbac.go: the service account of jobs and its rights.
pub mod Rights
pub mod Arranged
pub mod Ensure
pub mod Frame
use cita_node_operator.Base.{
  String, ◌==◌, ◌&&◌, ◌||◌, Bool, false, List, [], ◌∷◌, ◌++◌, Exec, if◌then◌else◌,
}
use cita_node_operator.Base.Effects.{pure, try, ◌>>=◌, ◌>>◌}
use cita_node_operator.Kube.{NamespacedName}
use cita_node_operator.Controllers.Objects.{Client, present}

pub record ServiceAccount : Type 0 where
  pub key : NamespacedName

pub record PolicyRule : Type 0 where
  pub verbs : List String
  pub api_groups : List String
  pub resources : List String

pub record ClusterRole : Type 0 where
  pub key : NamespacedName
  pub rules : List PolicyRule

pub record Subject : Type 0 where
  pub kind : String
  pub name : String
  pub namespace : String

pub record RoleRef : Type 0 where
  pub api_group : String
  pub kind : String
  pub name : String

pub record ClusterRoleBinding : Type 0 where
  pub key : NamespacedName
  pub subjects : List Subject
  pub role_ref : RoleRef

-- `JobRbac`, but for its client.
pub record JobRbac : Type 0 where
  pub namespace : String
  pub service_account : String
  pub role : String
  pub role_binding : String

-- The key of an object that has no namespace.
abbrev pub cluster_wide : String → NamespacedName
cluster_wide name = record { namespace = ""; name = name }

abbrev pub account_key : JobRbac → NamespacedName
account_key r = record { namespace = r.namespace; name = r.service_account }

abbrev pub generate_service_account : JobRbac → ServiceAccount
generate_service_account r = record { key = account_key r }

abbrev rule_on : String → String → PolicyRule
rule_on group resource = record {
  verbs = "get" ∷ "list" ∷ "watch" ∷ "update" ∷ [];
  api_groups = group ∷ [];
  resources = resource ∷ [];
}

abbrev pub generate_role : JobRbac → ClusterRole
generate_role r = record {
  key = cluster_wide r.role;
  rules =
      rule_on "apps" "statefulsets"
      ∷ rule_on "apps" "deployments"
      ∷ rule_on "" "pods"
      ∷ rule_on "" "configmaps"
      ∷ [];
}

abbrev pub subject_of : JobRbac → Subject
subject_of r = record { kind = "ServiceAccount"; name = r.service_account; namespace = r.namespace }

abbrev pub generate_role_binding : JobRbac → ClusterRoleBinding
generate_role_binding r = record {
  key = cluster_wide r.role_binding;
  subjects = subject_of r ∷ [];
  role_ref = record {
    api_group = "rbac.authorization.k8s.io";
    kind = "ClusterRole";
    name = r.role;
  };
}

-- The loop that sets `existServiceAccount`.
pub exists_account : JobRbac → List Subject → Bool
exists_account r [] = false
exists_account r (subject ∷ subjects) =
    (subject.name == r.service_account && subject.namespace == r.namespace)
    || exists_account r subjects

-- The three kinds of objects that `JobRbac` reads and writes.
pub record RbacClient (W : Type 0) : Type 0 where
  pub service_accounts : Client W ServiceAccount
  pub roles : Client W ClusterRole
  pub role_bindings : Client W ClusterRoleBinding

module _ {W : Type 0} (client : RbacClient W) (r : JobRbac) where
  unfoldable pub ensure_service_account : Exec W Unit
  ensure_service_account = do
    found ← try (client.service_accounts.get (account_key r))
    present found (client.service_accounts.create (generate_service_account r)) (λ _. pure tt)

  unfoldable pub ensure_role : Exec W Unit
  ensure_role = do
    found ← try (client.roles.get (cluster_wide r.role))
    present found (client.roles.create (generate_role r)) (λ _. pure tt)

  -- The binding that is there, with the service account among its subjects.
  pub bind_account : ClusterRoleBinding → Exec W Unit
  unfolding exists_account
  bind_account binding =
      if exists_account r binding.subjects
      then pure tt
      else client.role_bindings.update
          (record binding { subjects = binding.subjects ++ (subject_of r ∷ []) })

  unfoldable pub ensure_role_binding : Exec W Unit
  unfolding bind_account
  ensure_role_binding = do
    found ← try (client.role_bindings.get (cluster_wide r.role_binding))
    present found (client.role_bindings.create (generate_role_binding r)) bind_account

  -- `Ensure`
  unfoldable pub ensure : Exec W Unit
  ensure = do ensure_service_account; ensure_role; ensure_role_binding
