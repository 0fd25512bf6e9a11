-- ===== src/Controllers/JobRbac/Arranged.antt =====
-- Where the role and the binding that `Ensure` leaves come from: they were there, or it made them.
use cita_node_operator.Base.{String, ◌≡◌, refl, sym, ◌∙◌, none, some, [], ◌∷◌, ◌++◌, Exec}
use cita_node_operator.Base.Effects.{pure}
use cita_node_operator.Base.Hoare.{Triple, Triple-bind, Triple-map, Triple-pure, Triple-if}
use cita_node_operator.Kube.{NamespacedName}
use cita_node_operator.Controllers.Objects.{Objects, put, present_lem}
use cita_node_operator.Controllers.JobRbac.{
  ClusterRole, PolicyRule, Subject, ClusterRoleBinding, JobRbac, RbacClient, cluster_wide,
  account_key, generate_service_account, generate_role, subject_of, generate_role_binding,
  exists_account, bind_account, ensure_service_account, ensure_role, ensure_role_binding, ensure,
}
use cita_node_operator.Controllers.JobRbac.Rights.{
  Rbac, RbacLaws, Bound, put_self, exists_account-Bound,
}

-- Read and update, of one kind of resource.
abbrev pub may_use : String → String → PolicyRule
may_use group resource = record {
  verbs = "get" ∷ "list" ∷ "watch" ∷ "update" ∷ [];
  api_groups = group ∷ [];
  resources = resource ∷ [];
}

-- The role was there, or is made with its four rules.
pub data RoleFrom (r : JobRbac) (f g : Objects ClusterRole) : Type 0 where
  role_kept :
      (role : ClusterRole)
      → f (cluster_wide r.role) ≡ some role
      → g (cluster_wide r.role) ≡ some role
      → RoleFrom r f g
  role_made :
      f (cluster_wide r.role) ≡ none
      → g (cluster_wide r.role)
        ≡ some (record {
          key = record { namespace = ""; name = r.role };
          rules =
              may_use "apps" "statefulsets"
              ∷ may_use "apps" "deployments"
              ∷ may_use "" "pods"
              ∷ may_use "" "configmaps"
              ∷ [];
        })
      → RoleFrom r f g

-- The service account of jobs.
abbrev pub the_account : JobRbac → Subject
the_account r = record {
  kind = "ServiceAccount";
  name = r.service_account;
  namespace = r.namespace;
}

-- The binding was there and named the account, or the account is added to its subjects, or it is
-- made, for the role and the account.
pub data BindingFrom (r : JobRbac) (f g : Objects ClusterRoleBinding) : Type 0 where
  binding_kept :
      (b : ClusterRoleBinding)
      → f (cluster_wide r.role_binding) ≡ some b
      → Bound r b.subjects
      → g (cluster_wide r.role_binding) ≡ some b
      → BindingFrom r f g
  account_added :
      (b : ClusterRoleBinding)
      → f (cluster_wide r.role_binding) ≡ some b
      → g (cluster_wide r.role_binding)
        ≡ some (record b { subjects = b.subjects ++ (the_account r ∷ []) })
      → BindingFrom r f g
  binding_made :
      f (cluster_wide r.role_binding) ≡ none
      → g (cluster_wide r.role_binding)
        ≡ some (record {
          key = record { namespace = ""; name = r.role_binding };
          subjects = the_account r ∷ [];
          role_ref = record {
            api_group = "rbac.authorization.k8s.io";
            kind = "ClusterRole";
            name = r.role;
          };
        })
      → BindingFrom r f g

abbrev pub Arranged : JobRbac → Rbac → Rbac → Type 0
Arranged r c d = RoleFrom r c.roles d.roles × BindingFrom r c.role_bindings d.role_bindings

put_at : {T : Type 0} (i k : NamespacedName) (x : T) (f : Objects T) → i ≡ k → put i x f k ≡ some x
put_at i k x f e = rw e (put_self k x f)

module _ {W : Type 0} (client : RbacClient W) (rbac : W → Rbac) (L : RbacLaws client rbac)
    (r : JobRbac) where
  -- From any state, with nothing said where it fails.
  abbrev Leads : (Rbac → Rbac → Type 0) → Exec W Unit → Type 0
  Leads Q m = (c : Rbac) → Triple (λ w. rbac w ≡ c) m (λ _ w. Q c (rbac w)) (λ _. Unit)

  account_lem :
      Leads
        (λ c d. (d.roles ≡ c.roles) × (d.role_bindings ≡ c.role_bindings))
        (ensure_service_account client r)
  unfolding ensure_service_account
  account_lem c =
      present_lem L.accounts_laws c (account_key r) (generate_service_account r) (λ _. pure tt)
        (λ d. (d.roles ≡ c.roles) × (d.role_bindings ≡ c.role_bindings)) (λ _. Unit) tt
        (λ d _ made. rw made.1 (refl, refl)) (λ d made. tt)
        (λ x there _. Triple-pure tt λ w h. rw h (refl, refl))

  role_lem :
      Leads
        (λ c d. RoleFrom r c.roles d.roles × (d.role_bindings ≡ c.role_bindings))
        (ensure_role client r)
  unfolding ensure_role
  role_lem c =
      present_lem L.roles_laws c (cluster_wide r.role) (generate_role r) (λ _. pure tt)
        (λ d. RoleFrom r c.roles d.roles × (d.role_bindings ≡ c.role_bindings)) (λ _. Unit) tt
        (λ d _ made.
          rw made.1
            (role_made made.0 (put_self (cluster_wide r.role) (generate_role r) c.roles), refl))
        (λ d made. tt) (λ x there _. Triple-pure tt λ w h. rw h (role_kept x there there, refl))

  abbrev BindsIt : Rbac → Rbac → Type 0
  BindsIt c d = (d.roles ≡ c.roles) × BindingFrom r c.role_bindings d.role_bindings

  bind_account_lem :
      (c : Rbac) (b : ClusterRoleBinding)
      → c.role_bindings (cluster_wide r.role_binding) ≡ some b
      → b.key ≡ cluster_wide r.role_binding
      → Triple (λ w. rbac w ≡ c) (bind_account client r b) (λ _ w. BindsIt c (rbac w)) (λ _. Unit)
  unfolding bind_account
  bind_account_lem c b there key =
      let more = record b { subjects = b.subjects ++ (subject_of r ∷ []) } in
      Triple-if (exists_account r b.subjects) _ _
        (λ e.
          Triple-pure tt
            λ w h. rw h (refl, binding_kept b there (exists_account-Bound r b.subjects e) there))
        (λ _.
          Triple-map (L.bindings_laws.update_law c more)
            (λ _ w h. rw h.2 (
              refl,
              account_added b there
                  (put_at b.key (cluster_wide r.role_binding) more c.role_bindings key),
            ))
            (λ w h. tt))

  binding_lem : Leads BindsIt (ensure_role_binding client r)
  unfolding ensure_role_binding
  binding_lem c =
      present_lem L.bindings_laws c (cluster_wide r.role_binding) (generate_role_binding r)
        (bind_account client r) (BindsIt c) (λ _. Unit) tt
        (λ d _ made. rw made.1 (
          refl,
          binding_made made.0
              (put_self (cluster_wide r.role_binding) (generate_role_binding r) c.role_bindings),
        ))
        (λ d made. tt) (bind_account_lem c)

  pub ensure-Arranged : Leads (Arranged r) (ensure client r)
  unfolding ensure
  ensure-Arranged c = Triple-bind (account_lem c) λ _.
      Triple-bind
        {R = λ _ w. RoleFrom r c.roles (rbac w).roles × ((rbac w).role_bindings ≡ c.role_bindings)}
        (record {
          run = λ w h.
              (Triple-map
                  {Q = λ _ v.
                    RoleFrom r c.roles (rbac v).roles × ((rbac v).role_bindings ≡ c.role_bindings)}
                  {E = λ _. Unit} (role_lem (rbac w)) (λ _ v k. (rw (sym h.0) k.0, k.1 ∙ h.1))
                  (λ v k. tt)).run
                w refl;
        })
        λ _. record {
          run = λ w h.
              (Triple-map {Q = λ _ v. Arranged r c (rbac v)} {E = λ _. Unit} (binding_lem (rbac w))
                  (λ _ v k. (rw k.0 h.0, rw (sym h.1) k.1)) (λ v k. tt)).run
                w refl;
        }
