-- ===== src/Controllers/JobRbac/Ensure.antt =====
-- `Ensure` gives the service account of jobs its rights and takes none away.
use mathlib.Core.Option.{some-injective}
use cita_node_operator.Base.{◌≡◌, refl, sym, ◌∙◌, inl, inr, some}
use cita_node_operator.Base.{[], ◌∷◌, ◌++◌, Exec}
use cita_node_operator.Base.Effects.{pure}
use cita_node_operator.Base.Hoare.{
  Triple, Triple-bind, Triple-map, Triple-pure, Triple-if, Triple-and, Triple-pre,
}
use cita_node_operator.Kube.{NamespacedName}
use cita_node_operator.Controllers.Objects.{put, Created, present_lem}
use cita_node_operator.Controllers.JobRbac.{
  ServiceAccount, ClusterRole, ClusterRoleBinding, JobRbac, RbacClient, cluster_wide, account_key,
  generate_service_account, generate_role, subject_of, generate_role_binding, exists_account,
  bind_account, ensure_service_account, ensure_role, ensure_role_binding, ensure,
}
use cita_node_operator.Controllers.JobRbac.Arranged.{Arranged, ensure-Arranged}
use cita_node_operator.Controllers.JobRbac.Rights.{
  Rbac, accounts_place, roles_place, bindings_place, RbacLaws, Bound, Granted, Preserves,
  Preserves-refl, Preserves-trans, put-none, put_self, put_more, exists_account-Bound,
  exists_account_of_Bound, Bound-subject, some-not_none,
}

module _ {W : Type 0} (client : RbacClient W) (rbac : W → Rbac) (L : RbacLaws client rbac)
    (r : JobRbac) where
  -- A step that loses nothing and brings `G` about.
  abbrev Brings : (Rbac → Type 0) → Exec W Unit → Type 0
  Brings G m =
      (c : Rbac)
      → Triple (λ w. rbac w ≡ c) m (λ _ w. Preserves c (rbac w) × G (rbac w))
          (λ w. Preserves c (rbac w))

  abbrev HasAccount : Rbac → Type 0
  HasAccount c = (x : ServiceAccount) × (c.service_accounts (account_key r) ≡ some x)

  abbrev HasRole : Rbac → Type 0
  HasRole c = (x : ClusterRole) × (c.roles (cluster_wide r.role) ≡ some x)

  abbrev HasBinding : Rbac → Type 0
  HasBinding c =
      (b : ClusterRoleBinding) × (c.role_bindings (cluster_wide r.role_binding) ≡ some b)
      × Bound r b.subjects

  account-Created :
      (c d : Rbac)
      → Created accounts_place c (generate_service_account r) d
      → Preserves c d × HasAccount d
  account-Created c d made = rw made.1 (
    record {
      accounts_kept = λ k x h. put-none c.service_accounts (account_key r) k _ x made.0 h;
      roles_kept = λ k x h. h;
      bindings_kept = (Preserves-refl c).bindings_kept;
    },
    (
      generate_service_account r,
      put_self (account_key r) (generate_service_account r) c.service_accounts,
    ),
  )

  role-Created :
      (c d : Rbac) → Created roles_place c (generate_role r) d → Preserves c d × HasRole d
  role-Created c d made = rw made.1 (
    record {
      accounts_kept = λ k x h. h;
      roles_kept = λ k x h. put-none c.roles (cluster_wide r.role) k _ x made.0 h;
      bindings_kept = (Preserves-refl c).bindings_kept;
    },
    (generate_role r, put_self (cluster_wide r.role) (generate_role r) c.roles),
  )

  binding-Created :
      (c d : Rbac)
      → Created bindings_place c (generate_role_binding r) d
      → Preserves c d × HasBinding d
  binding-Created c d made = rw made.1 (
    record {
      accounts_kept = λ k x h. h;
      roles_kept = λ k x h. h;
      bindings_kept = λ k b h.
          let kept = (Preserves-refl c).bindings_kept k b h in
          (kept.0, put-none c.role_bindings (cluster_wide r.role_binding) k _ _ made.0 kept.1);
    },
    (
      generate_role_binding r,
      put_self (cluster_wide r.role_binding) (generate_role_binding r) c.role_bindings,
      inl (refl, refl),
    ),
  )

  ensure_service_account-Brings : Brings HasAccount (ensure_service_account client r)
  unfolding ensure_service_account
  ensure_service_account-Brings c =
      present_lem L.accounts_laws c (account_key r) (generate_service_account r) (λ _. pure tt)
        (λ d. Preserves c d × HasAccount d) (Preserves c) (Preserves-refl c)
        (λ d _ made. account-Created c d made) (λ d made. (account-Created c d made).0)
        (λ x there _. Triple-pure tt λ w h. rw h (Preserves-refl c, (x, there)))

  ensure_role-Brings : Brings HasRole (ensure_role client r)
  unfolding ensure_role
  ensure_role-Brings c =
      present_lem L.roles_laws c (cluster_wide r.role) (generate_role r) (λ _. pure tt)
        (λ d. Preserves c d × HasRole d) (Preserves c) (Preserves-refl c)
        (λ d _ made. role-Created c d made) (λ d made. (role-Created c d made).0)
        (λ x there _. Triple-pure tt λ w h. rw h (Preserves-refl c, (x, there)))

  abbrev with_account : ClusterRoleBinding → ClusterRoleBinding
  with_account b = record b { subjects = b.subjects ++ (subject_of r ∷ []) }

  binding-put :
      (c : Rbac) (b : ClusterRoleBinding) (i : NamespacedName)
      → i ≡ cluster_wide r.role_binding
      → c.role_bindings (cluster_wide r.role_binding) ≡ some b
      → let d = record c { role_bindings = put i (with_account b) c.role_bindings } in
        Preserves c d × HasBinding d
  binding-put c b i key there = rw key (
    record {
      accounts_kept = λ k x h. h;
      roles_kept = λ k x h. h;
      bindings_kept = λ k x h.
          put_more c.role_bindings (cluster_wide r.role_binding) k b x (subject_of r ∷ []) there h;
    },
    (
      with_account b,
      put_self (cluster_wide r.role_binding) (with_account b) c.role_bindings,
      Bound-subject r b.subjects,
    ),
  )

  bind_account-Brings :
      (c : Rbac) (b : ClusterRoleBinding)
      → c.role_bindings (cluster_wide r.role_binding) ≡ some b
      → b.key ≡ cluster_wide r.role_binding
      → Triple
          (λ w. rbac w ≡ c)
          (bind_account client r b)
          (λ _ w. Preserves c (rbac w) × HasBinding (rbac w))
          (λ w. Preserves c (rbac w))
  unfolding bind_account
  bind_account-Brings c b there key =
      Triple-if (exists_account r b.subjects) _ _
        (λ e.
          Triple-pure tt
            λ w h. rw h (Preserves-refl c, (b, there, exists_account-Bound r b.subjects e)))
        (λ _.
          Triple-map (L.bindings_laws.update_law c (with_account b))
            (λ _ w h. rw h.2 (binding-put c b b.key key there))
            (λ w h. elim h [
              | inl same ↦ rw same (Preserves-refl c)
              | inr merged ↦ rw merged.2 ((binding-put c b b.key key there).0)
            ]))

  ensure_role_binding-Brings : Brings HasBinding (ensure_role_binding client r)
  unfolding ensure_role_binding
  ensure_role_binding-Brings c =
      present_lem L.bindings_laws c (cluster_wide r.role_binding) (generate_role_binding r)
        (bind_account client r) (λ d. Preserves c d × HasBinding d) (Preserves c) (Preserves-refl c)
        (λ d _ made. binding-Created c d made) (λ d made. (binding-Created c d made).0)
        (λ b there key. bind_account-Brings c b there key)

  -- A step after others: what they brought about is still there.
  Brings-after :
      (F G : Rbac → Type 0) {m : Exec W Unit} (c : Rbac)
      → ((d e : Rbac) → Preserves d e → F d → F e)
      → Brings G m
      → Triple
          (λ w. Preserves c (rbac w) × F (rbac w))
          m
          (λ _ w. Preserves c (rbac w) × (F (rbac w) × G (rbac w)))
          (λ w. Preserves c (rbac w))
  Brings-after F G c stays step = record {
    run = λ w h.
        (Triple-map (step (rbac w))
            (λ _ v p. (Preserves-trans h.0 p.0, (stays (rbac w) (rbac v) p.0 h.1, p.1)))
            (λ v p. Preserves-trans h.0 p)).run
          w refl;
  }

  account-stays : (d e : Rbac) → Preserves d e → HasAccount d → HasAccount e
  account-stays d e p h = (h.0, p.accounts_kept _ h.0 h.1)

  role-stays : (d e : Rbac) → Preserves d e → HasRole d → HasRole e
  role-stays d e p h = (h.0, p.roles_kept _ h.0 h.1)

  rights_lem :
      (c : Rbac)
      → Triple
          (λ w. rbac w ≡ c)
          (ensure client r)
          (λ _ w. Preserves c (rbac w) × Granted r (rbac w))
          (λ w. Preserves c (rbac w))
  unfolding ensure
  rights_lem c = Triple-bind (ensure_service_account-Brings c) λ _.
      Triple-bind (Brings-after HasAccount HasRole c account-stays ensure_role-Brings) λ _.
        Triple-map
          (Brings-after (λ d. HasAccount d × HasRole d) HasBinding c
            (λ d e p h. (account-stays d e p h.0, role-stays d e p h.1)) ensure_role_binding-Brings)
          (λ _ w h. (
            h.0,
            record {
              account = h.1.0.0.0;
              account_there = h.1.0.0.1;
              role = h.1.0.1.0;
              role_there = h.1.0.1.1;
              binding = h.1.1.0;
              binding_there = h.1.1.1;
              bound = h.1.1.2;
            },
          ))
          (λ w h. h)

  -- When `Ensure` succeeds, the service account of jobs is there. So is the role: the one that was
  -- there, or else one with its four rules, to get, list, watch and update StatefulSets,
  -- Deployments, pods and config maps. So is the binding: the one that was there, if it has a subject
  -- of the account's name and namespace; or that one with the account as one more subject; or, where
  -- there was none, one that refers to the role and has the account as its one subject. Whether it
  -- succeeds or fails, no account, role or binding is lost or replaced, and a binding keeps the role
  -- that it refers to and its subjects, to which at most others are added.
  pub ensure_lem :
      (c : Rbac)
      → Triple
          (λ w. rbac w ≡ c)
          (ensure client r)
          (λ _ w. Preserves c (rbac w) × Granted r (rbac w) × Arranged r c (rbac w))
          (λ w. Preserves c (rbac w))
  ensure_lem c =
      Triple-pre (λ w h. (h, h))
        (Triple-map (Triple-and (rights_lem c) (ensure-Arranged client rbac L r c))
          (λ _ w h. (h.0.0, h.0.1, h.1)) (λ w h. h.0))

  -- A second `Ensure` changes nothing: where the account has its rights already, the accounts,
  -- roles and bindings are as they were.
  pub ensure_again :
      (c : Rbac)
      → Granted r c
      → Triple (λ w. rbac w ≡ c) (ensure client r) (λ _ w. rbac w ≡ c) (λ w. rbac w ≡ c)
  unfolding ensure ensure_service_account ensure_role ensure_role_binding bind_account
  ensure_again c g =
      Triple-bind
        (present_lem L.accounts_laws c (account_key r) (generate_service_account r) (λ _. pure tt)
          (λ d. d ≡ c) (λ d. d ≡ c) refl (λ d gone _. absurd (some-not_none g.account_there gone))
          (λ d made. absurd (some-not_none g.account_there made.0))
          (λ _ _ _. Triple-pure tt λ w h. h))
        λ _.
          Triple-bind
            (present_lem L.roles_laws c (cluster_wide r.role) (generate_role r) (λ _. pure tt)
              (λ d. d ≡ c) (λ d. d ≡ c) refl (λ d gone _. absurd (some-not_none g.role_there gone))
              (λ d made. absurd (some-not_none g.role_there made.0))
              (λ _ _ _. Triple-pure tt λ w h. h))
            λ _.
              present_lem L.bindings_laws c (cluster_wide r.role_binding) (generate_role_binding r)
                (bind_account client r) (λ d. d ≡ c) (λ d. d ≡ c) refl
                (λ d gone _. absurd (some-not_none g.binding_there gone))
                (λ d made. absurd (some-not_none g.binding_there made.0))
                (λ b there _.
                  bound_already b (some-injective b g.binding (sym there ∙ g.binding_there)))
    where
      bound_already :
          (b : ClusterRoleBinding)
          → b ≡ g.binding
          → Triple (λ w. rbac w ≡ c) (bind_account client r b) (λ _ w. rbac w ≡ c) (λ w. rbac w ≡ c)
      bound_already b same =
          rw (same, exists_account_of_Bound r g.binding.subjects g.bound) (Triple-pure tt λ w h. h)
