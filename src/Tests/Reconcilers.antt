-- ===== src/Tests/Reconcilers.antt =====
-- The claims on the reconcilers, at clusters in memory.
use cita_node_operator.Base.{◌≡◌, refl, inl, none}
use cita_node_operator.Base.Hoare.{Post}
use cita_node_operator.Controllers.Objects.{put}
use cita_node_operator.Controllers.JobRbac.{
  JobRbac, RbacClient, cluster_wide, generate_service_account, generate_role, generate_role_binding,
  ensure,
}
use cita_node_operator.Controllers.JobRbac.Rights.{
  Rbac, RbacLaws, Granted, Preserves, accounts_place, roles_place, bindings_place,
}
use cita_node_operator.Controllers.JobRbac.Arranged.{Arranged}
use cita_node_operator.Controllers.JobRbac.Ensure.{ensure_lem, ensure_again}
use cita_node_operator.Tests.Objects.{memory, memory_laws}

abbrev rbac_client : RbacClient Rbac
rbac_client = record {
  service_accounts = memory accounts_place;
  roles = memory roles_place;
  role_bindings = memory bindings_place;
}

abbrev rbac_laws : RbacLaws rbac_client (λ c. c)
rbac_laws = record {
  accounts_laws = memory_laws accounts_place;
  roles_laws = memory_laws roles_place;
  bindings_laws = memory_laws bindings_place;
}

abbrev job_rbac : JobRbac
job_rbac = record {
  namespace = "app";
  service_account = "cita-node-job";
  role = "cita-node-job";
  role_binding = "cita-node-job";
}

-- The role is bound to the jobs of another namespace.
abbrev elsewhere : JobRbac
elsewhere = record job_rbac { namespace = "other" }

abbrev bound_elsewhere : Rbac
bound_elsewhere = record {
  service_accounts = λ _. none;
  roles = put (cluster_wide "cita-node-job") (generate_role elsewhere) (λ _. none);
  role_bindings = put (cluster_wide "cita-node-job") (generate_role_binding elsewhere) (λ _. none);
}

ensure_lem_example :
    Post
      (λ _ d.
        Preserves bound_elsewhere d × Granted job_rbac d × Arranged job_rbac bound_elsewhere d)
      (λ d. Preserves bound_elsewhere d)
      (ensure rbac_client job_rbac bound_elsewhere)
ensure_lem_example =
    (ensure_lem rbac_client (λ c. c) rbac_laws job_rbac bound_elsewhere).run bound_elsewhere refl

abbrev bound_here : Rbac
bound_here = record {
  service_accounts =
      put (record { namespace = "app"; name = "cita-node-job" }) (generate_service_account job_rbac)
        (λ _. none);
  roles = put (cluster_wide "cita-node-job") (generate_role job_rbac) (λ _. none);
  role_bindings = put (cluster_wide "cita-node-job") (generate_role_binding job_rbac) (λ _. none);
}

bound_here-Granted : Granted job_rbac bound_here
bound_here-Granted = record {
  account = generate_service_account job_rbac;
  account_there = refl;
  role = generate_role job_rbac;
  role_there = refl;
  binding = generate_role_binding job_rbac;
  binding_there = refl;
  bound = inl (refl, refl);
}

ensure_again_example :
    Post (λ _ d. d ≡ bound_here) (λ d. d ≡ bound_here) (ensure rbac_client job_rbac bound_here)
ensure_again_example =
    (ensure_again rbac_client (λ c. c) rbac_laws job_rbac bound_here bound_here-Granted).run
      bound_here refl
