-- ===== src/Controllers/JobRbac/Frame.antt =====
-- What the clients of the three kinds of objects do not touch, `Ensure` does not touch.
use cita_node_operator.Base.Hoare.{Keeps, Keeps-if, Keeps-pure, keeps_rules}
use cita_node_operator.Controllers.Objects.{ClientKeeps, present-Keeps}
use cita_node_operator.Controllers.JobRbac.{
  ClusterRoleBinding, JobRbac, RbacClient, bind_account, exists_account, ensure_service_account,
  ensure_role, ensure_role_binding, ensure,
}

module _ {W : Type 0} (client : RbacClient W) {P : W → Type 0}
    (accounts : ClientKeeps client.service_accounts P) (roles : ClientKeeps client.roles P)
    (bindings : ClientKeeps client.role_bindings P) where
  bind_account-Keeps : (r : JobRbac) (b : ClusterRoleBinding) → Keeps P (bind_account client r b)
  unfolding bind_account
  bind_account-Keeps r b =
      Keeps-if (exists_account r b.subjects) _ _ (Keeps-pure tt) (bindings.update_keeps _)

  pub ensure-Keeps : (r : JobRbac) → Keeps P (ensure client r)
  unfolding ensure ensure_service_account ensure_role ensure_role_binding
  ensure-Keeps r =
      search
        (
          keeps_rules, present-Keeps, bind_account-Keeps, accounts.get_keeps, accounts.create_keeps,
          roles.get_keeps, roles.create_keeps, bindings.get_keeps, bindings.create_keeps,
        )
        depth 9
