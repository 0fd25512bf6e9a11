-- ===== src/Cmd/Exit.antt =====
-- The exit code of a subcommand: 0 only when the work is done, and flags that are not known change
-- nothing.
use cita_node_operator.Base.{
  ℕ, String, ◌≡◌, refl, sym, ap, ◌∙◌, ◌&&◌, Bool, true, false, Exec, if◌then◌else◌, Bool-cases,
}
use cita_node_operator.Base.{
  Error, Result, ok, err, Outcome, done, failed, panicked, inl, inr, arith,
}
use cita_node_operator.Base.{lookup, insert, ◌⊎◌, message}
use cita_node_operator.Base.Effects.{pure, raise, lift, caught, continue, ◌>>=◌, ◌>>◌}
use cita_node_operator.Host.{Host}
use cita_node_operator.Kube.{Api}
use cita_node_operator.Node.{Node}
use cita_node_operator.Node.Helm.{HelmState, outside}
use cita_node_operator.Node.Registry.{create_node, nodes, register}
use cita_node_operator.Node.Common.{add_annotations, DeployMethod}
use cita_node_operator.Base.{[], ◌∷◌}
use cita_node_operator.Cmd.{
  Command, backup, restore, fallback, snapshot, snapshot_recover, chown, action_of, execute, Target,
  known_deploy_method, known_action, report, deploy_method_of, check_action, exit_code, log_to_pod,
  subcommand_work, subcommand,
}

module _ {W A B : Type 0} where
  -- What a sequence that returns has been through.
  continue-done :
      (o : Outcome A × W) (f : A → Exec W B) (b : B) (v : W)
      → continue o f ≡ (done b, v)
      → (a : A) × (w : W) × (o ≡ (done a, w)) × (f a w ≡ (done b, v))
  continue-done (done a, w) f b v e = (a, w, refl, e)
  continue-done (failed x, w) f b v e = cc
  continue-done (panicked x, w) f b v e = cc

lift-done :
    {W A : Type 0} (r : Result A) (w : W) (a : A) (v : W)
    → lift r w ≡ (done a, v)
    → (r ≡ ok a) × (w ≡ v)
lift-done (ok x) w a v e = (cc, cc)
lift-done (err x) w a v e = cc

caught-done :
    {W : Type 0} (o : Outcome (Unit {0}) × W) (v : W)
    → continue (caught o) (λ r. pure (exit_code r)) ≡ (done 0, v)
    → o ≡ (done tt, v)
caught-done (done _, w) v e = cc
caught-done (failed x, w) v e = ground arith
caught-done (panicked x, w) v e = cc

ok-injective : {A : Type 0} (x y : A) → ok x ≡ ok y → x ≡ y
ok-injective x y e = cc

check_action-known : (a : String) (u : Unit {0}) → check_action a ≡ ok u → known_action a ≡ true
check_action-known a u e = ground arith

raise-not_done : {W : Type 0} (x : Error) (w v : W) → raise x w ≡ (done (tt {0}), v) → ⊥
raise-not_done x w v e = cc

module _ {W : Type 0} (api : Api W) (host : Host W) (describe : Error → String)
    (init_k8s_client : Exec W Unit) where
  abbrev report_to_pod : Result (Unit {0}) → Exec (HelmState W) Unit
  report_to_pod = report api host describe init_k8s_client

  report-done :
      (o : Outcome (Unit {0}) × HelmState W) (v : HelmState W)
      → continue (caught o) report_to_pod ≡ (done tt, v)
      → o ≡ (done tt, v)
  report-done (done _, w) v e = e
  report-done (failed x, w) v e =
      let logged =
        continue-done (outside (add_annotations api (("err-log", describe x) ∷ [])) w)
          (λ _. raise x) tt v e in
      absurd (raise-not_done x logged.1 v logged.3)
  report-done (panicked x, w) v e = cc

  log_to_pod-done :
      (m : Exec (HelmState W) Unit) (s v : HelmState W)
      → log_to_pod api host describe init_k8s_client m s ≡ (done tt, v)
      → m s ≡ (done tt, v)
  unfolding log_to_pod
  log_to_pod-done m s v e = report-done (m s) v e

  not-created :
      (namespace name chain : String) (n : Node (HelmState W))
      → create_node (nodes api host) "" namespace name chain ≡ ok n
      → ⊥
  unfolding create_node nodes lookup insert register
  not-created namespace name chain n e = cc

  abbrev no_method : Error
  no_method = message "invalid parameter for deploy method"

  -- An unknown deploy method is refused, or is left to the creation of the node.
  method-unknown :
      (m : Command) (d : String)
      → known_deploy_method d ≡ false
      → (deploy_method_of m d ≡ err no_method) ⊎ (deploy_method_of m d ≡ ok "")
  method-unknown (backup _ _ _ _) d e = inl (rw e refl)
  method-unknown (restore _ _ _ _ _) d e = inl (rw e refl)
  method-unknown (fallback _ _ _ _ _) d e = inr (rw e refl)
  method-unknown (snapshot _ _ _ _) d e = inl (rw e refl)
  method-unknown (snapshot_recover _ _ _ _ _) d e = inl (rw e refl)
  method-unknown (chown _ _ _) d e = inl (rw e refl)

  fallback-known :
      (b : Bool) (t : Target) (dm : String) (n : Node (HelmState W))
      → ok (if b then t.deploy_method else "") ≡ ok dm
      → create_node (nodes api host) dm t.namespace t.node t.chain ≡ ok n
      → (b ≡ true) × (dm ≡ t.deploy_method)
  fallback-known true t dm n e f = (refl, cc)
  fallback-known false t dm n e f = absurd (
      not-created t.namespace t.node t.chain n (
        ap (λ (d : String). create_node (nodes api host) d t.namespace t.node t.chain)
          (ok-injective "" dm e)
        ∙ f))

  created-known :
      (m : Command) (t : Target) (dm : String) (n : Node (HelmState W))
      → deploy_method_of m t.deploy_method ≡ ok dm
      → create_node (nodes api host) dm t.namespace t.node t.chain ≡ ok n
      → (known_deploy_method t.deploy_method ≡ true) × (dm ≡ t.deploy_method)
  created-known (backup _ _ _ _) t dm n e f = ground arith
  created-known (restore _ _ _ _ _) t dm n e f = ground arith
  created-known (fallback _ _ _ _ _) t dm n e f =
      fallback-known (known_deploy_method t.deploy_method) t dm n e f
  created-known (snapshot _ _ _ _) t dm n e f = ground arith
  created-known (snapshot_recover _ _ _ _ _) t dm n e f = ground arith
  created-known (chown _ _ _) t dm n e f = ground arith

  -- What a subcommand has been through when its exit code is 0.
  pub record Worked (t : Target) (m : Command) (s v : HelmState W) : Type 0 where
    pub started : HelmState W
    pub node : Node (HelmState W)
    pub init_done : outside init_k8s_client s ≡ (done tt, started)
    pub method_known : known_deploy_method t.deploy_method ≡ true
    pub action_known : known_action (action_of m) ≡ true
    pub created : create_node (nodes api host) t.deploy_method t.namespace t.node t.chain ≡ ok node
    pub executed : execute node m started ≡ (done tt, v)

  -- A subcommand whose exit code is 0 has begun with a client, was given a deploy method and an
  -- action that are known, and its work on the node of that deploy method returned no error; the
  -- state it ends in is that of the work.
  pub subcommand-done :
      (t : Target) (m : Command) (s v : HelmState W)
      → subcommand api host describe init_k8s_client t m s ≡ (done 0, v)
      → Worked t m s v
  unfolding subcommand subcommand_work
  subcommand-done t m s v e =
      let worked = caught-done (subcommand_work api host describe init_k8s_client t m s) v e in
      let init = continue-done (outside init_k8s_client s) _ tt v worked in
      let method = continue-done (lift (deploy_method_of m t.deploy_method) init.1) _ tt v init.3 in
      let action = continue-done (lift (check_action (action_of m)) method.1) _ tt v method.3 in
      let creation =
        continue-done
          (lift (create_node (nodes api host) method.0 t.namespace t.node t.chain) action.1) _ tt v
          action.3 in
      let method_of =
        lift-done (deploy_method_of m t.deploy_method) init.1 method.0 method.1 method.2 in
      let checked = lift-done (check_action (action_of m)) method.1 action.0 action.1 action.2 in
      let made =
        lift-done (create_node (nodes api host) method.0 t.namespace t.node t.chain) action.1
          creation.0 creation.1 creation.2 in
      let is_known = created-known m t method.0 creation.0 method_of.0 made.0 in
      record {
        started = init.1;
        node = creation.0;
        init_done = init.2;
        method_known = is_known.0;
        action_known = check_action-known (action_of m) action.0 checked.0;
        created =
            ap (λ (d : String). create_node (nodes api host) d t.namespace t.node t.chain)
              (sym is_known.1)
            ∙ made.0;
        executed =
            ap (execute creation.0 m) (method_of.1 ∙ checked.1 ∙ made.1)
            ∙ log_to_pod-done (execute creation.0 m) creation.1 v creation.3;
      }

  -- The part of the work after the client, from its first result.
  abbrev after_method : Target → Command → Result DeployMethod → Exec (HelmState W) ℕ
  after_method t m r u =
      continue
        (caught (
          (lift r >>= λ dm.
          lift (check_action (action_of m))
          >> (lift (create_node (nodes api host) dm t.namespace t.node t.chain) >>= λ node.
              log_to_pod api host describe init_k8s_client (execute node m)))
            u))
        (λ result. pure (exit_code result))

  action-refused :
      (t : Target) (m : Command) (r : Result DeployMethod) (u : HelmState W)
      → known_action (action_of m) ≡ false
      → after_method t m r u ≡ (done 1, u)
  action-refused t m (ok dm) u e = rw e refl
  action-refused t m (err x) u e = refl

  empty-refused :
      (t : Target) (m : Command) (u : HelmState W)
      → known_action (action_of m) ≡ true
      → after_method t m (ok "") u ≡ (done 1, u)
  unfolding create_node nodes lookup insert register
  empty-refused t m u e = rw e refl

  -- With flags that are not known a subcommand that gets a client ends with the exit code 1, and
  -- nothing is done beside getting the client.
  pub subcommand-unknown :
      (t : Target) (m : Command) (s u : HelmState W)
      → outside init_k8s_client s ≡ (done tt, u)
      → (known_deploy_method t.deploy_method && known_action (action_of m)) ≡ false
      → subcommand api host describe init_k8s_client t m s ≡ (done 1, u)
  unfolding subcommand subcommand_work
  subcommand-unknown t m s u init unknown =
      rw init (elim (Bool-cases (known_action (action_of m))) [
        | inl known ↦ elim (method-unknown m t.deploy_method (ground arith)) [
          | inl e ↦ rw e refl
          | inr e ↦ rw e (empty-refused t m u known)
        ]
        | inr other ↦ action-refused t m (deploy_method_of m t.deploy_method) u other
      ])
