-- ===== src/Node/CloudConfig/Account.antt =====
-- A node of its own StatefulSet keeps the contract of nodes, beside another such node.
use cita_node_operator.Base.{String, ◌≡◌, refl, ap, ◌∙◌, fun_ext, ◌⊎◌, inl, inr, false}
use cita_node_operator.Base.{Option, none, some, Exec, arith}
use cita_node_operator.Base.Effects.{deref, ◌>>=◌}
use cita_node_operator.Base.Hoare.{Triple, Triple-bind, Triple-map, Triple-pre, Keeps}
use cita_node_operator.Host.{Host}
use cita_node_operator.Kube.{NamespacedName, same_key, Workload, WorkloadSpec, Api}
use cita_node_operator.Kube.Laws.{Specs, ApiLaws}
use cita_node_operator.Kube.Edits.{edit_workload, Edited, MaybeEdited, edit_workload_again}
use cita_node_operator.Node.Contract.{View, At, Contract, scaled, renamed}
use cita_node_operator.Node.CloudConfig.{
  CloudConfigNode, key, find_account, set_account, update_account, new_cloud_config_node,
  update_account_configmap, get_account_configmap, stop, start, check_stopped,
}
use cita_node_operator.Kube.Edits.{with_replicas}
use cita_node_operator.Node.CloudConfig.Scaling.{stop_lem, start_once, check_stopped_lem}
use cita_node_operator.Node.CloudConfig.Views.{
  find_account-account_in, with_account, with_account-IsIdempotent, view_of, view_at,
  view_of-with_replicas, view_of-with_account, view_at-Edited, view_at-other,
}

module _ {W : Type 0} (api : Api W) (L : ApiLaws api) (host : Host W) (c : CloudConfigNode)
    (other : NamespacedName) (apart : same_key (key c) other ≡ false) where
  abbrev Seen : View → View → W → Type 0
  Seen = At (λ w. view_at (key c) (L.stateful_sets w)) (λ w. view_at other (L.stateful_sets w))

  Seen-same :
      (a b : View) (w v : W) → Seen a b w → L.stateful_sets v ≡ L.stateful_sets w → Seen a b v
  Seen-same a b w v h e = rw e h

  module _ (edit : WorkloadSpec → Option WorkloadSpec) (change : View → View)
      (step : (s t : WorkloadSpec) (a : View)
        → edit s ≡ some t
        → view_of s ≡ some a
        → view_of t ≡ some (change a)) where
    Seen-Edited :
        (a b : View) (w v : W)
        → Seen a b w
        → Edited (key c) edit (L.stateful_sets w) (L.stateful_sets v)
        → Seen (change a) b v
    Seen-Edited a b w v h p = (
      view_at-Edited (key c) edit change step _ _ a p h.0,
      view_at-other (key c) other edit _ _ apart p ∙ h.1,
    )

    -- From what an operation does to the specifications to what is seen of it.
    Seen-Triple :
        (m : Exec W Unit)
        → ((f : Specs)
            → Triple
                (λ w. L.stateful_sets w ≡ f)
                m
                (λ _ w. Edited (key c) edit f (L.stateful_sets w))
                (λ w. MaybeEdited (key c) edit f (L.stateful_sets w)))
        → (a b : View)
        → Triple (Seen a b) m (λ _. Seen (change a) b) (λ w. Seen a b w ⊎ Seen (change a) b w)
    Seen-Triple m law a b = record {
      run = λ w h.
          (Triple-map (law (L.stateful_sets w)) (λ _ v p. Seen-Edited a b w v h p)
              (λ v p. elim p [
                | inl e ↦ inl (Seen-same a b w v h e)
                | inr q ↦ inr (Seen-Edited a b w v h q)
              ])).run
            w refl;
    }

  deref-map :
      {A B : Type 0} (o : Option A) (g : A → B) (k : B → Exec W Unit)
      → (deref (elim o [ none ↦ none | some x ↦ some (g x) ]) >>= k) ≡ (deref o >>= λ x. k (g x))
  deref-map none g k = refl
  deref-map (some x) g k = refl

  update_account-edit_workload :
      (x : String)
      → edit_workload (key c) (with_account x) L.stateful_set_laws ≡ update_account api host c x
  unfolding update_account
  update_account-edit_workload x =
      ap (λ (k : Workload → Exec W Unit). api.get_stateful_set (key c) >>= k)
        (fun_ext λ sts.
          deref-map (set_account x sts.spec.volumes)
            (λ volumes. let spec = sts.spec in record spec { volumes = volumes })
            (λ spec. api.update_stateful_set (record sts { spec = spec })))

  update_account_lem :
      (x : String) (f : Specs)
      → Triple
          (λ w. L.stateful_sets w ≡ f)
          (update_account_configmap api host c x)
          (λ _ w. Edited (key c) (with_account x) f (L.stateful_sets w))
          (λ w. MaybeEdited (key c) (with_account x) f (L.stateful_sets w))
  unfolding update_account_configmap
  update_account_lem x f =
      Triple-pre (λ w h. inl h)
        (L.retry_law _ _ _ (
          rw (update_account-edit_workload x) at (
            edit_workload_again (key c) (with_account x) L.stateful_set_laws f
              (with_account-IsIdempotent x))))

  check_stopped-Seen : (a b : View) → Keeps (Seen a b) (check_stopped api host c)
  check_stopped-Seen a b = record {
    run = λ w h.
        (Triple-map (check_stopped_lem api L host c (L.stateful_sets w)) (λ _ v e. rw e.0 h)
            (λ v e. rw e h)).run
          w refl;
  }

  find_account-view_of :
      (spec : WorkloadSpec) (a : View)
      → view_of spec ≡ some a
      → find_account spec.volumes ≡ some a.account
  unfolding view_of
  find_account-view_of spec a h = ground (arith, find_account-account_in spec.volumes a.account)

  view_at-some :
      (k : NamespacedName) (f : Specs) (spec : WorkloadSpec) (a : View)
      → f k ≡ some spec
      → view_at k f ≡ some a
      → view_of spec ≡ some a
  unfolding view_at
  view_at-some k f spec a e h = rw (e, view_at) at h

  get_account-Seen :
      (a b : View)
      → Triple
          (Seen a b)
          (get_account_configmap api host c)
          (λ x w. Seen a b w × (x ≡ a.account))
          (Seen a b)
  unfolding get_account_configmap
  get_account-Seen a b = record {
    run = λ w h.
        (Triple-bind
            (Triple-map (L.stateful_set_laws.get_law (L.stateful_sets w) (key c)) (λ x v e. e)
              (λ v e. Seen-same a b w v h e))
            (λ x. record {
              run = λ v e.
                  rw
                    (find_account-view_of x.spec a
                      (view_at-some (key c) (L.stateful_sets w) x.spec a e.1 h.0))
                    (Seen-same a b w v h e.0, refl);
            })).run
          w refl;
  }

  -- The methods of a node of its own StatefulSet keep the contract of nodes, beside the node of
  -- another StatefulSet: each changes the replicas or the account of its own node alone.
  pub new_cloud_config_node-Contract :
      Contract
        (λ w. view_at (key c) (L.stateful_sets w))
        (λ w. view_at other (L.stateful_sets w))
        (new_cloud_config_node api host c)
  unfolding new_cloud_config_node
  new_cloud_config_node-Contract = record {
    stop_law =
        Seen-Triple (with_replicas 0) (scaled 0) (view_of-with_replicas 0) (stop api host c)
          (stop_lem api L host c);
    start_law =
        Seen-Triple (with_replicas 1) (scaled 1) (view_of-with_replicas 1) (start api host c)
          (start_once api L host c);
    check_stopped_law = check_stopped-Seen;
    get_account_law = get_account-Seen;
    update_account_law = λ a b x.
        Seen-Triple (with_account x) (renamed x) (view_of-with_account x)
          (update_account_configmap api host c x) (update_account_lem x) a b;
  }
