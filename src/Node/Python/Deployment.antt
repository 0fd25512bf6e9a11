-- ===== src/Node/Python/Deployment.antt =====
-- Every subcommand on a node that is a Deployment: what it does to the Deployments of the cluster.
use cita_node_operator.Base.{
  ℕ, String, ◌≡◌, refl, ◌⊎◌, inl, inr, Bool, true, false, Option, Exec, ◌==◌,
}
use cita_node_operator.Base.{[], ◌∷◌, Dict, Result, ok, err}
use cita_node_operator.Base.Effects.{panic, ◌>>=◌, ◌>>◌}
use cita_node_operator.Base.Hoare.{
  Triple, Triple-bind, Triple-map, Triple-try, Triple-pure, Caught, Keeps, keeps_rules,
}
use cita_node_operator.Base.Text.Decimal.{format_int}
use cita_node_operator.Host.{Host}
use cita_node_operator.Kube.{Api}
use cita_node_operator.Kube.Laws.{Specs, ApiLaws}
use cita_node_operator.Kube.Edits.{Edited, MaybeEdited, with_replicas, rescaled, edit_workload_lem}
use cita_node_operator.Behavior
use cita_node_operator.Behavior.Frame.{
  Leaves, ensure_dir-Keeps, backup-Keeps, restore-Keeps, snapshot-Keeps, fallback-Keeps,
  change_owner-Keeps,
}
use cita_node_operator.Common.{CompressOptions}
use cita_node_operator.Base.Int.{ℤ}
use cita_node_operator.Node.Common.{
  Action, around, ensure_dir, add_annotations, stop_and_start, backup_source_volume_path,
  backup_dest_volume_path,
}
use cita_node_operator.Node.Python
use cita_node_operator.Node.Python.{
  PyNode, key, scale, stop, start, no_pod_left, has_stopped, timed_out, check_stopped, below,
  new_py_node,
}
use cita_node_operator.Cmd.{
  Command, backup, restore, fallback, snapshot, snapshot_recover, chown, action_of, execute,
}

module _ {W : Type 0} (api : Api W) (L : ApiLaws api) (host : Host W) (p : PyNode) where
  abbrev Are : Specs → W → Type 0
  Are f w = L.deployments w ≡ f

  -- The Deployment of the node has `n` replicas in `g`, and all else is as in `f`.
  abbrev pub Resized : ℕ → Specs → Specs → Type 0
  Resized n = Edited (key p) (with_replicas n)

  -- After an operation that fails: as before, or scaled to 0, or to 1 again.
  abbrev pub MaybeResized : Specs → Specs → Type 0
  MaybeResized f g = MaybeEdited (key p) (with_replicas 0) f g ⊎ Resized 1 f g

  scale_lem :
      (n : ℕ) (f : Specs)
      → Triple
          (Are f)
          (scale api host p n)
          (λ _ w. Resized n f (L.deployments w))
          (λ w. MaybeEdited (key p) (with_replicas n) f (L.deployments w))
  unfolding scale
  scale_lem n f = edit_workload_lem (key p) (with_replicas n) L.deployment_laws f

  has_stopped-Keeps : (f : Specs) → Keeps (Are f) (has_stopped api host p)
  unfolding has_stopped no_pod_left
  has_stopped-Keeps f =
      Triple-bind (Triple-map (L.deployment_laws.get_law f (key p)) (λ x w h. h.0) (λ w h. h))
        λ x. search (keeps_rules, L.list_pods_keeps)

  check_stopped-Keeps : (f : Specs) → Keeps (Are f) (check_stopped api host p)
  unfolding check_stopped timed_out
  check_stopped-Keeps f =
      Triple-bind
        (Triple-try (
          L.poll_deployment_law (λ _. Unit) 3 60 (has_stopped api host p) f
            (Triple-map (has_stopped-Keeps f) (λ b w e. (e, λ _. tt)) (λ w e. e))))
        polled
    where
      polled :
          (r : Result (Unit {0}))
          → Triple
              (Caught (λ _ w. Are f w × Unit) (Are f) r)
              (timed_out api host p r)
              (λ _. Are f)
              (Are f)
      polled (ok _) = record { run = λ w h. h.0 }
      polled (err _) = record { run = λ w h. h }

  start_again :
      (f : Specs)
      → Triple
          (λ w. Resized 0 f (L.deployments w))
          (scale api host p 1)
          (λ _ w. Resized 1 f (L.deployments w))
          (λ w. MaybeResized f (L.deployments w))
  start_again f = record {
    run = λ w q.
        (Triple-map (scale_lem 1 (L.deployments w)) (λ _ v r. rescaled 0 1 q r)
            (λ v e. elim e [
              | inl same ↦ inl (inr (rw same q))
              | inr r ↦ inr (rescaled 0 1 q r)
            ])).run
          w refl;
  }

  -- What keeps every specification keeps the one change that was made before.
  while_stopped :
      {m : Exec W Unit} (f : Specs)
      → ((g : Specs) → Keeps (Are g) m)
      → Keeps (λ w. Resized 0 f (L.deployments w)) m
  while_stopped f k = record {
    run = λ w q. (Triple-map (k (L.deployments w)) (λ _ v e. rw e q) (λ v e. rw e q)).run w refl;
  }

  -- The flag says whether the action is `StopAndStart`.
  abbrev pub Succeeded : Bool → Specs → Specs → Type 0
  Succeeded true f g = Resized 1 f g
  Succeeded false f g = g ≡ f

  abbrev pub Failed : Bool → Specs → Specs → Type 0
  Failed true f g = MaybeResized f g
  Failed false f g = g ≡ f

  module _ (action : Action) (body : Exec W Unit) (k : (g : Specs) → Keeps (Are g) body) where
    abbrev around_body : Exec W Unit
    around_body = around action (stop api host p) (check_stopped api host p) (start api host p) body

    around_resizes :
        (f : Specs) (b : Bool)
        → (action == stop_and_start) ≡ b
        → Triple
            (Are f)
            around_body
            (λ _ w. Succeeded b f (L.deployments w))
            (λ w. Failed b f (L.deployments w))
    unfolding around stop start
    around_resizes f true same = rw same (
        Triple-bind
          (Triple-bind (Triple-map (scale_lem 0 f) (λ _ w q. q) (λ w q. inl q))
            λ _. Triple-map (while_stopped f check_stopped-Keeps) (λ _ w q. q) (λ w q. inl (inr q)))
          λ _.
            Triple-bind (Triple-map (while_stopped f k) (λ _ w q. q) (λ w q. inl (inr q)))
              λ _. start_again f)
    around_resizes f false other = rw other (Triple-bind (k f) λ _. Triple-pure tt λ w e. e)

  -- A panic changes nothing.
  not_implemented :
      (f : Specs) (b : Bool)
      → Triple {A = Unit}
          (Are f)
          (panic "implement me")
          (λ _ w. Succeeded b f (L.deployments w))
          (λ w. Failed b f (L.deployments w))
  not_implemented f true = record { run = λ w e. inl (inl e) }
  not_implemented f false = record { run = λ w e. e }

  add_annotations-Keeps :
      (annotations : Dict String) (f : Specs) → Keeps (Are f) (add_annotations api annotations)
  unfolding add_annotations
  add_annotations-Keeps annotations f =
      search (keeps_rules, L.get_pod_keeps_too, L.update_pod_keeps_too)

  -- The part of `Backup`, and of `Snapshot`, between the stop and the start.
  abbrev backup_work : String → String → Option CompressOptions → Exec W Unit
  backup_work source_path dest_path options = do
    ensure_dir host dest_path
    result ← Behavior.backup host source_path dest_path options
    add_annotations api (("backup-size", format_int result.size) ∷ ("md5", result.md5) ∷ [])

  abbrev snapshot_work : ℤ → String → String → Exec W Unit
  snapshot_work block_height crypto consensus = do
    snapshot_size ←
        Behavior.snapshot host block_height (below api host p backup_source_volume_path)
          (below api host p backup_source_volume_path) backup_dest_volume_path crypto consensus
    add_annotations api (("snapshot-size", format_int snapshot_size) ∷ [])

  module _ (leaves : (f : Specs) → Leaves host (λ w. L.deployments w ≡ f)) where
    backup_work-Keeps :
        (source_path dest_path : String) (options : Option CompressOptions) (f : Specs)
        → Keeps (Are f) (backup_work source_path dest_path options)
    backup_work-Keeps source_path dest_path options f = search (
      keeps_rules,
      ensure_dir-Keeps host (leaves f),
      backup-Keeps host (leaves f),
      add_annotations-Keeps,
    )

    snapshot_work-Keeps :
        (block_height : ℤ) (crypto consensus : String) (f : Specs)
        → Keeps (Are f) (snapshot_work block_height crypto consensus)
    snapshot_work-Keeps block_height crypto consensus f =
        search (keeps_rules, snapshot-Keeps host (leaves f), add_annotations-Keeps)

    -- Any subcommand on a node of the kind "python" with `StopAndStart` that succeeds leaves the
    -- Deployment of the node with one replica and changes no other Deployment; one that fails or
    -- panics leaves the Deployments as they were, or changes only the number of replicas of its
    -- node, to 0 or to 1. With another action no Deployment is changed, however it ends. The
    -- machine's commands and files do not change Deployments.
    pub execute-Resized :
        (f : Specs) (m : Command)
        → Triple
            (λ w. L.deployments w ≡ f)
            (execute (new_py_node api host p) m)
            (λ _ w. Succeeded (action_of m == stop_and_start) f (L.deployments w))
            (λ w. Failed (action_of m == stop_and_start) f (L.deployments w))
    unfolding execute new_py_node Python.backup Python.restore Python.fallback Python.snapshot
        Python.change_owner
    execute-Resized f (backup action source_path dest_path options) =
        around_resizes action (backup_work source_path dest_path options)
          (backup_work-Keeps source_path dest_path options) f _ refl
    execute-Resized f (restore action source_path dest_path options delete) =
        around_resizes action _ (λ g. restore-Keeps host (leaves g) _ _ _ _) f _ refl
    execute-Resized f (fallback action block_height crypto consensus delete) =
        around_resizes action _ (λ g. fallback-Keeps host (leaves g) _ _ _ _ _ _) f _ refl
    execute-Resized f (snapshot action block_height crypto consensus) =
        around_resizes action (snapshot_work block_height crypto consensus)
          (snapshot_work-Keeps block_height crypto consensus) f _ refl
    execute-Resized f (snapshot_recover action block_height crypto consensus delete) =
        not_implemented f (action == stop_and_start)
    execute-Resized f (chown action uid gid) =
        around_resizes action _ (λ g. change_owner-Keeps host (leaves g) _ _ _) f _ refl
