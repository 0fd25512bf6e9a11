-- ===== src/Node/CloudConfig/Commands.antt =====
-- Every subcommand on a node of its own StatefulSet: what it does to the cluster's
-- specifications, as it succeeds and as it fails.
use cita_node_operator.Base.{String, ◌≡◌, refl, ◌⊎◌, Bool, true, false, Exec, ◌==◌}
use cita_node_operator.Base.{[], ◌∷◌, Dict}
use cita_node_operator.Base.Effects.{◌>>=◌, ◌>>◌}
use cita_node_operator.Base.Int.{pos}
use cita_node_operator.Base.Hoare.{Triple, Triple-map, Keeps, keeps_rules}
use cita_node_operator.Base.Text.Decimal.{format_int}
use cita_node_operator.Host.{Host}
use cita_node_operator.Kube.{Api}
use cita_node_operator.Kube.Laws.{Specs, ApiLaws}
use cita_node_operator.Behavior
use cita_node_operator.Behavior.Frame.{
  Leaves, ensure_dir-Keeps, backup-Keeps, restore-Keeps, snapshot-Keeps, snapshot_recover-Keeps,
  fallback-Keeps, change_owner-Keeps,
}
use cita_node_operator.Node.Common.{around, ensure_dir, add_annotations, stop_and_start}
use cita_node_operator.Node.CloudConfig
use cita_node_operator.Node.CloudConfig.{CloudConfigNode, new_cloud_config_node}
use cita_node_operator.Node.CloudConfig.{stop, start, check_stopped}
use cita_node_operator.Node.CloudConfig.Scaling.{
  Scaled, MaybeScaled, Stopped, around_direct, around_scales, around_fails,
}
use cita_node_operator.Cmd.{
  Command, backup, restore, fallback, snapshot, snapshot_recover, chown, action_of, execute,
}

module _ {W : Type 0} (api : Api W) (L : ApiLaws api) (host : Host W) (c : CloudConfigNode) where
  -- The part of a subcommand between the stop and the start.
  abbrev pub file_work : Command → Exec W Unit
  file_work (backup _ source_path dest_path options) = do
    ensure_dir host dest_path
    result ← Behavior.backup host source_path dest_path options
    add_annotations api (("backup-size", format_int result.size) ∷ ("md5", result.md5) ∷ [])
  file_work (restore _ source_path dest_path options delete) =
      Behavior.restore host source_path dest_path options delete
  file_work (fallback _ block_height crypto consensus delete) =
      Behavior.fallback host block_height "/mnt" "/cita-config" crypto consensus delete
  file_work (snapshot _ block_height crypto consensus) = do
    size ←
        Behavior.snapshot host block_height "/backup-source" "/cita-config" "/backup-dest" crypto
          consensus
    add_annotations api (("snapshot-size", format_int size) ∷ [])
  file_work (snapshot_recover _ block_height crypto consensus delete) = do
    Behavior.snapshot_recover host block_height "/restore-dest" "/cita-config" "/restore-source"
        crypto consensus delete
    Behavior.change_owner host (pos 1000) (pos 1000) "/restore-dest"
  file_work (chown _ uid gid) = Behavior.change_owner host uid gid "/change-owner"

  execute-around :
      (m : Command)
      → execute (new_cloud_config_node api host c) m
        ≡ around
            (action_of m)
            (stop api host c)
            (check_stopped api host c)
            (start api host c)
            (file_work m)
  unfolding execute new_cloud_config_node CloudConfig.backup CloudConfig.restore
      CloudConfig.fallback CloudConfig.snapshot CloudConfig.snapshot_recover
      CloudConfig.change_owner
  execute-around (backup _ _ _ _) = refl
  execute-around (restore _ _ _ _ _) = refl
  execute-around (fallback _ _ _ _ _) = refl
  execute-around (snapshot _ _ _ _) = refl
  execute-around (snapshot_recover _ _ _ _ _) = refl
  execute-around (chown _ _ _) = refl

  add_annotations-Keeps :
      (f : Specs) (annotations : Dict String)
      → Keeps (λ w. L.stateful_sets w ≡ f) (add_annotations api annotations)
  unfolding add_annotations
  add_annotations-Keeps f annotations = search (keeps_rules, L.get_pod_keeps, L.update_pod_keeps)

  -- The specifications after a subcommand that succeeds, and after one that fails. The flag says
  -- whether the action is `StopAndStart`.
  abbrev pub Succeeded : Bool → Specs → Specs → Type 0
  Succeeded true f g = Scaled api L host c 1 f g
  Succeeded false f g = g ≡ f

  abbrev pub Failed : Bool → Specs → Specs → Type 0
  Failed true f g = MaybeScaled api L host c 0 f g ⊎ Scaled api L host c 1 f g
  Failed false f g = g ≡ f

  module _ (leaves : (f : Specs) → Leaves host (λ w. L.stateful_sets w ≡ f)) where
    -- Neither the work on files nor the annotations change a specification.
    file_work-Keeps : (f : Specs) (m : Command) → Keeps (λ w. L.stateful_sets w ≡ f) (file_work m)
    file_work-Keeps f (backup _ source_path dest_path options) = search (
      keeps_rules,
      ensure_dir-Keeps host (leaves f),
      backup-Keeps host (leaves f),
      add_annotations-Keeps,
    )
    file_work-Keeps f (restore _ source_path dest_path options delete) =
        restore-Keeps host (leaves f) _ _ _ _
    file_work-Keeps f (fallback _ block_height crypto consensus delete) =
        fallback-Keeps host (leaves f) _ _ _ _ _ _
    file_work-Keeps f (snapshot _ block_height crypto consensus) =
        search (keeps_rules, snapshot-Keeps host (leaves f), add_annotations-Keeps)
    file_work-Keeps f (snapshot_recover _ block_height crypto consensus delete) =
        search
          (keeps_rules, snapshot_recover-Keeps host (leaves f), change_owner-Keeps host (leaves f))
    file_work-Keeps f (chown _ uid gid) = change_owner-Keeps host (leaves f) _ _ _

    -- Any subcommand with `StopAndStart` that succeeds leaves the StatefulSet of its node with one
    -- replica and changes no other specification; one that fails leaves the specifications as
    -- they were, or changes only the number of replicas of its node, to 0 or to 1. With another
    -- action no specification is changed, whether it succeeds or fails. The machine's commands
    -- and files do not change specifications.
    pub execute-Scaled :
        (f : Specs) (m : Command)
        → Triple
            (λ w. L.stateful_sets w ≡ f)
            (execute (new_cloud_config_node api host c) m)
            (λ _ w. Succeeded (action_of m == stop_and_start) f (L.stateful_sets w))
            (λ w. Failed (action_of m == stop_and_start) f (L.stateful_sets w))
    execute-Scaled f m = rw (execute-around m) (go (action_of m == stop_and_start) refl)
      where
        while_stopped :
            Triple
              (Stopped api L host c f)
              (file_work m)
              (λ _ w. Scaled api L host c 0 f (L.stateful_sets w))
              (λ w. Scaled api L host c 0 f (L.stateful_sets w))
        while_stopped = record {
          run = λ w h.
              (Triple-map (file_work-Keeps (L.stateful_sets w) m) (λ _ v e. rw e h.0)
                  (λ v e. rw e h.0)).run
                w refl;
        }

        go :
            (b : Bool)
            → (action_of m == stop_and_start) ≡ b
            → Triple
                (λ w. L.stateful_sets w ≡ f)
                (around
                  (action_of m)
                  (stop api host c)
                  (check_stopped api host c)
                  (start api host c)
                  (file_work m))
                (λ _ w. Succeeded b f (L.stateful_sets w))
                (λ w. Failed b f (L.stateful_sets w))
        go true e = around_scales api L host c (action_of m) (file_work m) f e while_stopped
        go false e =
            around_direct api L host c (action_of m) (file_work m) f e (file_work-Keeps f m)

  -- If the work on files of a subcommand with `StopAndStart` never succeeds, and leaves the
  -- StatefulSet scaled to 0, neither does the subcommand: and then the node is not started again,
  -- the specifications are as they were or differ by the 0 replicas of the node alone.
  pub execute_failed :
      (f : Specs) (m : Command)
      → (action_of m == stop_and_start) ≡ true
      → Triple
          (Stopped api L host c f)
          (file_work m)
          (λ _ _. ⊥)
          (λ w. Scaled api L host c 0 f (L.stateful_sets w))
      → Triple
          (λ w. L.stateful_sets w ≡ f)
          (execute (new_cloud_config_node api host c) m)
          (λ _ _. ⊥)
          (λ w. MaybeScaled api L host c 0 f (L.stateful_sets w))
  execute_failed f m same k =
      rw (execute-around m) (around_fails api L host c (action_of m) (file_work m) f same k)
