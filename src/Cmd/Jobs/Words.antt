-- ===== src/Cmd/Jobs/Words.antt =====
-- The words of a job are read as the flags of its subcommand.
use cita_node_operator.Base.{
  String, ◌==◌, ◌≡◌, refl, Bool, true, false, Option, none, some, List, Dict,
}
use cita_node_operator.Base.{lookup, Result}
use cita_node_operator.Base.Int.{IsInt64}
use cita_node_operator.Cmd.Flags.{
  Value, CobraLaws, Runs, text_of, number_of, switch_of, subcommands,
}
use cita_node_operator.Cmd.Flags.Reads.{
  read_end, read_text, read_number, read_switch, invocation_lem,
}
use cita_node_operator.Cmd.Jobs.{
  backup_run, duplicate_run, recover_run, restore_run, snapshot_run, snapshot_recover_run,
  fallback_run, chown_run, switchover_run,
}
use cita_node_operator.Controllers.Backup.{Backup, backup_args}
use cita_node_operator.Controllers.Snapshot.{Snapshot, snapshot_args}
use cita_node_operator.Controllers.Duplicate.{Duplicate, Compress, duplicate_args}
use cita_node_operator.Controllers.Recover.{Recover, Backend, Decompress, recover_args}
use cita_node_operator.Controllers.Restore.{Restore, build_args_for_file, build_args_for_snapshot}
use cita_node_operator.Controllers.ChangeOwner.{ChangeOwner, chown_args}
use cita_node_operator.Controllers.Switchover.{Switchover, switchover_args}
use cita_node_operator.Controllers.Fallback.{BlockHeightFallback}
use cita_node_operator.Controllers.Fallback.Job.{build_args}

module _ {parse : Dict Value → List String → Result (Dict Value)} (L : CobraLaws parse) where
  pub backup_args-Runs : (b : Backup) → Runs parse (backup_args b) (backup_run b)
  unfolding lookup text_of switch_of subcommands
  backup_args-Runs b =
      invocation_lem L "backup" refl (search (read_text L, read_switch L, read_end L) depth 20)

  pub duplicate_args-Runs :
      (d : Duplicate) (backend : Backend) (source : String)
      → Runs parse (duplicate_args d backend source) (duplicate_run d backend source)
  unfolding lookup text_of switch_of subcommands
  duplicate_args-Runs d backend source = go d.spec.compress refl
    where
      go :
          (o : Option Compress)
          → d.spec.compress ≡ o
          → Runs parse (duplicate_args d backend source) (duplicate_run d backend source)
      go none e = rw e (
          invocation_lem L "backup" refl (search (read_text L, read_switch L, read_end L) depth 20))
      go (some c) e = rw e (
          invocation_lem L "backup" refl (search (read_text L, read_switch L, read_end L) depth 20))

  pub recover_args-Runs :
      (r : Recover) (backend : Backend)
      → Runs parse (recover_args r backend) (recover_run r backend)
  unfolding lookup text_of switch_of subcommands
  recover_args-Runs r backend = go r.spec.decompress r.spec.delete_consensus_data refl refl
    where
      go :
          (o : Option Decompress) (delete : Bool)
          → r.spec.decompress ≡ o
          → r.spec.delete_consensus_data ≡ delete
          → Runs parse (recover_args r backend) (recover_run r backend)
      go none true e f =
          rw (e, f)
            (invocation_lem L "restore" refl
              (search (read_text L, read_switch L, read_end L) depth 20))
      go none false e f =
          rw (e, f)
            (invocation_lem L "restore" refl
              (search (read_text L, read_switch L, read_end L) depth 20))
      go (some d) true e f =
          rw (e, f)
            (invocation_lem L "restore" refl
              (search (read_text L, read_switch L, read_end L) depth 20))
      go (some d) false e f =
          rw (e, f)
            (invocation_lem L "restore" refl
              (search (read_text L, read_switch L, read_end L) depth 20))

  pub build_args_for_file-Runs : (r : Restore) → Runs parse (build_args_for_file r) (restore_run r)
  unfolding build_args_for_file lookup text_of switch_of subcommands
  build_args_for_file-Runs r = go r.spec.delete_consensus_data refl
    where
      go :
          (delete : Bool)
          → r.spec.delete_consensus_data ≡ delete
          → Runs parse (build_args_for_file r) (restore_run r)
      go true f = rw f (
          invocation_lem L "restore" refl
            (search (read_text L, read_switch L, read_end L) depth 20))
      go false f = rw f (
          invocation_lem L "restore" refl
            (search (read_text L, read_switch L, read_end L) depth 20))

  pub snapshot_args-Runs :
      (s : Snapshot) (crypto consensus : String)
      → IsInt64 s.spec.block_height
      → Runs parse (snapshot_args s crypto consensus) (snapshot_run s crypto consensus)
  unfolding lookup text_of number_of subcommands
  snapshot_args-Runs s crypto consensus range = go (crypto == "") refl
    where
      go :
          (b : Bool)
          → (crypto == "") ≡ b
          → Runs parse (snapshot_args s crypto consensus) (snapshot_run s crypto consensus)
      go true e = rw e (
          invocation_lem L "snapshot" refl
            (search (read_text L, read_number L, read_switch L, read_end L) depth 20))
      go false e = rw e (
          invocation_lem L "snapshot" refl
            (search (read_text L, read_number L, read_switch L, read_end L) depth 20))

  pub build_args_for_snapshot-Runs :
      (r : Restore) (s : Snapshot) (crypto consensus : String)
      → IsInt64 s.spec.block_height
      → Runs parse
          (build_args_for_snapshot r s crypto consensus)
          (snapshot_recover_run r s crypto consensus)
  unfolding build_args_for_snapshot lookup text_of number_of switch_of subcommands
  build_args_for_snapshot-Runs r s crypto consensus range =
      go (crypto == "") r.spec.delete_consensus_data refl refl
    where
      go :
          (no_crypto delete : Bool)
          → (crypto == "") ≡ no_crypto
          → r.spec.delete_consensus_data ≡ delete
          → Runs parse
              (build_args_for_snapshot r s crypto consensus)
              (snapshot_recover_run r s crypto consensus)
      go true true e f =
          rw (e, f)
            (invocation_lem L "snapshot-recover" refl
              (search (read_text L, read_number L, read_switch L, read_end L) depth 20))
      go true false e f =
          rw (e, f)
            (invocation_lem L "snapshot-recover" refl
              (search (read_text L, read_number L, read_switch L, read_end L) depth 20))
      go false true e f =
          rw (e, f)
            (invocation_lem L "snapshot-recover" refl
              (search (read_text L, read_number L, read_switch L, read_end L) depth 20))
      go false false e f =
          rw (e, f)
            (invocation_lem L "snapshot-recover" refl
              (search (read_text L, read_number L, read_switch L, read_end L) depth 20))

  pub build_args-Runs :
      (b : BlockHeightFallback) (crypto consensus : String)
      → IsInt64 b.spec.block_height
      → Runs parse (build_args b crypto consensus) (fallback_run b crypto consensus)
  unfolding build_args lookup text_of number_of switch_of subcommands
  build_args-Runs b crypto consensus range =
      go (crypto == "") b.spec.delete_consensus_data refl refl
    where
      go :
          (no_crypto delete : Bool)
          → (crypto == "") ≡ no_crypto
          → b.spec.delete_consensus_data ≡ delete
          → Runs parse (build_args b crypto consensus) (fallback_run b crypto consensus)
      go true true e f =
          rw (e, f)
            (invocation_lem L "fallback" refl
              (search (read_text L, read_number L, read_switch L, read_end L) depth 20))
      go true false e f =
          rw (e, f)
            (invocation_lem L "fallback" refl
              (search (read_text L, read_number L, read_switch L, read_end L) depth 20))
      go false true e f =
          rw (e, f)
            (invocation_lem L "fallback" refl
              (search (read_text L, read_number L, read_switch L, read_end L) depth 20))
      go false false e f =
          rw (e, f)
            (invocation_lem L "fallback" refl
              (search (read_text L, read_number L, read_switch L, read_end L) depth 20))

  pub chown_args-Runs :
      (o : ChangeOwner)
      → IsInt64 o.spec.uid
      → IsInt64 o.spec.gid
      → Runs parse (chown_args o) (chown_run o)
  unfolding lookup text_of number_of subcommands
  chown_args-Runs o user group =
      invocation_lem L "chown" refl
        (search (read_text L, read_number L, read_switch L, read_end L) depth 20)

  pub switchover_args-Runs : (s : Switchover) → Runs parse (switchover_args s) (switchover_run s)
  unfolding lookup text_of subcommands
  switchover_args-Runs s =
      invocation_lem L "switchover" refl (search (read_text L, read_switch L, read_end L) depth 20)
