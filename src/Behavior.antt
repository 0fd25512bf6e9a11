-- ===== src/Behavior.antt =====
-- pkg/node/behavior: what a job does to the files of a node, by shell commands and the file system.
pub mod Consensus
pub mod Checksum
pub mod Frame
pub mod Size
use cita_node_operator.Base.{String, ◌<>◌, Bool, Option}
use cita_node_operator.Base.{List, [], ◌∷◌, ◌++◌, Exec, if◌then◌else◌, ◌==◌}
use cita_node_operator.Base.{Result, ok, err, not_exist, message}
use cita_node_operator.Base.Effects.{pure, raise, deref, lift, try, ◌>>=◌, ◌>>◌, when}
use cita_node_operator.Base.Int.{ℤ, pos}
use cita_node_operator.Base.Text.{before_tab, join}
use cita_node_operator.Base.Text.Decimal.{format_int, parse_int}
use cita_node_operator.Host.{Host}
use cita_node_operator.Common.{CompressOptions, DecompressOptions}
use cita_node_operator.Common.{archive, un_archive, calc_file_md5}

-- `Result` of the package.
pub record BackupResult : Type 0 where
  pub size : ℤ
  pub md5 : String

abbrev pub raft_consensus_dir : String
raft_consensus_dir = "raft-data-dir"

abbrev pub over_lord_consensus_dir : String
over_lord_consensus_dir = "overlord_wal"

-- `if deleteConsensusData { args = append(args, "--is-clear") }`
abbrev clear_flag : Bool → List String → List String
clear_flag delete args = if delete then args ++ ("--is-clear" ∷ []) else args

unfoldable pub build_snapshot_recover_args :
    ℤ → String → String → String → String → String → Bool → List String
build_snapshot_recover_args block_height node_root config_path backup_path crypto consensus delete =
    clear_flag delete (
      "state-recover"
      ∷ format_int block_height
      ∷ "--node-root"
      ∷ node_root
      ∷ "--config-path"
      ∷ (config_path <> "/config.toml")
      ∷ "--backup-path"
      ∷ backup_path
      ∷ "--crypto"
      ∷ crypto
      ∷ "--consensus"
      ∷ consensus
      ∷ [])

unfoldable pub build_fallback_args : ℤ → String → String → String → String → Bool → List String
build_fallback_args block_height node_root config_path crypto consensus delete = clear_flag delete (
    "recover"
    ∷ format_int block_height
    ∷ "--node-root"
    ∷ node_root
    ∷ "--config-path"
    ∷ (config_path <> "/config.toml")
    ∷ "--crypto"
    ∷ crypto
    ∷ "--consensus"
    ∷ consensus
    ∷ [])

module _ {W : Type 0} (host : Host W) where
  open host use {run, combined_output, stat, remove_all}

  shell : String → Exec W Unit
  shell cmd = run ("/bin/sh" ∷ "-c" ∷ cmd ∷ [])

  unfoldable pub calculate_size : String → Exec W ℤ
  calculate_size path = do
    usage ← combined_output ("du" ∷ "-sb" ∷ path ∷ [])
    lift (parse_int (before_tab usage))

  -- `backup`
  copy_or_archive : String → String → CompressOptions → Exec W Unit
  unfolding shell
  copy_or_archive source_path dest_path options =
      if options.enable
      then archive host ((source_path <> "/data", "") ∷ (source_path <> "/chain_data", "") ∷ [])
          (join dest_path options.output)
      else shell ("cp -a " <> source_path <> "/data " <> source_path <> "/chain_data " <> dest_path)

  -- The checksum of the archive, where there is one.
  backup_md5 : String → CompressOptions → Exec W String
  backup_md5 dest_path options =
      if options.enable then calc_file_md5 host (join dest_path options.output) else pure ""

  -- `Backup`
  unfoldable pub backup : String → String → Option CompressOptions → Exec W BackupResult
  unfolding copy_or_archive backup_md5
  backup source_path dest_path pointer = do
    total_size ← calculate_size source_path
    options ← deref pointer
    copy_or_archive source_path dest_path options
    md5 ← backup_md5 dest_path options
    pure (record { size = total_size; md5 = md5 })

  -- `if !os.IsNotExist(err) { return err }` for the outcome of `os.Stat`: `next` is reached only
  -- if there is no such directory.
  unless_absent : Result (Unit {0}) → Exec W Unit → Exec W Unit
  unless_absent (ok _) next = pure tt
  unless_absent (err not_exist) next = next
  unless_absent (err e) next = raise e

  -- `if err == nil { err := os.RemoveAll(dir); … }`
  remove_found : Result (Unit {0}) → String → Exec W Unit
  remove_found (ok _) dir = remove_all dir
  remove_found (err _) dir = pure tt

  -- `removeConsensusData`
  unfoldable pub remove_consensus_data : String → Exec W Unit
  unfolding unless_absent remove_found
  remove_consensus_data parent_dir =
      let raft = join parent_dir raft_consensus_dir in
      let over_lord = join parent_dir over_lord_consensus_dir in
      do
        raft_stat ← try (stat raft)
        remove_found raft_stat raft
        unless_absent raft_stat do
          over_lord_stat ← try (stat over_lord)
          remove_found over_lord_stat over_lord
          unless_absent over_lord_stat (pure tt)

  -- The comparison of checksums before anything is removed.
  check_md5 : String → DecompressOptions → Exec W Unit
  check_md5 source_path options = if options.md5 == "" then pure tt else do
    md5 ← calc_file_md5 host (join source_path options.input)
    if options.md5 == md5 then pure tt else raise (message "md5 check error")

  -- The removal of the old files.
  clean_dest : String → Bool → Exec W Unit
  unfolding shell
  clean_dest dest_path delete_consensus_data = do
    shell ("rm -rf " <> dest_path <> "/chain_data " <> dest_path <> "/data")
    when delete_consensus_data (remove_consensus_data dest_path)

  -- `Restore`
  unfoldable pub restore : String → String → Option DecompressOptions → Bool → Exec W Unit
  unfolding check_md5 clean_dest shell
  restore source_path dest_path pointer delete_consensus_data = do
    options ← deref pointer
    if options.enable
        then (do
          check_md5 source_path options
          clean_dest dest_path delete_consensus_data
          un_archive host (join source_path options.input) dest_path)
        else do
          clean_dest dest_path delete_consensus_data
          shell ("cp -af " <> source_path <> "/chain_data " <> source_path <> "/data " <> dest_path)

  -- A size that cannot be read is reported as 0.
  size_or_zero : Result ℤ → ℤ
  size_or_zero (ok n) = n
  size_or_zero (err _) = pos 0

  -- `Snapshot`
  unfoldable pub snapshot : ℤ → String → String → String → String → String → Exec W ℤ
  unfolding size_or_zero
  snapshot block_height node_root config_path backup_path crypto consensus = do
    run (
        "cloud-op"
        ∷ "state-backup"
        ∷ format_int block_height
        ∷ "--node-root"
        ∷ node_root
        ∷ "--config-path"
        ∷ (config_path <> "/config.toml")
        ∷ "--backup-path"
        ∷ backup_path
        ∷ "--crypto"
        ∷ crypto
        ∷ "--consensus"
        ∷ consensus
        ∷ [])
    snapshot_size ← try (calculate_size backup_path)
    pure (size_or_zero snapshot_size)

  -- `SnapshotRecover`
  unfoldable pub snapshot_recover :
      ℤ → String → String → String → String → String → Bool → Exec W Unit
  snapshot_recover block_height node_root config_path backup_path crypto consensus delete = run (
      "cloud-op"
      ∷ build_snapshot_recover_args block_height node_root config_path backup_path crypto consensus
          delete)

  -- `Fallback`
  unfoldable pub fallback : ℤ → String → String → String → String → Bool → Exec W Unit
  fallback block_height node_root config_path crypto consensus delete =
      run (
        "cloud-op" ∷ build_fallback_args block_height node_root config_path crypto consensus delete)

  -- `ChangeOwner`
  unfoldable pub change_owner : ℤ → ℤ → String → Exec W Unit
  change_owner uid gid path =
      run ("chown" ∷ "-R" ∷ (format_int uid <> ":" <> format_int gid) ∷ path ∷ [])
