-- ===== src/Cmd/Jobs.antt =====
-- The words of the jobs that the reconcilers make, at the command line of the job binary.
pub mod Words
pub mod Runs
use cita_node_operator.Base.{
  String, ◌==◌, ◌≡◌, refl, ◌∙◌, Bool, true, false, Option, none, some, List, Dict,
}
use cita_node_operator.Base.{Result, ok, if◌then◌else◌}
use cita_node_operator.Base.Int.{ℤ}
use cita_node_operator.Common.{CompressOptions, DecompressOptions}
use cita_node_operator.Kube.{NamespacedName}
use cita_node_operator.Node.Common.{
  backup_source_volume_path, backup_dest_volume_path, restore_source_volume_path,
  restore_dest_volume_path,
}
use cita_node_operator.Cmd
use cita_node_operator.Cmd.{Target}
use cita_node_operator.Cmd.Flags.{Value, Invocation, on_node, on_nodes, invocation}
use cita_node_operator.Controllers.Backup.{Backup}
use cita_node_operator.Controllers.Snapshot.{Snapshot}
use cita_node_operator.Controllers.Duplicate.{Duplicate, Compress, source_path}
use cita_node_operator.Controllers.Recover.{Recover, Backend, Decompress}
use cita_node_operator.Controllers.Restore.{Restore}
use cita_node_operator.Controllers.ChangeOwner.{ChangeOwner}
use cita_node_operator.Controllers.Switchover.{Switchover}
use cita_node_operator.Controllers.Fallback.{BlockHeightFallback}

abbrev target : NamespacedName → String → String → String → Target
target key chain node deploy_method = record {
  namespace = key.namespace;
  chain = chain;
  node = node;
  deploy_method = deploy_method;
}

-- The crypto that a job works with: the default of the flag where none was found.
abbrev pub crypto_of : String → String
crypto_of crypto = if crypto == "" then "sm" else crypto

abbrev pub backup_run : Backup → Invocation
backup_run b = on_node (target b.key b.spec.chain b.spec.node b.spec.deploy_method) (
    Cmd.backup b.spec.action "/backup-source" "/backup-dest"
      (some (record { enable = false; c_type = "gzip"; output = "" })))

abbrev pub compress_options : String → Option Compress → CompressOptions
compress_options name none = record { enable = false; c_type = "gzip"; output = "" }
compress_options name (some c) = record {
  enable = true;
  c_type = c.c_type;
  output = if c.file == "" then name else c.file;
}

-- The backup of a duplicate, from a source path to the path of its backend.
abbrev pub duplicate_run : Duplicate → Backend → String → Invocation
duplicate_run d backend source =
    on_node (target d.key d.spec.chain d.spec.node d.spec.deploy_method) (
      Cmd.backup d.spec.action source backend.path
        (some (compress_options d.key.name d.spec.compress)))

abbrev pub decompress_options : Option Decompress → DecompressOptions
decompress_options none = record { enable = false; md5 = ""; input = "" }
decompress_options (some d) = record { enable = true; md5 = d.md5; input = d.file }

abbrev pub recover_run : Recover → Backend → Invocation
recover_run r backend = on_node (target r.key r.spec.chain r.spec.node r.spec.deploy_method) (
    Cmd.restore r.spec.action backend.path "/restore-dest"
      (some (decompress_options r.spec.decompress)) r.spec.delete_consensus_data)

abbrev pub restore_run : Restore → Invocation
restore_run r = on_node (target r.key r.spec.chain r.spec.node r.spec.deploy_method) (
    Cmd.restore r.spec.action "/restore-source" "/restore-dest"
      (some (record { enable = false; md5 = ""; input = "" })) r.spec.delete_consensus_data)

abbrev pub snapshot_run : Snapshot → String → String → Invocation
snapshot_run s crypto consensus =
    on_node (target s.key s.spec.chain s.spec.node s.spec.deploy_method)
      (Cmd.snapshot s.spec.action s.spec.block_height (crypto_of crypto) consensus)

abbrev pub snapshot_recover_run : Restore → Snapshot → String → String → Invocation
snapshot_recover_run r s crypto consensus =
    on_node (target r.key r.spec.chain r.spec.node r.spec.deploy_method) (
      Cmd.snapshot_recover r.spec.action s.spec.block_height (crypto_of crypto) consensus
        r.spec.delete_consensus_data)

abbrev pub fallback_run : BlockHeightFallback → String → String → Invocation
fallback_run b crypto consensus =
    on_node (target b.key b.spec.chain b.spec.node b.spec.deploy_method) (
      Cmd.fallback b.spec.action b.spec.block_height (crypto_of crypto) consensus
        b.spec.delete_consensus_data)

abbrev pub chown_run : ChangeOwner → Invocation
chown_run o =
    on_node (target o.key o.spec.chain o.spec.node o.spec.deploy_method)
      (Cmd.chown o.spec.action o.spec.uid o.spec.gid)

abbrev pub switchover_run : Switchover → Invocation
switchover_run s = on_nodes (record {
  namespace = s.key.namespace;
  chain = s.spec.chain;
  source_node = s.spec.source_node;
  dest_node = s.spec.dest_node;
})
