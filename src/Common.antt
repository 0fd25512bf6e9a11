-- ===== src/Common.antt =====
-- pkg/common: the options of a backup and a restore, archives and checksums.
use cita_node_operator.Base.{String, Bool, Dict, Exec, if◌then◌else◌}
use cita_node_operator.Base.Effects.{pure, ◌>>=◌}
use cita_node_operator.Base.Text.{contains, join, base}
use cita_node_operator.Host.{Host, ArchiveFile}

pub record CompressOptions : Type 0 where
  pub enable : Bool
  pub c_type : String
  pub output : String

pub record DecompressOptions : Type 0 where
  pub enable : Bool
  pub md5 : String
  pub input : String

module _ {W : Type 0} (host : Host W) where
  open host use {open_file, create, copy, copy_to_md5, files_from_disk, mkdir_all}

  -- `Archive`
  unfoldable pub archive : Dict String → String → Exec W Unit
  archive input_files output_file = do
    files ← files_from_disk input_files
    out ← create output_file
    host.archive out files

  -- The handler of one entry in `UnArchive`.
  unfoldable pub unpack_entry : String → ArchiveFile → Exec W Unit
  unpack_entry target_path f =
      let wp = join target_path f.name_in_archive in
      if contains f.name_in_archive "__MACOSX"
      then pure tt
      else if f.is_dir
      then mkdir_all wp
      else do rc ← host.open_entry f; wf ← create wp; copy wf rc

  -- `UnArchive`
  unfoldable pub un_archive : String → String → Exec W Unit
  un_archive source_file target_path = do
    source ← open_file source_file
    reader ← host.identify (base source_file) source
    host.extract reader (unpack_entry target_path)

  -- `CalcFileMD5`
  unfoldable pub calc_file_md5 : String → Exec W String
  calc_file_md5 filename = do f ← open_file filename; copy_to_md5 f
