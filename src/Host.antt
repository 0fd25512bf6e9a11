-- ===== src/Host.antt =====
-- What the job binary asks of the machine that it runs on: the file system (`os`), child processes
-- (`k8s.io/utils/exec`), `crypto/md5` and the archiver library. All of it is a parameter.
pub mod Laws
use cita_node_operator.Base.{String, Bool, List, Dict, Exec}

-- An entry of an archive (`archiver.File`).
pub record ArchiveFile : Type 0 where
  pub name_in_archive : String
  pub is_dir : Bool

-- `Handle` is an open file, a format or a reader.
pub record Host (W : Type 0) : Type 1 where
  pub Handle : Type 0
  -- `Command(name, args...).Run()` and `.CombinedOutput()`
  pub run : List String → Exec W Unit
  pub combined_output : List String → Exec W String
  -- `os.Stat` fails with `not_exist` where nothing is.
  pub stat : String → Exec W Unit
  pub remove_all : String → Exec W Unit
  pub mkdir_all : String → Exec W Unit
  -- `os.Open`, `os.Create`, `io.Copy`
  pub open_file : String → Exec W Handle
  pub create : String → Exec W Handle
  pub copy : Handle → Handle → Exec W Unit
  -- `io.Copy` into a new hash, and its sum printed by `%x`
  pub copy_to_md5 : Handle → Exec W String
  -- `archiver.FilesFromDisk` on a map from paths to names, `CompressedArchive.Archive`
  pub files_from_disk : Dict String → Exec W (List ArchiveFile)
  pub archive : Handle → List ArchiveFile → Exec W Unit
  -- `archiver.Identify`, `Extractor.Extract` with its handler, `File.Open`
  pub identify : String → Handle → Exec W Handle
  pub extract : Handle → (ArchiveFile → Exec W Unit) → Exec W Unit
  pub open_entry : ArchiveFile → Exec W Handle
