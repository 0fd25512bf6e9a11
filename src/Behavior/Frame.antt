-- ===== src/Behavior/Frame.antt =====
-- What the machine does not touch, the operations of the package do not touch.
use cita_node_operator.Base.{String, Bool, Option, List, Dict, Exec, Result, ok, err, not_exist}
use cita_node_operator.Base.Int.{ℤ}
use cita_node_operator.Base.Hoare.{Keeps, keeps_rules}
use cita_node_operator.Host.{Host, ArchiveFile}
use cita_node_operator.Common.{CompressOptions, DecompressOptions}
use cita_node_operator.Common.{archive, unpack_entry, un_archive, calc_file_md5}
use cita_node_operator.Behavior.{
  calculate_size, copy_or_archive, backup_md5, backup, remove_found, unless_absent,
  remove_consensus_data, check_md5, clean_dest, restore, snapshot, snapshot_recover, fallback,
  change_owner,
}
use cita_node_operator.Node.Common.{ensure_dir, make_if_absent}

module _ {W : Type 0} (host : Host W) where
  -- Commands and files of the machine leave `P` as it is.
  pub record Leaves (P : W → Type 0) : Type 0 where
    pub run_keeps : (args : List String) → Keeps P (host.run args)
    pub combined_output_keeps : (args : List String) → Keeps P (host.combined_output args)
    pub stat_keeps : (path : String) → Keeps P (host.stat path)
    pub remove_all_keeps : (path : String) → Keeps P (host.remove_all path)
    pub mkdir_all_keeps : (path : String) → Keeps P (host.mkdir_all path)
    pub open_file_keeps : (path : String) → Keeps P (host.open_file path)
    pub create_keeps : (path : String) → Keeps P (host.create path)
    pub copy_keeps : (to from : host.Handle) → Keeps P (host.copy to from)
    pub copy_to_md5_keeps : (file : host.Handle) → Keeps P (host.copy_to_md5 file)
    pub files_from_disk_keeps : (files : Dict String) → Keeps P (host.files_from_disk files)
    pub archive_keeps :
        (out : host.Handle) (files : List ArchiveFile) → Keeps P (host.archive out files)
    pub identify_keeps : (name : String) (file : host.Handle) → Keeps P (host.identify name file)
    pub extract_keeps :
        (reader : host.Handle) (handler : ArchiveFile → Exec W Unit)
        → ((f : ArchiveFile) → Keeps P (handler f))
        → Keeps P (host.extract reader handler)
    pub open_entry_keeps : (f : ArchiveFile) → Keeps P (host.open_entry f)

  module _ {P : W → Type 0} (L : Leaves P) where
    open L use {
      run_keeps, combined_output_keeps, stat_keeps, remove_all_keeps, open_file_keeps, create_keeps,
    }

    calculate_size-Keeps : (path : String) → Keeps P (calculate_size host path)
    unfolding calculate_size
    calculate_size-Keeps path = search (keeps_rules, combined_output_keeps)

    archive-Keeps : (files : Dict String) (out : String) → Keeps P (archive host files out)
    unfolding archive
    archive-Keeps files out =
        search (keeps_rules, L.files_from_disk_keeps, create_keeps, L.archive_keeps)

    unpack_entry-Keeps : (path : String) (f : ArchiveFile) → Keeps P (unpack_entry host path f)
    unfolding unpack_entry
    unpack_entry-Keeps path f =
        search (keeps_rules, L.mkdir_all_keeps, L.open_entry_keeps, create_keeps, L.copy_keeps)

    un_archive-Keeps : (from to : String) → Keeps P (un_archive host from to)
    unfolding un_archive
    un_archive-Keeps from to =
        search (keeps_rules, open_file_keeps, L.identify_keeps, L.extract_keeps, unpack_entry-Keeps)

    calc_file_md5-Keeps : (path : String) → Keeps P (calc_file_md5 host path)
    unfolding calc_file_md5
    calc_file_md5-Keeps path = search (keeps_rules, open_file_keeps, L.copy_to_md5_keeps)

    copy_or_archive-Keeps :
        (from to : String) (options : CompressOptions)
        → Keeps P (copy_or_archive host from to options)
    unfolding copy_or_archive
    copy_or_archive-Keeps from to options = search (keeps_rules, archive-Keeps, run_keeps)

    backup_md5-Keeps :
        (path : String) (options : CompressOptions) → Keeps P (backup_md5 host path options)
    unfolding backup_md5
    backup_md5-Keeps path options = search (keeps_rules, calc_file_md5-Keeps)

    pub backup-Keeps :
        (from to : String) (options : Option CompressOptions)
        → Keeps P (backup host from to options)
    unfolding backup
    backup-Keeps from to options =
        search (keeps_rules, calculate_size-Keeps, copy_or_archive-Keeps, backup_md5-Keeps)

    remove_found-Keeps : (r : Result (Unit {0})) (dir : String) → Keeps P (remove_found host r dir)
    unfolding remove_found
    remove_found-Keeps (ok _) dir = remove_all_keeps dir
    remove_found-Keeps (err _) dir = record { run = λ w h. h }

    unless_absent-Keeps :
        (r : Result (Unit {0})) (next : Exec W Unit)
        → Keeps P next
        → Keeps P (unless_absent host r next)
    unfolding unless_absent
    unless_absent-Keeps (ok _) next k = record { run = λ w h. h }
    unless_absent-Keeps (err not_exist) next k = k
    unless_absent-Keeps _ next k = record { run = λ w h. h }

    remove_consensus_data-Keeps : (dir : String) → Keeps P (remove_consensus_data host dir)
    unfolding remove_consensus_data
    remove_consensus_data-Keeps dir =
        search (keeps_rules, stat_keeps, remove_found-Keeps, unless_absent-Keeps) depth 12

    check_md5-Keeps :
        (path : String) (options : DecompressOptions) → Keeps P (check_md5 host path options)
    unfolding check_md5
    check_md5-Keeps path options = search (keeps_rules, calc_file_md5-Keeps)

    clean_dest-Keeps : (path : String) (delete : Bool) → Keeps P (clean_dest host path delete)
    unfolding clean_dest
    clean_dest-Keeps path delete = search (keeps_rules, run_keeps, remove_consensus_data-Keeps)

    pub restore-Keeps :
        (from to : String) (options : Option DecompressOptions) (delete : Bool)
        → Keeps P (restore host from to options delete)
    unfolding restore
    restore-Keeps from to options delete =
        search (keeps_rules, check_md5-Keeps, clean_dest-Keeps, un_archive-Keeps, run_keeps) depth 8

    pub snapshot-Keeps :
        (height : ℤ) (root config to crypto consensus : String)
        → Keeps P (snapshot host height root config to crypto consensus)
    unfolding snapshot
    snapshot-Keeps height root config to crypto consensus =
        search (keeps_rules, run_keeps, calculate_size-Keeps)

    pub snapshot_recover-Keeps :
        (height : ℤ) (root config from crypto consensus : String) (delete : Bool)
        → Keeps P (snapshot_recover host height root config from crypto consensus delete)
    unfolding snapshot_recover
    snapshot_recover-Keeps height root config from crypto consensus delete = run_keeps _

    pub fallback-Keeps :
        (height : ℤ) (root config crypto consensus : String) (delete : Bool)
        → Keeps P (fallback host height root config crypto consensus delete)
    unfolding fallback
    fallback-Keeps height root config crypto consensus delete = run_keeps _

    pub change_owner-Keeps :
        (uid gid : ℤ) (path : String) → Keeps P (change_owner host uid gid path)
    unfolding change_owner
    change_owner-Keeps uid gid path = run_keeps _

    make_if_absent-Keeps :
        (path : String) (r : Result (Unit {0})) → Keeps P (make_if_absent host path r)
    unfolding make_if_absent
    make_if_absent-Keeps path (err not_exist) = L.mkdir_all_keeps path
    make_if_absent-Keeps path _ = record { run = λ w h. h }

    pub ensure_dir-Keeps : (path : String) → Keeps P (ensure_dir host path)
    unfolding ensure_dir
    ensure_dir-Keeps path = search (keeps_rules, stat_keeps, make_if_absent-Keeps)
