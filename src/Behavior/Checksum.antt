-- ===== src/Behavior/Checksum.antt =====
-- The checksum of an archive: what a backup reports, and what a restore compares.
use cita_node_operator.Base.{String, ◌≡◌, refl, ◌≢◌, ◌∙◌, sym, ap, Bool, true, some}
use cita_node_operator.Base.{◌==◌, eq_iff, ==-of_ne}
use mathlib.Core.Option.{some-injective}
use cita_node_operator.Base.Hoare.{
  Triple, Triple-pure, Triple-raise, Triple-any, Triple-bind, Triple-map,
}
use cita_node_operator.Base.Hoare.{Triple-if}
use cita_node_operator.Base.Text.{join}
use cita_node_operator.Host.{Host}
use cita_node_operator.Host.Laws.{HostLaws, Files}
use cita_node_operator.Common.{CompressOptions, DecompressOptions, calc_file_md5}
use cita_node_operator.Behavior.{calculate_size, copy_or_archive, backup_md5, backup}
use cita_node_operator.Behavior.{check_md5, restore}

module _ {W : Type 0} (host : Host W) (L : HostLaws host) where
  -- `sum` is the checksum of the file at `path`.
  abbrev pub HasMd5 : Files → String → String → Type 0
  HasMd5 f path sum = (c : String) × (f path ≡ some c) × (sum ≡ L.md5_hex c)

  calc_file_md5_lem :
      (f : Files) (path : String)
      → Triple
          (λ w. L.files w ≡ f)
          (calc_file_md5 host path)
          (λ sum w. (L.files w ≡ f) × HasMd5 f path sum)
          (λ w. L.files w ≡ f)
  unfolding calc_file_md5
  calc_file_md5_lem f path =
      Triple-bind (L.open_file_law f path)
        λ h. record { run = λ w e. rw e.1 at ((L.copy_to_md5_law f h).run w e.0) }

  HasMd5-unique :
      (f : Files) (path sum : String) (c : String)
      → HasMd5 f path sum
      → f path ≡ some c
      → sum ≡ L.md5_hex c
  HasMd5-unique f path sum c (d, there, e) here =
      e ∙ ap L.md5_hex (some-injective d c (sym there ∙ here))

  module _ (f : Files) (source_path : String) (options : DecompressOptions) (c : String) where
    check_md5-mismatch :
        options.md5 ≢ ""
        → f (join source_path options.input) ≡ some c
        → options.md5 ≢ L.md5_hex c
        → Triple
            (λ w. L.files w ≡ f)
            (check_md5 host source_path options)
            (λ _ _. ⊥)
            (λ w. L.files w ≡ f)
    unfolding check_md5
    check_md5-mismatch given there differ = rw (==-of_ne options.md5 "" given) (
        Triple-bind (calc_file_md5_lem f (join source_path options.input)) λ md5.
          Triple-if (options.md5 == md5) _ _
            (λ same. Triple-pure tt λ w h.
              absurd (differ ((eq_iff options.md5 md5).0 same ∙ HasMd5-unique f _ md5 c h.1 there)))
            (λ other. Triple-raise _ λ w h. h.0))

    -- A restore from an archive whose checksum is not the one that was asked for never succeeds,
    -- and no file is changed: the old data is still there.
    pub restore-mismatch :
        (dest_path : String) (delete_consensus_data : Bool)
        → options.enable ≡ true
        → options.md5 ≢ ""
        → f (join source_path options.input) ≡ some c
        → options.md5 ≢ L.md5_hex c
        → Triple
            (λ w. L.files w ≡ f)
            (restore host source_path dest_path (some options) delete_consensus_data)
            (λ _ _. ⊥)
            (λ w. L.files w ≡ f)
    unfolding restore
    restore-mismatch dest_path delete_consensus_data enabled given there differ =
        rw enabled (
          Triple-bind (check_md5-mismatch given there differ) λ _. record { run = λ w h. absurd h })

  backup_md5_lem :
      (dest_path : String) (options : CompressOptions)
      → options.enable ≡ true
      → Triple
          (λ _. Unit)
          (backup_md5 host dest_path options)
          (λ sum w. HasMd5 (L.files w) (join dest_path options.output) sum)
          (λ _. Unit)
  unfolding backup_md5
  backup_md5_lem dest_path options enabled = rw enabled (record {
    run = λ w _.
        (Triple-map (calc_file_md5_lem (L.files w) (join dest_path options.output))
            (λ sum v h. rw h.0 h.1) (λ v h. tt)).run
          w refl;
  })

  -- The checksum that a compressed backup reports is that of the archive as it then is.
  pub backup-HasMd5 :
      (source_path dest_path : String) (options : CompressOptions)
      → options.enable ≡ true
      → Triple
          (λ _. Unit)
          (backup host source_path dest_path (some options))
          (λ r w. HasMd5 (L.files w) (join dest_path options.output) r.md5)
          (λ _. Unit)
  unfolding backup
  backup-HasMd5 source_path dest_path options enabled =
      Triple-bind (Triple-any (calculate_size host source_path)) λ size.
        Triple-bind (Triple-any (copy_or_archive host source_path dest_path options)) λ _.
          Triple-bind (backup_md5_lem dest_path options enabled)
            λ md5. Triple-pure (record { size = size; md5 = md5 }) λ w h. h
