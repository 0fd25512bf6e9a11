-- ===== src/Controllers/Defaults.antt =====
-- The defaults of the kinds of jobs: `setDefaultSpec` and `setDefaultStatus` of the reconcilers.
use cita_node_operator.Controllers.Jobs.{completed}
use cita_node_operator.Controllers.Jobs.Defaults.{IsComplete, completed-IsComplete}
use cita_node_operator.Controllers.Backup
use cita_node_operator.Controllers.Snapshot
use cita_node_operator.Controllers.Duplicate
use cita_node_operator.Controllers.Recover
use cita_node_operator.Controllers.Restore
use cita_node_operator.Controllers.ChangeOwner
use cita_node_operator.Controllers.Switchover

-- A backup, a snapshot, a duplicate, a recovery, a restore, a change of owner and a switchover
-- with their defaults have nothing to be written: neither the specification nor the status asks
-- for an update, and completing them again changes nothing.
pub all_completed_again :
    (backup : Backup.Backup) (snapshot : Snapshot.Snapshot) (duplicate : Duplicate.Duplicate)
    (recover : Recover.Recover) (restore : Restore.Restore) (owner : ChangeOwner.ChangeOwner)
    (switchover : Switchover.Switchover)
    → IsComplete Backup.set_default_spec (completed Backup.set_default_spec backup)
      × IsComplete Snapshot.set_default_spec (completed Snapshot.set_default_spec snapshot)
      × IsComplete Duplicate.set_default_spec (completed Duplicate.set_default_spec duplicate)
      × IsComplete Recover.set_default_spec (completed Recover.set_default_spec recover)
      × IsComplete Restore.set_default_spec (completed Restore.set_default_spec restore)
      × IsComplete ChangeOwner.set_default_spec (completed ChangeOwner.set_default_spec owner)
      × IsComplete Switchover.set_default_spec (completed Switchover.set_default_spec switchover)
all_completed_again backup snapshot duplicate recover restore owner switchover = (
  completed-IsComplete Backup.set_default_spec Backup.Laws.set_default_spec_again backup,
  completed-IsComplete Snapshot.set_default_spec Snapshot.Laws.set_default_spec_again snapshot,
  completed-IsComplete Duplicate.set_default_spec Duplicate.Laws.set_default_spec_again duplicate,
  completed-IsComplete Recover.set_default_spec Recover.Laws.set_default_spec_again recover,
  completed-IsComplete Restore.set_default_spec Restore.Laws.set_default_spec_again restore,
  completed-IsComplete ChangeOwner.set_default_spec ChangeOwner.Laws.set_default_spec_again owner,
  completed-IsComplete Switchover.set_default_spec Switchover.Laws.set_default_spec_again
      switchover,
)
