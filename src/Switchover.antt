-- ===== src/Switchover.antt =====
-- pkg/switchover: two nodes exchange the config maps of their accounts.
pub mod Swap
use cita_node_operator.Base.{Exec}
use cita_node_operator.Base.Effects.{◌>>=◌, ◌>>◌}
use cita_node_operator.Node.{Node}

-- `Switch`
unfoldable pub switch : {S : Type 0} → Node S → Node S → Exec S Unit
switch source_node dest_node = do
  source_node.stop
  source_node.check_stopped
  dest_node.stop
  dest_node.check_stopped
  source_account_configmap ← source_node.get_account_configmap
  dest_account_configmap ← dest_node.get_account_configmap
  source_node.update_account_configmap dest_account_configmap
  dest_node.update_account_configmap source_account_configmap
  source_node.start
  dest_node.start
