-- ===== src/Node.antt =====
-- pkg/node: the operations of a node, whatever it is deployed by.
pub mod Common
pub mod CloudConfig
pub mod Python
pub mod Helm
pub mod Registry
pub mod Contract
use cita_node_operator.Base.{String, Bool, Option, Exec}
use cita_node_operator.Base.Int.{ℤ}
use cita_node_operator.Common.{CompressOptions, DecompressOptions}
use Common.{Action}

-- `Node`, over the state `S` that its methods act on.
pub record Node (S : Type 0) : Type 0 where
  pub stop : Exec S Unit
  pub check_stopped : Exec S Unit
  pub fallback : Action → ℤ → String → String → Bool → Exec S Unit
  pub start : Exec S Unit
  pub backup : Action → String → String → Option CompressOptions → Exec S Unit
  pub restore : Action → String → String → Option DecompressOptions → Bool → Exec S Unit
  pub get_name : String
  pub get_account_configmap : Exec S String
  pub update_account_configmap : String → Exec S Unit
  pub snapshot : Action → ℤ → String → String → Exec S Unit
  pub snapshot_recover : Action → ℤ → String → String → Bool → Exec S Unit
  pub change_owner : Action → ℤ → ℤ → Exec S Unit
