-- ===== src/Controllers.antt =====
-- controllers: the reconcilers of the operator.
pub mod Objects
pub mod JobRbac
pub mod Labels
pub mod Jobs
pub mod Fallback
pub mod ChangeOwner
pub mod Backup
pub mod Snapshot
pub mod Duplicate
pub mod Restore
pub mod Recover
pub mod Switchover
pub mod Defaults
pub mod NodeNames
pub mod NodeSet
pub mod NodeConfig
pub mod CitaNode
