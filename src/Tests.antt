-- ===== src/Tests.antt =====
-- The development at work: a cluster and a machine in memory that keep the laws, and runs of the
-- code on them.
pub mod World
mod Nodes
mod Deployments
mod Labels
mod Subcommands
pub mod Objects
pub mod Jobs
pub mod Kinds
mod Stuck
mod Progress
mod CommandLine
mod Reconcilers
mod CitaNodes
