-- ===== src/Tests.antt =====
-- Tests of the package kf: a system that answers, an interface with a chain, and the properties at them.
mod World
mod Chains
mod Configs
mod Updates
mod Deploys
mod Files
mod Runs
mod Disk
mod Node
mod Nodes
mod Daemon
mod Start
