-- ===== src/Witnesses.antt =====
-- Runs of the development on concrete data.
mod Samples
mod Gates
mod Limits
mod Runs
mod Chains
mod Pulls
mod Machines
mod Defaults
mod Stages
mod Calls
