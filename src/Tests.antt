-- ===== src/Tests.antt =====
-- Runs of the modelled functions on small inputs, and the theorems applied to them.
mod Includes
mod Reports
mod Options
mod Lines
mod Names
mod Lint
mod Whole
mod Runs
mod Threads
mod Pools
mod Clients
mod Waiting
