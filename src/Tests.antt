-- ===== src/Tests.antt =====
-- A small world in which the operations run, runs of it, and the theorems at inputs of it.
mod World
mod Runs
mod Witnesses
mod Inputs
mod Outbox
mod Execution
mod ControlPlane
mod Entitled
