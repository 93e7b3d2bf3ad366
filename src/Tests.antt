-- ===== src/Tests.antt =====
-- Runs of the modelled code on concrete data, where the theorems' hypotheses hold.
mod Heights
mod Locks
mod Time
mod Store
mod Peers
mod FullStore
mod Plots
mod Blocks
mod Rules
mod Parameters
