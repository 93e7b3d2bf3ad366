-- ===== src/PlotSync.antt =====
-- The farmer's side of the plot synchronisation with a harvester: corpochain/plot_sync.
pub mod Delta
pub mod State
pub mod Handlers
pub mod Receiver
