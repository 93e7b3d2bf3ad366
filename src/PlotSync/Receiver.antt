-- ===== src/PlotSync/Receiver.antt =====
-- The end of a synchronisation, and `_process`, which answers every message:
-- corpochain/plot_sync/receiver.py.
pub mod Rejects
pub mod Valid
pub mod Done
use corpochain_beacon_client.Base.{
  ℕ, zero, suc, ◌+◌, ◌^◌, Bool, true, false, not, ◌&&◌, ◌||◌, Option, none, some, List, [], ◌∷◌,
  ◌++◌, ltb, ◌==◌, if◌then◌else◌, is_some, elem,
}
use corpochain_beacon_client.Base.Dict.{Dict, lookup, contains, insert, erase}
use corpochain_beacon_client.PlotSync.Delta.{
  Plot, PlotListDelta, PathListDelta, Delta, no_change, from_lists,
}
use corpochain_beacon_client.PlotSync.State.{
  Identifier, State, HarvestingMode, cpu, gpu, Sync, new_sync, Receiver, SyncError,
  invalid_identifier, invalid_last_sync_id, sync_ids_match, unknown, plot_already_available,
  plot_not_available, Action, ◌>>◌, raise_if, modify, set_sync, trigger_callback,
}
use corpochain_beacon_client.PlotSync.Handlers.{
  validate_identifier, PlotSyncStart, sync_started, process_loaded, PathKind, removals,
  invalid_paths, missing_keys, duplicate_paths, process_path_list,
}

-- `self._plots.update(additions)`
unfoldable pub update : Dict Plot → Dict Plot → Dict Plot
update [] plots = plots
update (e ∷ rest) plots = update rest (insert e.0 e.1 plots)

-- `del self._plots[removal]` for each, until one is missing
unfoldable pub delete_all : List ℕ → Dict Plot → Dict Plot × Bool
delete_all [] plots = (plots, true)
delete_all (k ∷ ks) plots =
    let rest = delete_all ks (erase k plots) in if contains k plots then rest else (plots, false)

unfoldable pub sum_sizes : Dict Plot → ℕ
sum_sizes [] = 0
sum_sizes (e ∷ rest) = e.1.file_size + sum_sizes rest

-- The delta that `_sync_done` hands to the callback.
unfoldable pub final_delta : Receiver → Delta
final_delta r = record {
  valid = r.current_sync.delta.valid;
  invalid = from_lists r.invalid r.current_sync.delta.invalid.additions;
  keys_missing = from_lists r.keys_missing r.current_sync.delta.keys_missing.additions;
  duplicates = from_lists r.duplicates r.current_sync.delta.duplicates.additions;
}

-- The part of `_sync_done` behind the loop that deletes, with the plots that are left.
abbrev pub finished : Dict Plot → Receiver → Receiver
finished plots r = record {
  current_sync = new_sync;
  last_sync = r.current_sync;
  plots = plots;
  invalid = r.current_sync.delta.invalid.additions;
  keys_missing = r.current_sync.delta.keys_missing.additions;
  duplicates = r.current_sync.delta.duplicates.additions;
  total_plot_size = sum_sizes plots;
  harvesting_mode = r.harvesting_mode;
  callbacks = some (final_delta r) ∷ r.callbacks;
}

unfoldable pub apply_delta : Action
apply_delta r =
    let valid = r.current_sync.delta.valid in
    let (plots, complete) = delete_all valid.removals (update valid.additions r.plots) in
    if complete then (finished plots r, none) else (record r { plots = plots }, some unknown)

unfoldable pub sync_done : ℕ → Identifier → Action
sync_done now identifier = do
  validate_identifier identifier false
  set_sync (λ s. record s { time_done = some now })
  apply_delta

pub data Message : Type 0 where
  start : PlotSyncStart → Message
  loaded : Identifier → List Plot → Bool → Message
  paths : PathKind → Identifier → List ℕ → Bool → Message
  done : Identifier → Message

abbrev pub identifier_of : Message → Identifier
identifier_of (start m) = m.identifier
identifier_of (loaded identifier _ _) = identifier
identifier_of (paths _ identifier _ _) = identifier
identifier_of (done identifier) = identifier

-- The numbers of the message types in `ProtocolMessageTypes`.
abbrev pub type_of : Message → ℕ
type_of (start _) = 9
type_of (loaded _ _ _) = 10
type_of (paths removals _ _ _) = 11
type_of (paths invalid_paths _ _ _) = 12
type_of (paths missing_keys _ _ _) = 13
type_of (paths duplicate_paths _ _ _) = 14
type_of (done _) = 15

unfoldable pub method : ℕ → Message → Action
method now (start m) = sync_started m
method now (loaded identifier plots final) = process_loaded identifier plots final
method now (paths kind identifier list final) = process_path_list kind identifier list final
method now (done identifier) = sync_done now identifier

pub record Response : Type 0 where
  pub identifier : Identifier
  pub message_type : ℕ
  pub error : Option SyncError

-- `_process`: the method, and the response that it leads to.
unfoldable pub process : ℕ → Message → Receiver → Receiver × Response
process now m r =
    let (r', e) = method now m r in
    (r', record { identifier = identifier_of m; message_type = type_of m; error = e })
