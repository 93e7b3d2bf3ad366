-- ===== src/PlotSync/Handlers.antt =====
-- The start of a synchronisation and the messages that list plots and paths:
-- corpochain/plot_sync/receiver.py.
use corpochain_beacon_client.Base.{
  ℕ, ◌+◌, ◌^◌, Bool, true, false, not, ◌&&◌, ◌||◌, Option, none, some, List, [], ◌∷◌, ◌++◌, ltb,
  ◌==◌, if◌then◌else◌, elem,
}
use corpochain_beacon_client.Base.Dict.{contains, insert}
use corpochain_beacon_client.PlotSync.Delta.{Plot, Delta, no_change}
use corpochain_beacon_client.PlotSync.State.{
  Identifier, State, HarvestingMode, cpu, gpu, new_sync, Receiver, SyncError, invalid_identifier,
  invalid_last_sync_id, sync_ids_match, unknown, plot_already_available, plot_not_available, Action,
  ◌>>◌, raise_if, modify, set_sync, trigger_callback,
}

unfoldable pub reset : Receiver → Receiver
reset r = record {
  current_sync = new_sync;
  last_sync = new_sync;
  plots = [];
  invalid = [];
  keys_missing = [];
  duplicates = [];
  total_plot_size = 0;
  harvesting_mode = none;
  callbacks = r.callbacks;
}

-- `bump_next_message_id`, `bump_plots_processed`: the sized integer raises where it is full.
unfoldable pub bump_next_message_id : Action
bump_next_message_id r =
    if ltb (r.current_sync.next_message_id + 1) (2 ^ 64)
    then (
      record r {
        current_sync = record (r.current_sync) {
          next_message_id = r.current_sync.next_message_id + 1;
        };
      },
      none,
    )
    else (r, some unknown)

unfoldable pub bump_plots_processed : Action
bump_plots_processed r =
    if ltb (r.current_sync.plots_processed + 1) (2 ^ 32)
    then (
      record r {
        current_sync = record (r.current_sync) {
          plots_processed = r.current_sync.plots_processed + 1;
        };
      },
      none,
    )
    else (r, some unknown)

-- Whether `_validate_identifier` accepts the identifier, and what it expects otherwise.
abbrev pub identifier_fits : Identifier → Bool → Receiver → Bool
identifier_fits identifier start r =
    (start || identifier.sync_id == r.current_sync.sync_id)
    && identifier.message_id == r.current_sync.next_message_id

abbrev pub expected : Identifier → Receiver → Identifier
expected identifier r = record {
  timestamp = identifier.timestamp;
  sync_id = r.current_sync.sync_id;
  message_id = r.current_sync.next_message_id;
}

unfoldable pub validate_identifier : Identifier → Bool → Action
validate_identifier identifier start r =
    raise_if (not (identifier_fits identifier start r)) (invalid_identifier (expected identifier r))
      r

pub record PlotSyncStart : Type 0 where
  pub identifier : Identifier
  pub initial : Bool
  pub last_sync_id : ℕ
  pub plot_file_count : ℕ
  pub harvesting_mode : ℕ

-- `HarvestingMode(n)`
abbrev pub harvesting_mode_of : ℕ → Option HarvestingMode
harvesting_mode_of n = if n == 1 then some cpu else if n == 2 then some gpu else none

unfoldable pub set_harvesting_mode : ℕ → Action
set_harvesting_mode n r = elim (harvesting_mode_of n) [
  | none ↦ (r, some unknown)
  | some mode ↦ (record r { harvesting_mode = some mode }, none)
]

-- `_sync_started` behind the checks.
unfoldable pub open_sync : PlotSyncStart → Action
open_sync m = do
  set_sync (λ s. record s {
    sync_id = m.identifier.sync_id;
    delta = no_change;
    state = State.loaded;
    plots_total = m.plot_file_count;
  })
  set_harvesting_mode m.harvesting_mode
  bump_next_message_id

abbrev pub check_last_sync : PlotSyncStart → Action
check_last_sync m r = raise_if (not (m.last_sync_id == r.last_sync.sync_id)) invalid_last_sync_id r

abbrev pub check_sync_ids : PlotSyncStart → Action
check_sync_ids m = raise_if (m.last_sync_id == m.identifier.sync_id) sync_ids_match

unfoldable pub begin_sync : PlotSyncStart → Action
begin_sync m = do check_last_sync m; check_sync_ids m; open_sync m

unfoldable pub sync_started : PlotSyncStart → Action
sync_started m = do
  modify (λ r. if m.initial then reset r else r)
  validate_identifier m.identifier true
  begin_sync m

-- Whether a plot is known already.
abbrev pub is_available : Plot → Receiver → Bool
is_available p r =
    contains p.filename r.plots || contains p.filename r.current_sync.delta.valid.additions

abbrev pub add_plot : Plot → Receiver → Receiver
add_plot p r = record r {
  current_sync = record (r.current_sync) {
    delta = record (r.current_sync.delta) {
      valid = record (r.current_sync.delta.valid) {
        additions = insert p.filename p r.current_sync.delta.valid.additions;
      };
    };
  };
}

-- One round of the loop in `_process_loaded`.
unfoldable pub load_plot : Plot → Action
load_plot p = do
  λ r. raise_if (is_available p r) (plot_already_available p.filename) r
  modify (add_plot p)
  bump_plots_processed

unfoldable pub load_plots : List Plot → Action
load_plots [] = modify (λ r. r)
load_plots (p ∷ ps) = load_plot p >> load_plots ps

abbrev pub enter_if : Bool → State → Action
enter_if final next = set_sync (λ s. if final then record s { state = next } else s)

-- The end of the messages that list plots or paths.
unfoldable pub finish_list : Bool → State → Action
finish_list final next = do trigger_callback none; enter_if final next; bump_next_message_id

unfoldable pub process_loaded : Identifier → List Plot → Bool → Action
process_loaded identifier plots final = do
  validate_identifier identifier false
  load_plots plots
  finish_list final State.removed

-- The four path lists, with the state of each, the one that follows, and the list that it extends.
pub data PathKind : Type 0 where
  removals invalid_paths missing_keys duplicate_paths : PathKind

abbrev pub next_state : PathKind → State
next_state removals = State.invalid
next_state invalid_paths = State.keys_missing
next_state missing_keys = State.duplicates
next_state duplicate_paths = State.done

abbrev pub delta_list : PathKind → Delta → List ℕ
delta_list removals d = d.valid.removals
delta_list invalid_paths d = d.invalid.additions
delta_list missing_keys d = d.keys_missing.additions
delta_list duplicate_paths d = d.duplicates.additions

abbrev pub extend : PathKind → ℕ → Delta → Delta
extend removals path d = record d {
  valid = record (d.valid) { removals = d.valid.removals ++ path ∷ [] };
}
extend invalid_paths path d = record d {
  invalid = record (d.invalid) { additions = d.invalid.additions ++ path ∷ [] };
}
extend missing_keys path d = record d {
  keys_missing = record (d.keys_missing) { additions = d.keys_missing.additions ++ path ∷ [] };
}
extend duplicate_paths path d = record d {
  duplicates = record (d.duplicates) { additions = d.duplicates.additions ++ path ∷ [] };
}

abbrev pub is_removal : PathKind → Bool
is_removal removals = true
is_removal _ = false

-- The two checks in the loop of `process_path_list`.
abbrev pub path_error : PathKind → ℕ → Receiver → Option SyncError
path_error kind path r =
    let listed = elem path (delta_list kind r.current_sync.delta) in
    if is_removal kind && (not (contains path r.plots) || listed)
    then some (plot_not_available path)
    else if not (is_removal kind) && listed
    then some (plot_already_available path)
    else none

unfoldable pub list_path : PathKind → ℕ → Action
list_path kind path = do
  λ r. (r, path_error kind path r)
  set_sync (λ s. record s { delta = extend kind path s.delta })
  λ r. if is_removal kind then (r, none) else bump_plots_processed r

unfoldable pub list_paths : PathKind → List ℕ → Action
list_paths kind [] = modify (λ r. r)
list_paths kind (p ∷ ps) = list_path kind p >> list_paths kind ps

unfoldable pub process_path_list : PathKind → Identifier → List ℕ → Bool → Action
process_path_list kind identifier paths final = do
  validate_identifier identifier false
  list_paths kind paths
  finish_list final (next_state kind)
