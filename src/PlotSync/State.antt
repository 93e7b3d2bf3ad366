-- ===== src/PlotSync/State.antt =====
-- The state of the receiver of a harvester's plot messages: corpochain/plot_sync/receiver.py,
-- util.py and exceptions.py. A handler keeps what it wrote when it raises, so it returns the new
-- state beside the exception. `callbacks` lists the calls of the update callback, the latest first;
-- what the callback raises is swallowed.
use corpochain_beacon_client.Base.{ℕ, Bool, Option, none, some, List, ◌∷◌, if◌then◌else◌}
use corpochain_beacon_client.Base.Int.{ℤ, pos, negsuc}
use corpochain_beacon_client.Base.Dict.{Dict}
use corpochain_beacon_client.PlotSync.Delta.{Plot, Delta, no_change}

pub record Identifier : Type 0 where
  pub timestamp : ℕ
  pub sync_id : ℕ
  pub message_id : ℕ

pub data State : Type 0 where
  idle loaded removed invalid keys_missing duplicates done : State

pub data HarvestingMode : Type 0 where
  cpu gpu : HarvestingMode

pub record Sync : Type 0 where
  pub state : State
  pub sync_id : ℕ
  pub next_message_id : ℕ
  pub plots_processed : ℕ
  pub plots_total : ℕ
  pub delta : Delta
  pub time_done : Option ℕ

-- `Sync()`
abbrev pub new_sync : Sync
new_sync = record {
  state = State.idle;
  sync_id = 0;
  next_message_id = 0;
  plots_processed = 0;
  plots_total = 0;
  delta = no_change;
  time_done = none;
}

pub record Receiver : Type 0 where
  pub current_sync : Sync
  pub last_sync : Sync
  pub plots : Dict Plot
  pub invalid : List ℕ
  pub keys_missing : List ℕ
  pub duplicates : List ℕ
  pub total_plot_size : ℕ
  pub harvesting_mode : Option HarvestingMode
  pub callbacks : List (Option Delta)

-- The exceptions that `_process` tells apart; `unknown` is any that is no `PlotSyncException`.
pub data SyncError : Type 0 where
  invalid_identifier : Identifier → SyncError
  invalid_last_sync_id sync_ids_match unknown : SyncError
  plot_already_available plot_not_available : ℕ → SyncError

-- `ErrorCodes`
unfoldable pub error_code : SyncError → ℤ
error_code (invalid_identifier expected) = pos 2
error_code invalid_last_sync_id = pos 3
error_code sync_ids_match = pos 7
error_code unknown = negsuc 0
error_code (plot_already_available path) = pos 5
error_code (plot_not_available path) = pos 6

abbrev pub Action : Type 0
Action = Receiver → Receiver × Option SyncError

infixl 5 ◌>>◌
abbrev pub ◌>>◌ : Action → Action → Action
◌>>◌ f g r = let (r', e) = f r in elim e [ none ↦ g r' | some x ↦ (r', some x) ]

abbrev pub raise_if : Bool → SyncError → Action
raise_if b e r = (r, if b then some e else none)

abbrev pub modify : (Receiver → Receiver) → Action
modify f r = (f r, none)

abbrev pub set_sync : (Sync → Sync) → Action
set_sync f = modify (λ r. record r { current_sync = f r.current_sync })

abbrev pub trigger_callback : Option Delta → Action
trigger_callback update = modify (λ r. record r { callbacks = update ∷ r.callbacks })
