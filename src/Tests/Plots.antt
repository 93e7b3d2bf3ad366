-- ===== src/Tests/Plots.antt =====
-- A synchronisation of plots, on small data.
use corpochain_beacon_client.Base.{
  ℕ, ◌≡◌, refl, inl, true, none, some, List, [], ◌∷◌, elem, if◌then◌else◌, arith,
}
use corpochain_beacon_client.Base.Dict.{Dict, lookup}
use corpochain_beacon_client.PlotSync.Delta.{Plot, no_change}
use corpochain_beacon_client.PlotSync.State.{
  Identifier, State, Receiver, new_sync, invalid_identifier,
}
use corpochain_beacon_client.PlotSync.Handlers.{invalid_paths}
use corpochain_beacon_client.PlotSync.Receiver.{
  sum_sizes, sync_done, Message, loaded, paths, done, process,
}
use corpochain_beacon_client.PlotSync.Receiver.Valid.{IsValid}
use corpochain_beacon_client.PlotSync.Receiver.Rejects.{process-rejects}
use corpochain_beacon_client.PlotSync.Receiver.Done.{
  or_else, process_all, sync_done-applies, process-IsValid,
}

abbrev plot_of : ℕ → ℕ → Plot
plot_of filename size = record { filename = filename; file_size = size }

abbrev additions : Dict Plot
additions = (3, plot_of 3 40) ∷ []

abbrev present : Dict Plot
present = (1, plot_of 1 100) ∷ (2, plot_of 2 50) ∷ []

-- Two plots are there; one is to be added, one to be removed.
abbrev syncing : Receiver
syncing = record {
  current_sync = record new_sync {
    state = State.done;
    sync_id = 77;
    next_message_id = 6;
    delta = record no_change { valid = record { additions = additions; removals = 2 ∷ [] } };
  };
  last_sync = new_sync;
  plots = present;
  invalid = [];
  keys_missing = [];
  duplicates = [];
  total_plot_size = 150;
  harvesting_mode = none;
  callbacks = [];
}

syncing-IsValid : IsValid syncing
unfolding sum_sizes
syncing-IsValid = record {
  plots_distinct = (refl, (refl, tt));
  additions_distinct = (refl, tt);
  fresh = λ k h. ground arith;
  gone_unique = (refl, tt);
  present = λ k h. ground arith;
  counted = refl;
}

abbrev id_of : ℕ → Identifier
id_of message_id = record { timestamp = 5; sync_id = 77; message_id = message_id }

sync_done-applies_example :
    ((sync_done 9 (id_of 6) syncing).1 ≡ none)
    × ((k : ℕ)
        → lookup k (sync_done 9 (id_of 6) syncing).0.plots
          ≡ (if elem k (2 ∷ []) then none else or_else (lookup k additions) (lookup k present)))
    × ((sync_done 9 (id_of 6) syncing).0.total_plot_size
        ≡ sum_sizes (sync_done 9 (id_of 6) syncing).0.plots)
    × ((sync_done 9 (id_of 6) syncing).0.current_sync ≡ new_sync)
    × ((sync_done 9 (id_of 6) syncing).0.last_sync
        ≡ record (syncing.current_sync) { time_done = some 9 })
sync_done-applies_example = sync_done-applies 9 (id_of 6) syncing syncing-IsValid refl

abbrev messages : List Message
messages =
    paths invalid_paths (id_of 6) (8 ∷ 8 ∷ []) true
    ∷ done (id_of 6)
    ∷ loaded (id_of 7) (plot_of 5 1 ∷ []) true
    ∷ []

process-IsValid_example : IsValid (process_all 9 messages syncing)
process-IsValid_example = process-IsValid 9 messages syncing syncing-IsValid

process-rejects_example : process 9 (loaded (id_of 4) (plot_of 5 1 ∷ []) true) syncing ≡ (
  syncing,
  record {
    identifier = id_of 4;
    message_type = 10;
    error = some (invalid_identifier (id_of syncing.current_sync.next_message_id));
  },
)
process-rejects_example =
    process-rejects 9 (loaded (id_of 4) (plot_of 5 1 ∷ []) true) syncing refl
      (inl (λ e. absurd (omega (arith, e))))
