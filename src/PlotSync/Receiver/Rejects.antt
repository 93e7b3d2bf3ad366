-- ===== src/PlotSync/Receiver/Rejects.antt =====
-- Messages with a wrong identifier.
use corpochain_beacon_client.Base.{
  ℕ, ◌≡◌, ◌≢◌, ◌⊎◌, inl, inr, ap, ◌∙◌, if◌then◌else◌, Bool, true, false, some, ◌==◌, ◌||◌, ◌&&◌,
  ==_iff, Bool-cases,
}
use corpochain_beacon_client.PlotSync.State.{Identifier, Receiver, invalid_identifier, ◌>>◌}
use corpochain_beacon_client.PlotSync.Handlers.{
  begin_sync, reset, identifier_fits, expected, validate_identifier, sync_started, process_loaded,
  process_path_list, PlotSyncStart,
}
use corpochain_beacon_client.PlotSync.Receiver.{
  Message, start, loaded, paths, done, identifier_of, type_of, method, process, sync_done,
}

-- A start compares the message id alone.
abbrev pub is_start : Message → Bool
is_start (start _) = true
is_start _ = false

-- A start that resets the receiver first.
abbrev pub is_initial : Message → Bool
is_initial (start m) = m.initial
is_initial _ = false

validate_identifier_wrong :
    (i : Identifier) (s : Bool) (r : Receiver)
    → identifier_fits i s r ≡ false
    → validate_identifier i s r ≡ (r, some (invalid_identifier (expected i r)))
unfolding validate_identifier
validate_identifier_wrong i s r h = rw h

wrong_start :
    (m : PlotSyncStart) (r : Receiver)
    → identifier_fits m.identifier true r ≡ false
    → (validate_identifier m.identifier true >> begin_sync m) r
      ≡ (r, some (invalid_identifier (expected m.identifier r)))
wrong_start m r wrong =
    rw (validate_identifier_wrong m.identifier true r wrong, ◌>>◌)
      (rw (validate_identifier_wrong m.identifier true r wrong))

method_rejects :
    (now : ℕ) (m : Message) (r : Receiver)
    → is_initial m ≡ false
    → identifier_fits (identifier_of m) (is_start m) r ≡ false
    → method now m r ≡ (r, some (invalid_identifier (expected (identifier_of m) r)))
unfolding method process_loaded process_path_list sync_done sync_started
method_rejects now (start m) r initial wrong =
    ap (λ b. (validate_identifier m.identifier true >> begin_sync m) (if b then reset r else r))
      initial
    ∙ wrong_start m r wrong
method_rejects now (loaded i plots final) r initial wrong =
    rw (validate_identifier_wrong i false r wrong, ◌>>◌)
      (rw (validate_identifier_wrong i false r wrong))
method_rejects now (paths kind i list final) r initial wrong =
    rw (validate_identifier_wrong i false r wrong, ◌>>◌)
      (rw (validate_identifier_wrong i false r wrong))
method_rejects now (done i) r initial wrong =
    rw (validate_identifier_wrong i false r wrong, ◌>>◌)
      (rw (validate_identifier_wrong i false r wrong))

-- The message id is not the next one, or the sync id is not that of the synchronisation; of a start
-- only the message id counts.
abbrev pub Differs : Message → Receiver → Type 0
Differs m r =
    ((identifier_of m).message_id ≢ r.current_sync.next_message_id)
    ⊎ ((is_start m ≡ false) × ((identifier_of m).sync_id ≢ r.current_sync.sync_id))

not_both : (a b : Bool) → b ≡ false → (a && b) ≡ false
not_both true b h = h
not_both false b h = cc

not_first : (a b : Bool) → a ≡ false → (a && b) ≡ false
not_first a b h = rw h cc

not_equal : (a b : ℕ) → a ≢ b → (a == b) ≡ false
not_equal a b h = elim (Bool-cases (a == b)) [
  | inl same ↦ absurd (h ((==_iff a b).0 same))
  | inr other ↦ other
]

Differs-identifier_fits :
    (m : Message) (r : Receiver)
    → Differs m r
    → identifier_fits (identifier_of m) (is_start m) r ≡ false
Differs-identifier_fits m r (inl message) = not_both _ _ (not_equal _ _ message)
Differs-identifier_fits m r (inr (other, sync)) =
    not_first _ _ (
      ap (λ b. b || (identifier_of m).sync_id == r.current_sync.sync_id) other ∙ not_equal _ _ sync)

-- A message whose message id is not the next one, or that is not a start and has another sync id than
-- the synchronisation, changes nothing, and the response names the error with the identifier that
-- is expected: its own timestamp, the sync id of the synchronisation and the next message id. Of a
-- start this is said where it does not ask for a reset.
pub process-rejects :
    (now : ℕ) (m : Message) (r : Receiver)
    → is_initial m ≡ false
    → Differs m r
    → process now m r ≡ (
      r,
      record {
        identifier = identifier_of m;
        message_type = type_of m;
        error = some (
            invalid_identifier (record {
              timestamp = (identifier_of m).timestamp;
              sync_id = r.current_sync.sync_id;
              message_id = r.current_sync.next_message_id;
            }));
      },
    )
unfolding process
process-rejects now m r initial differs =
    ap (λ p. (p.0, record { identifier = identifier_of m; message_type = type_of m; error = p.1 }))
      (method_rejects now m r initial (Differs-identifier_fits m r differs))
