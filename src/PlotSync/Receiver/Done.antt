-- ===== src/PlotSync/Receiver/Done.antt =====
-- The end of a synchronisation, and the invariant over every message.
use corpochain_beacon_client.Base.{
  ℕ, ◌≡◌, refl, ap, ◌∙◌, sym, Bool, true, false, ◌||◌, Option, none, some, List, [], ◌∷◌, elem,
  ◌==◌, if◌then◌else◌, is_some, arith, Bool-cases, inl, inr, ==_iff, ==_refl,
}
use corpochain_beacon_client.Base.Dict.{
  Dict, lookup, contains, insert, erase, Distinct, lookup-insert, insert-Distinct, erase-Distinct,
  lookup-erase_self, lookup-erase_ne,
}
use mathlib.Core.Path.{subst}
use corpochain_beacon_client.PlotSync.Delta.{Plot}
use corpochain_beacon_client.PlotSync.State.{Identifier, Receiver, new_sync, ◌>>◌, set_sync}
use corpochain_beacon_client.PlotSync.Handlers.{validate_identifier, identifier_fits}
use corpochain_beacon_client.PlotSync.Receiver.{
  update, delete_all, sum_sizes, finished, apply_delta, sync_done, Message, start, loaded, paths,
  done, method, process,
}
use corpochain_beacon_client.PlotSync.Receiver.Valid.{
  Unique, IsValid, Keeps, then-Keeps, validate_identifier-Keeps, sync_started-Keeps,
  process_loaded-Keeps, process_path_list-Keeps,
}

abbrev pub or_else : Option Plot → Option Plot → Option Plot
or_else none q = q
or_else (some p) q = some p

lookup-update :
    (k : ℕ) (adds plots : Dict Plot)
    → Distinct adds
    → lookup k (update adds plots) ≡ or_else (lookup k adds) (lookup k plots)
unfolding update
lookup-update k [] plots d = refl
lookup-update k (e ∷ rest) plots d =
    ground
      (arith, lookup-update k rest (insert e.0 e.1 plots) d.1, lookup-insert k e.0 e.1 plots, d.0)

update-Distinct : (adds plots : Dict Plot) → Distinct plots → Distinct (update adds plots)
unfolding update
update-Distinct [] plots d = d
update-Distinct (e ∷ rest) plots d =
    update-Distinct rest (insert e.0 e.1 plots) (insert-Distinct e.0 e.1 plots d)

contains-erase_other :
    (x k : ℕ) (ks : List ℕ) (plots : Dict Plot)
    → elem x ks ≡ false
    → elem k ks ≡ true
    → contains k (erase x plots) ≡ contains k plots
contains-erase_other x k ks plots out within = ap is_some (lookup-erase_ne k x plots (λ e. cc))

lookup-erase_if :
    (x k : ℕ) (b : Bool) (plots : Dict Plot)
    → Distinct plots
    → (if b then none else lookup k (erase x plots))
      ≡ (if k == x || b then none else lookup k plots)
lookup-erase_if x k true plots d = ground arith
lookup-erase_if x k false plots d = elim (Bool-cases (k == x)) [
  | inl same ↦ rw (same, (==_iff k x).0 same) (lookup-erase_self x plots d)
  | inr other ↦ rw other (lookup-erase_ne k x plots (λ e. ground arith))
]

-- With every key there and none twice, all are deleted.
delete_all_lem :
    (ks : List ℕ) (plots : Dict Plot)
    → Unique ks
    → Distinct plots
    → ((k : ℕ) → elem k ks ≡ true → contains k plots ≡ true)
    → ((delete_all ks plots).1 ≡ true)
      × Distinct (delete_all ks plots).0
      × ((k : ℕ) → lookup k (delete_all ks plots).0 ≡ (if elem k ks then none else lookup k plots))
unfolding delete_all
delete_all_lem [] plots u d p = (refl, d, λ k. refl)
delete_all_lem (x ∷ ks) plots u d p =
    let there : contains x plots ≡ true = p x (ground (arith, ==_refl x)) in
    let (complete, distinct, same) =
      delete_all_lem ks (erase x plots) u.1 (erase-Distinct x plots d)
        (λ k h. contains-erase_other x k ks plots u.0 h ∙ p k (ground arith)) in
    rw there (complete, distinct, λ k. same k ∙ lookup-erase_if x k (elem k ks) plots d)

or_else_some : (a b : Option Plot) → is_some b ≡ true → is_some (or_else a b) ≡ true
or_else_some none b h = h
or_else_some (some p) b h = refl

-- The plots after `apply_delta`.
abbrev changed : Receiver → Dict Plot
changed r =
    (delete_all r.current_sync.delta.valid.removals
      (update r.current_sync.delta.valid.additions r.plots)).0

deletion :
    (r : Receiver)
    → IsValid r
    → let valid = r.current_sync.delta.valid in
      let result = delete_all valid.removals (update valid.additions r.plots) in
      (result.1 ≡ true)
      × Distinct result.0
      × ((k : ℕ)
          → lookup k result.0 ≡ (
              if elem k valid.removals
              then none
              else or_else (lookup k valid.additions) (lookup k r.plots)))
deletion r v =
    let adds = r.current_sync.delta.valid.additions in
    let (complete, distinct, same) =
      delete_all_lem r.current_sync.delta.valid.removals (update adds r.plots) v.gone_unique
        (update-Distinct adds r.plots v.plots_distinct)
        (λ k h.
          ap is_some (lookup-update k adds r.plots v.additions_distinct)
          ∙ or_else_some (lookup k adds) (lookup k r.plots) (v.present k h)) in
    (complete, distinct, λ k. rw (same k, lookup-update k adds r.plots v.additions_distinct) refl)

apply_delta-eq : (r : Receiver) → IsValid r → apply_delta r ≡ (finished (changed r) r, none)
unfolding apply_delta
apply_delta-eq r v = rw ((deletion r v).0) refl

finished-IsValid : (plots : Dict Plot) (r : Receiver) → Distinct plots → IsValid (finished plots r)
finished-IsValid plots r d = record {
  plots_distinct = d;
  additions_distinct = tt;
  fresh = λ k h. cc;
  gone_unique = tt;
  present = λ k h. cc;
  counted = refl;
}

apply_delta-Keeps : Keeps apply_delta
apply_delta-Keeps r v =
    subst (λ x. IsValid x.0) (sym (apply_delta-eq r v))
      (finished-IsValid (changed r) r (deletion r v).1)

sync_done-eq :
    (now : ℕ) (i : Identifier) (r : Receiver)
    → identifier_fits i false r ≡ true
    → sync_done now i r ≡ apply_delta (set_sync (λ s. record s { time_done = some now }) r).0
unfolding sync_done validate_identifier
sync_done-eq now i r fits = rw (fits, ◌>>◌) refl

-- A valid receiver accepts a done message that carries the current sync id and the next message id,
-- without an exception: the plots are then the old ones with the additions laid over them and without
-- the removals, the total size is that of these plots, the current synchronisation starts afresh, and
-- the last one is the one that ended, with its time.
pub sync_done-applies :
    (now : ℕ) (i : Identifier) (r : Receiver)
    → IsValid r
    → identifier_fits i false r ≡ true
    → let valid = r.current_sync.delta.valid in
      let result = sync_done now i r in
      (result.1 ≡ none)
      × ((k : ℕ)
          → lookup k result.0.plots ≡ (
              if elem k valid.removals
              then none
              else or_else (lookup k valid.additions) (lookup k r.plots)))
      × (result.0.total_plot_size ≡ sum_sizes result.0.plots)
      × (result.0.current_sync ≡ new_sync)
      × (result.0.last_sync ≡ record (r.current_sync) { time_done = some now })
sync_done-applies now i r v fits =
    let r' = (set_sync (λ s. record s { time_done = some now }) r).0 in
    rw (sync_done-eq now i r fits, apply_delta-eq r' v) (refl, (deletion r' v).2, refl, refl, refl)

sync_done-Keeps : (now : ℕ) (i : Identifier) → Keeps (sync_done now i)
unfolding sync_done
sync_done-Keeps now i =
    let stamp = set_sync (λ s. record s { time_done = some now }) in
    then-Keeps (validate_identifier i false) (stamp >> apply_delta)
      (validate_identifier-Keeps i false)
      (then-Keeps stamp apply_delta (λ r v. v) apply_delta-Keeps)

method-Keeps : (now : ℕ) (m : Message) → Keeps (method now m)
unfolding method
method-Keeps now (start m) = sync_started-Keeps m
method-Keeps now (loaded i plots final) = process_loaded-Keeps i plots final
method-Keeps now (paths kind i list final) = process_path_list-Keeps kind i list final
method-Keeps now (done i) = sync_done-Keeps now i

-- The messages in a row.
abbrev pub process_all : ℕ → List Message → Receiver → Receiver
process_all now [] r = r
process_all now (m ∷ ms) r = process_all now ms (process now m r).0

-- From a valid receiver, any messages in any order, accepted or refused, lead to a valid receiver: no
-- path twice, additions not yet there, removals there, and the total size that of the plots.
pub process-IsValid :
    (now : ℕ) (ms : List Message) (r : Receiver) → IsValid r → IsValid (process_all now ms r)
unfolding process
process-IsValid now [] r v = v
process-IsValid now (m ∷ ms) r v =
    process-IsValid now ms (process now m r).0 (method-Keeps now m r v)
