-- ===== src/PlotSync/Receiver/Valid.antt =====
-- What holds of a receiver between messages.
use corpochain_beacon_client.Base.{
  ℕ, ◌≡◌, refl, ap, ◌∙◌, sym, Bool, true, false, ◌||◌, none, List, [], ◌∷◌, ◌++◌, elem, ◌==◌,
  if◌then◌else◌, is_some, arith, Bool-cases, Option-cases, inl, inr, ==_iff, ltb, ◌+◌, ◌^◌,
}
use corpochain_beacon_client.Base.Dict.{
  Dict, lookup, contains, insert, Distinct, lookup-insert, insert-Distinct,
}
use corpochain_beacon_client.PlotSync.Delta.{Plot}
use corpochain_beacon_client.PlotSync.State.{
  Identifier, State, Receiver, Action, ◌>>◌, modify, set_sync,
}
use corpochain_beacon_client.PlotSync.Handlers.{
  reset, bump_next_message_id, bump_plots_processed, validate_identifier, PlotSyncStart, begin_sync,
  sync_started, is_available, add_plot, load_plot, load_plots, process_loaded, PathKind, removals,
  invalid_paths, missing_keys, duplicate_paths, list_path, finish_list, open_sync, check_last_sync,
  check_sync_ids, set_harvesting_mode, harvesting_mode_of, is_removal, next_state, list_paths,
  process_path_list, path_error, extend,
}
use corpochain_beacon_client.PlotSync.Receiver.{sum_sizes}

-- No path stands twice.
abbrev pub Unique : List ℕ → Type 0
Unique [] = Unit
Unique (x ∷ xs) = (elem x xs ≡ false) × Unique xs

-- The plots, with the additions and removals of the synchronisation that runs: what is added is not
-- there yet, what is removed is there, and the total counts what is there.
pub record Sound (plots additions : Dict Plot) (gone : List ℕ) (total : ℕ) : Type 0 where
  pub plots_distinct : Distinct plots
  pub additions_distinct : Distinct additions
  pub fresh : (k : ℕ) → contains k additions ≡ true → contains k plots ≡ false
  pub gone_unique : Unique gone
  pub present : (k : ℕ) → elem k gone ≡ true → contains k plots ≡ true
  pub counted : total ≡ sum_sizes plots

abbrev pub IsValid : Receiver → Type 0
IsValid r =
    Sound r.plots r.current_sync.delta.valid.additions r.current_sync.delta.valid.removals
      r.total_plot_size

abbrev pub Keeps : Action → Type 0
Keeps f = (r : Receiver) → IsValid r → IsValid (f r).0

pub then-Keeps : (f g : Action) → Keeps f → Keeps g → Keeps (f >> g)
then-Keeps f g kf kg r v = elim (Option-cases ((f r).1)) [
  | inl done ↦ rw (done, ◌>>◌) (kg (f r).0 (kf r v))
  | inr (x, raised) ↦ rw (raised, ◌>>◌) (kf r v)
]

bump_next_message_id-Keeps : Keeps bump_next_message_id
unfolding bump_next_message_id
bump_next_message_id-Keeps r v =
    elim (Bool-cases (ltb (r.current_sync.next_message_id + 1) (2 ^ 64))) [
      | inl room ↦ rw room v
      | inr full ↦ rw full v
    ]

bump_plots_processed-Keeps : Keeps bump_plots_processed
unfolding bump_plots_processed
bump_plots_processed-Keeps r v =
    elim (Bool-cases (ltb (r.current_sync.plots_processed + 1) (2 ^ 32))) [
      | inl room ↦ rw room v
      | inr full ↦ rw full v
    ]

or_false : (a b : Bool) → (a || b) ≡ false → (a ≡ false) × (b ≡ false)
or_false a b h = ground arith

lookup-insert_other :
    (j k : ℕ) (p : Plot) (d : Dict Plot) → (j == k) ≡ false → lookup j (insert k p d) ≡ lookup j d
lookup-insert_other j k p d h = lookup-insert j k p d ∙ rw h

-- An extension of the additions by a plot that is not available.
Sound-add :
    {plots additions : Dict Plot} {gone : List ℕ} {total : ℕ} (p : Plot)
    → (contains p.filename plots || contains p.filename additions) ≡ false
    → Sound plots additions gone total
    → Sound plots (insert p.filename p additions) gone total
Sound-add {additions = a} p new s = record {
  plots_distinct = s.plots_distinct;
  additions_distinct = insert-Distinct p.filename p a s.additions_distinct;
  fresh = λ k h. elim (Bool-cases (k == p.filename)) [
    | inl same ↦ rw ((==_iff k p.filename).0 same) ((or_false _ _ new).0)
    | inr other ↦ s.fresh k (ap is_some (sym (lookup-insert_other k p.filename p a other)) ∙ h)
  ];
  gone_unique = s.gone_unique;
  present = s.present;
  counted = s.counted;
}

elem-append_one : (x y : ℕ) (xs : List ℕ) → elem x (xs ++ y ∷ []) ≡ (elem x xs || x == y)
elem-append_one x y [] = ground arith
elem-append_one x y (z ∷ xs) = ground (arith, elem-append_one x y xs)

Unique-append_one : (y : ℕ) (xs : List ℕ) → elem y xs ≡ false → Unique xs → Unique (xs ++ y ∷ [])
Unique-append_one y [] h u = (refl, tt)
Unique-append_one y (x ∷ xs) h u = ground (arith, elem-append_one x y xs, Unique-append_one y xs)

Sound-remove :
    {plots additions : Dict Plot} {gone : List ℕ} {total : ℕ} (path : ℕ)
    → contains path plots ≡ true
    → elem path gone ≡ false
    → Sound plots additions gone total
    → Sound plots additions (gone ++ path ∷ []) total
Sound-remove {gone = g} path there new s = record {
  plots_distinct = s.plots_distinct;
  additions_distinct = s.additions_distinct;
  fresh = s.fresh;
  gone_unique = Unique-append_one path g new s.gone_unique;
  present = λ k h. elim (Bool-cases (k == path)) [
    | inl same ↦ rw ((==_iff k path).0 same) there
    | inr other ↦ s.present k (ground (arith, elem-append_one k path g))
  ];
  counted = s.counted;
}

Sound-empty : Sound [] [] [] 0
unfolding sum_sizes
Sound-empty = record {
  plots_distinct = tt;
  additions_distinct = tt;
  fresh = λ k h. refl;
  gone_unique = tt;
  present = λ k h. cc;
  counted = refl;
}

reset-Keeps : Keeps (modify reset)
unfolding reset
reset-Keeps r v = Sound-empty

pub validate_identifier-Keeps :
    (i : Identifier) (start : Bool) → Keeps (validate_identifier i start)
unfolding validate_identifier
validate_identifier-Keeps i start r v = v

load_plot-Keeps : (p : Plot) → Keeps (load_plot p)
unfolding load_plot
load_plot-Keeps p r v = elim (Bool-cases (is_available p r)) [
  | inl known ↦ rw (known, ◌>>◌) v
  | inr new ↦ rw (new, ◌>>◌) (bump_plots_processed-Keeps (add_plot p r) (Sound-add p new v))
]

load_plots-Keeps : (ps : List Plot) → Keeps (load_plots ps)
unfolding load_plots
load_plots-Keeps [] r v = v
load_plots-Keeps (p ∷ ps) r v =
    then-Keeps (load_plot p) (load_plots ps) (load_plot-Keeps p) (load_plots-Keeps ps) r v

removal_checks :
    (path : ℕ) (r : Receiver)
    → path_error removals path r ≡ none
    → (contains path r.plots ≡ true) × (elem path r.current_sync.delta.valid.removals ≡ false)
removal_checks path r h = ground arith

extend_path-Keeps :
    (kind : PathKind) (path : ℕ) (r : Receiver)
    → path_error kind path r ≡ none
    → IsValid r
    → IsValid (set_sync (λ s. record s { delta = extend kind path s.delta }) r).0
extend_path-Keeps removals path r h v =
    let (there, new) = removal_checks path r h in Sound-remove path there new v
extend_path-Keeps invalid_paths path r h v = v
extend_path-Keeps missing_keys path r h v = v
extend_path-Keeps duplicate_paths path r h v = v

count_path-Keeps : (b : Bool) → Keeps (λ r. if b then (r, none) else bump_plots_processed r)
count_path-Keeps true r v = v
count_path-Keeps false r v = bump_plots_processed-Keeps r v

list_path-Keeps : (kind : PathKind) (path : ℕ) → Keeps (list_path kind path)
unfolding list_path
list_path-Keeps kind path r v = elim (Option-cases (path_error kind path r)) [
  | inl fine ↦
      rw (fine, ◌>>◌)
        (count_path-Keeps (is_removal kind)
          (set_sync (λ s. record s { delta = extend kind path s.delta }) r).0
          (extend_path-Keeps kind path r fine v))
  | inr (x, raised) ↦ rw (raised, ◌>>◌) v
]

list_paths-Keeps : (kind : PathKind) (ps : List ℕ) → Keeps (list_paths kind ps)
unfolding list_paths
list_paths-Keeps kind [] r v = v
list_paths-Keeps kind (p ∷ ps) r v =
    then-Keeps (list_path kind p) (list_paths kind ps) (list_path-Keeps kind p)
      (list_paths-Keeps kind ps) r v

finish_list-Keeps : (final : Bool) (next : State) → Keeps (finish_list final next)
unfolding finish_list
finish_list-Keeps true next r v = bump_next_message_id-Keeps _ v
finish_list-Keeps false next r v = bump_next_message_id-Keeps _ v

pub process_loaded-Keeps :
    (i : Identifier) (ps : List Plot) (final : Bool) → Keeps (process_loaded i ps final)
unfolding process_loaded
process_loaded-Keeps i ps final =
    let finish = finish_list final State.removed in
    then-Keeps (validate_identifier i false) (load_plots ps >> finish)
      (validate_identifier-Keeps i false)
      (then-Keeps (load_plots ps) finish (load_plots-Keeps ps)
        (finish_list-Keeps final State.removed))

pub process_path_list-Keeps :
    (kind : PathKind) (i : Identifier) (ps : List ℕ) (final : Bool)
    → Keeps (process_path_list kind i ps final)
unfolding process_path_list
process_path_list-Keeps kind i ps final =
    let finish = finish_list final (next_state kind) in
    then-Keeps (validate_identifier i false) (list_paths kind ps >> finish)
      (validate_identifier-Keeps i false)
      (then-Keeps (list_paths kind ps) finish (list_paths-Keeps kind ps)
        (finish_list-Keeps final (next_state kind)))

-- The delta is cleared when a synchronisation starts.
Sound-clear :
    {plots additions : Dict Plot} {gone : List ℕ} {total : ℕ}
    → Sound plots additions gone total
    → Sound plots [] [] total
Sound-clear s = record {
  plots_distinct = s.plots_distinct;
  additions_distinct = tt;
  fresh = λ k h. cc;
  gone_unique = tt;
  present = λ k h. cc;
  counted = s.counted;
}

set_harvesting_mode-Keeps : (n : ℕ) → Keeps (set_harvesting_mode n)
unfolding set_harvesting_mode
set_harvesting_mode-Keeps n r v = elim (Option-cases (harvesting_mode_of n)) [
  | inl bad ↦ rw (bad, set_harvesting_mode) v
  | inr (mode, good) ↦ rw (good, set_harvesting_mode) v
]

open_sync-Keeps : (m : PlotSyncStart) → Keeps (open_sync m)
unfolding open_sync
open_sync-Keeps m r v =
    then-Keeps (set_harvesting_mode m.harvesting_mode) bump_next_message_id
      (set_harvesting_mode-Keeps m.harvesting_mode) bump_next_message_id-Keeps _ (Sound-clear v)

begin_sync-Keeps : (m : PlotSyncStart) → Keeps (begin_sync m)
unfolding begin_sync
begin_sync-Keeps m =
    then-Keeps (check_last_sync m) (check_sync_ids m >> open_sync m) (λ r v. v)
      (then-Keeps (check_sync_ids m) (open_sync m) (λ r v. v) (open_sync-Keeps m))

pub sync_started-Keeps : (m : PlotSyncStart) → Keeps (sync_started m)
unfolding sync_started
sync_started-Keeps m r v =
    then-Keeps (validate_identifier m.identifier true) (begin_sync m)
      (validate_identifier-Keeps m.identifier true) (begin_sync-Keeps m) _ (prepared m.initial)
  where
    prepared : (b : Bool) → IsValid (if b then reset r else r)
    prepared true = reset-Keeps r v
    prepared false = v
