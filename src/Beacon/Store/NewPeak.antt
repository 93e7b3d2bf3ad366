-- ===== src/Beacon/Store/NewPeak.antt =====
-- A new peak: `new_peak` of corpochain/beacon/beacon_store.py, which keeps the one or two sub-slots of
-- the peak and takes in what waited for its infusion.
pub mod Kept
pub mod Replayed
use corpochain_beacon_client.Base.{
  ℕ, suc, ◌+◌, ◌-◌, ◌*◌, Bool, false, not, ◌&&◌, ◌||◌, Option, none, some, List, [], ◌∷◌, ◌++◌, ltb,
  leb, ◌==◌, if◌then◌else◌, is_some, length, drop, Result, ok, err, assertion_error, type_error,
  ◌>>=◌, ◌>>◌, require,
}
use corpochain_beacon_client.Base.Dict.{lookup, erase}
use corpochain_beacon_client.Consensus.Constants.{Constants}
use corpochain_beacon_client.Consensus.Iterations.{calculate_sp_interval_iters}
use corpochain_beacon_client.Consensus.Block.{
  BlockRecord, Blockchain, sp_sub_slot_total_iters, ip_sub_slot_total_iters,
}
use corpochain_beacon_client.Types.Proofs.{VdfInfo, same_vdf_info}
use corpochain_beacon_client.Types.Slots.{EndOfSubSlotBundle}
use corpochain_beacon_client.Types.Blocks.{FullBlock, Hashes}
use corpochain_beacon_client.Util.LruCache as Lru
use corpochain_beacon_client.Beacon.Store.{
  SignagePoint, InfusionPoint, SlotEntry, BeaconStore, no_sps, initialize_genesis_sub_slot,
  same_option, same_vdf_proof, same_bundle,
}
use corpochain_beacon_client.Beacon.Store.SubSlots.{cc_hash, new_finished_sub_slot}
use corpochain_beacon_client.Beacon.Store.SignagePoints.{new_signage_point}

pub record BeaconStorePeakResult : Type 0 where
  pub added_eos : Option EndOfSubSlotBundle
  pub new_signage_points : List (ℕ × SignagePoint)
  pub new_infusion_points : List InfusionPoint

abbrev pub clear_slots : BeaconStore → BeaconStore
clear_slots s = record s { finished_sub_slots = [] }

-- `replaced_sps`: the points before the fork point, from the index `i` on
abbrev pub replaced_sps : ℕ → ℕ → ℕ → ℕ → List (Option SignagePoint) → List (Option SignagePoint)
replaced_sps total_iters interval_iters fork_total_iters i [] = []
replaced_sps total_iters interval_iters fork_total_iters i (sp ∷ sps) =
    (if ltb (total_iters + i * interval_iters) fork_total_iters then sp else none)
    ∷ replaced_sps total_iters interval_iters fork_total_iters (suc i) sps

-- `sub_slot == sp_sub_slot`
abbrev pub is_slot : EndOfSubSlotBundle → Option EndOfSubSlotBundle → Bool
is_slot slot none = false
is_slot slot (some other) = same_bundle slot other

-- The points of the slot, with those from the loop's earlier rounds.
abbrev pub kept_sps :
    ℕ
    → ℕ
    → Option EndOfSubSlotBundle
    → List (Option SignagePoint)
    → List SlotEntry
    → List (Option SignagePoint)
kept_sps interval_iters fork_total_iters target sps [] = sps
kept_sps interval_iters fork_total_iters target sps (entry ∷ entries) = elim entry.sub_slot [
  | none ↦ kept_sps interval_iters fork_total_iters target sps entries
  | some slot ↦
      kept_sps interval_iters fork_total_iters target
        (if is_slot slot target
          then replaced_sps entry.total_iters interval_iters fork_total_iters 0 entry.sps
          else sps)
        entries
]

abbrev pub fork_total_iters_of : Option BlockRecord → BlockRecord → ℕ
fork_total_iters_of none peak = peak.total_iters
fork_total_iters_of (some fork_block) peak = fork_block.total_iters

-- `fork_block is not None and fork_block.sub_slot_iters != peak.sub_slot_iters`
abbrev pub changes_iters : Option BlockRecord → BlockRecord → Bool
changes_iters none peak = false
changes_iters (some fork_block) peak = not (fork_block.sub_slot_iters == peak.sub_slot_iters)

module _ (c : Constants) where
  -- The points kept for the signage point's slot and for the infusion point's slot.
  unfoldable pub sps_at_peak :
      BlockRecord
      → Option EndOfSubSlotBundle
      → Option EndOfSubSlotBundle
      → Option BlockRecord
      → List SlotEntry
      → Result (List (Option SignagePoint) × List (Option SignagePoint))
  unfolding calculate_sp_interval_iters same_bundle
  sps_at_peak peak sp_sub_slot ip_sub_slot fork_block entries =
      let empty = no_sps c.num_sps_sub_slot in
      if changes_iters fork_block peak then ok (empty, empty) else (do
        interval_iters ← calculate_sp_interval_iters c peak.sub_slot_iters
        let fork_total_iters = fork_total_iters_of fork_block peak
        ok (
          kept_sps interval_iters fork_total_iters sp_sub_slot empty entries,
          kept_sps interval_iters fork_total_iters ip_sub_slot empty entries,
        ))

  -- The slot of the signage point, if it is one of its own.
  unfoldable pub sp_slots :
      BlockRecord → Option EndOfSubSlotBundle → List (Option SignagePoint) → Result (List SlotEntry)
  unfolding sp_sub_slot_total_iters
  sp_slots peak sp_sub_slot sps = do
    prev_sub_slot_total_iters ← sp_sub_slot_total_iters c peak
    (if is_some sp_sub_slot || prev_sub_slot_total_iters == 0
        then (do
          require (peak.overflow || not (prev_sub_slot_total_iters == 0)) assertion_error
          ok (
              record { sub_slot = sp_sub_slot; sps = sps; total_iters = prev_sub_slot_total_iters }
              ∷ []))
        else ok [])

  unfoldable pub slots_at_peak :
      BlockRecord
      → Option EndOfSubSlotBundle
      → Option EndOfSubSlotBundle
      → Option BlockRecord
      → BeaconStore
      → Result BeaconStore
  unfolding sps_at_peak sp_slots ip_sub_slot_total_iters
  slots_at_peak peak sp_sub_slot none fork_block s = ok (initialize_genesis_sub_slot c s)
  slots_at_peak peak sp_sub_slot (some ip) fork_block s = do
    sps ← sps_at_peak peak sp_sub_slot (some ip) fork_block s.finished_sub_slots
    first ← sp_slots peak sp_sub_slot sps.0
    total_iters ← ip_sub_slot_total_iters c peak
    ok (record (clear_slots s) {
      finished_sub_slots =
          first ++ record { sub_slot = some ip; sps = sps.1; total_iters = total_iters } ∷ [];
    })

-- The items of a cache
abbrev pub waiting {ℓ} : {A : Type ℓ} → Option (List A) → List A
waiting none = []
waiting (some items) = items

abbrev pub same_signage_point : SignagePoint → SignagePoint → Bool
same_signage_point a b =
    same_option same_vdf_info a.cc_vdf b.cc_vdf
    && (same_option same_vdf_proof a.cc_proof b.cc_proof
        && (same_option same_vdf_info a.rc_vdf b.rc_vdf
            && same_option same_vdf_proof a.rc_proof b.rc_proof))

-- `sorted`, by the index: points have no order, so two different ones at an index raise.
abbrev pub insert_sorted :
    ℕ × SignagePoint → List (ℕ × SignagePoint) → Result (List (ℕ × SignagePoint))
insert_sorted item [] = ok (item ∷ [])
insert_sorted item (other ∷ items) =
    let rest = insert_sorted item items in
    if ltb item.0 other.0
    then ok (item ∷ other ∷ items)
    else if item.0 == other.0 && not (same_signage_point item.1 other.1)
    then err type_error
    else (do inserted ← rest; ok (other ∷ inserted))

abbrev pub sorted : List (ℕ × SignagePoint) → Result (List (ℕ × SignagePoint))
sorted [] = ok []
sorted (item ∷ items) = do rest ← sorted items; insert_sorted item rest

module _ (hashes : Hashes) (c : Constants) (bs : Blockchain)
    (verify_vdf : VdfInfo → ℕ → List ℕ → ℕ → ℕ → Option Bool) (peak : BlockRecord)
    (peak_full_block : FullBlock) (now : ℕ) where
  -- The loop over the ends of sub-slots, up to the first that is not refused.
  unfoldable pub take_eos :
      List EndOfSubSlotBundle → BeaconStore → Result (Option EndOfSubSlotBundle × BeaconStore)
  unfolding new_finished_sub_slot
  take_eos [] s = ok (none, s)
  take_eos (eos ∷ rest) s = do
    added ←
        new_finished_sub_slot hashes c bs verify_vdf eos (some peak) (some peak_full_block) now s
    elim added.0 [ none ↦ take_eos rest added.1 | some ips ↦ ok (some eos, added.1) ]

  -- The loop over the signage points.
  unfoldable pub take_sps :
      List (ℕ × SignagePoint) → BeaconStore → Result (List (ℕ × SignagePoint) × BeaconStore)
  unfolding new_signage_point
  take_sps [] s = ok ([], s)
  take_sps (item ∷ items) s = do
    require (is_some item.1.cc_vdf) assertion_error
    added ←
        new_signage_point hashes c bs verify_vdf false item.0 (some peak) peak.sub_slot_iters item.1
          now s
    rest ← take_sps items added.1
    ok ((if added.0 then item ∷ rest.0 else rest.0), rest.1)

  -- `pop` of what waited for the infusion
  abbrev pub pop_future : BeaconStore → BeaconStore
  pop_future s = record s {
    future_eos_cache = erase peak.reward_infusion_new_challenge s.future_eos_cache;
    future_sp_cache = erase peak.reward_infusion_new_challenge s.future_sp_cache;
    future_ip_cache = erase peak.reward_infusion_new_challenge s.future_ip_cache;
  }

  unfoldable pub put_recent_eos : List SlotEntry → BeaconStore → BeaconStore
  unfolding Lru.put
  put_recent_eos [] s = s
  put_recent_eos (entry ∷ entries) s = elim entry.sub_slot [
    | none ↦ put_recent_eos entries s
    | some slot ↦
        put_recent_eos entries (record s {
          recent_eos = Lru.put (cc_hash hashes c (some slot)) (slot, now) s.recent_eos;
        })
  ]

  unfoldable pub new_peak :
      Option EndOfSubSlotBundle
      → Option EndOfSubSlotBundle
      → Option BlockRecord
      → BeaconStore
      → Result (BeaconStorePeakResult × BeaconStore)
  unfolding slots_at_peak take_eos take_sps put_recent_eos
  new_peak sp_sub_slot ip_sub_slot fork_block s = do
    require (leb 1 (length s.finished_sub_slots)) assertion_error
    kept ← slots_at_peak c peak sp_sub_slot ip_sub_slot fork_block s
    eos ← take_eos (waiting (lookup peak.reward_infusion_new_challenge kept.future_eos_cache)) kept
    sps ← take_sps (waiting (lookup peak.reward_infusion_new_challenge eos.1.future_sp_cache)) eos.1
    let new_ips = waiting (lookup peak.reward_infusion_new_challenge sps.1.future_ip_cache)
    let popped = pop_future sps.1
    let s' = put_recent_eos popped.finished_sub_slots popped
    new_sps ← sorted sps.0
    ok (
      record {
        added_eos = eos.0;
        new_signage_points = drop (length new_sps - 4) new_sps;
        new_infusion_points = new_ips;
      },
      s',
    )
