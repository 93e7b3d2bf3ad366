-- ===== src/Beacon/Store/SignagePoints.antt =====
-- The signage points of the sub-slots: `new_signage_point` and the queries of
-- corpochain/beacon/beacon_store.py. The call of `verify_vdf` is a parameter, none where it raises.
pub mod Filed
pub mod Found
pub mod Orderly
pub mod Reached
use corpochain_beacon_client.Base.{
  ℕ, zero, suc, ◌+◌, ◌-◌, ◌*◌, ◌/◌, Bool, true, false, not, ◌&&◌, ◌||◌, Option, none, some, List,
  [], ◌∷◌, ltb, leb, ◌==◌, if◌then◌else◌, length, get_elem?, is_some, Result, ok, err, index_error,
  assertion_error, ◌>>=◌, ◌>>◌, require, or_raise,
}
use corpochain_beacon_client.Base.Slices.{set_slice}
use corpochain_beacon_client.Ints.{uint, uint_sub}
use corpochain_beacon_client.Consensus.Constants.{Constants}
use corpochain_beacon_client.Consensus.Block.{BlockRecord, Blockchain, first_in_sub_slot}
use corpochain_beacon_client.Consensus.Chain.{walk_back}
use corpochain_beacon_client.Types.Proofs.{
  VdfInfo, VdfProof, default_element, same_vdf_info, is_valid_vdf,
}
use corpochain_beacon_client.Types.Slots.{EndOfSubSlotBundle}
use corpochain_beacon_client.Types.Blocks.{Hashes}
use corpochain_beacon_client.Util.LruCache as Lru
use corpochain_beacon_client.Beacon.Store.{SignagePoint, no_signage_point, SlotEntry, BeaconStore}
use corpochain_beacon_client.Beacon.Store.Future.{add_to_future_sp}
use corpochain_beacon_client.Beacon.Store.SubSlots.{cc_hash, rc_hash}

-- The four parts of a point, none of which may be missing.
pub record Parts : Type 0 where
  pub cc_vdf : VdfInfo
  pub cc_proof : VdfProof
  pub rc_vdf : VdfInfo
  pub rc_proof : VdfProof

unfoldable pub parts_of : SignagePoint → Result Parts
parts_of sp = do
  cc_vdf ← or_raise sp.cc_vdf assertion_error
  cc_proof ← or_raise sp.cc_proof assertion_error
  rc_vdf ← or_raise sp.rc_vdf assertion_error
  rc_proof ← or_raise sp.rc_proof assertion_error
  ok (record { cc_vdf = cc_vdf; cc_proof = cc_proof; rc_vdf = rc_vdf; rc_proof = rc_proof })

-- Where the VDFs of a point start: the reward chain's challenge, the iterations and the element.
pub record SpStart : Type 0 where
  pub rc_challenge : ℕ
  pub iters : ℕ
  pub start_ele : ℕ

-- `peak is not None and start_ss_total_iters > peak.total_iters`
abbrev pub in_future : Option BlockRecord → SlotEntry → Bool
in_future none entry = false
in_future (some peak) entry = ltb peak.total_iters entry.total_iters

-- The sub-slot iterations at the peak
abbrev pub iters_of_peak : Constants → Option BlockRecord → ℕ
iters_of_peak c none = c.sub_slot_iters_starting
iters_of_peak c (some peak) =
    if ltb peak.height 2 then c.sub_slot_iters_starting else peak.sub_slot_iters

module _ (hashes : Hashes) (c : Constants) where
  -- The first of the slots with that hash, from the place `i` on
  abbrev pub find_entry : ℕ → ℕ → List SlotEntry → Result (Option (ℕ × SlotEntry))
  find_entry challenge i [] = ok none
  find_entry challenge i (entry ∷ entries) =
      let rest = find_entry challenge (suc i) entries in
      do
        require (is_some entry.sub_slot || entry.total_iters == 0) assertion_error
        (if cc_hash hashes c entry.sub_slot == challenge then ok (some (i, entry)) else rest)

  -- `delta_iters`
  unfoldable pub delta_iters : ℕ → Option BlockRecord → ℕ → SlotEntry → Result ℕ
  unfolding uint
  delta_iters index peak next_sub_slot_iters entry = do
    checkpoint_size ← uint 64 (
        (if in_future peak entry then next_sub_slot_iters else iters_of_peak c peak)
        / c.num_sps_sub_slot)
    uint 64 (checkpoint_size * index)

  abbrev pub from_slot : SlotEntry → ℕ → SpStart
  from_slot entry delta = record {
    rc_challenge = rc_hash hashes c entry.sub_slot;
    iters = delta;
    start_ele = default_element;
  }

  -- The test of the loop back from the peak, and the break in it.
  abbrev pub is_after : SlotEntry → ℕ → BlockRecord → Bool
  is_after entry sp_total_iters curr =
      ltb entry.total_iters curr.total_iters && ltb sp_total_iters curr.total_iters

  abbrev pub keeps_back : SlotEntry → ℕ → BlockRecord → Bool
  keeps_back entry sp_total_iters curr =
      is_after entry sp_total_iters curr && not (first_in_sub_slot curr)

  unfoldable pub sp_start : Blockchain → Option BlockRecord → SlotEntry → ℕ → Result SpStart
  unfolding uint_sub
  sp_start bs none entry delta = ok (from_slot entry delta)
  sp_start bs (some peak) entry delta =
      let sp_total_iters = entry.total_iters + delta in
      if in_future (some peak) entry then ok (from_slot entry delta) else (do
        curr ← walk_back bs (keeps_back entry sp_total_iters) (suc peak.height) peak
        (if is_after entry sp_total_iters curr then ok (from_slot entry delta) else (do
          iters ← uint_sub 64 sp_total_iters curr.total_iters
          ok (record {
            rc_challenge = curr.reward_infusion_new_challenge;
            iters = iters;
            start_ele = curr.challenge_vdf_output;
          }))))

  -- The checks of the point, in the order of the source.
  unfoldable pub sp_fits :
      (VdfInfo → ℕ → List ℕ → ℕ → ℕ → Option Bool) → Bool → SpStart → ℕ → SlotEntry → Parts → Bool
  unfolding is_valid_vdf
  sp_fits verify_vdf skip_vdf_validation start delta entry sp =
      let ss_challenge_hash = cc_hash hashes c entry.sub_slot in
      same_vdf_info sp.cc_vdf (record {
        challenge = ss_challenge_hash;
        number_of_iterations = delta;
        output = sp.cc_vdf.output;
      })
      && ((skip_vdf_validation
            || (if sp.cc_proof.normalized_to_identity
                then is_valid_vdf verify_vdf c sp.cc_proof default_element sp.cc_vdf none
                else is_valid_vdf verify_vdf c sp.cc_proof start.start_ele
                    (record {
                      challenge = ss_challenge_hash;
                      number_of_iterations = start.iters;
                      output = sp.cc_vdf.output;
                    })
                    none))
          && (start.rc_challenge == sp.rc_vdf.challenge
              && (skip_vdf_validation
                  || is_valid_vdf verify_vdf c sp.rc_proof default_element sp.rc_vdf (
                      some (record {
                        challenge = start.rc_challenge;
                        number_of_iterations = start.iters;
                        output = sp.rc_vdf.output;
                      })))))

  -- `sp_arr[index] = signage_point` in the slot at the place `i`, and the cache of recent points
  unfoldable pub file_sp :
      ℕ → SignagePoint → Parts → ℕ → SlotEntry → ℕ → BeaconStore → Result BeaconStore
  unfolding Lru.put
  file_sp index sp parts i entry now s = do
    require (ltb index (length entry.sps)) index_error
    let filled = record entry { sps = set_slice index (suc index) (some sp ∷ []) entry.sps }
    ok (record s {
      finished_sub_slots = set_slice i (suc i) (filled ∷ []) s.finished_sub_slots;
      recent_signage_points =
          Lru.put (hashes.classgroup_element parts.cc_vdf.output) (sp, now) s.recent_signage_points;
    })

module _ (hashes : Hashes) (c : Constants) (bs : Blockchain)
    (verify_vdf : VdfInfo → ℕ → List ℕ → ℕ → ℕ → Option Bool) (skip_vdf_validation : Bool) where
  unfoldable pub place_sp :
      ℕ
      → Option BlockRecord
      → ℕ
      → SignagePoint
      → Parts
      → ℕ
      → ℕ × SlotEntry
      → BeaconStore
      → Result (Bool × BeaconStore)
  unfolding delta_iters sp_start sp_fits file_sp add_to_future_sp
  place_sp index peak next_sub_slot_iters sp parts now (i, entry) s = do
    delta ← delta_iters hashes c index peak next_sub_slot_iters entry
    start ← sp_start hashes c bs peak entry delta
    (if sp_fits hashes c verify_vdf skip_vdf_validation start delta entry parts
        then (do s' ← file_sp hashes c index sp parts i entry now s; ok (true, s'))
        else ok (false, add_to_future_sp sp index now s))

  unfoldable pub new_signage_point :
      ℕ → Option BlockRecord → ℕ → SignagePoint → ℕ → BeaconStore → Result (Bool × BeaconStore)
  unfolding parts_of place_sp add_to_future_sp
  new_signage_point index peak next_sub_slot_iters sp now s = do
    require (leb 1 (length s.finished_sub_slots)) assertion_error
    (if index == 0 || leb c.num_sps_sub_slot index then ok (false, s) else (do
      parts ← parts_of sp
      found ← find_entry hashes c parts.cc_vdf.challenge 0 s.finished_sub_slots
      elim found [
        | none ↦ ok (false, add_to_future_sp sp index now s)
        | some place ↦ place_sp index peak next_sub_slot_iters sp parts now place s
      ]))

module _ (hashes : Hashes) (c : Constants) where
  -- The first of the points with that output hash
  abbrev pub find_sp : ℕ → List (Option SignagePoint) → Result (Option SignagePoint)
  find_sp cc_signage_point [] = ok none
  find_sp cc_signage_point (none ∷ sps) = find_sp cc_signage_point sps
  find_sp cc_signage_point (some sp ∷ sps) =
      let rest = find_sp cc_signage_point sps in
      do
        cc_vdf ← or_raise sp.cc_vdf assertion_error
        (if hashes.classgroup_element cc_vdf.output == cc_signage_point then ok (some sp) else rest)

  abbrev pub find_in_slots : ℕ → List SlotEntry → Result (Option SignagePoint)
  find_in_slots cc_signage_point [] = ok none
  find_in_slots cc_signage_point (entry ∷ entries) =
      let rest = find_in_slots cc_signage_point entries in
      if is_some entry.sub_slot && cc_hash hashes c entry.sub_slot == cc_signage_point
      then ok (some no_signage_point)
      else (do
        found ← find_sp cc_signage_point entry.sps
        elim found [ none ↦ rest | some sp ↦ ok (some sp) ])

  unfoldable pub get_signage_point : ℕ → BeaconStore → Result (Option SignagePoint)
  get_signage_point cc_signage_point s = do
    require (leb 1 (length s.finished_sub_slots)) assertion_error
    (if cc_signage_point == c.genesis_challenge
        then ok (some no_signage_point)
        else find_in_slots cc_signage_point s.finished_sub_slots)

  -- The point at an index of the slot, if it is of that infusion.
  abbrev pub sp_at : ℕ → ℕ → SlotEntry → Result (Option SignagePoint)
  sp_at index last_rc_infusion entry = if index == 0 then ok (some no_signage_point) else (do
    here ← or_raise (get_elem? entry.sps index) index_error
    elim here [
      | none ↦ ok none
      | some sp ↦ do
        rc_vdf ← or_raise sp.rc_vdf assertion_error
        ok (if rc_vdf.challenge == last_rc_infusion then some sp else none)
    ])

  abbrev pub find_by_index : ℕ → ℕ → ℕ → List SlotEntry → Result (Option SignagePoint)
  find_by_index challenge_hash index last_rc_infusion [] = ok none
  find_by_index challenge_hash index last_rc_infusion (entry ∷ entries) =
      let rest = find_by_index challenge_hash index last_rc_infusion entries in
      if cc_hash hashes c entry.sub_slot == challenge_hash
      then sp_at index last_rc_infusion entry
      else rest

  unfoldable pub get_signage_point_by_index : ℕ → ℕ → ℕ → BeaconStore → Result (Option SignagePoint)
  get_signage_point_by_index challenge_hash index last_rc_infusion s = do
    require (leb 1 (length s.finished_sub_slots)) assertion_error
    find_by_index challenge_hash index last_rc_infusion s.finished_sub_slots

  abbrev pub is_of_infusion : ℕ → Option SignagePoint → Bool
  is_of_infusion last_rc_infusion none = false
  is_of_infusion last_rc_infusion (some sp) = elim sp.rc_vdf [
    | none ↦ false
    | some rc_vdf ↦ rc_vdf.challenge == last_rc_infusion
  ]

  abbrev pub is_of_other : ℕ → Option SignagePoint → Bool
  is_of_other last_rc_infusion none = false
  is_of_other last_rc_infusion (some sp) = elim sp.rc_vdf [
    | none ↦ false
    | some rc_vdf ↦ not (rc_vdf.challenge == last_rc_infusion)
  ]

  -- `found_rc_hash` after the points below the index
  abbrev pub found_below : ℕ → ℕ → List (Option SignagePoint) → Result Bool
  found_below last_rc_infusion zero sps = ok false
  found_below last_rc_infusion (suc n) [] = err index_error
  found_below last_rc_infusion (suc n) (sp ∷ sps) = do
    rest ← found_below last_rc_infusion n sps
    ok (is_of_infusion last_rc_infusion sp || rest)

  abbrev pub newer_in : ℕ → ℕ → ℕ → List SlotEntry → Result Bool
  newer_in challenge_hash index last_rc_infusion [] = ok false
  newer_in challenge_hash index last_rc_infusion (entry ∷ entries) =
      let rest = newer_in challenge_hash index last_rc_infusion entries in
      if cc_hash hashes c entry.sub_slot == challenge_hash
      then (do
        found_rc_hash ← found_below last_rc_infusion index entry.sps
        sp ← or_raise (get_elem? entry.sps index) index_error
        (if found_rc_hash && is_of_other last_rc_infusion sp then ok true else rest))
      else rest

  unfoldable pub have_newer_signage_point : ℕ → ℕ → ℕ → BeaconStore → Result Bool
  have_newer_signage_point challenge_hash index last_rc_infusion s = do
    require (leb 1 (length s.finished_sub_slots)) assertion_error
    newer_in challenge_hash index last_rc_infusion s.finished_sub_slots
