-- ===== src/Tests/Store.antt =====
-- A sub-slot and a signage point that the store takes in, with two signage points a sub-slot.
use corpochain_beacon_client.Base.{
  ℕ, ◌≡◌, ◌≢◌, ◌⊎◌, drop, refl, Bool, true, false, Option, none, some, List, [], ◌∷◌, ok, arith,
}
use corpochain_beacon_client.Consensus.Constants.{Constants, default_constants}
use corpochain_beacon_client.Types.Proofs.{VdfInfo}
use corpochain_beacon_client.Types.Slots.{EndOfSubSlotBundle}
use corpochain_beacon_client.Util.LruCache as Lru
use corpochain_beacon_client.Beacon.Store.{SignagePoint, SlotEntry, BeaconStore, init}
use corpochain_beacon_client.Beacon.Store.SubSlots.{new_finished_sub_slot, get_finished_sub_slots}
use corpochain_beacon_client.Beacon.Store.SubSlots.Chained.{
  Chained, Extends, new_finished_sub_slot-Extends,
}
use corpochain_beacon_client.Beacon.Store.SubSlots.Collected.{
  StandsAt, Stretch, get_finished_sub_slots-Stretch,
}
use corpochain_beacon_client.Beacon.Store.SignagePoints.{
  new_signage_point, get_signage_point_by_index,
}
use corpochain_beacon_client.Beacon.Store.SignagePoints.Found.{
  new_signage_point-get_signage_point_by_index,
}
use corpochain_beacon_client.Beacon.Store.SignagePoints.Reached.{
  Reached, started, called, finished, signaged, IsAsked, Reached-get_signage_point_by_index,
}
use corpochain_beacon_client.Tests.Blocks.{chain}
use corpochain_beacon_client.Tests.Time.{hashes, vdf_proof}

abbrev c : Constants
c = record default_constants {
  num_sps_sub_slot = 2;
  sub_slot_iters_starting = 200;
  genesis_challenge = 7;
}

abbrev trusting_vdf : VdfInfo → ℕ → List ℕ → ℕ → ℕ → Option Bool
trusting_vdf info input witness bits depth = some true

abbrev slot : EndOfSubSlotBundle
slot = record {
  challenge_chain = record {
    challenge_chain_end_of_slot_vdf = record {
      challenge = 7;
      number_of_iterations = 200;
      output = 1;
    };
    infused_challenge_chain_sub_slot_hash = none;
    subepoch_summary_hash = none;
    new_sub_slot_iters = none;
    new_difficulty = none;
  };
  infused_challenge_chain = none;
  reward_chain = record {
    end_of_slot_vdf = record { challenge = 7; number_of_iterations = 200; output = 2 };
    challenge_chain_sub_slot_hash = 2;
    infused_challenge_chain_sub_slot_hash = none;
    deficit = 16;
  };
  proofs = record {
    challenge_chain_slot_proof = vdf_proof;
    infused_challenge_chain_slot_proof = none;
    reward_chain_slot_proof = vdf_proof;
  };
}

abbrev entry : List (Option SignagePoint) → SlotEntry
entry sps = record { sub_slot = some slot; sps = sps; total_iters = 200 }

abbrev with_slot : BeaconStore
with_slot = record (init c) {
  finished_sub_slots =
      record { sub_slot = none; sps = none ∷ none ∷ []; total_iters = 0 }
      ∷ entry (none ∷ none ∷ [])
      ∷ [];
  recent_eos = Lru.put 2 (slot, 5) (Lru.init 50);
}

slot_added :
    new_finished_sub_slot hashes c chain trusting_vdf slot none none 5 (init c)
    ≡ ok (some [], with_slot)
unfolding new_finished_sub_slot
slot_added = refl

abbrev cc_vdf : VdfInfo
cc_vdf = record { challenge = 2; number_of_iterations = 100; output = 9 }

abbrev rc_vdf : VdfInfo
rc_vdf = record { challenge = 4; number_of_iterations = 100; output = 10 }

abbrev point : SignagePoint
point = record {
  cc_vdf = some cc_vdf;
  cc_proof = some vdf_proof;
  rc_vdf = some rc_vdf;
  rc_proof = some vdf_proof;
}

abbrev with_point : BeaconStore
with_point = record with_slot {
  finished_sub_slots =
      record { sub_slot = none; sps = none ∷ none ∷ []; total_iters = 0 }
      ∷ entry (none ∷ some point ∷ [])
      ∷ [];
  recent_signage_points = Lru.put 9 (point, 6) (Lru.init 500);
}

point_taken :
    new_signage_point hashes c chain trusting_vdf false 1 none 200 point 6 with_slot
    ≡ ok (true, with_point)
unfolding new_signage_point
point_taken = refl

point_found : get_signage_point_by_index hashes c 2 1 4 with_point ≡ ok (some point)
unfolding get_signage_point_by_index
point_found = refl

new_finished_sub_slot-Extends_example :
    Extends hashes c slot (init c) (some [], with_slot)
    × Chained hashes c with_slot.finished_sub_slots
new_finished_sub_slot-Extends_example =
    new_finished_sub_slot-Extends hashes c chain trusting_vdf slot none none 5 (init c) tt
      slot_added

slots_found :
    get_finished_sub_slots hashes c chain trusting_vdf none 2 with_point ≡ ok (some (slot ∷ []))
unfolding get_finished_sub_slots
slots_found = refl

get_finished_sub_slots-Stretch_example :
    (from : ℕ) × StandsAt hashes c chain trusting_vdf none from
    × (((from ≡ 2) × ((slot ∷ []) ≡ []))
        ⊎ ((from ≢ 2)
            × Stretch hashes c chain trusting_vdf from 2
                (drop 1 with_point.finished_sub_slots)
                (slot ∷ [])))
get_finished_sub_slots-Stretch_example =
    get_finished_sub_slots-Stretch hashes c chain trusting_vdf none 2 with_point slots_found

new_signage_point-get_signage_point_by_index_example :
    get_signage_point_by_index hashes c 2 1 4 with_point ≡ ok (some point)
new_signage_point-get_signage_point_by_index_example =
    new_signage_point-get_signage_point_by_index hashes c chain trusting_vdf false 1 none 200 point
      cc_vdf rc_vdf 6 with_slot refl refl point_taken

point-Reached : Reached hashes c with_point
point-Reached =
    called (called started (finished chain trusting_vdf slot none none 5 slot_added))
      (signaged chain trusting_vdf false 1 none 200 point 6 point_taken)

Reached-get_signage_point_by_index_example : IsAsked hashes c 2 4 point
Reached-get_signage_point_by_index_example =
    Reached-get_signage_point_by_index hashes c with_point 2 1 4 point-Reached (omega arith)
      point_found
