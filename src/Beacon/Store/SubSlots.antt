-- ===== src/Beacon/Store/SubSlots.antt =====
-- The finished sub-slots: `get_sub_slot`, `new_finished_sub_slot` and `get_finished_sub_slots` of
-- corpochain/beacon/beacon_store.py. The call of `verify_vdf` is a parameter, none where it raises.
pub mod Chained
pub mod Collected
use corpochain_beacon_client.Base.{
  ℕ, zero, suc, ◌+◌, Bool, true, false, not, ◌&&◌, ◌||◌, Option, none, some, List, [], ◌∷◌, ◌++◌,
  ltb, ◌==◌, if◌then◌else◌, is_some, last?, length, get_elem?, drop, map, Result, ok, err,
  index_error, assertion_error, ◌>>=◌, ◌>>◌, require, or_raise,
}
use corpochain_beacon_client.Base.Dict.{Dict, lookup, insert}
use corpochain_beacon_client.Ints.{uint, uint_sub}
use corpochain_beacon_client.Consensus.Constants.{Constants}
use corpochain_beacon_client.Consensus.Block.{
  BlockRecord, Blockchain, SubEpochSummary, block_record, first_in_sub_slot, is_challenge_block,
}
use corpochain_beacon_client.Consensus.Chain.{walk_back}
use corpochain_beacon_client.Consensus.Header.{HeaderBlock, EndOfSubSlot}
use corpochain_beacon_client.Consensus.Epoch.{can_finish_sub_and_full_epoch}
use corpochain_beacon_client.Consensus.Summary.{next_sub_epoch_summary}
use corpochain_beacon_client.Consensus.VdfInfo.{last_hash, inside_sub_slot}
use corpochain_beacon_client.Types.Proofs.{
  VdfInfo, VdfProof, default_element, same_vdf_info, is_valid_vdf,
}
use corpochain_beacon_client.Types.Slots.{EndOfSubSlotBundle}
use corpochain_beacon_client.Types.Blocks.{FullBlock, Hashes}
use corpochain_beacon_client.Util.LruCache as Lru
use corpochain_beacon_client.Beacon.Store.{
  InfusionPoint, SlotEntry, BeaconStore, no_sps, same_bundle,
}
use corpochain_beacon_client.Beacon.Store.Future.{append_to}

-- What `next_sub_epoch_summary` reads of a block.
abbrev pub header_of : Hashes → FullBlock → HeaderBlock
header_of hashes block = record {
  prev_header_hash = block.foliage.prev_block_hash;
  total_iters = block.reward_chain_block.total_iters;
  signage_point_index = block.reward_chain_block.signage_point_index;
  finished_sub_slots =
      map
        (λ slot. record {
          challenge_chain_hash = hashes.challenge_chain slot.challenge_chain;
          challenge = slot.challenge_chain.challenge_chain_end_of_slot_vdf.challenge;
          new_difficulty = slot.challenge_chain.new_difficulty;
          subepoch_summary_hash = slot.challenge_chain.subepoch_summary_hash;
        })
        block.finished_sub_slots;
}

-- `slot == eos` for one of the slots
abbrev pub is_present : EndOfSubSlotBundle → List SlotEntry → Bool
is_present eos [] = false
is_present eos (entry ∷ entries) = elim entry.sub_slot [
  | none ↦ is_present eos entries
  | some slot ↦ same_bundle slot eos || is_present eos entries
]

-- Where the VDFs of the end of the sub-slot start.
pub record EosStart : Type 0 where
  pub rc_challenge : ℕ
  pub cc_start_element : ℕ
  pub iters : ℕ
  pub icc_start_element : Option ℕ
  pub icc_challenge : Option ℕ
  pub icc_iters : Option ℕ

-- The outcome of the branch on the peak: `return None`, the same with the slot put into the cache
-- of future slots, or a start.
pub data Start : Type 0 where
  refused : Start
  deferred : ℕ → Start
  starts : EosStart → Start

module _ (hashes : Hashes) (c : Constants) where
  abbrev pub cc_hash : Option EndOfSubSlotBundle → ℕ
  cc_hash none = c.genesis_challenge
  cc_hash (some slot) = hashes.challenge_chain slot.challenge_chain

  abbrev pub rc_hash : Option EndOfSubSlotBundle → ℕ
  rc_hash none = c.genesis_challenge
  rc_hash (some slot) = hashes.reward_chain slot.reward_chain

  -- `get_sub_slot`, from the index `index` on
  abbrev pub find_sub_slot : ℕ → ℕ → List SlotEntry → Option (EndOfSubSlotBundle × (ℕ × ℕ))
  find_sub_slot challenge_hash index [] = none
  find_sub_slot challenge_hash index (entry ∷ entries) = elim entry.sub_slot [
    | none ↦ find_sub_slot challenge_hash (suc index) entries
    | some slot ↦
        if hashes.challenge_chain slot.challenge_chain == challenge_hash
        then some (slot, (index, entry.total_iters))
        else find_sub_slot challenge_hash (suc index) entries
  ]

  unfoldable pub get_sub_slot : ℕ → BeaconStore → Result (Option (EndOfSubSlotBundle × (ℕ × ℕ)))
  get_sub_slot challenge_hash s = do
    require (ltb 0 (length s.finished_sub_slots)) assertion_error
    ok (find_sub_slot challenge_hash 0 s.finished_sub_slots)

  -- The infused challenge of an empty sub-slot.
  abbrev pub icc_of_slot : Option EndOfSubSlotBundle → Option ℕ
  icc_of_slot none = none
  icc_of_slot (some slot) = elim slot.infused_challenge_chain [
    | none ↦ none
    | some infused ↦
        if slot.reward_chain.deficit == c.min_blocks_per_challenge_block
        then none
        else some (hashes.infused_challenge_chain infused)
  ]

  abbrev pub start_empty : Option EndOfSubSlotBundle → ℕ → EosStart
  start_empty last_slot sub_slot_iters = record {
    rc_challenge = rc_hash last_slot;
    cc_start_element = default_element;
    iters = sub_slot_iters;
    icc_start_element = some default_element;
    icc_challenge = icc_of_slot last_slot;
    icc_iters = some sub_slot_iters;
  }

  module _ (bs : Blockchain) where
    -- `not curr.first_in_sub_slot and not curr.is_challenge_block(self.constants)`
    abbrev pub seeks_challenge_block : BlockRecord → Bool
    seeks_challenge_block curr = not (first_in_sub_slot curr) && not (is_challenge_block c curr)

    -- The infused challenge and its iterations, for a peak with a deficit below the maximum.
    unfoldable pub icc_of_peak : BlockRecord → ℕ → ℕ → Result (Option ℕ × Option ℕ)
    unfolding is_challenge_block uint_sub
    icc_of_peak peak sub_slot_iters total_iters =
        if ltb peak.deficit c.min_blocks_per_challenge_block
        then (do
          curr ← walk_back bs seeks_challenge_block (suc peak.height) peak
          (if is_challenge_block c curr
              then (do
                icc_iters ← uint_sub 64 total_iters curr.total_iters
                ok (some curr.challenge_block_info_hash, some icc_iters))
              else (do
                icc_challenge ← last_hash curr.finished_infused_challenge_slot_hashes
                ok (some icc_challenge, some sub_slot_iters))))
        else ok (none, none)

    abbrev pub icc_element_of_peak : BlockRecord → Option ℕ
    icc_element_of_peak peak =
        if peak.deficit == c.min_blocks_per_challenge_block
        then none
        else if peak.deficit + 1 == c.min_blocks_per_challenge_block
        then some default_element
        else peak.infused_challenge_vdf_output

    abbrev pub same_hash : Option ℕ → Option ℕ → Bool
    same_hash none none = true
    same_hash none (some b) = false
    same_hash (some a) none = false
    same_hash (some a) (some b) = a == b

    abbrev pub summary_hash_of : Option SubEpochSummary → Option ℕ
    summary_hash_of none = none
    summary_hash_of (some ses) = some (hashes.sub_epoch_summary ses)

    -- Whether the summary hash in the slot is the one that the peak calls for.
    unfoldable pub has_right_summary : EndOfSubSlotBundle → BlockRecord → FullBlock → Result Bool
    unfolding can_finish_sub_and_full_epoch next_sub_epoch_summary
    has_right_summary eos peak peak_full_block = do
      finish ←
          can_finish_sub_and_full_epoch c bs peak.height (some peak.prev_hash) peak.deficit
            (is_some peak.sub_epoch_summary_included)
      elim finish.0 [
        | false ↦ ok true
        | true ↦ do
          ses ←
              next_sub_epoch_summary hashes.sub_epoch_summary c bs peak.required_iters
                (header_of hashes peak_full_block) true
          ok (same_hash eos.challenge_chain.subepoch_summary_hash (summary_hash_of ses))
      ]

    -- The peak is in this slot.
    unfoldable pub start_at_peak :
        EndOfSubSlotBundle → BlockRecord → FullBlock → ℕ → ℕ → Result Start
    unfolding icc_of_peak has_right_summary uint_sub
    start_at_peak eos peak peak_full_block sub_slot_iters total_iters =
        let rc_challenge = eos.reward_chain.end_of_slot_vdf.challenge in
        if ltb total_iters peak.total_iters then ok refused else (do
          iters ← uint_sub 64 total_iters peak.total_iters
          elim (peak.reward_infusion_new_challenge == rc_challenge) [
            | false ↦ ok (deferred rc_challenge)
            | true ↦ do
              icc ← icc_of_peak peak sub_slot_iters total_iters
              right ← has_right_summary eos peak peak_full_block
              (if right
                  then ok (
                      starts (record {
                        rc_challenge = rc_challenge;
                        cc_start_element = peak.challenge_vdf_output;
                        iters = iters;
                        icc_start_element = icc_element_of_peak peak;
                        icc_challenge = icc.0;
                        icc_iters = icc.1;
                      }))
                  else ok refused)
          ])

    unfoldable pub start_of :
        EndOfSubSlotBundle → Option (BlockRecord × FullBlock) → SlotEntry → ℕ → ℕ → Result Start
    unfolding start_at_peak
    start_of eos none last sub_slot_iters total_iters =
        ok (starts (start_empty last.sub_slot sub_slot_iters))
    start_of eos (some (peak, peak_full_block)) last sub_slot_iters total_iters =
        if ltb last.total_iters peak.total_iters
        then start_at_peak eos peak peak_full_block sub_slot_iters total_iters
        else ok (starts (start_empty last.sub_slot sub_slot_iters))

  module _ (verify_vdf : VdfInfo → ℕ → List ℕ → ℕ → ℕ → Option Bool) where
    -- A VDF of the whole sub-slot, with a proof of the part from the start, or of the whole if it is
    -- normalized to the identity.
    abbrev pub vdf_fits : ℕ → ℕ → ℕ → ℕ → VdfInfo → VdfProof → Bool
    vdf_fits challenge iters whole_iters start_element info proof =
        same_vdf_info info (record {
          challenge = challenge;
          number_of_iterations = whole_iters;
          output = info.output;
        })
        && (if proof.normalized_to_identity
            then is_valid_vdf verify_vdf c proof default_element info none
            else is_valid_vdf verify_vdf c proof start_element
                (record {
                  challenge = challenge;
                  number_of_iterations = iters;
                  output = info.output;
                })
                none)

    unfoldable pub reward_vdf_fits : EosStart → EndOfSubSlotBundle → Bool
    unfolding is_valid_vdf
    reward_vdf_fits start eos =
        is_valid_vdf verify_vdf c eos.proofs.reward_chain_slot_proof default_element
          eos.reward_chain.end_of_slot_vdf
          (some (record {
            challenge = start.rc_challenge;
            number_of_iterations = start.iters;
            output = eos.reward_chain.end_of_slot_vdf.output;
          }))

    unfoldable pub infused_vdf_fits : EosStart → EndOfSubSlotBundle → Result Bool
    unfolding is_valid_vdf
    infused_vdf_fits start eos = elim start.icc_challenge [
      | none ↦ ok (
          not (
            is_some eos.infused_challenge_chain
            || is_some eos.proofs.infused_challenge_chain_slot_proof))
      | some icc_challenge ↦ do
        icc_start_element ← or_raise start.icc_start_element assertion_error
        icc_iters ← or_raise start.icc_iters assertion_error
        infused ← or_raise eos.infused_challenge_chain assertion_error
        proof ← or_raise eos.proofs.infused_challenge_chain_slot_proof assertion_error
        ok (
            vdf_fits icc_challenge start.iters icc_iters icc_start_element
              infused.infused_challenge_chain_end_of_slot_vdf proof)
    ]

    -- All the VDFs, in the order of the source.
    unfoldable pub vdfs_fit : EosStart → ℕ → ℕ → EndOfSubSlotBundle → Result Bool
    unfolding reward_vdf_fits infused_vdf_fits is_valid_vdf
    vdfs_fit start cc_challenge sub_slot_iters eos =
        if vdf_fits cc_challenge start.iters sub_slot_iters start.cc_start_element
            eos.challenge_chain.challenge_chain_end_of_slot_vdf
            eos.proofs.challenge_chain_slot_proof
          && reward_vdf_fits start eos
        then infused_vdf_fits start eos
        else ok false

-- `assert (peak is None) == (peak_full_block is None)`
abbrev pub both : Option BlockRecord → Option FullBlock → Result (Option (BlockRecord × FullBlock))
both none none = ok none
both none (some block) = err assertion_error
both (some peak) none = err assertion_error
both (some peak) (some block) = ok (some (peak, block))

abbrev pub iters_at : Constants → Option (BlockRecord × FullBlock) → ℕ
iters_at c none = c.sub_slot_iters_starting
iters_at c (some (peak, peak_full_block)) = peak.sub_slot_iters

module _ (hashes : Hashes) (c : Constants) (bs : Blockchain)
    (verify_vdf : VdfInfo → ℕ → List ℕ → ℕ → ℕ → Option Bool) where
  -- The slot goes to the end, and the infusion points that waited for it are returned.
  abbrev pub add_slot :
      EndOfSubSlotBundle → ℕ → ℕ → BeaconStore → Option (List InfusionPoint) × BeaconStore
  add_slot eos total_iters now s = (
    some (elim (lookup (hashes.reward_chain eos.reward_chain) s.future_ip_cache) [
      | none ↦ []
      | some ips ↦ ips
    ]),
    record s {
      finished_sub_slots =
          s.finished_sub_slots
          ++ record {
            sub_slot = some eos;
            sps = no_sps c.num_sps_sub_slot;
            total_iters = total_iters;
          }
            ∷ [];
      recent_eos = Lru.put (hashes.challenge_chain eos.challenge_chain) (eos, now) s.recent_eos;
    },
  )

  -- The slot goes to the cache of those that wait for an infusion.
  abbrev pub defer_slot : ℕ → EndOfSubSlotBundle → ℕ → BeaconStore → BeaconStore
  defer_slot rc_challenge eos now s = record s {
    future_eos_cache = append_to rc_challenge eos s.future_eos_cache;
    future_cache_key_times = insert rc_challenge now s.future_cache_key_times;
  }

  -- A slot that follows the last one.
  unfoldable pub append_slot :
      EndOfSubSlotBundle
      → Option (BlockRecord × FullBlock)
      → SlotEntry
      → ℕ
      → BeaconStore
      → Result (Option (List InfusionPoint) × BeaconStore)
  unfolding start_of vdfs_fit uint Lru.put
  append_slot eos pair last now s =
      let sub_slot_iters = iters_at c pair in
      do
        total_iters ← uint 128 (last.total_iters + sub_slot_iters)
        start ← start_of hashes c bs eos pair last sub_slot_iters total_iters
        elim start [
          | refused ↦ ok (none, s)
          | deferred rc_challenge ↦ ok (none, defer_slot rc_challenge eos now s)
          | starts vdfs ↦ do
            fit ←
                vdfs_fit hashes c verify_vdf vdfs (cc_hash hashes c last.sub_slot) sub_slot_iters
                  eos
            ok (if fit then add_slot eos total_iters now s else (none, s))
        ]

  unfoldable pub new_finished_sub_slot :
      EndOfSubSlotBundle
      → Option BlockRecord
      → Option FullBlock
      → ℕ
      → BeaconStore
      → Result (Option (List InfusionPoint) × BeaconStore)
  unfolding append_slot same_bundle
  new_finished_sub_slot eos peak peak_full_block now s = do
    last ← or_raise (last? s.finished_sub_slots) assertion_error
    pair ← both peak peak_full_block
    (if is_present eos s.finished_sub_slots
        then ok (some [], s)
        else if not (
            eos.challenge_chain.challenge_chain_end_of_slot_vdf.challenge
            == cc_hash hashes c last.sub_slot)
        then ok (none, s)
        else append_slot eos pair last now s)

  -- The loop over `finished_sub_slots[1:]`, with the slots collected and whether the first of them
  -- was found. It returns none if it does not come to the last challenge.
  unfoldable pub collect_slots :
      ℕ
      → ℕ
      → Bool
      → List EndOfSubSlotBundle
      → List SlotEntry
      → Result (Option (List EndOfSubSlotBundle))
  collect_slots challenge_in_chain last_challenge connected collected [] = ok none
  collect_slots challenge_in_chain last_challenge connected collected (entry ∷ entries) =
      elim entry.sub_slot [
        | none ↦ err assertion_error
        | some slot ↦
            let connects =
              slot.challenge_chain.challenge_chain_end_of_slot_vdf.challenge == challenge_in_chain
              || connected in
            elim (connects && hashes.challenge_chain slot.challenge_chain == last_challenge) [
              | true ↦ ok (some (collected ++ slot ∷ []))
              | false ↦
                  collect_slots challenge_in_chain last_challenge connects
                    (if connects then collected ++ slot ∷ [] else collected) entries
            ]
      ]

  -- `challenge_in_chain`
  unfoldable pub chain_challenge : Option BlockRecord → BeaconStore → Result ℕ
  chain_challenge none s = do
    first ← or_raise (get_elem? s.finished_sub_slots 0) index_error
    require (not (is_some first.sub_slot)) assertion_error
    ok c.genesis_challenge
  chain_challenge (some prev_b) s = do
    curr ← walk_back bs inside_sub_slot (suc prev_b.height) prev_b
    last_hash curr.finished_challenge_slot_hashes

  unfoldable pub get_finished_sub_slots :
      Option BlockRecord → ℕ → BeaconStore → Result (Option (List EndOfSubSlotBundle))
  unfolding chain_challenge collect_slots
  get_finished_sub_slots prev_b last_challenge_to_add s = do
    challenge_in_chain ← chain_challenge prev_b s
    (if last_challenge_to_add == challenge_in_chain
        then ok (some [])
        else collect_slots challenge_in_chain last_challenge_to_add false []
            (drop 1 s.finished_sub_slots))
