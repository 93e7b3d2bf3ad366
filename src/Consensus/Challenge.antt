-- ===== src/Consensus/Challenge.antt =====
-- The challenge that a block answers: corpochain/consensus/get_block_challenge.py.
pub mod Last
use corpochain_beacon_client.Base.{
  ℕ, zero, suc, ◌+◌, ◌-◌, ◌/◌, Bool, true, false, not, ◌&&◌, ◌||◌, Option, none, some, List, [],
  ◌∷◌, ◌++◌, reverse, ltb, ◌==◌, if◌then◌else◌, is_some, get_elem?, last?, length, Result, ok, err,
  out_of_fuel, index_error, assertion_error, ◌>>=◌, ◌>>◌, require, or_raise,
}
use corpochain_beacon_client.Consensus.Constants.{Constants}
use corpochain_beacon_client.Consensus.Block.{
  BlockRecord, Blockchain, block_record, first_in_sub_slot,
}
use corpochain_beacon_client.Consensus.Header.{HeaderBlock, EndOfSubSlot}

-- `curr.overflow and header_block.total_iters - curr.total_iters < sub_slot_iters // 2`
abbrev pub is_near_overflow : HeaderBlock → ℕ → BlockRecord → Bool
is_near_overflow h sub_slot_iters curr =
    curr.overflow && ltb h.total_iters (curr.total_iters + sub_slot_iters / 2)

module _ (bs : Blockchain) (h : HeaderBlock) (sub_slot_iters : ℕ) where
  -- The loop, with `seen_overflow_block`; it returns that flag and the block where it stopped.
  unfoldable pub seek_overflow : ℕ → Bool → BlockRecord → Result (Bool × BlockRecord)
  seek_overflow zero seen curr = err out_of_fuel
  seek_overflow (suc fuel) seen curr =
      elim (not (first_in_sub_slot curr) && not (curr.height == 0)) [
        | false ↦ ok (seen, curr)
        | true ↦ do
          p ← block_record bs curr.prev_hash
          seek_overflow fuel (is_near_overflow h sub_slot_iters curr || seen) p
      ]

  eos_in_previous : Result Bool
  unfolding seek_overflow
  eos_in_previous = do
    curr ← block_record bs h.prev_header_hash
    (seen, stop) ← seek_overflow (suc curr.height) (is_near_overflow h sub_slot_iters curr) curr
    ok (first_in_sub_slot stop && seen)

  unfoldable pub final_eos_is_already_included : Result Bool
  unfolding eos_in_previous
  final_eos_is_already_included =
      if ltb 0 (length h.finished_sub_slots) then ok false else eos_in_previous

-- `reversed(curr.finished_challenge_slot_hashes)` if the block is first in its sub-slot
abbrev pub slot_hashes : BlockRecord → List ℕ
slot_hashes curr = elim curr.finished_challenge_slot_hashes [
  | none ↦ []
  | some hashes ↦ reverse hashes
]

module _ (bs : Blockchain) where
  -- `while len(reversed_challenge_hashes) < challenges_to_look_for`
  unfoldable pub collect_challenges : ℕ → ℕ → List ℕ → BlockRecord → Result (List ℕ)
  collect_challenges zero look_for found curr = err out_of_fuel
  collect_challenges (suc fuel) look_for found curr = elim (ltb (length found) look_for) [
    | false ↦ ok found
    | true ↦ elim (curr.height == 0) [
      | true ↦ do
        hashes ← or_raise curr.finished_challenge_slot_hashes assertion_error
        require (ltb 0 (length hashes)) assertion_error
        ok (found ++ slot_hashes curr)
      | false ↦ do
        p ← block_record bs curr.prev_hash
        collect_challenges fuel look_for (found ++ slot_hashes curr) p
    ]
  ]

  -- Where no sub-slot was finished: the last or the last but one challenge of the chain.
  unfoldable pub challenge_of_chain : HeaderBlock → ℕ → Result ℕ
  unfolding collect_challenges
  challenge_of_chain h look_for = do
    curr ← block_record bs h.prev_header_hash
    found ← collect_challenges (suc curr.height) look_for [] curr
    or_raise (get_elem? found (look_for - 1)) index_error

  unfoldable pub get_block_challenge : Constants → HeaderBlock → Bool → Bool → Bool → Result ℕ
  unfolding challenge_of_chain
  get_block_challenge c h genesis_block overflow skip_overflow_last_ss_validation =
      elim (last? h.finished_sub_slots) [
        | some slot ↦
            if overflow && not skip_overflow_last_ss_validation
            then ok slot.challenge
            else ok slot.challenge_chain_hash
        | none ↦
            if genesis_block
            then ok c.genesis_challenge
            else challenge_of_chain h
                (if overflow && not skip_overflow_last_ss_validation then 2 else 1)
      ]
