-- ===== src/Consensus/VdfInfo.antt =====
-- Where the VDF of a signage point starts: corpochain/consensus/vdf_info_computation.py.
pub mod Search
pub mod Start
pub mod InTime
use corpochain_beacon_client.Base.{
  ℕ, zero, suc, Bool, true, false, not, ◌&&◌, Option, none, some, List, [], ◌∷◌, ◌++◌, reverse, ltb,
  ◌==◌, if◌then◌else◌, is_some, last?, get_elem?, length, Result, ok, err, index_error,
  assertion_error, out_of_fuel, ◌>>=◌, or_raise,
}
use corpochain_beacon_client.Ints.{uint_sub}
use corpochain_beacon_client.Consensus.Constants.{Constants}
use corpochain_beacon_client.Consensus.Block.{
  BlockRecord, Blockchain, block_record, first_in_sub_slot,
}
use corpochain_beacon_client.Consensus.Chain.{walk_back}
use corpochain_beacon_client.Types.Proofs.{default_element}
use corpochain_beacon_client.Types.Slots.{EndOfSubSlotBundle}
use corpochain_beacon_client.Types.Blocks.{Hashes}

-- The six values returned.
pub record VdfStart : Type 0 where
  pub cc_challenge : ℕ
  pub rc_challenge : ℕ
  pub cc_input : ℕ
  pub rc_input : ℕ
  pub cc_iters : ℕ
  pub rc_iters : ℕ

abbrev pub vdf_start : ℕ → ℕ → ℕ → ℕ → VdfStart
vdf_start cc_vdf_challenge rc_vdf_challenge cc_vdf_input sp_vdf_iters = record {
  cc_challenge = cc_vdf_challenge;
  rc_challenge = rc_vdf_challenge;
  cc_input = cc_vdf_input;
  rc_input = default_element;
  cc_iters = sp_vdf_iters;
  rc_iters = sp_vdf_iters;
}

-- `xs[-1]` of a list that may be missing
abbrev pub last_hash : Option (List ℕ) → Result ℕ
last_hash hashes = do found ← or_raise hashes assertion_error; or_raise (last? found) index_error

-- `not curr.first_in_sub_slot and curr.total_iters > sp_total_iters`
abbrev pub lies_after : ℕ → BlockRecord → Bool
lies_after sp_total_iters curr = not (first_in_sub_slot curr) && ltb sp_total_iters curr.total_iters

abbrev pub inside_sub_slot : BlockRecord → Bool
inside_sub_slot curr = not (first_in_sub_slot curr)

abbrev pub zip : List ℕ → List ℕ → List (ℕ × ℕ)
zip [] ys = []
zip (x ∷ xs) [] = []
zip (x ∷ xs) (y ∷ ys) = (x, y) ∷ zip xs ys

-- The sub-slots that ended in a block, the last first.
unfoldable pub slots_of : BlockRecord → Result (List (ℕ × ℕ))
slots_of curr = elim curr.finished_challenge_slot_hashes [
  | none ↦ ok []
  | some challenges ↦ do
    rewards ← or_raise curr.finished_reward_slot_hashes assertion_error
    ok (reverse (zip challenges rewards))
]

-- `sp_pre_sb`, looked for once more
abbrev pub before_sp : ℕ → BlockRecord → Option BlockRecord → Option BlockRecord
before_sp sp_total_iters curr (some b) = some b
before_sp sp_total_iters curr none = if ltb curr.total_iters sp_total_iters then some curr else none

module _ (bs : Blockchain) (sp_total_iters sp_iters : ℕ) where
  -- The iterations, the input and the reward chain challenge from the block where the search ended.
  unfoldable pub start_from : BlockRecord → Result (ℕ × (ℕ × ℕ))
  unfolding uint_sub
  start_from curr =
      if ltb curr.total_iters sp_total_iters
      then (do
        sp_vdf_iters ← uint_sub 64 sp_total_iters curr.total_iters
        ok (sp_vdf_iters, (curr.challenge_vdf_output, curr.reward_infusion_new_challenge)))
      else (do
        rc_vdf_challenge ← last_hash curr.finished_reward_slot_hashes
        ok (sp_iters, (default_element, rc_vdf_challenge)))

  -- Cases 4 and 6: the signage point lies in the sub-slot of the previous block.
  unfoldable pub from_previous : BlockRecord → Result VdfStart
  unfolding start_from
  from_previous prev_b = do
    curr ← walk_back bs (lies_after sp_total_iters) (suc prev_b.height) prev_b
    (sp_vdf_iters, (cc_vdf_input, rc_vdf_challenge)) ← start_from curr
    first ← walk_back bs inside_sub_slot (suc curr.height) curr
    cc_vdf_challenge ← last_hash first.finished_challenge_slot_hashes
    ok (vdf_start cc_vdf_challenge rc_vdf_challenge cc_vdf_input sp_vdf_iters)

  -- The loop of case 5, which returns `found_sub_slots`, `sp_pre_sb` and `curr`.
  unfoldable pub find_sub_slots :
      ℕ
      → List (ℕ × ℕ)
      → Option BlockRecord
      → BlockRecord
      → Result (List (ℕ × ℕ) × (Option BlockRecord × BlockRecord))
  unfolding slots_of
  find_sub_slots zero found sp_pre_sb curr = err out_of_fuel
  find_sub_slots (suc fuel) found sp_pre_sb curr =
      elim (ltb (length found) 2 && ltb 0 curr.height) [
        | false ↦ ok (found, (sp_pre_sb, curr))
        | true ↦ do
          p ← block_record bs curr.prev_hash
          slots ← slots_of p
          find_sub_slots fuel (found ++ slots) (before_sp sp_total_iters curr sp_pre_sb) p
      ]

  -- Case 5: the previous block is in the same sub-slot, and the signage point in the one before.
  unfoldable pub from_overflow : BlockRecord → Result VdfStart
  unfolding find_sub_slots uint_sub
  from_overflow prev_b = do
    slots ← slots_of prev_b
    (found, (seen, curr)) ← find_sub_slots (suc prev_b.height) slots none prev_b
    elim (before_sp sp_total_iters curr seen) [
      | some sp_pre_sb ↦ do
        sp_vdf_iters ← uint_sub 64 sp_total_iters sp_pre_sb.total_iters
        slot ← or_raise (get_elem? found 1) index_error
        ok (
            vdf_start slot.0 sp_pre_sb.reward_infusion_new_challenge sp_pre_sb.challenge_vdf_output
              sp_vdf_iters)
      | none ↦ do
        slot ← or_raise (get_elem? found 1) index_error
        ok (vdf_start slot.0 slot.1 default_element sp_iters)
    ]

  module _ (hashes : Hashes) (c : Constants) where
    -- From the start of a finished sub-slot.
    abbrev pub from_slot : EndOfSubSlotBundle → VdfStart
    from_slot slot =
        vdf_start (hashes.challenge_chain slot.challenge_chain)
          (hashes.reward_chain slot.reward_chain) default_element sp_iters

    -- Case 3, or the search from the previous block.
    abbrev pub from_chain : (BlockRecord → Result VdfStart) → Option BlockRecord → Result VdfStart
    from_chain search none =
        ok (vdf_start c.genesis_challenge c.genesis_challenge default_element sp_iters)
    from_chain search (some prev_b) = search prev_b

    unfoldable pub get_signage_point_vdf_info :
        List EndOfSubSlotBundle → Bool → Option BlockRecord → Result VdfStart
    unfolding from_previous from_overflow
    get_signage_point_vdf_info finished_sub_slots overflow prev_b =
        elim (reverse finished_sub_slots) [
          | [] ↦ from_chain (if overflow then from_overflow else from_previous) prev_b
          | last ∷ [] ↦ if overflow then from_chain from_previous prev_b else ok (from_slot last)
          | last ∷ before ∷ _ ↦ ok (from_slot (if overflow then before else last))
        ]
