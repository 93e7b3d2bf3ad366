-- ===== src/Consensus/Record/Describes.antt =====
-- What a block record says of its block.
use mathlib.Core.Path.{subst}
use corpochain_beacon_client.Base.{
  ℕ, zero, suc, ◌≡◌, inl, inr, refl, true, false, ◌||◌, Option, none, some, List, [], ◌∷◌, ltb,
  ◌==◌, is_some, length, ok, value_error, assertion_error, arith, Bool-cases, >>=-eq-ok, require,
  require-eq-ok, or_raise, ok-injective, sym, ◌∙◌, ap, ==_iff,
}
use corpochain_beacon_client.Consensus.Constants.{Constants}
use corpochain_beacon_client.Consensus.Iterations.{is_overflow_block}
use corpochain_beacon_client.Consensus.Deficit.{calculate_deficit}
use corpochain_beacon_client.Consensus.Summary.{make_sub_epoch_summary}
use corpochain_beacon_client.Consensus.Block.{
  BlockRecord, Blockchain, SubEpochSummary, block_record, is_transaction_block, first_in_sub_slot,
}
use corpochain_beacon_client.Types.Slots.{EndOfSubSlotBundle}
use corpochain_beacon_client.Types.Blocks.{Hashes, FullBlock, FoliageTransactionBlock}
use corpochain_beacon_client.Consensus.Record.{
  summary_hash, header_block_to_sub_block_record, prev_transaction_height, fuel_for,
  summary_included, summary_for, checked_summary, iters_of, deficit_of, block_to_block_record,
  if_transaction, finished, challenge_hashes,
}

-- The height of the nearest transaction block, from a block back, or 0 where the store ends.
pub data Before (bs : Blockchain) : Option BlockRecord → ℕ → Type 0 where
  nothing : Before bs none 0
  found : {b : BlockRecord} → is_transaction_block b ≡ true → Before bs (some b) b.height
  back :
      {b : BlockRecord} {h : ℕ}
      → is_transaction_block b ≡ false
      → Before bs (bs.block_records b.prev_hash) h
      → Before bs (some b) h

module _ (hashes : Hashes) (c : Constants) (bs : Blockchain) where
  stop_height :
      (fuel : ℕ) (b : BlockRecord)
      → is_transaction_block b ≡ true
      → prev_transaction_height hashes c bs (suc fuel) (some b) ≡ ok b.height
  unfolding prev_transaction_height
  stop_height fuel b h = rw (h, prev_transaction_height) refl

  go_height :
      (fuel : ℕ) (b : BlockRecord)
      → is_transaction_block b ≡ false
      → prev_transaction_height hashes c bs (suc fuel) (some b)
        ≡ prev_transaction_height hashes c bs fuel (bs.block_records b.prev_hash)
  unfolding prev_transaction_height
  go_height fuel b h = rw (h, prev_transaction_height) refl

  prev_transaction_height-Before :
      (fuel : ℕ) (o : Option BlockRecord) (h : ℕ)
      → prev_transaction_height hashes c bs fuel o ≡ ok h
      → Before bs o h
  unfolding prev_transaction_height
  prev_transaction_height-Before fuel none h e = subst (Before bs none) (ok-injective e) nothing
  prev_transaction_height-Before zero (some b) h e = cc
  prev_transaction_height-Before (suc fuel) (some b) h e =
      elim (Bool-cases (is_transaction_block b)) [
        | inl is_one ↦
            subst (Before bs (some b)) (ok-injective (sym (stop_height fuel b is_one) ∙ e))
              (found is_one)
        | inr is_none ↦ back is_none (
            prev_transaction_height-Before fuel (bs.block_records b.prev_hash) h
              (sym (go_height fuel b is_none) ∙ e))
      ]

  -- The summary that the block includes: none, or the one whose hash its sub-slots name.
  abbrev pub Includes : List EndOfSubSlotBundle → Option SubEpochSummary → Type 0
  Includes slots none = summary_hash slots none ≡ none
  Includes slots (some ses) = summary_hash slots none ≡ some (hashes.sub_epoch_summary ses)

  checked_summary_hash :
      (hash : ℕ) (slot : EndOfSubSlotBundle) (block : FullBlock) (prev : Option BlockRecord)
      (ses : SubEpochSummary)
      → checked_summary hashes c bs hash slot block prev ≡ ok ses
      → hashes.sub_epoch_summary ses ≡ hash
  unfolding checked_summary
  checked_summary_hash hash slot block prev ses h =
      let (p, e, h1) = >>=-eq-ok (or_raise prev assertion_error) _ h in
      let (pp, e', h2) = >>=-eq-ok (block_record bs p.prev_hash) _ h1 in
      let (made, e'', h3) =
        >>=-eq-ok
          (make_sub_epoch_summary hashes.sub_epoch_summary c bs block.reward_chain_block.height pp
            slot.challenge_chain.new_difficulty slot.challenge_chain.new_sub_slot_iters)
          _ h2 in
      let (u, same, h4) =
        >>=-eq-ok (require (hashes.sub_epoch_summary made == hash) value_error) (λ u. ok made) h3 in
      ap hashes.sub_epoch_summary (sym (ok-injective h4))
      ∙ (==_iff _ _).0 (require-eq-ok _ value_error same)

  summary_for-Includes :
      (o : Option ℕ) (slots : List EndOfSubSlotBundle) (block : FullBlock)
      (prev : Option BlockRecord) (ses : Option SubEpochSummary)
      → summary_hash block.finished_sub_slots none ≡ o
      → summary_for hashes c bs o slots block prev ≡ ok ses
      → Includes block.finished_sub_slots ses
  unfolding summary_for
  summary_for-Includes none slots block prev ses e h =
      subst (Includes block.finished_sub_slots) (ok-injective h) e
  summary_for-Includes (some hash) [] block prev ses e h = cc
  summary_for-Includes (some hash) (slot ∷ slots) block prev ses e h =
      let (made, checks, same) =
        >>=-eq-ok (checked_summary hashes c bs hash slot block prev) (λ ses. ok (some ses)) h in
      subst (Includes block.finished_sub_slots) (ok-injective same)
        (e ∙ ap some (sym (checked_summary_hash hash slot block prev made checks)))

  -- The facts that the rest of the consensus rules read off the record of a block.
  pub record Describes (block : FullBlock) (r : BlockRecord) : Type 0 where
    pub transaction : is_transaction_block r ≡ is_some block.foliage_transaction_block
    pub first :
        first_in_sub_slot r
        ≡ (ltb 0 (length block.finished_sub_slots) || block.reward_chain_block.height == 0)
    pub overflows : is_overflow_block c block.reward_chain_block.signage_point_index ≡ ok r.overflow
    pub deficits :
        calculate_deficit c r.height
          (deficit_of hashes c bs (bs.block_records r.prev_hash))
          r.overflow
          (length block.finished_sub_slots)
        ≡ ok r.deficit
    pub parent : (r.height == 0 || is_some (bs.block_records r.prev_hash)) ≡ true
    pub summary : Includes block.finished_sub_slots r.sub_epoch_summary_included
    pub before : Before bs (bs.block_records r.prev_hash) r.prev_transaction_block_height

  is_some-if_transaction :
      {A : Type 0} (o : Option FoliageTransactionBlock) (value : FoliageTransactionBlock → A)
      → is_some (if_transaction o value) ≡ is_some o
  is_some-if_transaction none value = refl
  is_some-if_transaction (some f) value = refl

  is_some-finished :
      (block : FullBlock) (l : List ℕ)
      → is_some (finished hashes c block l)
        ≡ (ltb 0 (length block.finished_sub_slots) || block.reward_chain_block.height == 0)
  is_some-finished block l = ground arith

  -- The record of a block is a transaction block exactly if the block has a transaction part, and
  -- first in its sub-slot exactly if the block finished a sub-slot or has the height 0. Its overflow
  -- and deficit are those of the rules, its previous block is in the store unless the height is 0,
  -- the height of its previous transaction block is that of the nearest one going back, or 0, and it
  -- includes the summary whose hash its sub-slots name, or none if they name none.
  pub block_to_block_record-Describes :
      (required_iters : ℕ) (block : FullBlock) (given : Option ℕ) {r : BlockRecord}
      → block_to_block_record hashes c bs required_iters (some block) none given ≡ ok r
      → Describes block r
  unfolding block_to_block_record header_block_to_sub_block_record
  block_to_block_record-Describes required_iters block given {r} h =
      let b = block.reward_chain_block in
      let prev = bs.block_records block.foliage.prev_block_hash in
      let (u, parent, h1) =
        >>=-eq-ok (require (b.height == 0 || is_some prev) assertion_error) _ h in
      let (ssi, e1, h2) = >>=-eq-ok (iters_of hashes c bs block prev given) _ h1 in
      let (overflow, e2, h3) = >>=-eq-ok (is_overflow_block c b.signage_point_index) _ h2 in
      let (deficit, e3, h4) =
        >>=-eq-ok
          (calculate_deficit c b.height (deficit_of hashes c bs prev) overflow
            (length block.finished_sub_slots))
          _ h3 in
      let (ses, e4, h5) = >>=-eq-ok (summary_included hashes c bs block prev) _ h4 in
      let (height, e5, h6) =
        >>=-eq-ok (prev_transaction_height hashes c bs (fuel_for hashes c bs prev) prev)
          (λ n. ok (
            header_block_to_sub_block_record hashes c required_iters block ssi overflow deficit n
              ses))
          h5 in
      subst (Describes block) (ok-injective h6) (record {
        transaction = is_some-if_transaction block.foliage_transaction_block _;
        first = is_some-finished block (challenge_hashes hashes block.finished_sub_slots);
        overflows = e2;
        deficits = e3;
        parent = require-eq-ok _ assertion_error parent;
        summary = summary_for-Includes _ block.finished_sub_slots block prev ses refl e4;
        before = prev_transaction_height-Before (fuel_for hashes c bs prev) prev height e5;
      })
