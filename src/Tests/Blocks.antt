-- ===== src/Tests/Blocks.antt =====
-- A small chain, and the searches along it.
use mathlib.Core.Path.{subst}
use corpochain_beacon_client.Base.{
  ◌↔◌, ◌%◌, ℕ, suc, ◌+◌, ◌-◌, ◌*◌, ◌/◌, ◌≤◌, ◌<◌, ◌≡◌, ◌≢◌, ◌==◌, ◌^◌, ◌⊎◌, refl, sym, ◌∙◌, Bool,
  true, false, not, Option, none, some, List, [], ◌∷◌, get_elem?, if◌then◌else◌, ok, err,
  out_of_fuel, Bool-cases, some_cancel, inl, inr,
}
use corpochain_beacon_client.Base.Int.{pos}
use corpochain_beacon_client.Consensus.Constants.{Constants, default_constants}
use corpochain_beacon_client.Consensus.Block.{
  BlockRecord, Blockchain, SubEpochSummary, is_transaction_block,
}
use corpochain_beacon_client.Consensus.Chain.{walk_back, Nearest, IsLinked}
use corpochain_beacon_client.Consensus.Epoch.{summary_before, can_finish_sub_and_full_epoch}
use corpochain_beacon_client.Consensus.Epoch.Finish.{
  included, here, MayFinish, can_finish_sub_and_full_epoch_iff, summary_before-false,
}
use corpochain_beacon_client.Consensus.Summary.{lacks_summary, make_sub_epoch_summary}
use corpochain_beacon_client.Consensus.Summary.Previous.{Names, make_sub_epoch_summary-Names}
use corpochain_beacon_client.Consensus.Rewards.{Withdrawal, create_withdrawals}
use corpochain_beacon_client.Consensus.Rewards.Withdrawals.{
  Unpaid, Next, Due, create_withdrawals-pays,
}
use corpochain_beacon_client.Consensus.ForkPoint.{find_fork_point_in_chain}
use corpochain_beacon_client.Consensus.ForkPoint.Highest.{Highest, find_fork_point_in_chain-Highest}
use corpochain_beacon_client.Consensus.ForkPoint.Common.{Forks, find_fork_point_in_chain-in_time}
use corpochain_beacon_client.Consensus.Header.{HeaderBlock}
use corpochain_beacon_client.Consensus.Challenge.{challenge_of_chain}
use corpochain_beacon_client.Consensus.Challenge.Last.{Recent, challenge_of_chain-Recent}

-- A block whose hash is its height plus 100.
abbrev block : ℕ → ℕ → Option ℕ → Option SubEpochSummary → BlockRecord
block height prev_hash timestamp summary = record {
  header_hash = height + 100;
  prev_hash = prev_hash;
  height = height;
  weight = height;
  total_iters = 1000 * height;
  signage_point_index = 0;
  challenge_vdf_output = 0;
  infused_challenge_vdf_output = none;
  reward_infusion_new_challenge = 0;
  challenge_block_info_hash = 0;
  sub_slot_iters = 2 ^ 20;
  coinbase = 55;
  required_iters = 1;
  deficit = 0;
  overflow = false;
  prev_transaction_block_height = 0;
  timestamp = timestamp;
  prev_transaction_block_hash = none;
  execution_block_height = none;
  execution_block_hash = none;
  last_withdrawal_index = none;
  execution_timestamp = none;
  finished_challenge_slot_hashes = some (7 ∷ 8 ∷ []);
  finished_infused_challenge_slot_hashes = none;
  finished_reward_slot_hashes = some (9 ∷ []);
  sub_epoch_summary_included = summary;
}

abbrev block_3 : BlockRecord
block_3 = block 3 102 (some 1) none

abbrev pub block_4 : BlockRecord
block_4 = block 4 103 none none

abbrev pub chain : Blockchain
chain = record {
  block_records = λ h. if h == 104 then some block_4 else if h == 103 then some block_3 else none;
  height_to_hash = λ h. none;
}

found_3 : walk_back chain (λ b. not (is_transaction_block b)) 5 block_4 ≡ ok block_3
unfolding walk_back
found_3 = refl

chain_keys :
    (k : ℕ) (b : BlockRecord) → chain.block_records k ≡ some b → (block_4 ≡ b) ⊎ (block_3 ≡ b)
chain_keys k b h = elim (Bool-cases (k == 104)) [
  | inl last ↦
      let e : chain.block_records k ≡ some block_4 = rw last refl in inl (some_cancel (sym e ∙ h))
  | inr other ↦ elim (Bool-cases (k == 103)) [
    | inl first ↦
        let e : chain.block_records k ≡ some block_3 = rw other (rw first refl) in
        inr (some_cancel (sym e ∙ h))
    | inr unknown ↦ let e : chain.block_records k ≡ none = rw other (rw unknown refl) in cc e
  ]
]

abbrev Linked : BlockRecord → Type 0
Linked b =
    (p : BlockRecord)
    → chain.block_records b.prev_hash ≡ some p
    → (chain.block_records p.header_hash ≡ some p) × (suc p.height ≡ b.height)

Linked-block_4 : Linked block_4
Linked-block_4 p h =
    subst (λ p. (chain.block_records p.header_hash ≡ some p) × (suc p.height ≡ 4)) (some_cancel h)
      (refl, refl)

Linked-block_3 : Linked block_3
Linked-block_3 p h = cc

pub chain-IsLinked : IsLinked chain
chain-IsLinked = record {
  step = λ b p known prev. elim (chain_keys b.header_hash b known) [
    | inl last ↦ subst Linked last Linked-block_4 p prev
    | inr first ↦ subst Linked first Linked-block_3 p prev
  ];
}

-- Sub-epochs of four blocks, epochs of eight.
abbrev pub short_epochs : Constants
short_epochs = record default_constants { sub_epoch_blocks = 4; epoch_blocks = 8 }

may_finish :
    can_finish_sub_and_full_epoch short_epochs chain 5 (some 104) 0 false ≡ ok (true, false)
unfolding can_finish_sub_and_full_epoch
may_finish = refl

can_finish_sub_and_full_epoch_iff_example :
    ((true ≡ true) ↔ MayFinish short_epochs chain 5 104 0 false)
    × ((false ≡ true)
        ↔ (true ≡ true)
          × ((epochs : ℕ) × (5 + 1 - (5 + 1) % short_epochs.sub_epoch_blocks
                ≡ epochs * short_epochs.epoch_blocks)))
can_finish_sub_and_full_epoch_iff_example =
    can_finish_sub_and_full_epoch_iff short_epochs chain 5 104 0 false may_finish

none_before : summary_before short_epochs chain 5 104 ≡ ok false
unfolding summary_before
none_before = refl

summary_before-false_example : included short_epochs chain block_4 ≡ false
summary_before-false_example =
    summary_before-false short_epochs chain 5 104 block_4 block_4 none_before refl refl here

abbrev old_summary : SubEpochSummary
old_summary = record {
  prev_subepoch_summary_hash = 1;
  reward_chain_hash = 2;
  num_blocks_overflow = 3;
  new_difficulty = none;
  new_sub_slot_iters = none;
}

abbrev block_998 : BlockRecord
block_998 = block 998 997 none (some old_summary)

abbrev ses_hash : SubEpochSummary → ℕ
ses_hash s = s.reward_chain_hash + 40

abbrev new_summary : SubEpochSummary
new_summary = record {
  prev_subepoch_summary_hash = 42;
  reward_chain_hash = 9;
  num_blocks_overflow = 230;
  new_difficulty = some 5;
  new_sub_slot_iters = none;
}

summary_made :
    make_sub_epoch_summary ses_hash default_constants chain 1000 block_998 (some 5) none
    ≡ ok new_summary
unfolding make_sub_epoch_summary walk_back
summary_made = refl

make_sub_epoch_summary-Names_example :
    (block_998.height + 2 ≡ 1000)
    × (((1000 + 128) / 384 ≤ 1)
          × (new_summary ≡ (record {
            prev_subepoch_summary_hash = default_constants.genesis_challenge;
            reward_chain_hash = default_constants.genesis_challenge;
            num_blocks_overflow = 0;
            new_difficulty = none;
            new_sub_slot_iters = none;
          }))
        ⊎ (1 < (1000 + 128) / 384)
          × ((b : BlockRecord) × Nearest chain lacks_summary block_998 b
              × Names ses_hash default_constants chain b new_summary
              × (new_summary.new_difficulty ≡ some 5)
              × (new_summary.new_sub_slot_iters ≡ none)))
make_sub_epoch_summary-Names_example =
    make_sub_epoch_summary-Names ses_hash default_constants chain 1000 block_998 (some 5) none
      summary_made

abbrev genesis : BlockRecord
genesis = block 0 default_constants.genesis_challenge (some 1) none

abbrev first_withdrawals : List Withdrawal
first_withdrawals =
    record {
      index = 0;
      validator_index = 0;
      address = 0;
      amount = default_constants.prefarm_amount * 1_000_000_000;
    }
    ∷ record { index = 1; validator_index = 1; address = genesis.coinbase; amount = 2_000_000_000 }
    ∷ []

withdrawn : create_withdrawals default_constants chain genesis ≡ ok first_withdrawals
unfolding create_withdrawals
withdrawn = refl

create_withdrawals-pays_example :
    (blocks : List BlockRecord) × (index : ℕ) × Unpaid default_constants chain genesis blocks
    × Next default_constants chain genesis.last_withdrawal_index index
    × Due default_constants chain genesis index blocks first_withdrawals
create_withdrawals-pays_example = create_withdrawals-pays default_constants chain genesis withdrawn

fork_at_3 : find_fork_point_in_chain chain block_4 block_3 ≡ ok (pos 3)
unfolding find_fork_point_in_chain
fork_at_3 = refl

find_fork_point_in_chain-Highest_example :
    Forks chain block_4 block_3 (pos 3) × Highest chain block_4 block_3 (pos 3)
find_fork_point_in_chain-Highest_example =
    find_fork_point_in_chain-Highest chain block_4 block_3 (pos 3) chain-IsLinked refl refl
      fork_at_3

abbrev after_4 : HeaderBlock
after_4 = record {
  prev_header_hash = 104;
  total_iters = 5000;
  signage_point_index = 0;
  finished_sub_slots = [];
}

second_challenge : challenge_of_chain chain after_4 2 ≡ ok 7
unfolding challenge_of_chain
second_challenge = refl

challenge_of_chain-Recent_example :
    (b : BlockRecord) × (whole : Bool) × (hashes : List ℕ) × (chain.block_records 104 ≡ some b)
    × Recent chain b whole hashes
    × (get_elem? hashes (2 - 1) ≡ some 7)
challenge_of_chain-Recent_example = challenge_of_chain-Recent chain after_4 2 second_challenge

find_fork_point_in_chain-in_time_example :
    find_fork_point_in_chain chain block_4 block_3 ≢ err out_of_fuel
find_fork_point_in_chain-in_time_example =
    find_fork_point_in_chain-in_time chain block_4 block_3 chain-IsLinked refl refl

keyed_4 :
    (b : BlockRecord)
    → chain.block_records 104 ≡ some b
    → chain.block_records b.header_hash ≡ some b
keyed_4 b h = subst (λ b. chain.block_records b.header_hash ≡ some b) (some_cancel h) refl
