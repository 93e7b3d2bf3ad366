-- ===== src/Consensus/Rewards/InTime.antt =====
-- The creation of the withdrawals ends.
use corpochain_beacon_client.Base.{
  ℕ, zero, suc, ◌+◌, ◌*◌, ◌<◌, ◌≢◌, ◌≡◌, arith, Bool, true, false, some, List, [], ◌∷◌, ◌==◌,
  Result, ok, err, value_error, key_error, out_of_fuel, ◌>>=◌, ltb, ◌^◌, if◌then◌else◌,
  or_raise-in_time, >>=-in_time,
}
use corpochain_beacon_client.Ints.{uint}
use corpochain_beacon_client.Consensus.Constants.{Constants}
use corpochain_beacon_client.Consensus.Block.{
  BlockRecord, Blockchain, block_record, is_transaction_block,
}
use corpochain_beacon_client.Consensus.Chain.{IsLinked}
use corpochain_beacon_client.Consensus.Rewards.{
  Withdrawal, calculate_block_reward, withdrawal, block_withdrawal, reward_loop, prefarm,
  next_index, create_withdrawals, corpochain_to_gwei,
}

uint-in_time : (w n : ℕ) → uint w n ≢ err out_of_fuel
unfolding uint
uint-in_time w n = go (ltb n (2 ^ w))
  where
    go : (b : Bool) → (if b then ok n else err value_error) ≢ err out_of_fuel
    go true e = cc
    go false e = cc

withdrawal-in_time :
    (index validator address amount : ℕ)
    → withdrawal index validator address amount ≢ err out_of_fuel
unfolding withdrawal
withdrawal-in_time index validator address amount =
    >>=-in_time (uint 64 index) _ (uint-in_time 64 index) (λ i.
      >>=-in_time (uint 64 validator) _ (uint-in_time 64 validator)
        (λ v. >>=-in_time (uint 64 amount) _ (uint-in_time 64 amount) (λ a e. cc)))

module _ (c : Constants) (bs : Blockchain) where
  reward_loop-in_time :
      (fuel index : ℕ) (b : BlockRecord)
      → IsLinked bs
      → bs.block_records b.header_hash ≡ some b
      → b.height < fuel
      → reward_loop c bs fuel index b ≢ err out_of_fuel
  unfolding reward_loop block_withdrawal
  reward_loop-in_time zero index b l k h = elim h [ ]
  reward_loop-in_time (suc fuel) index b l k h =
      >>=-in_time (block_withdrawal index b) _
        (withdrawal-in_time index 1 b.coinbase (calculate_block_reward b.height))
        (λ w. choose w (b.prev_hash == c.genesis_challenge) (λ p e.
          let (k', n) = l.step b p k e in
          reward_loop-in_time fuel (index + 1) p l k' (omega (arith, n, h))))
    where
      behind :
          (p : BlockRecord) (tx : Bool)
          → reward_loop c bs fuel (index + 1) p ≢ err out_of_fuel
          → (elim tx as (λ (x : Bool). Result (List Withdrawal)) [
            | true ↦ ok []
            | false ↦ reward_loop c bs fuel (index + 1) p
          ])
            ≢ err out_of_fuel
      behind p true go e = cc
      behind p false go e = go e

      choose :
          (w : Withdrawal) (start : Bool)
          → ((p : BlockRecord)
              → bs.block_records b.prev_hash ≡ some p
              → reward_loop c bs fuel (index + 1) p ≢ err out_of_fuel)
          → (elim start as (λ (x : Bool). Result (List Withdrawal)) [
            | true ↦ ok (w ∷ [])
            | false ↦ block_record bs b.prev_hash >>= λ p.
                (elim (is_transaction_block p) [
                  | true ↦ ok []
                  | false ↦ reward_loop c bs fuel (index + 1) p
                ])
                >>= λ rest. ok (w ∷ rest)
          ])
            ≢ err out_of_fuel
      choose w true go = λ e. cc
      choose w false go =
          or_raise-in_time (bs.block_records b.prev_hash) key_error _ (λ e. cc)
            (λ p e. >>=-in_time _ _ (behind p (is_transaction_block p) (go p e)) (λ rest e. cc))

  -- In a linked store that has the block, the withdrawals never run out of fuel.
  pub create_withdrawals-in_time :
      (b : BlockRecord)
      → IsLinked bs
      → bs.block_records b.header_hash ≡ some b
      → create_withdrawals c bs b ≢ err out_of_fuel
  unfolding create_withdrawals prefarm
  create_withdrawals-in_time b l k = choose (b.height == 0)
    where
      choose :
          (genesis : Bool)
          → (elim genesis as (λ (x : Bool). Result (List Withdrawal)) [
            | true ↦ prefarm c (next_index c b) >>= λ w.
                reward_loop c bs (suc b.height) (next_index c b + 1) b >>= λ rewards.
                ok (w ∷ rewards)
            | false ↦ reward_loop c bs (suc b.height) (next_index c b) b
          ])
            ≢ err out_of_fuel
      choose true =
          >>=-in_time (prefarm c (next_index c b)) _
            (withdrawal-in_time (next_index c b) 0 c.prefarm_address
              (c.prefarm_amount * corpochain_to_gwei))
            (λ w.
              >>=-in_time (reward_loop c bs (suc b.height) (next_index c b + 1) b) _
                (reward_loop-in_time (suc b.height) (next_index c b + 1) b l k (omega arith))
                (λ rewards e. cc))
      choose false = reward_loop-in_time (suc b.height) (next_index c b) b l k (omega arith)
