-- ===== src/Consensus/Rewards/Withdrawals.antt =====
-- Which blocks the withdrawals pay.
use mathlib.Core.Path.{subst}
use corpochain_beacon_client.Base.{
  ℕ, zero, suc, ◌+◌, ◌*◌, ◌/◌, ◌^◌, ◌<◌, ◌≤◌, ◌≢◌, ◌⊎◌, arith, ◌≡◌, Bool, true, false, Option, none,
  some, List, [], ◌∷◌, ◌==◌, Result, ok, err, out_of_fuel, ◌>>=◌, ltb, refl, sym, ◌∙◌, ap,
  Bool-cases, inl, inr, ==_iff, ok-injective, >>=-eq-ok, or_raise-eq-ok,
}
use corpochain_beacon_client.Ints.{uint}
use corpochain_beacon_client.Ints.Range.{uint-eq-ok}
use corpochain_beacon_client.Consensus.Constants.{Constants}
use corpochain_beacon_client.Consensus.Block.{
  BlockRecord, Blockchain, block_record, is_transaction_block,
}
use corpochain_beacon_client.Consensus.Rewards.{
  Withdrawal, calculate_block_reward, withdrawal, block_withdrawal, reward_loop, prefarm,
  next_index, create_withdrawals,
}

module _ (c : Constants) (bs : Blockchain) where
  -- The blocks from `b` back to the block behind the transaction block before it, or to the first.
  pub data Unpaid : BlockRecord → List BlockRecord → Type 0 where
    first : {b : BlockRecord} → (b.prev_hash == c.genesis_challenge) ≡ true → Unpaid b (b ∷ [])
    last :
        {b p : BlockRecord}
        → (b.prev_hash == c.genesis_challenge) ≡ false
        → bs.block_records b.prev_hash ≡ some p
        → is_transaction_block p ≡ true
        → Unpaid b (b ∷ [])
    more :
        {b p : BlockRecord} {blocks : List BlockRecord}
        → (b.prev_hash == c.genesis_challenge) ≡ false
        → bs.block_records b.prev_hash ≡ some p
        → is_transaction_block p ≡ false
        → Unpaid p blocks
        → Unpaid b (b ∷ blocks)

-- Two coins, halved every three years, and nothing from the fifteenth year on. A year has 3,363,840
-- blocks.
abbrev pub IsReward : ℕ → ℕ → Type 0
IsReward height amount =
    (height < 50_457_600 → amount * 2 ^ (height / 10_091_520) ≡ 2_000_000_000)
    × (50_457_600 ≤ height → amount ≡ 0)

-- The amount in the years from `3 * k` on.
in_years :
    (height amount k : ℕ)
    → calculate_block_reward height ≡ amount
    → height / 10_091_520 ≡ k
    → amount * 2 ^ k ≡ 2_000_000_000
    → calculate_block_reward height * 2 ^ (height / 10_091_520) ≡ 2_000_000_000
in_years height amount k is period halved = rw (is, period) halved

calculate_block_reward-IsReward : (height : ℕ) → IsReward height (calculate_block_reward height)
unfolding calculate_block_reward
calculate_block_reward-IsReward height = ((λ h. halved h), (λ h. ground arith))
  where
    halved :
        height < 50_457_600
        → calculate_block_reward height * 2 ^ (height / 10_091_520) ≡ 2_000_000_000
    halved h = elim (Bool-cases (ltb height 10_091_520)) [
      | inl a ↦ in_years height 2_000_000_000 0 (ground arith) (ground arith) refl
      | inr a ↦ elim (Bool-cases (ltb height 20_183_040)) [
        | inl b ↦ in_years height 1_000_000_000 1 (ground arith) (ground arith) refl
        | inr b ↦ elim (Bool-cases (ltb height 30_274_560)) [
          | inl d ↦ in_years height 500_000_000 2 (ground arith) (ground arith) refl
          | inr d ↦ elim (Bool-cases (ltb height 40_366_080)) [
            | inl e ↦ in_years height 250_000_000 3 (ground arith) (ground arith) refl
            | inr e ↦ in_years height 125_000_000 4 (ground arith) (ground arith) refl
          ]
        ]
      ]
    ]

-- A withdrawal with that index, which fits in 64 bits, as its amount does.
abbrev pub Fits : ℕ → Withdrawal → Type 0
Fits index w = (w.index ≡ index) × (index < 2 ^ 64) × (w.amount < 2 ^ 64)

-- Each block is paid its reward to its own address, with the indices in a row.
abbrev pub Pays : ℕ → List BlockRecord → List Withdrawal → Type 0
Pays index [] [] = Unit
Pays index [] (w ∷ ws) = ⊥
Pays index (b ∷ blocks) [] = ⊥
Pays index (b ∷ blocks) (w ∷ ws) =
    Fits index w
    × (w.validator_index ≡ 1)
    × (w.address ≡ b.coinbase)
    × IsReward b.height w.amount
    × Pays (index + 1) blocks ws

withdrawal-Fits :
    (index validator address amount : ℕ) {w : Withdrawal}
    → withdrawal index validator address amount ≡ ok w
    → Fits index w × (w.validator_index ≡ validator) × (w.address ≡ address) × (w.amount ≡ amount)
unfolding withdrawal
withdrawal-Fits index validator address amount {w} h =
    let (i, e, h1) = >>=-eq-ok (uint 64 index) _ h in
    let (v, e', h2) = >>=-eq-ok (uint 64 validator) _ h1 in
    let (a, e'', h3) = >>=-eq-ok (uint 64 amount) _ h2 in
    let (i_eq, i_fits) = uint-eq-ok 64 index e in
    let (v_eq, v_fits) = uint-eq-ok 64 validator e' in
    let (a_eq, a_fits) = uint-eq-ok 64 amount e'' in
    let same = ok-injective h3 in
    let amount_eq = ap (λ (x : Withdrawal). x.amount) (sym same) ∙ a_eq in
    (
      (
        ap (λ (x : Withdrawal). x.index) (sym same) ∙ i_eq,
        i_fits,
        subst (λ n. n < 2 ^ 64) (sym amount_eq) a_fits,
      ),
      ap (λ (x : Withdrawal). x.validator_index) (sym same) ∙ v_eq,
      ap (λ (x : Withdrawal). x.address) (sym same),
      amount_eq,
    )

block_withdrawal-pays :
    (index : ℕ) (b : BlockRecord) {w : Withdrawal}
    → block_withdrawal index b ≡ ok w
    → Fits index w × (w.validator_index ≡ 1) × (w.address ≡ b.coinbase) × IsReward b.height w.amount
unfolding block_withdrawal
block_withdrawal-pays index b h =
    let (fits, validator, address, amount) =
      withdrawal-Fits index 1 b.coinbase (calculate_block_reward b.height) h in
    (
      fits,
      validator,
      address,
      subst (IsReward b.height) (sym amount) (calculate_block_reward-IsReward b.height),
    )

module _ (c : Constants) (bs : Blockchain) where
  reward_loop-zero : (index : ℕ) (b : BlockRecord) → reward_loop c bs 0 index b ≡ err out_of_fuel
  unfolding reward_loop
  reward_loop-zero index b = refl

  -- What the loop paid.
  abbrev Paid : ℕ → BlockRecord → List Withdrawal → Type 0
  Paid index b ws = (blocks : List BlockRecord) × Unpaid c bs b blocks × Pays index blocks ws

  one_paid :
      (index : ℕ) (b : BlockRecord) {w : Withdrawal}
      → block_withdrawal index b ≡ ok w
      → Pays index (b ∷ []) (w ∷ [])
  one_paid index b h =
      let (fits, validator, address, amount) = block_withdrawal-pays index b h in
      (fits, validator, address, amount, tt)

  pub reward_loop-pays :
      (fuel index : ℕ) (b : BlockRecord) {ws : List Withdrawal}
      → reward_loop c bs fuel index b ≡ ok ws
      → Paid index b ws
  unfolding reward_loop
  reward_loop-pays zero index b h = cc (reward_loop-zero index b)
  reward_loop-pays (suc fuel) index b {ws} h =
      let (w, e, h1) = >>=-eq-ok (block_withdrawal index b) _ h in
      choose w (b.prev_hash == c.genesis_challenge) refl e
        (λ p rest. reward_loop-pays fuel (index + 1) p {ws = rest}) h1
    where
      loop_from : BlockRecord → Bool → Result (List Withdrawal)
      loop_from p tx = elim tx [ true ↦ ok [] | false ↦ reward_loop c bs fuel (index + 1) p ]

      behind :
          (w : Withdrawal) (p : BlockRecord) (tx : Bool) (rest : List Withdrawal)
          → (b.prev_hash == c.genesis_challenge) ≡ false
          → bs.block_records b.prev_hash ≡ some p
          → is_transaction_block p ≡ tx
          → block_withdrawal index b ≡ ok w
          → (reward_loop c bs fuel (index + 1) p ≡ ok rest → Paid (index + 1) p rest)
          → loop_from p tx ≡ ok rest
          → Paid index b (w ∷ rest)
      behind w p true rest later there is_tx e go h =
          subst (λ r. Paid index b (w ∷ r)) (ok-injective h)
            (b ∷ [], last later there is_tx, one_paid index b e)
      behind w p false rest later there is_tx e go h =
          let (blocks, unpaid, pays) = go h in
          let (fits, validator, address, amount) = block_withdrawal-pays index b e in
          (b ∷ blocks, more later there is_tx unpaid, (fits, validator, address, amount, pays))

      choose :
          (w : Withdrawal) (start : Bool)
          → start ≡ (b.prev_hash == c.genesis_challenge)
          → block_withdrawal index b ≡ ok w
          → ((p : BlockRecord) (rest : List Withdrawal)
              → reward_loop c bs fuel (index + 1) p ≡ ok rest
              → Paid (index + 1) p rest)
          → elim start [
            | true ↦ ok (w ∷ [])
            | false ↦ block_record bs b.prev_hash >>= λ p.
                loop_from p (is_transaction_block p) >>= λ rest. ok (w ∷ rest)
          ]
            ≡ ok ws
          → Paid index b ws
      choose w true is e go h =
          subst (Paid index b) (ok-injective h) (b ∷ [], first (sym is), one_paid index b e)
      choose w false is e go h =
          let (p, there, h1) = >>=-eq-ok (block_record bs b.prev_hash) _ h in
          let (rest, done, h2) = >>=-eq-ok (loop_from p (is_transaction_block p)) _ h1 in
          subst (Paid index b) (ok-injective h2) (
            behind w p (is_transaction_block p) rest (sym is) (or_raise-eq-ok _ _ there) refl e
              (go p rest) done)

  -- The index of the first withdrawal, after the last one.
  abbrev pub Next : Option ℕ → ℕ → Type 0
  Next none index = index ≡ 0
  Next (some previous) index = index ≡ previous + 1

  next_index-Next : (b : BlockRecord) → Next b.last_withdrawal_index (next_index c b)
  next_index-Next b = go b.last_withdrawal_index
    where
      go : (o : Option ℕ) → Next o (elim o [ none ↦ 0 | some previous ↦ previous + 1 ])
      go none = refl
      go (some previous) = refl

  -- What the transaction block after `b` withdraws, from an index on.
  abbrev pub Due : BlockRecord → ℕ → List BlockRecord → List Withdrawal → Type 0
  Due b index blocks ws =
      ((b.height ≢ 0) × Pays index blocks ws)
      ⊎ ((b.height ≡ 0)
          × ((w : Withdrawal) × (rest : List Withdrawal) × (ws ≡ w ∷ rest)
              × Fits index w
              × (w.validator_index ≡ 0)
              × (w.address ≡ c.prefarm_address)
              × (w.amount ≡ c.prefarm_amount * 1_000_000_000)
              × Pays (index + 1) blocks rest))

  -- Where the withdrawals are created, they pay, with indices in a row from 0 or the one after the
  -- last withdrawal, each block once from the previous transaction block back to the one behind the
  -- transaction block before it (or to the first block): two coins, halved every three years and
  -- nothing from the fifteenth on, to the block's own address. After the block at height 0 the
  -- prefarm comes first, in coins of 10^9. All indices and amounts fit in 64 bits.
  pub create_withdrawals-pays :
      (b : BlockRecord) {ws : List Withdrawal}
      → create_withdrawals c bs b ≡ ok ws
      → (blocks : List BlockRecord) × (index : ℕ) × Unpaid c bs b blocks
        × Next b.last_withdrawal_index index
        × Due b index blocks ws
  unfolding create_withdrawals prefarm
  create_withdrawals-pays b {ws} h = choose (b.height == 0) refl h
    where
      choose :
          (genesis : Bool)
          → genesis ≡ (b.height == 0)
          → elim genesis [
            | true ↦ prefarm c (next_index c b) >>= λ w.
                reward_loop c bs (suc b.height) (next_index c b + 1) b >>= λ rewards.
                ok (w ∷ rewards)
            | false ↦ reward_loop c bs (suc b.height) (next_index c b) b
          ]
            ≡ ok ws
          → (blocks : List BlockRecord) × (index : ℕ) × Unpaid c bs b blocks
            × Next b.last_withdrawal_index index
            × Due b index blocks ws
      choose true is h =
          let index = next_index c b in
          let (w, e, h1) = >>=-eq-ok (prefarm c index) _ h in
          let (rest, done, h2) = >>=-eq-ok (reward_loop c bs (suc b.height) (index + 1) b) _ h1 in
          let (blocks, unpaid, pays) = reward_loop-pays (suc b.height) (index + 1) b done in
          let (fits, validator, address, amount) =
            withdrawal-Fits index 0 c.prefarm_address (c.prefarm_amount * 1_000_000_000) e in
          (
            blocks,
            index,
            unpaid,
            next_index-Next b,
            inr (
              (==_iff _ _).0 (sym is),
              (w, rest, sym (ok-injective h2), fits, validator, address, amount, pays),
            ),
          )
      choose false is h =
          let index = next_index c b in
          let (blocks, unpaid, pays) = reward_loop-pays (suc b.height) index b h in
          (
            blocks,
            index,
            unpaid,
            next_index-Next b,
            inl ((λ zero. differ (is ∙ (==_iff _ _).1 zero)), pays),
          )
        where
          differ : false ≡ true → ⊥
          differ e = cc
