-- ===== src/Consensus/Chain/Walk.antt =====
-- `walk_back` finds the nearest block at which its test fails, and never runs out of fuel.
use corpochain_beacon_client.Base.{
  ℕ, zero, suc, ◌<◌, ◌≢◌, ◌≡◌, Bool, true, false, some, none, ok, err, out_of_fuel, arith,
  Bool-cases, Option-cases, inl, inr, refl, sym, ◌∙◌, ok-injective, or_raise, key_error,
}
use corpochain_beacon_client.Consensus.Block.{BlockRecord, Blockchain}
use corpochain_beacon_client.Consensus.Chain.{walk_back, Nearest, here, back, IsLinked}

module _ (bs : Blockchain) (test : BlockRecord → Bool) where
  walk_back-zero : (b : BlockRecord) → walk_back bs test 0 b ≡ err out_of_fuel
  unfolding walk_back
  walk_back-zero b = refl

  pub walk_back_stop :
      (fuel : ℕ) (b : BlockRecord) → test b ≡ false → walk_back bs test (suc fuel) b ≡ ok b
  unfolding walk_back
  walk_back_stop fuel b stop = rw (stop, walk_back)

  pub walk_back_go :
      (fuel : ℕ) (b p : BlockRecord)
      → test b ≡ true
      → bs.block_records b.prev_hash ≡ some p
      → walk_back bs test (suc fuel) b ≡ walk_back bs test fuel p
  unfolding walk_back
  walk_back_go fuel b p go e = rw (go, walk_back) (rw (e, or_raise))

  pub walk_back_missing :
      (fuel : ℕ) (b : BlockRecord)
      → test b ≡ true
      → bs.block_records b.prev_hash ≡ none
      → walk_back bs test (suc fuel) b ≡ err key_error
  unfolding walk_back
  walk_back_missing fuel b go e = rw (go, walk_back) (rw (e, or_raise))

module _ (bs : Blockchain) (test : BlockRecord → Bool) where
  -- What the loop returns is the nearest block, from `b` back, at which the test fails.
  pub walk_back-Nearest :
      (fuel : ℕ) (b r : BlockRecord) → walk_back bs test fuel b ≡ ok r → Nearest bs test b r
  walk_back-Nearest zero b r h = cc (walk_back-zero bs test b)
  walk_back-Nearest (suc fuel) b r h = elim (Bool-cases (test b)) [
    | inl go ↦ elim (Option-cases (bs.block_records b.prev_hash)) [
      | inl missing ↦ cc (walk_back_missing bs test fuel b go missing)
      | inr (p, e) ↦
          back go e (walk_back-Nearest fuel p r (sym (walk_back_go bs test fuel b p go e) ∙ h))
    ]
    | inr stop ↦ rw (ok-injective (sym h ∙ walk_back_stop bs test fuel b stop)) (here stop)
  ]

  -- In a linked store one round more than the block's height is enough.
  pub walk_back_fuel :
      (fuel : ℕ) (b : BlockRecord)
      → IsLinked bs
      → bs.block_records b.header_hash ≡ some b
      → b.height < fuel
      → walk_back bs test fuel b ≢ err out_of_fuel
  walk_back_fuel zero b l k h = elim h [ ]
  walk_back_fuel (suc fuel) b l k h = elim (Bool-cases (test b)) [
    | inl go ↦ elim (Option-cases (bs.block_records b.prev_hash)) [
      | inl missing ↦ rw (walk_back_missing bs test fuel b go missing) (λ e. cc)
      | inr (p, e) ↦
          let (k', n) = l.step b p k e in
          rw (walk_back_go bs test fuel b p go e) (walk_back_fuel fuel p l k' (omega (arith, n, h)))
    ]
    | inr stop ↦ rw (walk_back_stop bs test fuel b stop) (λ e. cc)
  ]
