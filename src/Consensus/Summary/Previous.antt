-- ===== src/Consensus/Summary/Previous.antt =====
-- Which earlier summary a new one names.
use corpochain_beacon_client.Base.{
  ℕ, suc, ◌+◌, ◌/◌, ◌%◌, ◌≤◌, ◌<◌, ◌≡◌, ◌==◌, refl, sym, ap, ◌∙◌, Option, none, some, List, last?,
  leb, ok, or_raise, require, assertion_error, index_error, arith, >>=-eq-ok, ok-injective,
  or_raise-eq-ok, require-eq-ok, ==_iff, Bool-cases, inl, inr, ◌⊎◌, leb→le, leb_false→lt,
}
use corpochain_beacon_client.Ints.{uint}
use corpochain_beacon_client.Ints.Range.{uint-eq-ok}
use corpochain_beacon_client.Consensus.Iterations.Division.{divide-eq-ok, modulo-eq-ok}
use corpochain_beacon_client.Consensus.Constants.{Constants}
use corpochain_beacon_client.Consensus.Iterations.{modulo, divide}
use corpochain_beacon_client.Consensus.Block.{BlockRecord, Blockchain, SubEpochSummary}
use corpochain_beacon_client.Consensus.Chain.{walk_back, Nearest}
use corpochain_beacon_client.Consensus.Chain.Walk.{walk_back-Nearest}
use corpochain_beacon_client.Consensus.Summary.{
  lacks_summary, summary_after, previous_summary, make_sub_epoch_summary,
}

module _ (ses_hash : SubEpochSummary → ℕ) (c : Constants) (bs : Blockchain) where
  -- `ses` names the summary of `b`, and counts how far `b` stands in its sub-epoch.
  pub record Names (b : BlockRecord) (ses : SubEpochSummary) : Type 0 where
    pub earlier : SubEpochSummary
    pub slots : List ℕ
    pub includes : b.sub_epoch_summary_included ≡ some earlier
    pub has_slots : b.finished_reward_slot_hashes ≡ some slots
    pub hash : ses.prev_subepoch_summary_hash ≡ ses_hash earlier
    pub reward : last? slots ≡ some ses.reward_chain_hash
    pub overflow : ses.num_blocks_overflow ≡ b.height % c.sub_epoch_blocks

  summary_after-Names :
      (b : BlockRecord) (d s : Option ℕ) {ses : SubEpochSummary}
      → summary_after ses_hash c bs b d s ≡ ok ses
      → Names b ses × (ses.new_difficulty ≡ d) × (ses.new_sub_slot_iters ≡ s)
  unfolding summary_after
  summary_after-Names b d s {ses} h =
      let (slots, a, h1) = >>=-eq-ok (or_raise b.finished_reward_slot_hashes assertion_error) _ h in
      let (earlier, e, h2) =
        >>=-eq-ok (or_raise b.sub_epoch_summary_included assertion_error) _ h1 in
      let (last, l, h3) = >>=-eq-ok (or_raise (last? slots) index_error) _ h2 in
      let (offset, o, h4) = >>=-eq-ok (modulo b.height c.sub_epoch_blocks) _ h3 in
      let (count, u, h5) = >>=-eq-ok (uint 8 offset) _ h4 in
      let same = ok-injective h5 in
      (
        record {
          earlier = earlier;
          slots = slots;
          includes = or_raise-eq-ok _ _ e;
          has_slots = or_raise-eq-ok _ _ a;
          hash = ap (λ x. x.prev_subepoch_summary_hash) (sym same);
          reward = or_raise-eq-ok _ _ l ∙ ap (λ x. some x.reward_chain_hash) same;
          overflow =
              ap (λ x. x.num_blocks_overflow) (sym same)
              ∙ (uint-eq-ok 8 offset u).0
              ∙ (modulo-eq-ok _ _ o).0;
        },
        ap (λ x. x.new_difficulty) (sym same),
        ap (λ x. x.new_sub_slot_iters) (sym same),
      )

  previous_summary-eq-ok :
      (prev : BlockRecord) (d s : Option ℕ) {ses : SubEpochSummary}
      → previous_summary ses_hash c bs prev d s ≡ ok ses
      → (b : BlockRecord) × (walk_back bs lacks_summary (suc prev.height) prev ≡ ok b)
        × (summary_after ses_hash c bs b d s ≡ ok ses)
  unfolding previous_summary
  previous_summary-eq-ok prev d s h =
      >>=-eq-ok (walk_back bs lacks_summary (suc prev.height) prev)
        (λ b. summary_after ses_hash c bs b d s) h

  -- Where a summary is made, the height given is two above the block given. Up to a quotient of 1 (the
  -- height ahead by the longest sub-slot, in sub-epochs) it names the genesis challenge twice and nothing else; beyond, it names the
  -- summary of the nearest block back that included one, with that block's last reward slot hash and its
  -- distance from the start of its sub-epoch, and carries the new parameters.
  pub make_sub_epoch_summary-Names :
      (height : ℕ) (prev : BlockRecord) (d s : Option ℕ) {ses : SubEpochSummary}
      → make_sub_epoch_summary ses_hash c bs height prev d s ≡ ok ses
      → (prev.height + 2 ≡ height)
        × (((height + c.max_sub_slot_blocks) / c.sub_epoch_blocks ≤ 1)
              × (ses ≡ (record {
                prev_subepoch_summary_hash = c.genesis_challenge;
                reward_chain_hash = c.genesis_challenge;
                num_blocks_overflow = 0;
                new_difficulty = none;
                new_sub_slot_iters = none;
              }))
            ⊎ (1 < (height + c.max_sub_slot_blocks) / c.sub_epoch_blocks)
              × ((b : BlockRecord) × Nearest bs lacks_summary prev b
                  × Names b ses
                  × (ses.new_difficulty ≡ d)
                  × (ses.new_sub_slot_iters ≡ s)))
  unfolding make_sub_epoch_summary
  make_sub_epoch_summary-Names height prev d s h =
      let (_, r, h1) = >>=-eq-ok (require (prev.height + 2 == height) assertion_error) _ h in
      let (n, q, h2) =
        >>=-eq-ok (divide (height + c.max_sub_slot_blocks) c.sub_epoch_blocks) _ h1 in
      let quotient = (divide-eq-ok _ _ q).0 in
      (
        (==_iff _ _).0 (require-eq-ok _ _ r),
        elim (Bool-cases (leb n 1)) [
          | inl early ↦
              inl (omega (arith, quotient, leb→le _ _ early), ok-injective (sym h2 ∙ rw early refl))
          | inr late ↦
              let (b, w, a) = previous_summary-eq-ok prev d s (sym (rw late refl) ∙ h2) in
              let (names, new_d, new_s) = summary_after-Names b d s a in
              inr (
                omega (arith, quotient, leb_false→lt _ _ late),
                (
                  b,
                  walk_back-Nearest bs lacks_summary (suc prev.height) prev b w,
                  names,
                  new_d,
                  new_s,
                ),
              )
        ],
      )
