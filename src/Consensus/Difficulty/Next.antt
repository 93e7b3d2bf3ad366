-- ===== src/Consensus/Difficulty/Next.antt =====
-- The difficulty of an epoch that begins.
use corpochain_beacon_client.Base.{
  ℕ, ◌-◌, ◌*◌, ◌≤◌, ◌<◌, ◌≡◌, ◌⊎◌, refl, sym, ap, ◌∙◌, Bool, true, false, some, ltb, Result, ok,
  assertion_error, value_error, or_raise, arith, >>=-eq-ok, ok-injective, or_raise-eq-ok,
  Bool-cases, inl, inr, ltb→lt, ltb_false→le, leb, leb_false→lt, err, zero, suc, ◌/◌, not, ◌||◌,
}
use mathlib.Core.Path.{subst}
use corpochain_beacon_client.Base.Int.{ℤ, pos, negsuc, pos_part, sub_ℕ, scale, floor_div}
use corpochain_beacon_client.Ints.{uint_sub, uint_of_ℤ}
use corpochain_beacon_client.Ints.Range.{uint-eq-ok, uint_sub-eq-ok}
use corpochain_beacon_client.Consensus.Constants.{Constants}
use corpochain_beacon_client.Consensus.SignificantBits.{truncate_to_significant_bits}
use corpochain_beacon_client.Consensus.Block.{
  BlockRecord, Blockchain, block_record, is_transaction_block,
}
use corpochain_beacon_client.Consensus.Difficulty.{
  second_to_last_transaction_block, last_transaction_block_before, epoch_time, adjust_difficulty,
  new_epoch_difficulty,
}
use corpochain_beacon_client.Consensus.Difficulty.Bounds.{bounded, clamp_difficulty_range}
use corpochain_beacon_client.Consensus.Chain.{Nearest, here, back}
use corpochain_beacon_client.Consensus.Chain.Walk.{walk_back-Nearest}

-- A division whose result is in the range of an unsigned class.
at_rate :
    (z : ℤ) (m : ℕ) {q : ℤ} {p : ℕ}
    → floor_div z (pos m) ≡ ok q
    → uint_of_ℤ 64 q ≡ ok p
    → (0 < m) × ((n : ℕ) × (z ≡ pos n) × (p ≡ n / m))
unfolding uint_of_ℤ
at_rate z zero h u = cc
at_rate (pos n) (suc m) {q} {p} h u = (
  omega arith,
  (
    n,
    refl,
    (uint-eq-ok 64 (n / suc m) (subst (λ x. uint_of_ℤ 64 x ≡ ok p) (sym (ok-injective h)) u)).0,
  ),
)
at_rate (negsuc n) (suc m) {q} {p} h u =
    raised (subst (λ x. uint_of_ℤ 64 x ≡ ok p) (sym (ok-injective h)) u)
  where
    raised :
        ◌≡◌ {A = Result ℕ} (err value_error) (ok p)
        → (0 < suc m) × ((k : ℕ) × (negsuc n ≡ pos k) × (p ≡ k / suc m))
    raised e = cc

sub_zero : (m : ℕ) → sub_ℕ m 0 ≡ pos m
sub_zero m = elim (Bool-cases (leb 0 m)) [
  | inl yes_le ↦ rw yes_le (ap pos (omega arith))
  | inr no_le ↦ absurd (omega (arith, leb_false→lt _ _ no_le))
]

scale-pos : (k a b : ℕ) {n : ℕ} → scale k (sub_ℕ a b) ≡ pos n → n ≡ k * (a - b)
scale-pos k a b {n} h = elim (Bool-cases (leb b a)) [
  | inl above ↦ sym (pos-injective (sym (ap (scale k) (upper above)) ∙ h))
  | inr below ↦ lower below (sym (ap (scale k) (under below)) ∙ h)
]
  where
    pos-injective : {x y : ℕ} → pos x ≡ pos y → x ≡ y
    pos-injective e = ap pos_part e

    apart : {x : ℕ} → pos n ≡ negsuc x → ⊥
    apart e = cc

    upper : leb b a ≡ true → sub_ℕ a b ≡ pos (a - b)
    upper e = rw e refl

    under : leb b a ≡ false → sub_ℕ a b ≡ negsuc (b - a - 1)
    under e = rw e refl

    lower : leb b a ≡ false → sub_ℕ 0 (k * suc (b - a - 1)) ≡ pos n → n ≡ k * (a - b)
    lower below e = elim (Bool-cases (leb (k * suc (b - a - 1)) 0)) [
      | inl zero_times ↦
          let nothing : n ≡ 0 =
            sym (pos-injective (sym (rw zero_times (ap pos (omega arith))) ∙ e)) in
          let level : a - b ≡ 0 = omega (arith, leb_false→lt _ _ below) in
          let times : k * 0 ≡ 0 = omega arith in nothing ∙ sym (ap (λ x. k * x) level ∙ times)
      | inr more ↦
          let minus : sub_ℕ 0 (k * suc (b - a - 1)) ≡ negsuc (k * suc (b - a - 1) - 0 - 1) =
            rw more refl in
          absurd (apart (sym e ∙ minus))
    ]

rate :
    (k a b m : ℕ) {q : ℤ} {p : ℕ}
    → floor_div (scale k (sub_ℕ a b)) (sub_ℕ m 0) ≡ ok q
    → uint_of_ℤ 64 q ≡ ok p
    → (0 < m) × (p ≡ k * (a - b) / m)
rate k a b m {q} h u =
    let (positive, (n, is, value)) =
      at_rate (scale k (sub_ℕ a b)) m
        (subst (λ z. floor_div (scale k (sub_ℕ a b)) z ≡ ok q) (sub_zero m) h) u in
    (positive, value ∙ ap (λ x. x / m) (scale-pos k a b is))

module _ (c : Constants) (bs : Blockchain) where
  -- The nearest transaction block, back from the first one, that does not lie after the signage point.
  pub data TxBefore (sp_total : ℕ) : BlockRecord → BlockRecord → Type 0 where
    found :
        {b : BlockRecord}
        → b.total_iters ≤ sp_total
        → is_transaction_block b ≡ true
        → TxBefore sp_total b b
    earlier :
        {b p r : BlockRecord}
        → (sp_total < b.total_iters) ⊎ (is_transaction_block b ≡ false)
        → bs.block_records b.prev_hash ≡ some p
        → TxBefore sp_total p r
        → TxBefore sp_total b r

  stops :
      (sp_total : ℕ) (b : BlockRecord) (after tx : Bool)
      → after ≡ ltb sp_total b.total_iters
      → tx ≡ is_transaction_block b
      → (after || not tx) ≡ false
      → TxBefore sp_total b b
  stops sp_total b true tx a t h = cc
  stops sp_total b false false a t h = cc
  stops sp_total b false true a t h = found (ltb_false→le _ _ (sym a)) (sym t)

  goes :
      (sp_total : ℕ) (b : BlockRecord) (after tx : Bool)
      → after ≡ ltb sp_total b.total_iters
      → tx ≡ is_transaction_block b
      → (after || not tx) ≡ true
      → (sp_total < b.total_iters) ⊎ (is_transaction_block b ≡ false)
  goes sp_total b true tx a t h = inl (ltb→lt _ _ (sym a))
  goes sp_total b false true a t h = cc
  goes sp_total b false false a t h = inr (sym t)

  Nearest-TxBefore :
      (sp_total : ℕ) {b r : BlockRecord}
      → Nearest bs (λ b. ltb sp_total b.total_iters || not (is_transaction_block b)) b r
      → TxBefore sp_total b r
  Nearest-TxBefore sp_total {b} (here stop) = stops sp_total b _ _ refl refl stop
  Nearest-TxBefore sp_total {b} (back go e rest) =
      earlier (goes sp_total b _ _ refl refl go) e (Nearest-TxBefore sp_total rest)

  -- The difficulty of an epoch that begins: the weight since the block before `last_prev` by the time
  -- since it, held within the factor of the difficulty of the block `b` and at least 1, and cut to
  -- the significant bits.
  abbrev pub Adjusted : ℕ → BlockRecord → ℕ → Type 0
  Adjusted sp_total b d =
      (before last_prev last_curr : BlockRecord) × (now past : ℕ) × (bs.block_records b.prev_hash
        ≡ some before)
      × (second_to_last_transaction_block c bs b ≡ ok last_prev)
      × TxBefore sp_total b last_curr
      × (last_curr.timestamp ≡ some now)
      × (last_prev.timestamp ≡ some past)
      × (past ≤ now)
      × (0 < c.slot_blocks_target * (now - past))
      × (before.weight ≤ b.weight)
      × (d
          ≡ truncate_to_significant_bits
              (bounded c.difficulty_change_max_factor 1 (b.weight - before.weight) (
                c.sub_slot_time_target
                * (last_curr.weight - last_prev.weight)
                / (c.slot_blocks_target * (now - past))))
              c.significant_bits)

  pub new_epoch_difficulty-Adjusted :
      (sp_total : ℕ) (b : BlockRecord) {d : ℕ}
      → new_epoch_difficulty c bs sp_total b ≡ ok d
      → Adjusted sp_total b d
  unfolding new_epoch_difficulty last_transaction_block_before epoch_time adjust_difficulty
  new_epoch_difficulty-Adjusted sp_total b {d} h =
      let (last_prev, e1, h1) = >>=-eq-ok (second_to_last_transaction_block c bs b) _ h in
      let (last_curr, e2, h2) = >>=-eq-ok (last_transaction_block_before c bs sp_total b) _ h1 in
      let (time, e3, h3) = >>=-eq-ok (epoch_time c last_prev last_curr) _ h2 in
      let (before, e4, h4) = >>=-eq-ok (block_record bs b.prev_hash) _ h3 in
      let (old, e5, h5) = >>=-eq-ok (uint_sub 64 b.weight before.weight) _ h4 in
      let (now, t1, h6) = >>=-eq-ok (or_raise last_curr.timestamp assertion_error) _ e3 in
      let (past, t2, t3) = >>=-eq-ok (or_raise last_prev.timestamp assertion_error) _ h6 in
      let (past_le, time_eq, u1) = uint_sub-eq-ok 64 now past t3 in
      let (le, old_eq, u2) = uint_sub-eq-ok 64 b.weight before.weight e5 in
      let weight = scale c.sub_slot_time_target (sub_ℕ last_curr.weight last_prev.weight) in
      let (q, e6, h7) = >>=-eq-ok (floor_div weight (sub_ℕ (c.slot_blocks_target * time) 0)) _ h5 in
      let (precise, e7, h8) = >>=-eq-ok (uint_of_ℤ 64 q) _ h7 in
      let (positive, precise_eq) =
        rate c.sub_slot_time_target last_curr.weight last_prev.weight (c.slot_blocks_target * time)
          e6 e7 in
      let (d_eq, low, high, bits) = clamp_difficulty_range c old precise h8 in
      (
        before,
        last_prev,
        last_curr,
        now,
        past,
        or_raise-eq-ok _ _ e4,
        e1,
        Nearest-TxBefore sp_total (
            walk_back-Nearest bs (λ b. ltb sp_total b.total_iters || not (is_transaction_block b))
              (suc b.height) b last_curr e2),
        or_raise-eq-ok _ _ t1,
        or_raise-eq-ok _ _ t2,
        past_le,
        subst (λ t. 0 < c.slot_blocks_target * t) time_eq positive,
        le,
        d_eq
            ∙ ap
                (λ o.
                  truncate_to_significant_bits (bounded c.difficulty_change_max_factor 1 o precise)
                    c.significant_bits)
                old_eq
            ∙ ap
                (λ p.
                  truncate_to_significant_bits
                    (bounded c.difficulty_change_max_factor 1 (b.weight - before.weight) p)
                    c.significant_bits)
                (precise_eq
                  ∙ ap
                      (λ t.
                        c.sub_slot_time_target
                        * (last_curr.weight - last_prev.weight)
                        / (c.slot_blocks_target * t))
                      time_eq),
      )
