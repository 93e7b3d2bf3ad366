-- ===== src/Consensus/Difficulty/Bounds.antt =====
-- How far one adjustment may move the difficulty and the sub-slot iterations.
use native.Mathlib.Nat.{div-le_self, div-add-mod, mod-lt, mul-mod_right, mul-le-mul_right}
use corpochain_beacon_client.Base.{
  ℕ, ◌+◌, ◌-◌, ◌*◌, ◌/◌, ◌%◌, ◌^◌, ◌≤◌, ◌<◌, min, max, ◌≡◌, sym, ap, ◌∙◌, leb, if◌then◌else◌, ok,
  require, assertion_error, arith, >>=-eq-ok, ok-injective, require-eq-ok, leb→le, le→leb,
}
use corpochain_beacon_client.Ints.{uint}
use corpochain_beacon_client.Ints.Range.{uint-eq-ok, uint_lem}
use corpochain_beacon_client.Consensus.Iterations.Division.{divide-eq-ok, modulo-eq-ok}
use corpochain_beacon_client.Consensus.Constants.{Constants}
use corpochain_beacon_client.Consensus.Iterations.{divide, modulo}
use corpochain_beacon_client.Consensus.SignificantBits.{
  truncate_to_significant_bits, count_significant_bits,
}
use corpochain_beacon_client.Consensus.SignificantBits.Truncate.{
  truncate_le, count_significant_bits-truncate,
}
use corpochain_beacon_client.Consensus.Difficulty.{clamp_ssi, clamp_difficulty}

-- The value before it is cut: within the factor of the old one, and at least the floor `least`.
abbrev pub bounded : ℕ → ℕ → ℕ → ℕ → ℕ
bounded factor least old precise =
    if leb old precise then min precise (factor * old) else max least (max precise (old / factor))

bounded_range :
    (factor least old precise : ℕ)
    → 0 < factor
    → (old / factor ≤ bounded factor least old precise)
      × (bounded factor least old precise ≤ max least (factor * old))
bounded_range factor least old precise pos =
    let smaller = div-le_self old factor in
    let larger : 1 * old ≤ factor * old = mul-le-mul_right old (omega (arith, pos)) in
    ground (arith, smaller, larger)

divide_lem : (a b : ℕ) → 0 < b → divide a b ≡ ok (a / b)
divide_lem a b h = ground arith

cut_multiple : (y k : ℕ) → 0 < k → (y - y % k) % k ≡ 0
cut_multiple y k pos =
    let whole : y - y % k ≡ k * (y / k) = omega (arith, div-add-mod y k) in
    ap (λ x. x % k) whole ∙ mul-mod_right k (y / k)

module _ (c : Constants) where
  -- Where the adjustment returns a difficulty, it is the truncation of a value between the old difficulty
  -- divided by the factor and the larger of 1 and the factor times the old one; the result is not above
  -- that either, and has no more significant bits than allowed.
  pub clamp_difficulty_range :
      (old precise : ℕ) {d : ℕ}
      → clamp_difficulty c old precise ≡ ok d
      → let f = c.difficulty_change_max_factor in
        (d ≡ truncate_to_significant_bits (bounded f 1 old precise) c.significant_bits)
        × (old / f ≤ bounded f 1 old precise)
        × (d ≤ max 1 (f * old))
        × (count_significant_bits d ≤ c.significant_bits)
  unfolding clamp_difficulty
  clamp_difficulty_range old precise {d} h =
      let f = c.difficulty_change_max_factor in
      let (high, a, h1) = >>=-eq-ok (uint 64 (f * old)) _ h in
      let (q, b, h2) = >>=-eq-ok (divide old f) _ h1 in
      let (low, e, h3) = >>=-eq-ok (uint 64 q) _ h2 in
      let (t, g, h4) =
        >>=-eq-ok (uint 64 (if leb old precise then min precise high else max 1 (max precise low)))
          _ h3 in
      let (_, k, h5) =
        >>=-eq-ok
          (require
            (leb (count_significant_bits (truncate_to_significant_bits t c.significant_bits))
              c.significant_bits)
            assertion_error)
          _ h4 in
      let high_eq : high ≡ f * old = (uint-eq-ok 64 (f * old) a).0 in
      let (q_eq, pos) = divide-eq-ok old f b in
      let low_eq : low ≡ old / f = (uint-eq-ok 64 q e).0 ∙ q_eq in
      let t_eq : t ≡ bounded f 1 old precise =
        (uint-eq-ok 64 _ g).0
        ∙ ap (λ x. if leb old precise then min precise x else max 1 (max precise low)) high_eq
        ∙ ap (λ x. if leb old precise then min precise (f * old) else max 1 (max precise x))
            low_eq in
      let d_eq : d ≡ truncate_to_significant_bits t c.significant_bits = (uint-eq-ok 64 _ h5).0 in
      let (above, below) = bounded_range f 1 old precise pos in
      (
        d_eq ∙ ap (λ x. truncate_to_significant_bits x c.significant_bits) t_eq,
        above,
        omega (arith, d_eq, t_eq, below, truncate_le t c.significant_bits),
        omega (
          arith,
          ap count_significant_bits d_eq,
          count_significant_bits-truncate t c.significant_bits,
        ),
      )

  -- The adjustment of the difficulty returns, so that its assertion on the significant bits never fails,
  -- for a positive factor, where the factor times the old value and the new value fit into 64 bits.
  pub clamp_difficulty_total :
      (old precise : ℕ)
      → let f = c.difficulty_change_max_factor in
        0 < f
        → f * old < 2 ^ 64
        → precise < 2 ^ 64
        → (d : ℕ) × (clamp_difficulty c old precise ≡ ok d)
  unfolding clamp_difficulty
  clamp_difficulty_total old precise pos h g =
      let f = c.difficulty_change_max_factor in
      let (_, below) = bounded_range f 1 old precise pos in
      let t = bounded f 1 old precise in
      let larger : 1 * old ≤ f * old = mul-le-mul_right old (omega (arith, pos)) in
      let low : old / f < 2 ^ 64 = omega (arith, h, larger, div-le_self old f) in
      let inside : t < 2 ^ 64 = omega (arith, below, h) in
      let y = truncate_to_significant_bits t c.significant_bits in
      let short = le→leb _ _ (count_significant_bits-truncate t c.significant_bits) in
      (
        y,
        rw (uint_lem 64 (f * old) h) (
            rw (divide_lem old f pos) (
              rw (uint_lem 64 (old / f) low) (
                rw (uint_lem 64 t inside) (
                  rw (short, require)
                    (uint_lem 64 y (omega (arith, inside, truncate_le t c.significant_bits))))))),
      )

  -- Where the adjustment returns a number of sub-slot iterations, it is a multiple of the number of signage
  -- points, less than one such number below the truncated value, not above the larger of the hard minimum and the
  -- factor times the old number, and has no more significant bits than allowed.
  pub clamp_ssi_range :
      (old precise : ℕ) {n : ℕ}
      → clamp_ssi c old precise ≡ ok n
      → let f = c.difficulty_change_max_factor in
        let t =
          truncate_to_significant_bits
            (bounded f c.sub_slot_iters_hard_min old precise)
            c.significant_bits in
        (n % c.num_sps_sub_slot ≡ 0)
        × (n ≤ t)
        × (t < n + c.num_sps_sub_slot)
        × (n ≤ max c.sub_slot_iters_hard_min (f * old))
        × (count_significant_bits n ≤ c.significant_bits)
  unfolding clamp_ssi
  clamp_ssi_range old precise {n} h =
      let f = c.difficulty_change_max_factor in
      let least = c.sub_slot_iters_hard_min in
      let (high, a, h1) = >>=-eq-ok (uint 64 (f * old)) _ h in
      let (q, b, h2) = >>=-eq-ok (divide old f) _ h1 in
      let (low, e, h3) = >>=-eq-ok (uint 64 q) _ h2 in
      let (t, g, h4) =
        >>=-eq-ok
          (uint 64 (if leb old precise then min precise high else max least (max precise low))) _
          h3 in
      let y = truncate_to_significant_bits t c.significant_bits in
      let (rest, m, h5) = >>=-eq-ok (modulo y c.num_sps_sub_slot) _ h4 in
      let (cut, u, h6) = >>=-eq-ok (uint 64 (y - rest)) _ h5 in
      let (_, k, h7) =
        >>=-eq-ok (require (leb (count_significant_bits cut) c.significant_bits) assertion_error) _
          h6 in
      let high_eq : high ≡ f * old = (uint-eq-ok 64 (f * old) a).0 in
      let (q_eq, pos) = divide-eq-ok old f b in
      let low_eq : low ≡ old / f = (uint-eq-ok 64 q e).0 ∙ q_eq in
      let t_eq : t ≡ bounded f least old precise =
        (uint-eq-ok 64 _ g).0
        ∙ ap (λ x. if leb old precise then min precise x else max least (max precise low)) high_eq
        ∙ ap (λ x. if leb old precise then min precise (f * old) else max least (max precise x))
            low_eq in
      let y_eq = ap (λ x. truncate_to_significant_bits x c.significant_bits) t_eq in
      let (rest_eq, sps) = modulo-eq-ok y c.num_sps_sub_slot m in
      let n_eq : n ≡ y - y % c.num_sps_sub_slot =
        sym (ok-injective h7) ∙ (uint-eq-ok 64 (y - rest) u).0 ∙ ap (λ x. y - x) rest_eq in
      let (_, below) = bounded_range f least old precise pos in
      let inside = mod-lt y sps in
      (
        ap (λ x. x % c.num_sps_sub_slot) n_eq ∙ cut_multiple y c.num_sps_sub_slot sps,
        omega (arith, n_eq, y_eq),
        omega (arith, n_eq, y_eq, inside),
        omega (arith, n_eq, t_eq, below, truncate_le t c.significant_bits),
        omega
            (arith, ap count_significant_bits (ok-injective h7), leb→le _ _ (require-eq-ok _ _ k)),
      )
