-- ===== src/Consensus/Iterations/Points.antt =====
-- Where the infusion point of a block lies.
use native.Mathlib.Nat.{div-add-mod, mod-lt, mod-eq_of_lt, mod-eq-sub-mod, mul-le-mul_right}
use corpochain_beacon_client.Base.{
  ℕ, ◌+◌, ◌-◌, ◌*◌, ◌/◌, ◌%◌, ◌≤◌, ◌<◌, ◌≡◌, leb, suc, if◌then◌else◌, Bool-cases, leb→le,
  leb_false→lt, inl, inr, Bool, ok, arith,
}
use corpochain_beacon_client.Consensus.Constants.{Constants}
use corpochain_beacon_client.Consensus.Iterations.{
  is_overflow_block, calculate_sp_interval_iters, calculate_sp_iters, calculate_ip_iters,
}

module _ (c : Constants) where
  pub calculate_sp_interval_iters-eq-ok :
      (ssi : ℕ) {n : ℕ}
      → calculate_sp_interval_iters c ssi ≡ ok n
      → (n ≡ ssi / c.num_sps_sub_slot) × (ssi % c.num_sps_sub_slot ≡ 0) × (0 < c.num_sps_sub_slot)
  unfolding calculate_sp_interval_iters
  calculate_sp_interval_iters-eq-ok ssi h = ground arith

  pub calculate_sp_iters-eq-ok :
      (ssi i : ℕ) {n : ℕ}
      → calculate_sp_iters c ssi i ≡ ok n
      → (calculate_sp_interval_iters c ssi ≡ ok (ssi / c.num_sps_sub_slot))
        × (n ≡ ssi / c.num_sps_sub_slot * i)
        × (i < c.num_sps_sub_slot)
  unfolding calculate_sp_iters
  calculate_sp_iters-eq-ok ssi i h = ground arith

  -- The sum that is taken modulo the sub-slot, at the interval `n` of a sub-slot of `n * N`.
  pub calculate_ip_iters-eq-ok :
      (ssi i r : ℕ) {ip : ℕ}
      → calculate_ip_iters c ssi i r ≡ ok ip
      → let n = ssi / c.num_sps_sub_slot in
        (calculate_sp_iters c ssi i ≡ ok (n * i))
        × (0 < r)
        × (r < n)
        × (ip ≡ (n * i + c.num_sp_intervals_extra * n + r) % ssi)
  unfolding calculate_ip_iters
  calculate_ip_iters-eq-ok ssi i r h = ground arith

-- A sum that lies below twice the modulus wraps once or not at all.
wrap_late : (x m : ℕ) → m ≤ x → x < 2 * m → x % m + m ≡ x
wrap_late x m h g =
    let p = mod-eq-sub-mod h in
    let q : (x - m) % m ≡ x - m = mod-eq_of_lt (omega arith) in omega (arith, p, q)

wrap_early : (x m : ℕ) → x < m → x % m ≡ x
wrap_early x m h = mod-eq_of_lt h

-- Arithmetic of one sub-slot of `k` intervals of length `n`, with the point at `x = n * i + e * n`.
slot_bound : (n k i e : ℕ) → i < k → e ≤ k → n * i + e * n + n ≤ 2 * (k * n)
slot_bound n k i e h g = grind arith

early_bound : (n k i e : ℕ) → i < k - e → n * i + e * n + n ≤ k * n
early_bound n k i e h =
    let g : suc (i + e) ≤ k = omega arith in
    let p : suc (i + e) * n ≤ k * n = mul-le-mul_right n g in omega (arith, p)

late_bound : (n k i e : ℕ) → k - e ≤ i → k * n ≤ n * i + e * n
late_bound n k i e h =
    let g : k ≤ i + e = omega arith in
    let p : k * n ≤ (i + e) * n = mul-le-mul_right n g in omega (arith, p)

module _ (c : Constants) where
  -- Where calculate_ip_iters returns, for at most as many extra intervals as a sub-slot has:
  -- is_overflow_block returns too, and tells whether the infusion point wraps into the next
  -- sub-slot. The infusion point lies inside the sub-slot; its distance from the signage point is
  -- the extra intervals and the required iterations, less one sub-slot exactly if the block is an
  -- overflow block.
  pub calculate_ip_iters-overflow :
      (ssi i r : ℕ) {ip : ℕ}
      → c.num_sp_intervals_extra ≤ c.num_sps_sub_slot
      → calculate_ip_iters c ssi i r ≡ ok ip
      → (sp : ℕ) × (overflow : Bool) × (calculate_sp_iters c ssi i ≡ ok sp)
        × (is_overflow_block c i ≡ ok overflow)
        × (ip < ssi)
        × (ip + (if overflow then ssi else 0)
            ≡ sp + c.num_sp_intervals_extra * (ssi / c.num_sps_sub_slot) + r)
  unfolding is_overflow_block
  calculate_ip_iters-overflow ssi i r le h =
      let n = ssi / c.num_sps_sub_slot in
      let k = c.num_sps_sub_slot in
      let e = c.num_sp_intervals_extra in
      let p = calculate_ip_iters-eq-ok c ssi i r h in
      let q = calculate_sp_iters-eq-ok c ssi i p.0 in
      let d = calculate_sp_interval_iters-eq-ok c ssi q.0 in
      let s : k * n ≡ ssi = omega (arith, d.1, div-add-mod ssi k) in
      let x = n * i + e * n + r in
      let pos : 0 < ssi = omega (arith, s, p, slot_bound n k i e q.2 le) in
      (
        n * i,
        leb (k - e) i,
        p.0,
        ground (arith, q.2),
        rw p.3 (mod-lt x pos),
        elim (Bool-cases (leb (k - e) i)) [
          | inl late ↦
              let b = late_bound n k i e (leb→le _ _ late) in
              let t = slot_bound n k i e q.2 le in
              rw late
                (omega (arith, p, wrap_late x ssi (omega (arith, s, b)) (omega (arith, p, s, t))))
          | inr early ↦
              let b = early_bound n k i e (leb_false→lt _ _ early) in
              rw early (omega (arith, p, wrap_early x ssi (omega (arith, p, s, b))))
        ],
      )
