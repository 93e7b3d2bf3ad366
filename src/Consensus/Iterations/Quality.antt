-- ===== src/Consensus/Iterations/Quality.antt =====
-- The iterations that a proof of space requires.
use native.Mathlib.Nat.{div-lt_iff_lt-mul, mul-le-mul_right}
use corpochain_beacon_client.Base.{
  ℕ, ◌+◌, ◌*◌, ◌/◌, ◌^◌, ◌≤◌, ◌<◌, ◌≡◌, max, List, ◌++◌, ok, arith, refl, sym, ap, ◌∙◌, >>=-eq-ok,
  ok-injective,
}
use corpochain_beacon_client.Ints.{of_digits, uint}
use corpochain_beacon_client.Ints.Range.{uint-eq-ok}
use corpochain_beacon_client.Consensus.Iterations.Division.{divide-eq-ok}
use corpochain_beacon_client.Consensus.Iterations.{
  expected_plot_size, calculate_iterations_quality, divide,
}

div_mono : (a b k : ℕ) → 0 < k → a ≤ b → a / k ≤ b / k
div_mono a b k pos le =
    let next : b / k < b / k + 1 = omega arith in
    let above = (div-lt_iff_lt-mul pos).0 next in
    let inside : a < (b / k + 1) * k = omega (arith, le, above) in
    let below = (div-lt_iff_lt-mul pos).1 inside in omega (arith, below)

module _ (std_hash : List ℕ → List ℕ) where
  calculate_iterations_quality-eq-ok :
      (factor : ℕ) (quality : List ℕ) (size d : ℕ) (sp : List ℕ) {n : ℕ}
      → calculate_iterations_quality std_hash factor quality size d sp ≡ ok n
      → (plot : ℕ) × (expected_plot_size size ≡ ok plot)
        × (0 < 2 ^ 256 * plot)
        × (n ≡ max (d * factor * of_digits 0 (std_hash (quality ++ sp)) / (2 ^ 256 * plot)) 1)
        × (n < 2 ^ 64)
  unfolding calculate_iterations_quality
  calculate_iterations_quality-eq-ok factor quality size d sp h =
      let (plot, p, h1) = >>=-eq-ok (expected_plot_size size) _ h in
      let (quotient, q, h2) =
        >>=-eq-ok (divide (d * factor * of_digits 0 (std_hash (quality ++ sp))) (2 ^ 256 * plot)) _
          h1 in
      let (iters, u, h3) = >>=-eq-ok (uint 64 quotient) _ h2 in
      let (q1, pos) = divide-eq-ok _ _ q in
      let (u1, b) = uint-eq-ok 64 quotient u in
      (
        plot,
        p,
        pos,
        sym (ok-injective h3) ∙ rw (u1, q1) refl,
        omega (arith, b, u1, ok-injective h3),
      )

  -- Where both are computed, the iterations that a proof requires are at least 1, and a higher difficulty
  -- never requires fewer.
  pub calculate_iterations_quality_mono :
      (factor : ℕ) (quality : List ℕ) (size d e : ℕ) (sp : List ℕ) {n m : ℕ}
      → d ≤ e
      → calculate_iterations_quality std_hash factor quality size d sp ≡ ok n
      → calculate_iterations_quality std_hash factor quality size e sp ≡ ok m
      → (1 ≤ n) × (n ≤ m)
  calculate_iterations_quality_mono factor quality size d e sp {n} {m} le h g =
      let (plot, p, pos, a, _) = calculate_iterations_quality-eq-ok factor quality size d sp h in
      let (plot2, p2, _, b, _) = calculate_iterations_quality-eq-ok factor quality size e sp g in
      let same : plot2 ≡ plot = ok-injective (sym p2 ∙ p) in
      let x = of_digits 0 (std_hash (quality ++ sp)) in
      let scaled : d * factor * x ≤ e * factor * x =
        mul-le-mul_right x (mul-le-mul_right factor le) in
      let quotients = div_mono (d * factor * x) (e * factor * x) (2 ^ 256 * plot) pos scaled in
      let top = λ (t : ℕ). max (t / (2 ^ 256 * plot)) 1 in
      let b' : m ≡ top (e * factor * x) =
        b ∙ ap (λ t. max (e * factor * x / (2 ^ 256 * t)) 1) same in
      (omega (arith, a), omega (arith, a, b', quotients))
