-- ===== src/Consensus/SignificantBits/Truncate.antt =====
-- Truncation clears the low bits, and leaves no more significant bits than asked for.
use Prim.Native.Nat.{bit_and, digits, bit_and-bitwise}
use native.Mathlib.Nat.{mul_assoc, div-div-eq-div-mul, div-mul-le_self, pow-suc, pow-succ'}
use mathlib.Core.Path.{subst}
use corpochain_beacon_client.Base.{
  ℕ, zero, suc, ◌+◌, ◌-◌, ◌*◌, ◌/◌, ◌%◌, ◌^◌, ◌≤◌, ◌<◌, min, ◌≡◌, false, refl, sym, ap, ◌∙◌, ltb,
  ◌==◌, Bool-cases, inl, inr, arith, ltb→lt, lt→ltb, ltb_false→le,
}
use corpochain_beacon_client.Consensus.SignificantBits.{
  bit_length_fuel, bit_length, truncate_to_significant_bits, count_from, count_significant_bits,
}

-- The conjunction, as it recurses, with `k` digits to go.
abbrev conjunction : ℕ → ℕ → ℕ → ℕ
conjunction k x y = digits (λ y. zero) min k x y

conjunction_enough : (j k x y : ℕ) → x ≤ j → x ≤ k → conjunction j x y ≡ conjunction k x y
conjunction_enough zero zero x y p q = refl
conjunction_enough zero (suc k) x y p q = ground (arith, p)
conjunction_enough (suc j) zero x y p q = ground (arith, q)
conjunction_enough (suc j) (suc k) zero y p q = refl
conjunction_enough (suc j) (suc k) (suc x) y p q =
    let half = conjunction_enough j k (suc x / 2) (y / 2) (omega arith) (omega arith) in
    omega (arith, half)

bit_and_halves : (x y : ℕ) → bit_and x y ≡ bit_and (x / 2) (y / 2) * 2 + min (x % 2) (y % 2)
bit_and_halves zero y = omega (arith, bit_and-bitwise 0 y, bit_and-bitwise 0 (y / 2))
bit_and_halves (suc x) y =
    let half = conjunction_enough x (suc x / 2) (suc x / 2) (y / 2) (omega arith) (omega arith) in
    omega (arith, half, bit_and-bitwise (suc x) y, bit_and-bitwise (suc x / 2) (y / 2))

power_pos : (k : ℕ) → 0 < 2 ^ k
power_pos zero = omega arith
power_pos (suc k) = omega (arith, power_pos k, pow-suc 2 k)

double_power : (a lower : ℕ) → a * 2 ^ suc lower ≡ a * 2 ^ lower * 2
double_power a lower = ap (λ t. a * t) (pow-suc 2 lower) ∙ sym (mul_assoc a (2 ^ lower) 2)

pow_add : (lower k : ℕ) → 2 ^ (lower + k) ≡ 2 ^ k * 2 ^ lower
pow_add zero k = let z : 0 + k ≡ k = omega arith in omega (arith, ap (λ t. 2 ^ t) z)
pow_add (suc lower) k =
    let moved : suc lower + k ≡ suc (lower + k) = omega arith in
    ap (λ t. 2 ^ t) moved ∙ grind (arith, pow-suc 2 (lower + k), pow-suc 2 lower, pow_add lower k)

bit_and_ones : (k x : ℕ) → x < 2 ^ k → bit_and x (2 ^ k - 1) ≡ x
bit_and_ones zero x h = let e : x ≡ 0 = omega (arith, h) in ap (λ t. bit_and t 0) e ∙ sym e
bit_and_ones (suc k) x h =
    let ih = bit_and_ones k (x / 2) (omega (arith, h, pow-suc 2 k)) in
    let half : (2 ^ suc k - 1) / 2 ≡ 2 ^ k - 1 = omega (arith, pow-suc 2 k, power_pos k) in
    let odd : (2 ^ suc k - 1) % 2 ≡ 1 = omega (arith, pow-suc 2 k, power_pos k) in
    omega (arith, bit_and_halves x (2 ^ suc k - 1), ap (λ t. bit_and (x / 2) t) half, odd, ih)

bit_and_mask :
    (lower k x : ℕ)
    → x < 2 ^ (lower + k)
    → bit_and x ((2 ^ k - 1) * 2 ^ lower) ≡ x / 2 ^ lower * 2 ^ lower
bit_and_mask zero k x h =
    let z : 0 + k ≡ k = omega arith in
    let e : (2 ^ k - 1) * 1 ≡ 2 ^ k - 1 = omega arith in
    omega (arith, ap (λ t. bit_and x t) e, bit_and_ones k x (subst (λ t. x < 2 ^ t) z h))
bit_and_mask (suc lower) k x h =
    let m = (2 ^ k - 1) * 2 ^ lower in
    let moved : suc lower + k ≡ suc (lower + k) = omega arith in
    let below = subst (λ t. x < 2 ^ t) moved h in
    let ih = bit_and_mask lower k (x / 2) (omega (arith, below, pow-suc 2 (lower + k))) in
    let even : (2 ^ k - 1) * 2 ^ suc lower ≡ m * 2 = double_power (2 ^ k - 1) lower in
    let half : m * 2 / 2 ≡ m = omega arith in
    let quotient : x / 2 ^ suc lower ≡ x / 2 / 2 ^ lower =
      ap (λ t. x / t) (pow-succ' 2 lower) ∙ sym (div-div-eq-div-mul x 2 (2 ^ lower)) in
    let double : x / 2 / 2 ^ lower * 2 ^ suc lower ≡ x / 2 / 2 ^ lower * 2 ^ lower * 2 =
      double_power (x / 2 / 2 ^ lower) lower in
    omega (
      arith,
      ap (λ t. bit_and x t) even,
      bit_and_halves x (m * 2),
      ap (λ t. bit_and (x / 2) t) half,
      ih,
      ap (λ t. t * 2 ^ suc lower) quotient,
      double,
    )

bit_length_fuel_le : (fuel len n : ℕ) → n < 2 ^ len → bit_length_fuel fuel n ≤ len
unfolding bit_length_fuel
bit_length_fuel_le zero len n h = omega arith
bit_length_fuel_le (suc fuel) zero n h = ground (arith, h)
bit_length_fuel_le (suc fuel) (suc len) n h =
    ground (arith, bit_length_fuel_le fuel len (n / 2) (omega (arith, h, pow-suc 2 len)))

bit_length_fuel_above : (fuel n : ℕ) → n ≤ fuel → n < 2 ^ bit_length_fuel fuel n
unfolding bit_length_fuel
bit_length_fuel_above zero n h = omega (arith, h)
bit_length_fuel_above (suc fuel) n h = elim (Bool-cases (n == 0)) [
  | inl z ↦ rw z (ground (arith, z))
  | inr nz ↦
      let ih = bit_length_fuel_above fuel (n / 2) (ground (arith, nz, h)) in
      rw nz (omega (arith, ih, pow-suc 2 (bit_length_fuel fuel (n / 2))))
]

bit_length_above : (n : ℕ) → n < 2 ^ bit_length n
unfolding bit_length
bit_length_above n = bit_length_fuel_above n n (omega arith)

bit_length_le : (len n : ℕ) → n < 2 ^ len → bit_length n ≤ len
unfolding bit_length
bit_length_le len n h = bit_length_fuel_le n len n h

ltb_above : (a b : ℕ) → b ≤ a → ltb a b ≡ false
ltb_above a b h = ground arith

-- The mask of the source, where 2 to the length is `a * b`.
mask_eq : (a b : ℕ) → 0 < a → 0 < b → a * b - 1 - (b - 1) ≡ (a - 1) * b
mask_eq zero b h g = absurd (omega (arith, h))
mask_eq (suc a) b h g =
    let e : suc a * b ≡ a * b + b = grind arith in
    let f : suc a - 1 ≡ a = omega arith in omega (arith, e, g, ap (λ t. t * b) f)

-- Of a number that has at least k bits, truncation keeps the top k and makes the others 0.
pub truncate_lem :
    (x k : ℕ)
    → k ≤ bit_length x
    → truncate_to_significant_bits x k ≡ x / 2 ^ (bit_length x - k) * 2 ^ (bit_length x - k)
unfolding truncate_to_significant_bits
truncate_lem x k h =
    let lower = bit_length x - k in
    let whole : bit_length x ≡ lower + k = omega (arith, h) in
    let inside = subst (λ t. x < 2 ^ t) whole (bit_length_above x) in
    let power : 2 ^ bit_length x ≡ 2 ^ k * 2 ^ lower = ap (λ t. 2 ^ t) whole ∙ pow_add lower k in
    let mask =
      ap (λ t. t - 1 - (2 ^ lower - 1)) power
      ∙ mask_eq (2 ^ k) (2 ^ lower) (power_pos k) (power_pos lower) in
    rw (ltb_above _ _ h) (ap (λ t. bit_and x t) mask ∙ bit_and_mask lower k x inside)

pub truncate_short : (x k : ℕ) → bit_length x < k → truncate_to_significant_bits x k ≡ x
unfolding truncate_to_significant_bits
truncate_short x k h = rw (lt→ltb _ _ h) refl

pub truncate_le : (x k : ℕ) → truncate_to_significant_bits x k ≤ x
truncate_le x k = elim (Bool-cases (ltb (bit_length x) k)) [
  | inl short ↦ omega (arith, truncate_short x k (ltb→lt _ _ short))
  | inr long ↦
      let lower = bit_length x - k in
      omega (arith, truncate_lem x k (ltb_false→le _ _ long), div-mul-le_self x (2 ^ lower))
]

count_from_le : (k i len x : ℕ) → count_from k i len x ≤ len - i
unfolding count_from
count_from_le zero i len x = omega arith
count_from_le (suc k) i len x = ground (arith, count_from_le k (suc i) len x)

-- With no bit below `lower`, the count starts there.
count_from_lower :
    (k i len x lower : ℕ)
    → ((j : ℕ) → j < lower → x / 2 ^ j % 2 ≡ 0)
    → count_from k i len x ≤ len - lower
unfolding count_from
count_from_lower zero i len x lower h = omega arith
count_from_lower (suc k) i len x lower h = elim (Bool-cases (x / 2 ^ i % 2 == 1)) [
  | inl one ↦ rw one (elim (Bool-cases (ltb i lower)) [
    | inl low ↦ absurd (ground (arith, h i (ltb→lt _ _ low), one))
    | inr high ↦ omega (arith, ltb_false→le _ _ high)
  ])
  | inr other ↦ rw other (count_from_lower k (suc i) len x lower h)
]

-- Below the length that was cut off, the bits of a multiple of that power of 2 are 0.
low_bits : (q lower j : ℕ) → j < lower → q * 2 ^ lower / 2 ^ j % 2 ≡ 0
low_bits q zero j h = elim h [ ]
low_bits q (suc lower) zero h =
    let e : q * 2 ^ suc lower ≡ q * 2 ^ lower * 2 = double_power q lower in omega (arith, e)
low_bits q (suc lower) (suc j) h =
    let e : q * 2 ^ suc lower ≡ q * 2 ^ lower * 2 = double_power q lower in
    let half : q * 2 ^ suc lower / 2 ≡ q * 2 ^ lower = omega (arith, e) in
    let split : q * 2 ^ suc lower / 2 ^ suc j ≡ q * 2 ^ suc lower / 2 / 2 ^ j =
      ap (λ t. q * 2 ^ suc lower / t) (pow-succ' 2 j)
      ∙ sym (div-div-eq-div-mul (q * 2 ^ suc lower) 2 (2 ^ j)) in
    ap (λ t. t % 2) split ∙ ap (λ t. t / 2 ^ j % 2) half ∙ low_bits q lower j (omega (arith, h))

-- After truncation to k bits at most k significant bits are counted.
pub count_significant_bits-truncate :
    (x k : ℕ) → count_significant_bits (truncate_to_significant_bits x k) ≤ k
unfolding count_significant_bits
count_significant_bits-truncate x k = elim (Bool-cases (ltb (bit_length x) k)) [
  | inl short ↦
      let h : bit_length x < k = ltb→lt _ _ short in
      subst (λ t. count_from (bit_length t) 0 (bit_length t) t ≤ k) (sym (truncate_short x k h))
        (omega (arith, count_from_le (bit_length x) 0 (bit_length x) x, h))
  | inr long ↦
      let h : k ≤ bit_length x = ltb_false→le _ _ long in
      let lower = bit_length x - k in
      let y = x / 2 ^ lower * 2 ^ lower in
      let shorter : bit_length y ≤ bit_length x =
        bit_length_le (bit_length x) y
          (omega (arith, div-mul-le_self x (2 ^ lower), bit_length_above x)) in
      subst (λ t. count_from (bit_length t) 0 (bit_length t) t ≤ k) (sym (truncate_lem x k h))
        (omega (
          arith,
          shorter,
          h,
          count_from_lower (bit_length y) 0 (bit_length y) y lower (low_bits (x / 2 ^ lower) lower),
        ))
]
