-- ===== src/Ints/Range.antt =====
-- The unsigned constructors against the general one, and their behaviour in and out of range.
use corpochain_beacon_client.Base.{ℕ, ◌-◌, ◌^◌, ◌≤◌, ◌<◌, ◌≡◌, ok, arith}
use corpochain_beacon_client.Base.Int.{ℤ, pos}
use corpochain_beacon_client.Ints.{uint, uint_of_ℤ, uint_sub}

pub uint-eq-ok : (w n : ℕ) {m : ℕ} → uint w n ≡ ok m → (m ≡ n) × (n < 2 ^ w)
unfolding uint
uint-eq-ok w n h = ground arith

pub uint_lem : (w n : ℕ) → n < 2 ^ w → uint w n ≡ ok n
unfolding uint
uint_lem w n h = ground arith

pub uint_of_ℤ-eq-ok : (w : ℕ) (v : ℤ) {m : ℕ} → uint_of_ℤ w v ≡ ok m → (v ≡ pos m) × (m < 2 ^ w)
unfolding uint_of_ℤ
uint_of_ℤ-eq-ok w v h = ground arith

pub uint_sub-eq-ok :
    (w a b : ℕ) {m : ℕ} → uint_sub w a b ≡ ok m → (b ≤ a) × (m ≡ a - b) × (m < 2 ^ w)
unfolding uint_sub
uint_sub-eq-ok w a b h = ground arith

pub uint_sub_lem : (w a b : ℕ) → b ≤ a → a - b < 2 ^ w → uint_sub w a b ≡ ok (a - b)
unfolding uint_sub
uint_sub_lem w a b h k = ground arith
