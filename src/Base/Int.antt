-- ===== src/Base/Int.antt =====
-- Python's integers, where the code subtracts and divides without a range check: `negsuc n` is
-- -(n + 1), and division rounds down.
use Prim.Native.Nat.{ℕ, zero, suc, ◌+◌, ◌-◌, ◌*◌, ◌/◌, ◌≤◌}
use corpochain_beacon_client.Base.Tests.{leb, if◌then◌else◌}
use corpochain_beacon_client.Base.Errors.{Result, ok, err, zero_division_error}

pub data ℤ : Type 0 where
  pos : ℕ → ℤ
  negsuc : ℕ → ℤ

abbrev pub pos_part : ℤ → ℕ
pos_part (pos n) = n
pos_part (negsuc _) = 0

abbrev pub neg_part : ℤ → ℕ
neg_part (pos _) = 0
neg_part (negsuc n) = suc n

-- a - b, as an integer
abbrev pub sub_ℕ : ℕ → ℕ → ℤ
sub_ℕ a b = if leb b a then pos (a - b) else negsuc (b - a - 1)

abbrev pub neg : ℤ → ℤ
neg (pos zero) = pos 0
neg (pos (suc n)) = negsuc n
neg (negsuc n) = pos (suc n)

abbrev pub scale : ℕ → ℤ → ℤ
scale k (pos n) = pos (k * n)
scale k (negsuc n) = sub_ℕ 0 (k * suc n)

infix 50 ◌≤ℤ◌
abbrev pub ◌≤ℤ◌ : ℤ → ℤ → Type 0
a ≤ℤ b = pos_part a + neg_part b ≤ pos_part b + neg_part a

-- `a // d` for a positive `d`
abbrev pub floor_pos : ℤ → ℕ → ℤ
floor_pos (pos n) d = pos (n / d)
floor_pos (negsuc n) d = negsuc (n / d)

-- `a // b`
abbrev pub floor_div : ℤ → ℤ → Result ℤ
floor_div a (pos zero) = err zero_division_error
floor_div a (pos (suc d)) = ok (floor_pos a (suc d))
floor_div a (negsuc d) = ok (floor_pos (neg a) (suc d))
