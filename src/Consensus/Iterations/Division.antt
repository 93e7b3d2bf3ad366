-- ===== src/Consensus/Iterations/Division.antt =====
-- Division and remainder that return.
use corpochain_beacon_client.Base.{ℕ, ◌/◌, ◌%◌, ◌<◌, ◌≡◌, ok, arith}
use corpochain_beacon_client.Consensus.Iterations.{divide, modulo}

pub divide-eq-ok : (a b : ℕ) {q : ℕ} → divide a b ≡ ok q → (q ≡ a / b) × (0 < b)
divide-eq-ok a b h = ground arith

pub modulo-eq-ok : (a b : ℕ) {r : ℕ} → modulo a b ≡ ok r → (r ≡ a % b) × (0 < b)
modulo-eq-ok a b h = ground arith
