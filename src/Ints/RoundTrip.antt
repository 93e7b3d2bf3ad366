-- ===== src/Ints/RoundTrip.antt =====
-- Streaming a sized integer and parsing it back: the bytes and the values of a class are in one to
-- one correspondence.
use mathlib.Core.Path.{subst}
use mathlib.Core.List.{append-nil}
use native.Mathlib.Nat.{pow-suc}
use native.Mathlib.Numerals.{towards_suc}
use corpochain_beacon_client.Base.{
  ℕ, zero, suc, ◌+◌, ◌-◌, ◌*◌, ◌/◌, ◌%◌, ◌^◌, ◌≤◌, ◌<◌, ◌≡◌, refl, ◌∙◌, ap, List, [], ◌∷◌, ◌++◌,
  length, arith, All, ok, true, false, Bool, ==_refl, if◌then◌else◌,
}
use corpochain_beacon_client.Base.Int.{ℤ}
use corpochain_beacon_client.Ints.{
  to_digits, of_digits, Metadata, init, to_bytes, from_bytes, encode, decode, signed_metadata,
  unsigned_metadata,
}

pub length-to_digits : (k n : ℕ) (acc : List ℕ) → length (to_digits k n acc) ≡ k + length acc
unfolding to_digits
length-to_digits zero n acc = omega arith
length-to_digits (suc k) n acc = omega (arith, length-to_digits k (n / 256) (n % 256 ∷ acc))

of_digits-to_digits :
    (k n : ℕ) (acc : List ℕ) → n < 256 ^ k → of_digits 0 (to_digits k n acc) ≡ of_digits n acc
unfolding to_digits of_digits
of_digits-to_digits zero n acc h = rw (let e : n ≡ 0 = ground arith in e)
of_digits-to_digits (suc k) n acc h =
    of_digits-to_digits k (n / 256) (n % 256 ∷ acc) (let p = pow-suc 256 k in omega arith)
    ∙ ap (λ t. of_digits t acc) (omega arith)

to_digits-of_digits :
    (j a : ℕ) (bs acc : List ℕ)
    → All (λ b. b < 256) bs
    → to_digits (length bs + j) (of_digits a bs) acc ≡ to_digits j a (bs ++ acc)
unfolding to_digits of_digits
to_digits-of_digits j a [] acc h = let e : 0 + j ≡ j = omega arith in rw e
to_digits-of_digits j a (b ∷ bs) acc h =
    let e : suc (length bs) + j ≡ length bs + suc j = omega arith in
    let p : (a * 256 + b) / 256 ≡ a = omega (arith, h.0) in
    let q : (a * 256 + b) % 256 ≡ b = omega (arith, h.0) in
    rw e (to_digits-of_digits (suc j) (a * 256 + b) bs acc h.1 ∙ rw (p, q))

digit_bound : (a b m x : ℕ) → b < 256 → x < (a * 256 + b + 1) * m → x < (a + 1) * (m * 256)
digit_bound a b m x h k =
    let e : (a * 256 + b + 1) * m ≤ (a * 256 + 256) * m = grind arith in omega (arith, e)

of_digits-lt :
    (a : ℕ) (bs : List ℕ) → All (λ b. b < 256) bs → of_digits a bs < (a + 1) * 256 ^ length bs
unfolding of_digits
of_digits-lt a [] h = omega arith
of_digits-lt a (b ∷ bs) h =
    rw (pow-suc 256 (length bs))
      (digit_bound a b (256 ^ length bs) _ h.0 (of_digits-lt (a * 256 + b) bs h.1))

two_pow : (k : ℕ) → 2 ^ (8 * k) ≡ 256 ^ k
two_pow zero = refl
two_pow (suc k) =
    let e : 8 * suc k ≡ 8 * k + 8 = omega arith in
    rw e (simp towards_suc (omega (arith, two_pow k, pow-suc 256 k)))

-- The classes of `ints.py`: a whole number of bytes, at least one.
abbrev pub metadata : Bool → ℕ → Metadata
metadata s k = if s then signed_metadata (8 * suc k) else unsigned_metadata (8 * suc k)

two_pow_half : (k : ℕ) → 2 ^ (8 * suc k) ≡ 2 * 2 ^ (8 * suc k - 1)
two_pow_half k =
    let e : 8 * suc k ≡ suc (8 * suc k - 1) = omega arith in
    let p : 2 ^ suc (8 * suc k - 1) ≡ 2 ^ (8 * suc k - 1) * 2 = pow-suc 2 (8 * suc k - 1) in
    let q : 2 ^ (8 * suc k) ≡ 2 ^ suc (8 * suc k - 1) = ap (λ t. 2 ^ t) e in omega (arith, p, q)

decode-encode_signed :
    (k : ℕ) (v : ℤ)
    → init (signed_metadata (8 * suc k)) v ≡ ok v
    → (decode (signed_metadata (8 * suc k)) (encode (signed_metadata (8 * suc k)) v) ≡ v)
      × (encode (signed_metadata (8 * suc k)) v < 2 ^ (8 * suc k))
unfolding init decode encode
decode-encode_signed k v h = let p = two_pow_half k in ground (arith, p)

decode-encode_unsigned :
    (k : ℕ) (v : ℤ)
    → init (unsigned_metadata (8 * suc k)) v ≡ ok v
    → (decode (unsigned_metadata (8 * suc k)) (encode (unsigned_metadata (8 * suc k)) v) ≡ v)
      × (encode (unsigned_metadata (8 * suc k)) v < 2 ^ (8 * suc k))
unfolding init decode encode
decode-encode_unsigned k v h = ground arith

decode-encode :
    (s : Bool) (k : ℕ) (v : ℤ)
    → init (metadata s k) v ≡ ok v
    → (decode (metadata s k) (encode (metadata s k) v) ≡ v)
      × (encode (metadata s k) v < 256 ^ suc k)
decode-encode true k v h = rw (← two_pow (suc k)) (decode-encode_signed k v h)
decode-encode false k v h = rw (← two_pow (suc k)) (decode-encode_unsigned k v h)

metadata-size : (s : Bool) (k : ℕ) → (metadata s k).size ≡ suc k
metadata-size true k = omega arith
metadata-size false k = omega arith

-- Every value of a sized-integer class is read back from the bytes that it is streamed to.
pub from_bytes-to_bytes :
    (s : Bool) (k : ℕ) (v : ℤ)
    → init (metadata s k) v ≡ ok v
    → from_bytes (metadata s k) (to_bytes (metadata s k) v) ≡ ok v
unfolding from_bytes to_bytes
from_bytes-to_bytes s k v h =
    let d = decode-encode s k v h in
    let b = of_digits-to_digits (suc k) (encode (metadata s k) v) [] d.1 in
    let n : length (to_digits (suc k) (encode (metadata s k) v) []) ≡ suc k =
      omega (arith, length-to_digits (suc k) (encode (metadata s k) v) []) in
    rw (metadata-size s k) (rw (n, ==_refl (suc k), b) (ground (arith, h)))

encode-decode_signed :
    (k n : ℕ)
    → n < 2 ^ (8 * suc k)
    → let c = signed_metadata (8 * suc k) in
      (encode c (decode c n) ≡ n) × (init c (decode c n) ≡ ok (decode c n))
unfolding init decode encode
encode-decode_signed k n h = let p = two_pow_half k in ground (arith, p)

encode-decode_unsigned :
    (k n : ℕ)
    → n < 2 ^ (8 * suc k)
    → let c = unsigned_metadata (8 * suc k) in
      (encode c (decode c n) ≡ n) × (init c (decode c n) ≡ ok (decode c n))
unfolding init decode encode
encode-decode_unsigned k n h = ground arith

encode-decode :
    (s : Bool) (k n : ℕ)
    → n < 256 ^ suc k
    → let c = metadata s k in (encode c (decode c n) ≡ n) × (init c (decode c n) ≡ ok (decode c n))
encode-decode true k n h = encode-decode_signed k n (rw (two_pow (suc k)) h)
encode-decode false k n h = encode-decode_unsigned k n (rw (two_pow (suc k)) h)

-- Every byte string of the class's size is parsed, and the value streams back to the same bytes.
pub to_bytes-from_bytes :
    (s : Bool) (k : ℕ) (blob : List ℕ)
    → All (λ b. b < 256) blob
    → length blob ≡ suc k
    → (v : ℤ) × (from_bytes (metadata s k) blob ≡ ok v) × (to_bytes (metadata s k) v ≡ blob)
unfolding from_bytes to_bytes
to_bytes-from_bytes s k blob bytes n =
    let c = metadata s k in
    let x = of_digits 0 blob in
    let b : x < 256 ^ suc k =
      subst (λ t. x < 256 ^ t) n (omega (arith, of_digits-lt 0 blob bytes)) in
    let e = encode-decode s k x b in
    let z : length blob ≡ length blob + 0 = omega arith in
    let d : to_digits (length blob) x [] ≡ blob =
      ap (λ t. to_digits t x []) z ∙ to_digits-of_digits 0 0 blob [] bytes ∙ append-nil blob in
    let d' : to_digits (suc k) x [] ≡ blob = subst (λ t. to_digits t x [] ≡ blob) n d in
    (
      decode c x,
      rw (metadata-size s k) (rw (n, ==_refl (suc k)) (ground (arith, e.1))),
      rw (metadata-size s k) (rw (e.0) d'),
    )
