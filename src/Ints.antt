-- ===== src/Ints.antt =====
-- The sized integers of corpochain/util/struct_stream.py and corpochain/util/ints.py: the range
-- check of the constructor, and the big-endian bytes that `parse` and `stream` read and write.
-- A byte string is a list of numbers below 256. Python's `int.to_bytes` and `int.from_bytes` are
-- written out, in two's complement for a signed class.
pub mod RoundTrip
pub mod Range
use corpochain_beacon_client.Base.{
  ℕ, zero, suc, ◌+◌, ◌-◌, ◌*◌, ◌/◌, ◌%◌, ◌^◌, Bool, true, false, List, [], ◌∷◌, ◌&&◌, not, ltb, leb,
  ◌==◌, if◌then◌else◌, length, Result, ok, err, value_error, ◌>>=◌, ◌>>◌, require, raise_if,
}
use corpochain_beacon_client.Base.Int.{ℤ, pos, negsuc, pos_part, neg_part, sub_ℕ, neg}

-- The class attributes that `parse_metadata_from_name` sets.
pub record Metadata : Type 0 where
  pub signed : Bool
  pub bits : ℕ
  pub size : ℕ
  pub maximum_exclusive : ℤ
  pub minimum : ℤ

abbrev pub signed_metadata : ℕ → Metadata
signed_metadata bits = record {
  signed = true;
  bits = bits;
  size = bits / 8;
  maximum_exclusive = pos (2 ^ (bits - 1));
  minimum = neg (pos (2 ^ (bits - 1)));
}

abbrev pub unsigned_metadata : ℕ → Metadata
unsigned_metadata bits = record {
  signed = false;
  bits = bits;
  size = bits / 8;
  maximum_exclusive = pos (2 ^ bits);
  minimum = pos 0;
}

-- The decorator, for the class name that is `int`, with a `u` before it or not, and then `bits`.
unfoldable pub parse_metadata : Bool → ℕ → Result Metadata
parse_metadata signed bits = do
  raise_if (bits == 0) value_error
  raise_if (not (bits % 8 == 0)) value_error
  ok (if signed then signed_metadata bits else unsigned_metadata bits)

abbrev pub leb_ℤ : ℤ → ℤ → Bool
leb_ℤ a b = leb (pos_part a + neg_part b) (pos_part b + neg_part a)

abbrev pub ltb_ℤ : ℤ → ℤ → Bool
ltb_ℤ a b = ltb (pos_part a + neg_part b) (pos_part b + neg_part a)

-- `StructStream.__init__`
unfoldable pub init : Metadata → ℤ → Result ℤ
init c v = do require (leb_ℤ c.minimum v && ltb_ℤ v c.maximum_exclusive) value_error; ok v

-- The last `k` base-256 digits of a number, most significant first, before `acc`.
unfoldable pub to_digits : ℕ → ℕ → List ℕ → List ℕ
to_digits zero n acc = acc
to_digits (suc k) n acc = to_digits k (n / 256) (n % 256 ∷ acc)

unfoldable pub of_digits : ℕ → List ℕ → ℕ
of_digits a [] = a
of_digits a (b ∷ bs) = of_digits (a * 256 + b) bs

-- The digits that stand for a value: its two's complement in `bits` bits.
unfoldable pub encode : Metadata → ℤ → ℕ
encode c (pos n) = n
encode c (negsuc n) = 2 ^ c.bits - suc n

unfoldable pub decode : Metadata → ℕ → ℤ
decode c n = if c.signed && leb (2 ^ (c.bits - 1)) n then sub_ℕ n (2 ^ c.bits) else pos n

-- `__bytes__`, on a value of the class
unfoldable pub to_bytes : Metadata → ℤ → List ℕ
unfolding to_digits encode
to_bytes c v = to_digits c.size (encode c v) []

-- `from_bytes`, which `parse` calls on what it reads
unfoldable pub from_bytes : Metadata → List ℕ → Result ℤ
unfolding of_digits init decode
from_bytes c blob = do
  require (length blob == c.size) value_error
  init c (decode c (of_digits 0 blob))

-- `uint8(n)`, ..., `uint128(n)`: the constructor of an unsigned class at a number.
unfoldable pub uint : ℕ → ℕ → Result ℕ
uint w n = if ltb n (2 ^ w) then ok n else err value_error

-- The same at an integer that may be negative.
unfoldable pub uint_of_ℤ : ℕ → ℤ → Result ℕ
unfolding uint
uint_of_ℤ w (pos n) = uint w n
uint_of_ℤ w (negsuc n) = err value_error

-- `uintw(a - b)`
unfoldable pub uint_sub : ℕ → ℕ → ℕ → Result ℕ
unfolding uint_of_ℤ
uint_sub w a b = uint_of_ℤ w (sub_ℕ a b)
