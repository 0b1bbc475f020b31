-- ===== src/Wal/Bytes.antt =====
-- The byte primitives of recovery/wal_records.h: WalWritePod, WalWriteVector and WalPayloadReader,
-- on a little-endian machine. A reader is the list of the bytes from `pos_` on.
use granite_db.Prelude.{
  ℕ, zero, suc, ◌+◌, ◌*◌, ◌/◌, ◌%◌, ◌^◌, ◌<◌, ◌≡◌, refl, ap, Bool, true, false, List, [], ◌∷◌, ◌++◌,
  arith, ltb, ◌==◌, le→ltb, if◌then◌else◌, Result, ok, err, length, take, drop, ◌>>=◌,
  length-append, take-append, drop-append, append_assoc,
}
use native.Mathlib.Nat.{div-add-mod, pow-suc, mod-eq_of_lt}

pub data WalError : Type 0 where
  payload_underflow vector_out_of_bounds corrupt_record_size : WalError

abbrev pub u32_mod : ℕ
u32_mod = 2 ^ 32

-- The value's object representation: `sizeof(T)` bytes, lowest first.
unfoldable pub write_pod : ℕ → ℕ → List ℕ
write_pod zero v = []
write_pod (suc size) v = (v % 256) ∷ write_pod size (v / 256)

unfoldable pub pod_value : List ℕ → ℕ
pod_value [] = 0
pod_value (b ∷ bs) = b + 256 * pod_value bs

unfoldable pub read_pod : ℕ → List ℕ → Result WalError (ℕ × List ℕ)
unfolding pod_value
read_pod size bytes =
    if ltb (length bytes) size
    then err payload_underflow
    else ok (pod_value (take size bytes), drop size bytes)

unfoldable pub write_vector : List ℕ → List ℕ
write_vector bytes = write_pod 4 (length bytes % u32_mod) ++ bytes

unfoldable pub read_vector : List ℕ → Result WalError (List ℕ × List ℕ)
read_vector bytes = do
  (sz, rest) ← read_pod 4 bytes
  if ltb (length rest) sz then err vector_out_of_bounds else ok (take sz rest, drop sz rest)

-- A `bool` is a byte that is 0 or 1.
unfoldable pub bool_byte : Bool → ℕ
bool_byte true = 1
bool_byte false = 0

unfoldable pub byte_bool : ℕ → Bool
byte_bool b = if b == 0 then false else true

pub length-write_pod : (size v : ℕ) → length (write_pod size v) ≡ size
unfolding write_pod
length-write_pod zero v = refl
length-write_pod (suc size) v = ap suc (length-write_pod size (v / 256))

pub pod_value-write_pod : (size v : ℕ) → v < 256 ^ size → pod_value (write_pod size v) ≡ v
unfolding write_pod pod_value
pod_value-write_pod zero v h = omega arith
pod_value-write_pod (suc size) v h =
    omega (arith, pod_value-write_pod size (v / 256) below, div-add-mod v 256)
  where
    below : v / 256 < 256 ^ size
    below = omega (arith, pow-suc 256 size)

-- Reading a value of `size` bytes gives back what was written, and leaves the bytes behind it.
pub read_pod-write_pod :
    (size v : ℕ) (rest : List ℕ)
    → v < 256 ^ size
    → read_pod size (write_pod size v ++ rest) ≡ ok (v, rest)
unfolding read_pod
read_pod-write_pod size v rest h = rw (
  le→ltb (length (write_pod size v ++ rest)) size
      (omega (arith, length-append (write_pod size v) rest, length-write_pod size v)),
  take-append (write_pod size v) rest size (length-write_pod size v),
  drop-append (write_pod size v) rest size (length-write_pod size v),
  pod_value-write_pod size v h,
)

-- The same for a length-prefixed vector of less than 2^32 bytes.
pub read_vector-write_vector :
    (bytes rest : List ℕ)
    → length bytes < u32_mod
    → read_vector (write_vector bytes ++ rest) ≡ ok (bytes, rest)
unfolding read_vector write_vector
read_vector-write_vector bytes rest h = rw (
  append_assoc (write_pod 4 (length bytes % u32_mod)) bytes rest,
  read_pod-write_pod 4 (length bytes % u32_mod) (bytes ++ rest) (omega arith),
  mod-eq_of_lt h,
  le→ltb (length (bytes ++ rest)) (length bytes) (omega (arith, length-append bytes rest)),
  take-append bytes rest (length bytes) refl,
  drop-append bytes rest (length bytes) refl,
)

pub byte_bool-bool_byte : (b : Bool) → byte_bool (bool_byte b) ≡ b
unfolding byte_bool bool_byte
byte_bool-bool_byte true = refl
byte_bool-bool_byte false = refl

pub bool_byte-lt : (b : Bool) → bool_byte b < 256 ^ 1
unfolding bool_byte
bool_byte-lt true = omega arith
bool_byte-lt false = omega arith
