-- ===== src/Infra/Serialize.antt =====
-- `SerializeLE` and `DeserializeLE` (src/infra/serialize.h). A value of `n` bytes is its bit
-- pattern below `256 ^ n`; of a float or a double only that pattern is moved, as the code does.
pub mod RoundTrip
mod Tests
use qstorage.Prelude.{ℕ, zero, suc, ◌+◌, ◌*◌, ◌/◌, ◌%◌, List, [], ◌∷◌, ◌++◌, ◌==◌, if◌then◌else◌}

-- `std::endian::native`
pub data Endian : Type 0 where
  little big : Endian

-- The `n` bytes of a value, the least significant first
unfoldable pub bytes_le : (n value : ℕ) → List ℕ
bytes_le zero value = []
bytes_le (suc n) value = value % 256 ∷ bytes_le n (value / 256)

unfoldable pub value_le : List ℕ → ℕ
value_le [] = 0
value_le (b ∷ bs) = b + 256 * value_le bs

unfoldable pub rev : List ℕ → List ℕ
rev [] = []
rev (b ∷ bs) = rev bs ++ b ∷ []

-- How the host lays a value out in memory, and reads it: the object representation that `memcpy`
-- moves
unfoldable pub object_bytes : Endian → (n value : ℕ) → List ℕ
object_bytes Endian.little n value = bytes_le n value
object_bytes Endian.big n value = rev (bytes_le n value)

unfoldable pub object_value : Endian → List ℕ → ℕ
object_value Endian.little bs = value_le bs
object_value Endian.big bs = value_le (rev bs)

-- `std::byteswap`
unfoldable pub byteswap : (n value : ℕ) → ℕ
byteswap n value = value_le (rev (bytes_le n value))

-- Memory, by address
abbrev pub Memory : Type 0
Memory = ℕ → ℕ

-- `std::memcpy(dst, &value, n)`
unfoldable pub copy_to : Memory → ℕ → List ℕ → Memory
copy_to mem dst [] = mem
copy_to mem dst (b ∷ bs) = copy_to (λ a. if dst == a then b else mem a) (suc dst) bs

-- `std::memcpy(&value, src, n)`
unfoldable pub copy_from : Memory → ℕ → ℕ → List ℕ
copy_from mem src zero = []
copy_from mem src (suc n) = mem src ∷ copy_from mem (suc src) n

-- The `if constexpr` of both functions
unfoldable pub to_host : Endian → (n value : ℕ) → ℕ
to_host Endian.little n value = value
to_host Endian.big n value = byteswap n value

-- The `T` of the code is given by its `n` bytes.
unfoldable pub serialize_le : Endian → (n : ℕ) → Memory → (dst value : ℕ) → Memory
serialize_le e n mem dst value = copy_to mem dst (object_bytes e n (to_host e n value))

unfoldable pub deserialize_le : Endian → (n : ℕ) → Memory → (src : ℕ) → ℕ
deserialize_le e n mem src = to_host e n (object_value e (copy_from mem src n))
