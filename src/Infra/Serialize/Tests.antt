-- ===== src/Infra/Serialize/Tests.antt =====
-- A header of the log, on hosts of both byte orders.
use qstorage.Prelude.{◌≡◌, refl, [], ◌∷◌, arith}
use qstorage.Infra.Serialize.{
  Endian, bytes_le, Memory, copy_from, copy_to, object_bytes, to_host, byteswap, value_le, rev,
  serialize_le, deserialize_le,
}
use qstorage.Infra.Serialize.RoundTrip.{deserialize_le-serialize_le}

abbrev zeroed : Memory
zeroed = λ _. 0

header_bytes :
    copy_from (serialize_le Endian.big 4 zeroed 100 0xdeadbeef) 99 6
    ≡ 0 ∷ 0xef ∷ 0xbe ∷ 0xad ∷ 0xde ∷ 0 ∷ []
unfolding serialize_le copy_from copy_to object_bytes to_host byteswap bytes_le value_le rev
header_bytes = refl

deserialize_le-serialize_le_example :
    deserialize_le Endian.little 4 (serialize_le Endian.big 4 zeroed 100 0xdeadbeef) 100
    ≡ 0xdeadbeef
deserialize_le-serialize_le_example =
    deserialize_le-serialize_le Endian.big Endian.little 4 zeroed 100 0xdeadbeef (omega arith)
