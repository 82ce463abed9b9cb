-- ===== src/Infra/Serialize/RoundTrip.antt =====
-- The format of `SerializeLE` does not depend on the host, and `DeserializeLE` reads it back.
use native.Mathlib.Nat.{pow-suc}
use qstorage.Prelude.{
  ℕ, zero, suc, ◌+◌, ◌*◌, ◌/◌, ◌%◌, ◌^◌, ◌≤◌, ◌<◌, ◌≡◌, refl, sym, ap, ◌∙◌, ◌⊎◌, inl, inr, List, [],
  ◌∷◌, ◌++◌, arith, length, length-append, All, All-append, ◌==◌, if◌then◌else◌,
}
use qstorage.Infra.Serialize.{
  Endian, bytes_le, value_le, rev, object_bytes, object_value, byteswap, Memory, copy_to, copy_from,
  to_host, serialize_le, deserialize_le,
}

abbrev AreBytes : List ℕ → Type 0
AreBytes = All (λ b. b < 256)

bytes_le-AreBytes : (n v : ℕ) → AreBytes (bytes_le n v)
unfolding bytes_le
bytes_le-AreBytes zero v = tt
bytes_le-AreBytes (suc n) v = (omega arith, bytes_le-AreBytes n (v / 256))

length-bytes_le : (n v : ℕ) → length (bytes_le n v) ≡ n
unfolding bytes_le
length-bytes_le zero v = refl
length-bytes_le (suc n) v = ap suc (length-bytes_le n (v / 256))

value_le-bytes_le : (n v : ℕ) → v < 256 ^ n → value_le (bytes_le n v) ≡ v
unfolding bytes_le value_le
value_le-bytes_le zero v h = omega arith
value_le-bytes_le (suc n) v h =
    omega (arith, value_le-bytes_le n (v / 256) (omega (arith, pow-suc 256 n)))

bytes_le-value_le : (bs : List ℕ) → AreBytes bs → bytes_le (length bs) (value_le bs) ≡ bs
unfolding bytes_le value_le
bytes_le-value_le [] h = refl
bytes_le-value_le (b ∷ bs) h =
    let low : (b + 256 * value_le bs) % 256 ≡ b = omega arith in
    let high : (b + 256 * value_le bs) / 256 ≡ value_le bs = omega arith in
    rw (low, high, bytes_le-value_le bs h.1)

rev-snoc : (bs : List ℕ) (b : ℕ) → rev (bs ++ b ∷ []) ≡ b ∷ rev bs
unfolding rev
rev-snoc [] b = refl
rev-snoc (x ∷ bs) b = rw (rev-snoc bs b)

rev-rev : (bs : List ℕ) → rev (rev bs) ≡ bs
unfolding rev
rev-rev [] = refl
rev-rev (b ∷ bs) = rw (rev-snoc (rev bs) b, rev-rev bs)

rev-AreBytes : (bs : List ℕ) → AreBytes bs → AreBytes (rev bs)
unfolding rev
rev-AreBytes [] h = h
rev-AreBytes (b ∷ bs) h = All-append _ (rev bs) (b ∷ []) (rev-AreBytes bs h.1) (h.0, tt)

length-rev : (bs : List ℕ) → length (rev bs) ≡ length bs
unfolding rev
length-rev [] = refl
length-rev (b ∷ bs) = omega (arith, length-append (rev bs) (b ∷ []), length-rev bs)

bytes_le-byteswap : (n v : ℕ) → bytes_le n (byteswap n v) ≡ rev (bytes_le n v)
unfolding byteswap
bytes_le-byteswap n v =
    let len : n ≡ length (rev (bytes_le n v)) =
      omega (arith, length-rev (bytes_le n v), length-bytes_le n v) in
    ap (λ k. bytes_le k (value_le (rev (bytes_le n v)))) len
    ∙ bytes_le-value_le (rev (bytes_le n v)) (rev-AreBytes (bytes_le n v) (bytes_le-AreBytes n v))

-- On either host the bytes that are copied are those of the little-endian format.
object_bytes-to_host : (e : Endian) (n v : ℕ) → object_bytes e n (to_host e n v) ≡ bytes_le n v
unfolding object_bytes to_host
object_bytes-to_host Endian.little n v = refl
object_bytes-to_host Endian.big n v = rw (bytes_le-byteswap n v, rev-rev)

to_host-object_value :
    (e : Endian) (n v : ℕ) → v < 256 ^ n → to_host e n (object_value e (bytes_le n v)) ≡ v
unfolding object_value to_host byteswap
to_host-object_value Endian.little n v h = value_le-bytes_le n v h
to_host-object_value Endian.big n v h =
    ap (λ bs. value_le (rev bs)) (bytes_le-byteswap n v)
    ∙ rw (rev-rev (bytes_le n v)) (value_le-bytes_le n v h)

copy_to-below :
    (mem : Memory) (dst : ℕ) (bs : List ℕ) (a : ℕ) → a < dst → copy_to mem dst bs a ≡ mem a
unfolding copy_to
copy_to-below mem dst [] a h = refl
copy_to-below mem dst (b ∷ bs) a h =
    copy_to-below (λ a. if dst == a then b else mem a) (suc dst) bs a (omega arith) ∙ ground arith

copy_to-above :
    (mem : Memory) (dst : ℕ) (bs : List ℕ) (a : ℕ)
    → dst + length bs ≤ a
    → copy_to mem dst bs a ≡ mem a
unfolding copy_to
copy_to-above mem dst [] a h = refl
copy_to-above mem dst (b ∷ bs) a h =
    copy_to-above (λ a. if dst == a then b else mem a) (suc dst) bs a (omega arith) ∙ ground arith

copy_from-copy_to :
    (mem : Memory) (dst : ℕ) (bs : List ℕ) → copy_from (copy_to mem dst bs) dst (length bs) ≡ bs
unfolding copy_to copy_from
copy_from-copy_to mem dst [] = refl
copy_from-copy_to mem dst (b ∷ bs) =
    let m : Memory = λ a. if dst == a then b else mem a in
    let here : copy_to m (suc dst) bs dst ≡ b =
      copy_to-below m (suc dst) bs dst (omega arith) ∙ ground arith in
    rw (here, copy_from-copy_to m (suc dst) bs)

-- What `SerializeLE` writes, on either host: the `n` bytes of the value, the least significant
-- first, from `dst` on, and nothing anywhere else.
pub serialize_le_lem :
    (e : Endian) (n : ℕ) (mem : Memory) (dst value : ℕ)
    → (copy_from (serialize_le e n mem dst value) dst n ≡ bytes_le n value)
      × ((a : ℕ) → (a < dst) ⊎ (dst + n ≤ a) → serialize_le e n mem dst value a ≡ mem a)
unfolding serialize_le
serialize_le_lem e n mem dst value = rw (object_bytes-to_host e n value) (
  ap (λ k. copy_from (copy_to mem dst (bytes_le n value)) dst k) (sym (length-bytes_le n value))
      ∙ copy_from-copy_to mem dst (bytes_le n value),
  λ a out. elim out [
    | inl below ↦ copy_to-below mem dst (bytes_le n value) a below
    | inr above ↦
        copy_to-above mem dst (bytes_le n value) a (omega (arith, length-bytes_le n value))
  ],
)

-- A value written on one host is read back on any other.
pub deserialize_le-serialize_le :
    (writer reader : Endian) (n : ℕ) (mem : Memory) (dst value : ℕ)
    → value < 256 ^ n
    → deserialize_le reader n (serialize_le writer n mem dst value) dst ≡ value
unfolding deserialize_le
deserialize_le-serialize_le writer reader n mem dst value h =
    rw ((serialize_le_lem writer n mem dst value).0) (to_host-object_value reader n value h)
