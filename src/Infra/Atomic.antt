-- ===== src/Infra/Atomic.antt =====
-- `RelaxedAtomic` and `AcqRelAtomic` of src/infra/atomic.h. An atomic object is the list of what
-- was written to it, the newest first. A written value carries what its writer has made known with
-- it: a release gives what the writer knows, a relaxed store nothing, and a read-modify-write keeps
-- what the value that it read carried. An acquire adds that to what the reader knows. A load may
-- read an older value; which one is an argument.
pub mod Publish
pub mod Counter
mod Tests
use Prim.Native.Nat.{bit_and, bit_or, bit_xor}
use qstorage.Prelude.{
  ℕ, zero, suc, ◌+◌, ◌-◌, ◌%◌, ◌^◌, Bool, true, false, ◌||◌, ◌&&◌, not, List, [], ◌∷◌, ◌==◌,
  if◌then◌else◌,
}

-- The effects, by number, that a thread knows of
abbrev pub Seen : Type 0
Seen = ℕ → Bool

abbrev pub nothing : Seen
nothing i = false

abbrev pub join : Seen → Seen → Seen
join a b i = a i || b i

pub record Message : Type 0 where
  pub value : ℕ
  pub seen : Seen

pub record Cell : Type 0 where
  pub latest : Message
  pub older : List Message

abbrev pub write : Cell → Message → Cell
write c m = record { latest = m; older = c.latest ∷ c.older }

abbrev pub nth_older : Message → List Message → ℕ → Message
nth_older m ms zero = m
nth_older m [] (suc i) = m
nth_older m (n ∷ ms) (suc i) = nth_older n ms i

-- What a load reads that looks back `i` writes
abbrev pub message : Cell → ℕ → Message
message c i = nth_older c.latest c.older i

-- The constructor of both
abbrev pub atomic : ℕ → Cell
atomic initial = record { latest = record { value = initial; seen = nothing }; older = [] }

-- What a compare-and-exchange gives back: whether it has stored, and `expected` after it
pub record Exchanged : Type 0 where
  pub success : Bool
  pub expected : ℕ

-- `T` has `w` bits.
module _ (w : ℕ) where
  -- The operations of `RelaxedAtomic`
  unfoldable pub store_relaxed : Cell → ℕ → Cell
  store_relaxed c desired = write c (record { value = desired; seen = nothing })

  unfoldable pub load_relaxed : Cell → ℕ → ℕ
  load_relaxed c i = (message c i).value

  -- A read-modify-write reads the newest value; with it comes the value that it gives back.
  abbrev pub modify_relaxed : (ℕ → ℕ) → Cell → ℕ × Cell
  modify_relaxed f c =
      (c.latest.value, write c (record { value = f c.latest.value; seen = c.latest.seen }))

  abbrev compare_relaxed : (fails : Bool) → Cell → (expected desired : ℕ) → Exchanged × Cell
  compare_relaxed fails c expected desired =
      if (c.latest.value == expected) && not fails
      then (
        record { success = true; expected = expected },
        write c (record { value = desired; seen = c.latest.seen }),
      )
      else (record { success = false; expected = c.latest.value }, c)

  -- The weak exchange may fail for no reason: `fails`.
  unfoldable pub cas_weak_relaxed :
      (fails : Bool) → Cell → (expected desired : ℕ) → Exchanged × Cell
  cas_weak_relaxed fails c expected desired = compare_relaxed fails c expected desired

  unfoldable pub cas_strong_relaxed : Cell → (expected desired : ℕ) → Exchanged × Cell
  cas_strong_relaxed c expected desired = compare_relaxed false c expected desired

  unfoldable pub exchange_relaxed : Cell → ℕ → ℕ × Cell
  exchange_relaxed c desired = modify_relaxed (λ old. desired) c

  unfoldable pub fetch_add_relaxed : Cell → ℕ → ℕ × Cell
  fetch_add_relaxed c operand = modify_relaxed (λ old. (old + operand) % 2 ^ w) c

  unfoldable pub fetch_sub_relaxed : Cell → ℕ → ℕ × Cell
  fetch_sub_relaxed c operand = modify_relaxed (λ old. (old + 2 ^ w - operand) % 2 ^ w) c

  unfoldable pub fetch_and_relaxed : Cell → ℕ → ℕ × Cell
  fetch_and_relaxed c operand = modify_relaxed (λ old. bit_and old operand) c

  unfoldable pub fetch_or_relaxed : Cell → ℕ → ℕ × Cell
  fetch_or_relaxed c operand = modify_relaxed (λ old. bit_or old operand) c

  unfoldable pub fetch_xor_relaxed : Cell → ℕ → ℕ × Cell
  fetch_xor_relaxed c operand = modify_relaxed (λ old. bit_xor old operand) c

  -- The operations of `AcqRelAtomic`, of a thread that knows `k`; what it knows then comes back
  -- too.
  unfoldable pub store : Seen → Cell → ℕ → Cell
  store k c desired = write c (record { value = desired; seen = k })

  unfoldable pub load : Seen → Cell → ℕ → ℕ × Seen
  load k c i = let m = message c i in (m.value, join k m.seen)

  abbrev pub modify : Seen → (ℕ → ℕ) → Cell → ℕ × (Seen × Cell)
  modify k f c =
      let k' = join k c.latest.seen in
      (c.latest.value, (k', write c (record { value = f c.latest.value; seen = k' })))

  -- One that does not store is an acquire load.
  abbrev compare_exchange :
      (fails : Bool) → Seen → Cell → (expected desired : ℕ) → Exchanged × (Seen × Cell)
  compare_exchange fails k c expected desired =
      let k' = join k c.latest.seen in
      if (c.latest.value == expected) && not fails
      then (
        record { success = true; expected = expected },
        (k', write c (record { value = desired; seen = k' })),
      )
      else (record { success = false; expected = c.latest.value }, (k', c))

  unfoldable pub cas_weak :
      (fails : Bool) → Seen → Cell → (expected desired : ℕ) → Exchanged × (Seen × Cell)
  cas_weak fails k c expected desired = compare_exchange fails k c expected desired

  unfoldable pub cas_strong : Seen → Cell → (expected desired : ℕ) → Exchanged × (Seen × Cell)
  cas_strong k c expected desired = compare_exchange false k c expected desired

  unfoldable pub exchange : Seen → Cell → ℕ → ℕ × (Seen × Cell)
  exchange k c desired = modify k (λ old. desired) c

  unfoldable pub fetch_add : Seen → Cell → ℕ → ℕ × (Seen × Cell)
  fetch_add k c operand = modify k (λ old. (old + operand) % 2 ^ w) c

  unfoldable pub fetch_sub : Seen → Cell → ℕ → ℕ × (Seen × Cell)
  fetch_sub k c operand = modify k (λ old. (old + 2 ^ w - operand) % 2 ^ w) c

  unfoldable pub fetch_and : Seen → Cell → ℕ → ℕ × (Seen × Cell)
  fetch_and k c operand = modify k (λ old. bit_and old operand) c

  unfoldable pub fetch_or : Seen → Cell → ℕ → ℕ × (Seen × Cell)
  fetch_or k c operand = modify k (λ old. bit_or old operand) c

  unfoldable pub fetch_xor : Seen → Cell → ℕ → ℕ × (Seen × Cell)
  fetch_xor k c operand = modify k (λ old. bit_xor old operand) c
