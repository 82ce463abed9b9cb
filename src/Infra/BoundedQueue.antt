-- ===== src/Infra/BoundedQueue.antt =====
-- `BoundedQueue` of src/infra/bounded_queue.h: a queue of folly between two semaphores of folly,
-- which are parameters here with their documented laws. A thread in an operation is the point that
-- it has reached; the coroutine versions wait at the same points as the others. Each call of the
-- queue or of a semaphore is one step, and steps of different threads come in any order.
pub mod Steps
pub mod Invariant
pub mod Order
mod Tests
use qstorage.Prelude.{
  ℕ, zero, suc, ◌+◌, ◌<◌, ◌≤◌, ◌≡◌, Bool, true, false, Option, none, some, List, [], ◌∷◌, ◌++◌,
  length, ◌==◌, leb,
}

-- `folly::MPMCQueue`. `elements` is what it holds, the first to be read first. A read of an empty
-- queue leaves the variable of the caller as it was, `none`.
pub record QueueOps (T Q : Type 0) : Type 0 where
  pub create_queue : ℕ → Q
  pub write_if_not_full : Q → T → Bool × Q
  pub read_if_not_empty : Q → Option T × Q
  pub elements : Q → List T
  pub capacity : Q → ℕ
  pub elements-create : (n : ℕ) → elements (create_queue n) ≡ []
  pub capacity-create : (n : ℕ) → capacity (create_queue n) ≡ n
  pub write-room :
      (q : Q) (x : T)
      → length (elements q) < capacity q
      → ((write_if_not_full q x).0 ≡ true)
        × (elements (write_if_not_full q x).1 ≡ elements q ++ x ∷ [])
        × (capacity (write_if_not_full q x).1 ≡ capacity q)
  pub write-full :
      (q : Q) (x : T) → capacity q ≤ length (elements q) → write_if_not_full q x ≡ (false, q)
  pub read-some :
      (q : Q) (x : T) (xs : List T)
      → elements q ≡ x ∷ xs
      → ((read_if_not_empty q).0 ≡ some x)
        × (elements (read_if_not_empty q).1 ≡ xs)
        × (capacity (read_if_not_empty q).1 ≡ capacity q)
  pub is_empty : Q → Bool
  pub is_full : Q → Bool
  pub queue_size : Q → ℕ
  pub is_empty-elements : (q : Q) → is_empty q ≡ (length (elements q) == 0)
  pub is_full-elements : (q : Q) → is_full q ≡ leb (capacity q) (length (elements q))
  pub queue_size-elements : (q : Q) → queue_size q ≡ length (elements q)
  pub read-none : (q : Q) → elements q ≡ [] → read_if_not_empty q ≡ (none, q)

-- `folly::fibers::Semaphore`: `acquire` is the moment at which `wait`, `co_wait` or `try_wait` gets
-- a token, `none` where there is none.
pub record SemaphoreOps (S : Type 0) : Type 0 where
  pub create_semaphore : ℕ → S
  pub acquire : S → Option S
  pub signal : S → S
  pub tokens : S → ℕ
  pub tokens-create : (n : ℕ) → tokens (create_semaphore n) ≡ n
  pub acquire-none : (s : S) → tokens s ≡ 0 → acquire s ≡ none
  pub acquire-some :
      (s : S) → 0 < tokens s → (s' : S) × (acquire s ≡ some s') × (suc (tokens s') ≡ tokens s)
  pub tokens-signal : (s : S) → tokens (signal s) ≡ suc (tokens s)

pub record Shared (Q S : Type 0) : Type 0 where
  pub queue : Q
  pub enqueue_semaphore : S
  pub dequeue_semaphore : S

-- Where a thread is in `enqueue` or `try_enqueue` (before the wait, before the write, before the
-- signal, and returned), or in `dequeue` or `try_dequeue`
pub data Thread (T : Type 0) : Type 0 where
  enqueuing trying_enqueue : T → Thread T
  writing : T → Thread T
  written enqueued not_enqueued : Thread T
  dequeuing trying_dequeue reading : Thread T
  taken returned : Option T → Thread T
  not_dequeued : Thread T

module _ {T Q S : Type 0} (ops : QueueOps T Q) (sem : SemaphoreOps S) where
  open ops use {create_queue, write_if_not_full, read_if_not_empty, is_empty, is_full, queue_size}
  open sem use {create_semaphore, acquire, signal}

  -- The constructor
  unfoldable pub create : ℕ → Shared Q S
  create capacity = record {
    queue = create_queue capacity;
    enqueue_semaphore = create_semaphore capacity;
    dequeue_semaphore = create_semaphore 0;
  }

  -- What `empty`, `full` and `size` give, which may be old when it is used
  abbrev pub empty : Shared Q S → Bool
  empty s = is_empty s.queue

  abbrev pub full : Shared Q S → Bool
  full s = is_full s.queue

  abbrev pub size : Shared Q S → ℕ
  size s = queue_size s.queue

  abbrev wait_enqueue : Thread T → Option (Thread T) → Shared Q S → Option (Thread T × Shared Q S)
  wait_enqueue go refused s = elim (acquire s.enqueue_semaphore) [
    | some e ↦ some (go, record s { enqueue_semaphore = e })
    | none ↦ elim refused [ some t ↦ some (t, s) | none ↦ none ]
  ]

  abbrev wait_dequeue : Thread T → Option (Thread T) → Shared Q S → Option (Thread T × Shared Q S)
  wait_dequeue go refused s = elim (acquire s.dequeue_semaphore) [
    | some d ↦ some (go, record s { dequeue_semaphore = d })
    | none ↦ elim refused [ some t ↦ some (t, s) | none ↦ none ]
  ]

  -- The next step of a thread, `none` while it is blocked and after it has returned
  unfoldable pub advance : Thread T → Shared Q S → Option (Thread T × Shared Q S)
  advance (enqueuing x) s = wait_enqueue (writing x) none s
  advance (trying_enqueue x) s = wait_enqueue (writing x) (some not_enqueued) s
  advance (writing x) s = some (written, record s { queue = (write_if_not_full s.queue x).1 })
  advance written s = some (enqueued, record s { dequeue_semaphore = signal s.dequeue_semaphore })
  advance dequeuing s = wait_dequeue reading none s
  advance trying_dequeue s = wait_dequeue reading (some not_dequeued) s
  advance reading s =
      let r = read_if_not_empty s.queue in some (taken r.0, record s { queue = r.1 })
  advance (taken o) s =
      some (returned o, record s { enqueue_semaphore = signal s.enqueue_semaphore })
  advance enqueued s = none
  advance not_enqueued s = none
  advance (returned o) s = none
  advance not_dequeued s = none
