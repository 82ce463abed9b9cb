-- ===== src/Infra/BoundedQueue/Tests.antt =====
-- The parameters of `BoundedQueue` (src/infra/bounded_queue.h) by concrete functions: a queue that
-- is its list and its capacity, and a semaphore that is its number of tokens; and a run of two
-- threads.
use qstorage.Prelude.{
  ◌==◌, leb, ℕ, zero, suc, ◌<◌, ◌≤◌, ◌≡◌, refl, ap, Bool, true, false, Option, none, some, List, [],
  ◌∷◌, ◌++◌, arith, length, All, ltb, if◌then◌else◌, if_true, if_false,
}
use qstorage.Infra.BoundedQueue.{QueueOps, SemaphoreOps, Shared, Thread, create, advance}
use qstorage.Infra.BoundedQueue.Steps.{System, Reach, start, later}
use qstorage.Infra.BoundedQueue.Invariant.{Served}
use qstorage.Infra.BoundedQueue.Order.{Reach-fifo}

record Bounded : Type 0 where
  items : List ℕ
  limit : ℕ

abbrev put : Bounded → ℕ → Bool × Bounded
put q x =
    if ltb (length q.items) q.limit
    then (true, record q { items = q.items ++ x ∷ [] })
    else (false, q)

abbrev get_from : List ℕ → ℕ → Option ℕ × Bounded
get_from [] n = (none, record { items = []; limit = n })
get_from (x ∷ xs) n = (some x, record { items = xs; limit = n })

put-room :
    (q : Bounded) (x : ℕ)
    → length q.items < q.limit
    → ((put q x).0 ≡ true) × ((put q x).1.items ≡ q.items ++ x ∷ []) × ((put q x).1.limit ≡ q.limit)
put-room q x h =
    let e =
      if_true (ltb (length q.items) q.limit) (true, record q { items = q.items ++ x ∷ [] })
        (false, q) (ground arith) in
    (
      ap (λ (r : Bool × Bounded). r.0) e,
      ap (λ (r : Bool × Bounded). r.1.items) e,
      ap (λ (r : Bool × Bounded). r.1.limit) e,
    )

put-full : (q : Bounded) (x : ℕ) → q.limit ≤ length q.items → put q x ≡ (false, q)
put-full q x h =
    if_false (ltb (length q.items) q.limit) (true, record q { items = q.items ++ x ∷ [] })
      (false, q) (ground arith)

get_from-some :
    (ys : List ℕ) (n x : ℕ) (xs : List ℕ)
    → ys ≡ x ∷ xs
    → ((get_from ys n).0 ≡ some x) × ((get_from ys n).1.items ≡ xs) × ((get_from ys n).1.limit ≡ n)
get_from-some ys n x xs e =
    let r = ap (λ zs. get_from zs n) e in
    (
      ap (λ (r : Option ℕ × Bounded). r.0) r,
      ap (λ (r : Option ℕ × Bounded). r.1.items) r,
      ap (λ (r : Option ℕ × Bounded). r.1.limit) r,
    )

get_from-none :
    (xs : List ℕ) (n : ℕ) → xs ≡ [] → get_from xs n ≡ (none, record { items = xs; limit = n })
get_from-none [] n e = refl
get_from-none (x ∷ xs) n e = absurd (omega (arith, ap length e))

abbrev queue_ops : QueueOps ℕ Bounded
queue_ops = record {
  create_queue = λ n. record { items = []; limit = n };
  write_if_not_full = put;
  read_if_not_empty = λ q. get_from q.items q.limit;
  elements = λ q. q.items;
  capacity = λ q. q.limit;
  elements-create = λ n. refl;
  capacity-create = λ n. refl;
  write-room = put-room;
  write-full = put-full;
  read-some = λ q x xs e. get_from-some q.items q.limit x xs e;
  is_empty = λ q. length q.items == 0;
  is_full = λ q. leb q.limit (length q.items);
  queue_size = λ q. length q.items;
  is_empty-elements = λ q. refl;
  is_full-elements = λ q. refl;
  queue_size-elements = λ q. refl;
  read-none = λ q e. get_from-none q.items q.limit e;
}

abbrev take_token : ℕ → Option ℕ
take_token zero = none
take_token (suc n) = some n

take_token-none : (s : ℕ) → s ≡ 0 → take_token s ≡ none
take_token-none zero e = refl
take_token-none (suc s) e = absurd (omega arith)

take_token-some : (s : ℕ) → 0 < s → (r : ℕ) × (take_token s ≡ some r) × (suc r ≡ s)
take_token-some zero h = absurd (omega arith)
take_token-some (suc s) h = (s, refl, refl)

abbrev semaphore_ops : SemaphoreOps ℕ
semaphore_ops = record {
  create_semaphore = λ n. n;
  acquire = take_token;
  signal = suc;
  tokens = λ n. n;
  tokens-create = λ n. refl;
  acquire-none = take_token-none;
  acquire-some = take_token-some;
  tokens-signal = λ s. refl;
}

abbrev shared : List ℕ → ℕ → ℕ → Shared Bounded ℕ
shared items e d = record {
  queue = record { items = items; limit = 1 };
  enqueue_semaphore = e;
  dequeue_semaphore = d;
}

abbrev system : List (Thread ℕ) → Shared Bounded ℕ → List ℕ → List ℕ → System ℕ Bounded ℕ
system ts s sent received = record { threads = ts; shared = s; sent = sent; received = received }

abbrev both : List (Thread ℕ)
both = Thread.enqueuing 7 ∷ Thread.dequeuing ∷ []

-- One thread enqueues an item in a queue of one place, and another is about to dequeue.
begun : Reach queue_ops semaphore_ops 1 (system both (shared [] 1 0) [] [])
unfolding create
begun = start both (tt, (tt, tt))

sent_item :
    Reach queue_ops semaphore_ops 1
      (system (Thread.enqueued ∷ Thread.dequeuing ∷ []) (shared (7 ∷ []) 0 1) (7 ∷ []) [])
unfolding advance
sent_item =
    let back = Thread.dequeuing ∷ [] in
    let one =
      later [] (Thread.enqueuing 7) (Thread.writing 7) back (shared [] 1 0) (shared [] 0 0) [] []
        begun refl in
    let two =
      later [] (Thread.writing 7) Thread.written back (shared [] 0 0) (shared (7 ∷ []) 0 0) [] []
        one refl in
    later [] Thread.written Thread.enqueued back (shared (7 ∷ []) 0 0) (shared (7 ∷ []) 0 1)
      (7 ∷ []) [] two refl

abbrev full : System ℕ Bounded ℕ
full = system (Thread.enqueued ∷ Thread.dequeuing ∷ []) (shared (7 ∷ []) 0 1) (7 ∷ []) []

Reach-fifo_example :
    (full.sent ≡ full.received ++ full.shared.queue.items)
    × (length full.shared.queue.items ≤ 1)
    × All Served full.threads
Reach-fifo_example = Reach-fifo queue_ops semaphore_ops 1 full sent_item

blocked_dequeue : advance queue_ops semaphore_ops Thread.dequeuing (shared [] 1 0) ≡ none
unfolding advance
blocked_dequeue = refl
