-- ===== src/Infra/BoundedQueue/Steps.antt =====
-- Threads that use one `BoundedQueue` (src/infra/bounded_queue.h) in any interleaving, and what has
-- been written to the queue and read from it so far.
use qstorage.Prelude.{ℕ, ◌≡◌, some, List, [], ◌∷◌, ◌++◌, All}
use qstorage.Infra.BoundedQueue.{QueueOps, SemaphoreOps, Shared, Thread, create, advance}

pub record System (T Q S : Type 0) : Type 0 where
  pub threads : List (Thread T)
  pub shared : Shared Q S
  pub sent : List T
  pub received : List T

module _ {T : Type 0} where
  -- A thread that has just called an operation
  abbrev pub Fresh : Thread T → Type 0
  Fresh (Thread.enqueuing x) = Unit
  Fresh (Thread.trying_enqueue x) = Unit
  Fresh Thread.dequeuing = Unit
  Fresh Thread.trying_dequeue = Unit
  Fresh _ = ⊥

  -- What a step of a thread adds to the items written
  abbrev pub sent_after : Thread T → List T → List T
  sent_after (Thread.writing x) xs = xs ++ x ∷ []
  sent_after _ xs = xs

  -- What a step adds to the items read: what the thread has then taken, if it was reading
  abbrev pub received_after : Thread T → Thread T → List T → List T
  received_after Thread.reading (Thread.taken (some x)) xs = xs ++ x ∷ []
  received_after _ _ xs = xs

module _ {T Q S : Type 0} (ops : QueueOps T Q) (sem : SemaphoreOps S) where
  pub data Reach (n : ℕ) : System T Q S → Type 0 where
    start :
        (ts : List (Thread T))
        → All Fresh ts
        → Reach n (record { threads = ts; shared = create ops sem n; sent = []; received = [] })
    later :
        (front : List (Thread T)) (t t' : Thread T) (back : List (Thread T)) (s s' : Shared Q S)
        (sent received : List T)
        → Reach n
            (record { threads = front ++ t ∷ back; shared = s; sent = sent; received = received })
        → advance ops sem t s ≡ some (t', s')
        → Reach n (record {
          threads = front ++ t' ∷ back;
          shared = s';
          sent = sent_after t sent;
          received = received_after t t' received;
        })
