-- ===== src/Infra/BoundedQueue/Order.antt =====
-- What any number of threads get from a `BoundedQueue` (src/infra/bounded_queue.h), in any
-- interleaving of their calls.
use mathlib.Core.Path.{subst}
use qstorage.Prelude.{
  total, total-append, All-change, ℕ, ◌+◌, ◌≤◌, ◌≡◌, refl, sym, ap, Option, none, some, List, [],
  ◌∷◌, ◌++◌, arith, length, All, Bool-cases, inl, inr, ltb,
}
use qstorage.Infra.BoundedQueue.{QueueOps, SemaphoreOps, Shared, Thread, create, advance}
use qstorage.Infra.BoundedQueue.Steps.{
  System, Fresh, sent_after, received_after, Reach, start, later,
}
use qstorage.Infra.BoundedQueue.Invariant.{
  holds_place, holds_item, Served, Account, After, advance-Account,
}

abbrev IsNone : {A : Type 0} → Option A → Type 0
IsNone none = Unit
IsNone (some a) = ⊥

module _ {T : Type 0} where
  length-zero : (xs : List T) → length xs ≡ 0 → xs ≡ []
  length-zero [] e = refl
  length-zero (x ∷ xs) e = absurd (omega arith)

  Fresh-holds :
      (ts : List (Thread T))
      → All Fresh ts
      → (total holds_place ts ≡ 0) × (total holds_item ts ≡ 0) × All Served ts
  Fresh-holds [] h = (refl, refl, tt)
  Fresh-holds (t ∷ ts) h =
      let (a, b, c) = Fresh-holds ts h.1 in
      let (d, e, f) = one t h.0 in (omega arith, omega arith, (f, c))
    where
      one : (t : Thread T) → Fresh t → (holds_place t ≡ 0) × (holds_item t ≡ 0) × Served t
      one (Thread.enqueuing x) h = (refl, refl, tt)
      one (Thread.trying_enqueue x) h = (refl, refl, tt)
      one Thread.dequeuing h = (refl, refl, tt)
      one Thread.trying_dequeue h = (refl, refl, tt)
      one (Thread.writing x) h = absurd h
      one Thread.written h = absurd h
      one Thread.enqueued h = absurd h
      one Thread.not_enqueued h = absurd h
      one Thread.reading h = absurd h
      one (Thread.taken o) h = absurd h
      one (Thread.returned o) h = absurd h
      one Thread.not_dequeued h = absurd h

module _ {T Q S : Type 0} (ops : QueueOps T Q) (sem : SemaphoreOps S) where
  open ops use {elements, capacity, elements-create, capacity-create}
  open sem use {tokens, tokens-create, acquire, acquire-some}

  pub record IsSound (n : ℕ) (sys : System T Q S) : Type 0 where
    pub room :
        tokens sys.shared.enqueue_semaphore
          + total holds_place sys.threads
          + length (elements sys.shared.queue)
        ≡ n
    pub filled :
        tokens sys.shared.dequeue_semaphore + total holds_item sys.threads
        ≡ length (elements sys.shared.queue)
    pub size : capacity sys.shared.queue ≡ n
    pub history : sys.sent ≡ sys.received ++ elements sys.shared.queue
    pub served : All Served sys.threads

  abbrev system : List (Thread T) → Shared Q S → List T → List T → System T Q S
  system ts s sent received = record { threads = ts; shared = s; sent = sent; received = received }

  step-IsSound :
      (n : ℕ) (front : List (Thread T)) (t t' : Thread T) (back : List (Thread T))
      (s s' : Shared Q S) (sent received : List T)
      → IsSound n (system (front ++ t ∷ back) s sent received)
      → advance ops sem t s ≡ some (t', s')
      → IsSound n
          (system (front ++ t' ∷ back) s' (sent_after t sent) (received_after t t' received))
  step-IsSound n front t t' back s s' sent received i e =
      let places = total holds_place front + total holds_place back in
      let items = total holds_item front + total holds_item back in
      let account : Account ops sem n places items sent received t s = record {
        room = omega (arith, i.room, total-append holds_place front (t ∷ back));
        filled = omega (arith, i.filled, total-append holds_item front (t ∷ back));
        size = i.size;
        history = i.history;
        served = (All-change Served front t Thread.enqueued back i.served tt).0;
      } in
      let a : Account ops sem n places items (sent_after t sent) (received_after t t' received) t'
          s' =
        subst (After ops sem n places items sent received t) e
          (advance-Account ops sem n places items sent received t s account) in
      record {
        room = omega (arith, a.room, total-append holds_place front (t' ∷ back));
        filled = omega (arith, a.filled, total-append holds_item front (t' ∷ back));
        size = a.size;
        history = a.history;
        served = (All-change Served front t t' back i.served a.served).1;
      }

  -- However the threads interleave, the tokens of the two semaphores and the threads between two
  -- calls account for every place of the queue.
  pub Reach-IsSound : (n : ℕ) (sys : System T Q S) → Reach ops sem n sys → IsSound n sys
  unfolding create
  Reach-IsSound n sys (start ts fresh) =
      let (places, items, served) = Fresh-holds ts fresh in
      record {
        room = omega (arith, places, tokens-create n, ap length (elements-create n));
        filled = omega (arith, items, tokens-create 0, ap length (elements-create n));
        size = capacity-create n;
        history = sym (elements-create n);
        served = served;
      }
  Reach-IsSound n sys (later front t t' back s s' sent received r e) =
      step-IsSound n front t t' back s s' sent received (Reach-IsSound n _ r) e

  -- However the threads interleave, the items read are the first of the items written, in order,
  -- and those left are in the queue, which is never above its capacity; and no read finds the queue
  -- empty, so that every thread that has read got an item.
  pub Reach-fifo :
      (n : ℕ) (sys : System T Q S)
      → Reach ops sem n sys
      → (sys.sent ≡ sys.received ++ elements sys.shared.queue)
        × (length (elements sys.shared.queue) ≤ n)
        × All Served sys.threads
  Reach-fifo n sys r = let i = Reach-IsSound n sys r in (i.history, omega (arith, i.room), i.served)

  -- Where no thread is between two calls that hold a place, `enqueue` blocks only on a full queue.
  pub enqueue_blocked :
      (n : ℕ) (sys : System T Q S) (x : T)
      → Reach ops sem n sys
      → total holds_place sys.threads ≡ 0
      → advance ops sem (Thread.enqueuing x) sys.shared ≡ none
      → length (elements sys.shared.queue) ≡ n
  unfolding advance
  enqueue_blocked n sys x r rest blocked =
      let i = Reach-IsSound n sys r in
      elim (Bool-cases (ltb 0 (tokens sys.shared.enqueue_semaphore))) [
        | inl some_token ↦
            let (e, got, fewer) = acquire-some sys.shared.enqueue_semaphore (ground arith) in
            absurd (
              subst
                (λ o. IsNone {A = Thread T × Shared Q S} (elim o [
                  | some e ↦ some (Thread.writing x, record sys.shared { enqueue_semaphore = e })
                  | none ↦ none
                ]))
                got (subst IsNone (sym blocked) tt))
        | inr no_token ↦
            let zero_tokens : tokens sys.shared.enqueue_semaphore ≡ 0 = ground arith in
            omega (arith, i.room, rest, zero_tokens)
      ]

  -- Where no thread is between two calls that hold an item, `dequeue` blocks only on an empty
  -- queue.
  pub dequeue_blocked :
      (n : ℕ) (sys : System T Q S)
      → Reach ops sem n sys
      → total holds_item sys.threads ≡ 0
      → advance ops sem Thread.dequeuing sys.shared ≡ none
      → elements sys.shared.queue ≡ []
  unfolding advance
  dequeue_blocked n sys r rest blocked =
      let i = Reach-IsSound n sys r in
      elim (Bool-cases (ltb 0 (tokens sys.shared.dequeue_semaphore))) [
        | inl some_token ↦
            let (d, got, fewer) = acquire-some sys.shared.dequeue_semaphore (ground arith) in
            absurd (
              subst
                (λ o. IsNone {A = Thread T × Shared Q S} (elim o [
                  | some d ↦ some (Thread.reading, record sys.shared { dequeue_semaphore = d })
                  | none ↦ none
                ]))
                got (subst IsNone (sym blocked) tt))
        | inr no_token ↦
            let zero_tokens : tokens sys.shared.dequeue_semaphore ≡ 0 = ground arith in
            length-zero (elements sys.shared.queue) (omega (arith, i.filled, rest, zero_tokens))
      ]
