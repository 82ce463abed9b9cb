-- ===== src/Infra/BoundedQueue/Invariant.antt =====
-- What one step of a thread keeps: the tokens of the two semaphores of a `BoundedQueue`
-- (src/infra/bounded_queue.h) and the threads between two calls account for every place.
use mathlib.Core.Path.{subst}
use qstorage.Prelude.{
  ℕ, suc, ◌+◌, ◌≡◌, refl, sym, ap, ◌∙◌, ◌⊎◌, Bool-cases, inl, inr, Option, none, some, List, [],
  ◌∷◌, ◌++◌, append_assoc, arith, length, length-append, ltb,
}
use qstorage.Infra.BoundedQueue.{QueueOps, SemaphoreOps, Shared, Thread, advance}
use qstorage.Infra.BoundedQueue.Steps.{sent_after, received_after}

module _ {T : Type 0} where
  List-cases : (xs : List T) → (xs ≡ []) ⊎ ((x : T) × (ys : List T) × (xs ≡ x ∷ ys))
  List-cases [] = inl refl
  List-cases (x ∷ xs) = inr (x, xs, refl)

  -- A thread that has taken a place and not given it back: one about to write, or one that has read
  abbrev pub holds_place : Thread T → ℕ
  holds_place (Thread.writing x) = 1
  holds_place (Thread.taken o) = 1
  holds_place _ = 0

  -- A thread that an item in the queue is accounted to: one that has written it and not said so, or
  -- one about to read
  abbrev pub holds_item : Thread T → ℕ
  holds_item Thread.written = 1
  holds_item Thread.reading = 1
  holds_item _ = 0

  -- A thread that has read has got an item.
  abbrev pub Served : Thread T → Type 0
  Served (Thread.taken none) = ⊥
  Served (Thread.returned none) = ⊥
  Served _ = Unit

module _ {T Q S : Type 0} (ops : QueueOps T Q) (sem : SemaphoreOps S) where
  open ops use {elements, capacity, write-room, read-some, write_if_not_full, read_if_not_empty}
  open sem use {tokens, acquire, signal, acquire-none, acquire-some, tokens-signal}

  -- The account with `places` and `items` held by the other threads
  pub record Account (n places items : ℕ) (sent received : List T) (t : Thread T) (s : Shared Q S)
      : Type 0 where
    pub room : tokens s.enqueue_semaphore + (holds_place t + places) + length (elements s.queue) ≡ n
    pub filled : tokens s.dequeue_semaphore + (holds_item t + items) ≡ length (elements s.queue)
    pub size : capacity s.queue ≡ n
    pub history : sent ≡ received ++ elements s.queue
    pub served : Served t

  module _ (n places items : ℕ) (sent received : List T) where
    abbrev pub After : Thread T → Option (Thread T × Shared Q S) → Type 0
    After t none = Unit
    After t (some r) =
        Account n places items (sent_after t sent) (received_after t r.0 received) r.0 r.1

    acquire_elim :
        (sm : S) (P : Option S → Type 0)
        → (tokens sm ≡ 0 → P none)
        → ((e : S) → suc (tokens e) ≡ tokens sm → P (some e))
        → P (acquire sm)
    acquire_elim sm P blocked granted = elim (Bool-cases (ltb 0 (tokens sm))) [
      | inl some_token ↦
          let (e, got, fewer) = acquire-some sm (ground arith) in
          subst P (sym got) (granted e fewer)
      | inr no_token ↦
          let zero_tokens : tokens sm ≡ 0 = ground arith in
          subst P (sym (acquire-none sm zero_tokens)) (blocked zero_tokens)
    ]

    place_granted :
        (t : Thread T) (x : T) (s : Shared Q S)
        → holds_place t ≡ 0
        → holds_item t ≡ 0
        → Account n places items sent received t s
        → (e : S) → suc (tokens e) ≡ tokens s.enqueue_semaphore
        → Account n places items sent received
            (Thread.writing x)
            (record s { enqueue_semaphore = e })
    place_granted t x s no_place no_item a e fewer = record {
      room = omega (arith, a.room, no_place);
      filled = omega (arith, a.filled, no_item);
      size = a.size;
      history = a.history;
      served = tt;
    }

    item_granted :
        (t : Thread T) (s : Shared Q S)
        → holds_place t ≡ 0
        → holds_item t ≡ 0
        → Account n places items sent received t s
        → (d : S) → suc (tokens d) ≡ tokens s.dequeue_semaphore
        → Account n places items sent received Thread.reading (record s { dequeue_semaphore = d })
    item_granted t s no_place no_item a d fewer = record {
      room = omega (arith, a.room, no_place);
      filled = omega (arith, a.filled, no_item);
      size = a.size;
      history = a.history;
      served = tt;
    }

    -- Every step keeps the account, whatever the thread does and the others hold.
    pub advance-Account :
        (t : Thread T) (s : Shared Q S)
        → Account n places items sent received t s
        → After t (advance ops sem t s)
    unfolding advance
    advance-Account (Thread.enqueuing x) s a =
        acquire_elim s.enqueue_semaphore
          (λ o. After (Thread.enqueuing x) (elim o [
            | some e ↦ some (Thread.writing x, record s { enqueue_semaphore = e })
            | none ↦ none
          ]))
          (λ e. tt) (place_granted (Thread.enqueuing x) x s refl refl a)
    advance-Account (Thread.trying_enqueue x) s a =
        acquire_elim s.enqueue_semaphore
          (λ o. After (Thread.trying_enqueue x) (elim o [
            | some e ↦ some (Thread.writing x, record s { enqueue_semaphore = e })
            | none ↦ some (Thread.not_enqueued, s)
          ]))
          (λ e. record {
            room = a.room;
            filled = a.filled;
            size = a.size;
            history = a.history;
            served = tt;
          })
          (place_granted (Thread.trying_enqueue x) x s refl refl a)
    advance-Account (Thread.writing x) s a =
        let (ok, more, kept) = write-room s.queue x (omega (arith, a.room, a.size)) in
        record {
          room = omega (arith, a.room, ap length more, length-append (elements s.queue) (x ∷ []));
          filled =
              omega (arith, a.filled, ap length more, length-append (elements s.queue) (x ∷ []));
          size = kept ∙ a.size;
          history =
              ap (λ xs. xs ++ x ∷ []) a.history
              ∙ (append_assoc received (elements s.queue) (x ∷ [])
                  ∙ ap (λ xs. received ++ xs) (sym more));
          served = tt;
        }
    advance-Account Thread.written s a = record {
      room = a.room;
      filled = omega (arith, a.filled, tokens-signal s.dequeue_semaphore);
      size = a.size;
      history = a.history;
      served = tt;
    }
    advance-Account Thread.dequeuing s a =
        acquire_elim s.dequeue_semaphore
          (λ o. After Thread.dequeuing (elim o [
            | some d ↦ some (Thread.reading, record s { dequeue_semaphore = d })
            | none ↦ none
          ]))
          (λ e. tt) (item_granted Thread.dequeuing s refl refl a)
    advance-Account Thread.trying_dequeue s a =
        acquire_elim s.dequeue_semaphore
          (λ o. After Thread.trying_dequeue (elim o [
            | some d ↦ some (Thread.reading, record s { dequeue_semaphore = d })
            | none ↦ some (Thread.not_dequeued, s)
          ]))
          (λ e. record {
            room = a.room;
            filled = a.filled;
            size = a.size;
            history = a.history;
            served = tt;
          })
          (item_granted Thread.trying_dequeue s refl refl a)
    advance-Account Thread.reading s a = elim (List-cases (elements s.queue)) [
      | inl empty ↦ absurd (omega (arith, a.filled, ap length empty))
      | inr (x, xs, full) ↦
          let (got, rest, kept) = read-some s.queue x xs full in
          let s' : Shared Q S = record s { queue = (read_if_not_empty s.queue).1 } in
          subst
            (λ o.
              Account n places items sent (received_after Thread.reading (Thread.taken o) received)
                (Thread.taken o) s')
            (sym got)
            (record {
              room = omega (arith, a.room, ap length full, ap length rest);
              filled = omega (arith, a.filled, ap length full, ap length rest);
              size = kept ∙ a.size;
              history =
                  a.history
                  ∙ (ap (λ ys. received ++ ys) (full ∙ ap (◌∷◌ x) (sym rest))
                      ∙ sym (append_assoc received (x ∷ []) (elements s'.queue)));
              served = tt;
            })
    ]
    advance-Account (Thread.taken none) s a = absurd a.served
    advance-Account (Thread.taken (some x)) s a = record {
      room = omega (arith, a.room, tokens-signal s.enqueue_semaphore);
      filled = a.filled;
      size = a.size;
      history = a.history;
      served = tt;
    }
    advance-Account Thread.enqueued s a = tt
    advance-Account Thread.not_enqueued s a = tt
    advance-Account (Thread.returned o) s a = tt
    advance-Account Thread.not_dequeued s a = tt
