-- ===== src/Infra/IoUring.antt =====
-- `CoIoUring` of src/infra/io_uring.h and io_uring.cc: a round of `runLoop`. liburing is a
-- parameter with its documented laws. The bounded queue is the list of the requests in it, by their
-- addresses; the loop is its only consumer, so that `dequeue` does not block while `size` is not
-- zero. A round reads the completions that are ready when it gets to them.
pub mod Round
pub mod Turns
pub mod Runs
pub mod Posts
mod Tests
use mathlib.Core.Option
use qstorage.Prelude.{
  ℕ, zero, suc, ◌+◌, ◌<◌, ◌≤◌, ◌≡◌, min, Bool, true, false, ◌&&◌, Option, none, some, List, [], ◌∷◌,
  ◌++◌, length, take, drop, All, ◌==◌, if◌then◌else◌, ltb,
}
use qstorage.Prelude.Words.{sub32}

-- `infra::IoRequest`; `posted` counts the posts of its baton.
pub record RingRequest (Res : Type 0) : Type 0 where
  pub op_code : ℕ
  pub fd : ℕ
  pub addr : ℕ
  pub size : ℕ
  pub offset : ℕ
  pub res : Res
  pub posted : ℕ

-- What `io_uring_prep_rw` and `io_uring_sqe_set_data` write
pub record Sqe : Type 0 where
  pub op_code : ℕ
  pub fd : ℕ
  pub addr : ℕ
  pub size : ℕ
  pub offset : ℕ
  pub user_data : ℕ

pub record Cqe (Res : Type 0) : Type 0 where
  pub user_data : ℕ
  pub res : Res

-- How many of the completions are for a request
abbrev pub posts : {Res : Type 0} → ℕ → List (Cqe Res) → ℕ
posts a [] = 0
posts a (c ∷ cs) = (if c.user_data == a then 1 else 0) + posts a cs

-- How many of the entries are for a request
abbrev pub sent : ℕ → List Sqe → ℕ
sent a [] = 0
sent a (e ∷ es) = (if e.user_data == a then 1 else 0) + sent a es

-- `struct io_uring`. `ring_entries`, `ktail` and `khead` are the words that the kernel shares,
-- `pending` the entries that have been filled and not submitted, `accepted` those submitted so far,
-- `ready` the completions that have not been consumed, and `consumed` the others so far.
pub record RingOps (Res R : Type 0) : Type 1 where
  pub ring_entries : R → ℕ
  pub ktail : R → ℕ
  pub khead : R → ℕ
  pub pending : R → List Sqe
  pub accepted : R → List Sqe
  pub ready : R → List (Cqe Res)
  pub consumed : R → List (Cqe Res)
  -- `io_uring_get_sqe` with the writes to the entry, `none` where it gives a null pointer
  pub push : R → Sqe → Option R
  -- `io_uring_submit`: how many entries it has submitted, or `none` for a negative error number
  pub submit_entries : R → Option ℕ × R
  -- `io_uring_cq_advance`
  pub cq_advance : R → ℕ → R
  pub push-room :
      (r : R) (e : Sqe)
      → length (pending r) < sub32 (ring_entries r) (sub32 (ktail r) (khead r))
      → (r' : R) × (push r e ≡ some r')
        × (pending r' ≡ pending r ++ e ∷ [])
        × (accepted r' ≡ accepted r)
        × (ring_entries r' ≡ ring_entries r)
        × (ktail r' ≡ ktail r)
        × (khead r' ≡ khead r)
        × (consumed r' ≡ consumed r)
        × ((a : ℕ) → posts a (ready r) ≤ posts a (ready r'))
  -- It may submit fewer entries than there are, the first ones; nothing is said of a call that
  -- fails.
  pub submit_entries-pending :
      (r : R) (n : ℕ)
      → (submit_entries r).0 ≡ some n
      → (n ≤ length (pending r))
        × (pending (submit_entries r).1 ≡ drop n (pending r))
        × (accepted (submit_entries r).1 ≡ accepted r ++ take n (pending r))
        × (consumed (submit_entries r).1 ≡ consumed r)
        × ((a : ℕ) → posts a (ready r) ≤ posts a (ready (submit_entries r).1))
  pub cq_advance-ready :
      (r : R) (n : ℕ)
      → (ready (cq_advance r n) ≡ drop n (ready r))
        × (pending (cq_advance r n) ≡ pending r)
        × (accepted (cq_advance r n) ≡ accepted r)
        × (consumed (cq_advance r n) ≡ consumed r ++ take n (ready r))
  -- A completion carries the user data of an entry that was submitted.
  pub ready-accepted :
      (P : ℕ → Type 0) (r : R)
      → All (λ (e : Sqe). P e.user_data) (accepted r)
      → All (λ (c : Cqe Res). P c.user_data) (ready r)
  -- An entry has at most one completion.
  pub ready-once : (r : R) (a : ℕ) → posts a (consumed r ++ ready r) ≤ sent a (accepted r)

-- `CoIoUring`; `ring_` is a pointer, `none` for null.
pub record CoIoUring (Res R : Type 0) : Type 0 where
  pub queue : List ℕ
  pub ring : Option R
  pub requests : ℕ → RingRequest Res

-- The constructor. The source has no function that sets `ring_`.
abbrev pub co_io_uring : {Res R : Type 0} → (ℕ → RingRequest Res) → CoIoUring Res R
co_io_uring requests = record { queue = []; ring = none; requests = requests }

-- The state of `runLoop` where `ring_` points to a ring
pub record Loop (Res R : Type 0) : Type 0 where
  pub queue : List ℕ
  pub ring : R
  pub requests : ℕ → RingRequest Res

-- `OpCode`, with the numbers of <linux/io_uring.h>
pub data OpCode : Type 0 where
  op_read op_write : OpCode

abbrev pub op_code_value : OpCode → ℕ
op_code_value op_read = 22
op_code_value op_write = 23

abbrev pub max_submits : ℕ
max_submits = 5

module _ {Res R : Type 0} (ops : RingOps Res R) where
  open ops use {ring_entries, ktail, khead, ready, push, submit_entries, cq_advance}

  -- `SqSpace`
  abbrev pub sq_space : R → ℕ
  sq_space r = sub32 (ring_entries r) (sub32 (ktail r) (khead r))

  abbrev pub sqe_of : (ℕ → RingRequest Res) → ℕ → Sqe
  sqe_of requests io = record {
    op_code = (requests io).op_code;
    fd = (requests io).fd;
    addr = (requests io).addr;
    size = (requests io).size;
    offset = (requests io).offset;
    user_data = io;
  }

  -- The `for` of `runLoop`: `none` for a null entry, or a queue without requests
  unfoldable pub fill : ℕ → List ℕ → R → (ℕ → RingRequest Res) → Option (List ℕ × R)
  fill zero q r requests = some (q, r)
  fill (suc n) [] r requests = none
  fill (suc n) (io ∷ q) r requests = elim (push r (sqe_of requests io)) [
    | none ↦ none
    | some r' ↦ fill n q r' requests
  ]

  -- `processComplete`
  unfoldable pub process_complete : (ℕ → RingRequest Res) → ℕ → Res → Option (ℕ → RingRequest Res)
  process_complete requests req res =
      let old = requests req in
      let new : RingRequest Res = record old { res = res; posted = suc old.posted } in
      if req == 0 then none else some (λ a. if req == a then new else requests a)

  -- `io_uring_for_each_cqe`
  unfoldable pub complete_all :
      (ℕ → RingRequest Res) → List (Cqe Res) → Option (ℕ → RingRequest Res)
  unfolding process_complete
  complete_all requests [] = some requests
  complete_all requests (c ∷ cs) = elim (process_complete requests c.user_data c.res) [
    | none ↦ none
    | some requests' ↦ complete_all requests' cs
  ]

  -- The rest of a round, behind the submission
  unfoldable pub complete_round : List ℕ → R → (ℕ → RingRequest Res) → Option (Loop Res R)
  unfolding complete_all
  complete_round q r requests = elim (complete_all requests (ready r)) [
    | none ↦ none
    | some requests' ↦
        some (record { queue = q; ring = cq_advance r (length (ready r)); requests = requests' })
  ]

  -- What follows the submission: the assertion, that as many entries were submitted as were filled
  unfoldable pub after_submit :
      (len : ℕ) → List ℕ → Option ℕ × R → (ℕ → RingRequest Res) → Option (Loop Res R)
  unfolding complete_round
  after_submit len q (none, r) requests = none
  after_submit len q (some ret, r) requests =
      if ret == len then complete_round q r requests else none

  unfoldable pub submit_filled : ℕ → List ℕ × R → (ℕ → RingRequest Res) → Option (Loop Res R)
  unfolding after_submit
  submit_filled len (q, r) requests = after_submit len q (submit_entries r) requests

  -- `submit`, once the queue has room: the request is behind those that wait.
  unfoldable pub submit : Loop Res R → ℕ → Loop Res R
  submit l req = record l { queue = l.queue ++ req ∷ [] }

  -- `CqReadyCount`, of which liburing says how many completions are ready
  abbrev pub cq_ready_count : R → ℕ
  cq_ready_count r = length (ready r)

  -- A round of `runLoop`; an idle one sleeps.
  unfoldable pub round : Loop Res R → Option (Loop Res R)
  unfolding fill submit_filled
  round l =
      let ioc = length l.queue in
      let len = min (min ioc (sq_space l.ring)) max_submits in
      let submitted : Option (Loop Res R) = elim (fill len l.queue l.ring l.requests) [
        | none ↦ none
        | some f ↦ submit_filled len f l.requests
      ] in
      let busy = if ltb 0 ioc then submitted else complete_round l.queue l.ring l.requests in
      if (ioc == 0) && (cq_ready_count l.ring == 0) then some l else busy

  abbrev pub with_ring : Loop Res R → CoIoUring Res R
  with_ring l = record { queue = l.queue; ring = some l.ring; requests = l.requests }

  -- A round of `runLoop` on the object: a null `ring_` is dereferenced at once.
  unfoldable pub run_round : CoIoUring Res R → Option (CoIoUring Res R)
  unfolding round
  run_round c = elim c.ring [
    | none ↦ none
    | some r ↦
        Option.map with_ring (round (record { queue = c.queue; ring = r; requests = c.requests }))
  ]
