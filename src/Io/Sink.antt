-- ===== src/Io/Sink.antt =====
-- `IoSink` (src/io/io_sink.h): requests that wait, and the loop that hands them on. A consumer
-- takes the request by reference, so its call returns the request as it leaves it, beside the new
-- state of the consumer; the completion is a pointer that is only passed on.
pub mod Order
use qstorage.Prelude.{ℕ, zero, suc, ◌+◌, Bool, true, false, List, [], ◌∷◌, ◌++◌}
use qstorage.Io.Request.Ops.{IoRequest}

-- `PendingIoRequest`
pub record Pending : Type 0 where
  pub req : IoRequest
  pub completion : ℕ

-- `pending_io_`, the front first
abbrev pub Sink : Type 0
Sink = List Pending

unfoldable pub submit : IoRequest → ℕ → Sink → Sink
submit req completion q = q ++ record { req = req; completion = completion } ∷ []

-- What one call of `consume` gives back
pub record Consumed (S : Type 0) : Type 0 where
  pub taken : Bool
  pub req : IoRequest
  pub state : S

-- What `Drain` gives back: `processed_count`, the queue that it leaves, and the consumer
pub record Drained (S : Type 0) : Type 0 where
  pub processed : ℕ
  pub queue : Sink
  pub state : S

module _ {S : Type 0} (consume : IoRequest → ℕ → S → Consumed S) where
  -- The `while` of `Drain`: each round looks at the front, and pops it if the consumer takes it. A
  -- request that is refused stays at the front, with what the consumer wrote into it.
  unfoldable pub drain_loop : ℕ → Sink → S → Drained S
  drain_loop count [] s = record { processed = count; queue = []; state = s }
  drain_loop count (p ∷ q) s =
      let c = consume p.req p.completion s in
      let rest = drain_loop (count + 1) q c.state in
      elim c.taken [
        | true ↦ rest
        | false ↦ record {
          processed = count;
          queue = record p { req = c.req } ∷ q;
          state = c.state;
        }
      ]

  unfoldable pub drain : Sink → S → Drained S
  unfolding drain_loop
  drain q s = drain_loop 0 q s
