-- ===== src/Io/Sink/Order.antt =====
-- `Drain` hands the requests on in the order of their submission, and loses none.
use qstorage.Prelude.{
  ℕ, ◌+◌, ◌≡◌, refl, ap, ◌⊎◌, inl, inr, true, false, List, [], ◌∷◌, ◌++◌, arith, length,
  length-append, Bool-cases,
}
use qstorage.Io.Request.Ops.{IoRequest}
use qstorage.Io.Sink.{Pending, Sink, Consumed, Drained, drain_loop, drain}

module _ {S : Type 0} (consume : IoRequest → ℕ → S → Consumed S) where
  -- The consumer takes these requests, one after the other, and goes from `s` to `t`.
  pub data Takes : S → List Pending → S → Type 0 where
    none : {s : S} → Takes s [] s
    next :
        {s t : S} {p : Pending} {q : List Pending}
        → (consume p.req p.completion s).taken ≡ true
        → Takes (consume p.req p.completion s).state q t
        → Takes s (p ∷ q) t

  -- The consumer, in state `s`, refuses the front of the queue; this is what the loop leaves.
  abbrev pub Refuses : S → Pending → List Pending → Drained S → Type 0
  Refuses s p q d =
      let c = consume p.req p.completion s in
      (c.taken ≡ false) × (d.queue ≡ record p { req = c.req } ∷ q) × (d.state ≡ c.state)

  -- How a run over the queue `q` from state `s` ends: the requests `done` are taken, and then
  -- the queue is empty or its front is refused.
  pub record Ends (count : ℕ) (q : Sink) (s : S) (d : Drained S) : Type 0 where
    pub done : List Pending
    pub reached : S
    pub takes : Takes s done reached
    pub counted : d.processed ≡ count + length done
    pub last :
        ((q ≡ done) × (d.queue ≡ []) × (d.state ≡ reached))
        ⊎ ((p : Pending) × (rest : List Pending) × (q ≡ done ++ p ∷ rest)
            × Refuses reached p rest d)

  Ends-next :
      (count : ℕ) (p : Pending) (q : Sink) (s : S) (d : Drained S)
      → (consume p.req p.completion s).taken ≡ true
      → Ends (count + 1) q (consume p.req p.completion s).state d
      → Ends count (p ∷ q) s d
  Ends-next count p q s d took e = record {
    done = p ∷ e.done;
    reached = e.reached;
    takes = next took e.takes;
    counted = omega (arith, e.counted);
    last = elim e.last [
      | inl (all, empty, state) ↦ inl (ap (◌∷◌ p) all, empty, state)
      | inr (p', rest, split, refuses) ↦ inr (p', rest, ap (◌∷◌ p) split, refuses)
    ];
  }

  drain_loop-Ends : (count : ℕ) (q : Sink) (s : S) → Ends count q s (drain_loop consume count q s)
  unfolding drain_loop
  drain_loop-Ends count [] s = record {
    done = [];
    reached = s;
    takes = none;
    counted = omega arith;
    last = inl (refl, refl, refl);
  }
  drain_loop-Ends count (p ∷ q) s = elim (Bool-cases (consume p.req p.completion s).taken) [
    | inl took ↦
        rw (took, drain_loop)
          (Ends-next count p q s _ took
            (drain_loop-Ends (count + 1) q (consume p.req p.completion s).state))
    | inr refused ↦
        rw (refused, drain_loop)
          (record {
            done = [];
            reached = s;
            takes = none;
            counted = omega arith;
            last = inr (p, q, refl, (refused, refl, refl));
          })
  ]

  -- `Drain` hands a prefix of the queue to the consumer, in order, each request once, until the
  -- queue is empty or the consumer refuses one; it returns the length of that prefix and leaves
  -- the rest, the refused request in front as the consumer left it.
  pub drain-Ends : (q : Sink) (s : S) → Ends 0 q s (drain consume q s)
  unfolding drain
  drain-Ends q s = drain_loop-Ends 0 q s

  -- No request is lost: those handed on and those that still wait are as many as there were.
  pub length-drain :
      (q : Sink) (s : S)
      → (drain consume q s).processed + length (drain consume q s).queue ≡ length q
  length-drain q s =
      let ends = drain-Ends q s in
      let tally = length-append {A = Pending} ends.done in
      elim ends.last [
        | inl (all, empty, state) ↦ omega (arith, ends.counted, ap length all, ap length empty)
        | inr (p, rest, split, (refused, queue, state)) ↦
            omega (arith, ends.counted, ap length split, ap length queue, tally (p ∷ rest))
      ]
