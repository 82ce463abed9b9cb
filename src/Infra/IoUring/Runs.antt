-- ===== src/Infra/IoUring/Runs.antt =====
-- `CoIoUring` of src/infra/io_uring.h and io_uring.cc over time: callers submit requests, the
-- kernel takes entries and gives completions, and `runLoop` makes its rounds, in any order. A
-- request that is submitted during a round comes behind all that the round takes, and counts as
-- submitted after it.
use mathlib.Core.Option
use mathlib.Core.Option.{none-ne-some}
use mathlib.Core.Path.{subst}
use qstorage.Prelude.{
  ℕ, suc, ◌+◌, ◌<◌, ◌≡◌, ◌≢◌, refl, sym, ap, ap₂, ◌∙◌, min, Option, none, some, List, [], ◌∷◌, ◌++◌,
  append_assoc, take-append-drop, length, take, drop, All, All-append, inl, inr,
}
use qstorage.Infra.IoUring.{
  RingRequest, Sqe, Cqe, RingOps, Loop, max_submits, sq_space, submit, round, run_round, with_ring,
}
use qstorage.Infra.IoUring.Round.{IsSound, Turn, entries}
use qstorage.Infra.IoUring.Turns.{taken, round-Turn}

-- The requests of entries
abbrev pub requests_of : List Sqe → List ℕ
requests_of [] = []
requests_of (e ∷ es) = e.user_data ∷ requests_of es

requests_of-append : (es fs : List Sqe) → requests_of (es ++ fs) ≡ requests_of es ++ requests_of fs
requests_of-append [] fs = refl
requests_of-append (e ∷ es) fs = ap (◌∷◌ e.user_data) (requests_of-append es fs)

module _ {Res R : Type 0} (ops : RingOps Res R) where
  open ops use {pending, accepted, ready, consumed}

  -- What callers and the kernel do between two rounds: callers write to their requests; the kernel
  -- consumes entries of the submission queue and adds completions. Only the loop posts to batons.
  abbrev pub changed : Loop Res R → R → (ℕ → RingRequest Res) → Loop Res R
  changed l ring requests = record { queue = l.queue; ring = ring; requests = requests }

  pub record Kept (l : Loop Res R) (ring : R) (requests : ℕ → RingRequest Res) : Type 0 where
    pub pending : pending ring ≡ pending l.ring
    pub accepted : accepted ring ≡ accepted l.ring
    pub consumed : consumed ring ≡ consumed l.ring
    pub posted : (a : ℕ) → (requests a).posted ≡ (l.requests a).posted

  -- What the loop comes to, with the requests submitted so far
  pub data Reach : Loop Res R → List ℕ → Type 0 where
    starts :
        (ring : R) (requests : ℕ → RingRequest Res)
        → pending ring ≡ []
        → accepted ring ≡ []
        → consumed ring ≡ []
        → ((a : ℕ) → (requests a).posted ≡ 0)
        → Reach (record { queue = []; ring = ring; requests = requests }) []
    submits :
        (l : Loop Res R) (s : List ℕ) (req : ℕ)
        → Reach l s
        → req ≢ 0
        → Reach (submit ops l req) (s ++ req ∷ [])
    changes :
        (l : Loop Res R) (s : List ℕ) (ring : R) (requests : ℕ → RingRequest Res)
        → Reach l s
        → Kept l ring requests
        → Reach (changed l ring requests) s
    turns : (l l' : Loop Res R) (s : List ℕ) → Reach l s → round ops l ≡ some l' → Reach l' s

  -- The kernel has accepted the requests that were submitted first, in order, and the others wait.
  abbrev pub Fifo : Loop Res R → List ℕ → Type 0
  Fifo l s = requests_of (accepted l.ring) ++ l.queue ≡ s

  requests_of-entries :
      (requests : ℕ → RingRequest Res) (q : List ℕ) → requests_of (entries ops requests q) ≡ q
  requests_of-entries requests [] = refl
  requests_of-entries requests (io ∷ q) = ap (◌∷◌ io) (requests_of-entries requests q)

  Turn-Fifo :
      (n : ℕ) (l l' : Loop Res R) (cs : List (Cqe Res)) (s : List ℕ)
      → Turn ops n l l' cs
      → Fifo l s
      → Fifo l' s
  Turn-Fifo n l l' cs s turn fifo =
      let before = requests_of (accepted l.ring) in
      let sent : requests_of (accepted l'.ring) ≡ before ++ take n l.queue =
        ap requests_of turn.sent
        ∙ (requests_of-append (accepted l.ring) (entries ops l.requests (take n l.queue))
            ∙ ap (λ q. before ++ q) (requests_of-entries l.requests (take n l.queue))) in
      ap₂ (λ xs ys. xs ++ ys) sent turn.rest
      ∙ (append_assoc before (take n l.queue) (drop n l.queue)
          ∙ (ap (λ q. before ++ q) (take-append-drop n l.queue) ∙ fifo))

  abbrev TurnTo : Loop Res R → Option (Loop Res R) → Type 0
  TurnTo l none = Unit
  TurnTo l (some k) = (cs : List (Cqe Res)) × Turn ops (taken ops l) l k cs

  -- A round that gives `l'` does what `round-Turn` says of it.
  pub Turn-of :
      (l l' : Loop Res R)
      → IsSound ops l
      → round ops l ≡ some l'
      → (cs : List (Cqe Res)) × Turn ops (taken ops l) l l' cs
  Turn-of l l' sound e = elim (round-Turn ops l sound) [
    | inl (k, cs, run, turn) ↦ subst (TurnTo l) (sym run ∙ e) (cs, turn)
    | inr (stops, short) ↦ absurd (none-ne-some _ (sym stops ∙ e))
  ]

  submit-IsSound :
      (l : Loop Res R) (req : ℕ) → IsSound ops l → req ≢ 0 → IsSound ops (submit ops l req)
  unfolding submit
  submit-IsSound l req sound some_req = record {
    settled = sound.settled;
    queued = All-append _ l.queue (req ∷ []) sound.queued (some_req, tt);
    submitted = sound.submitted;
  }

  pub changed-IsSound :
      (l : Loop Res R) (ring : R) (requests : ℕ → RingRequest Res)
      → IsSound ops l
      → Kept l ring requests
      → IsSound ops (changed l ring requests)
  changed-IsSound l ring requests sound kept = record {
    settled = kept.pending ∙ sound.settled;
    queued = sound.queued;
    submitted = subst (All (λ (e : Sqe). e.user_data ≢ 0)) (sym kept.accepted) sound.submitted;
  }

  pub Reach-IsSound : (l : Loop Res R) (s : List ℕ) → Reach l s → IsSound ops l
  Reach-IsSound _ _ (starts ring requests p a c z) = record {
    settled = p;
    queued = tt;
    submitted = subst (All (λ (e : Sqe). e.user_data ≢ 0)) (sym a) tt;
  }
  Reach-IsSound _ _ (submits l s req r some_req) =
      submit-IsSound l req (Reach-IsSound l s r) some_req
  Reach-IsSound _ _ (changes l s ring requests r kept) =
      changed-IsSound l ring requests (Reach-IsSound l s r) kept
  Reach-IsSound _ _ (turns l l' s r e) = (Turn-of l l' (Reach-IsSound l s r) e).1.sound

  submit-Fifo :
      (l : Loop Res R) (s : List ℕ) (req : ℕ) → Fifo l s → Fifo (submit ops l req) (s ++ req ∷ [])
  unfolding submit
  submit-Fifo l s req fifo =
      sym (append_assoc (requests_of (accepted l.ring)) l.queue (req ∷ []))
      ∙ ap (λ q. q ++ req ∷ []) fifo

  pub Reach-Fifo : (l : Loop Res R) (s : List ℕ) → Reach l s → Fifo l s
  Reach-Fifo _ _ (starts ring requests p a c z) = ap (λ es. requests_of es ++ []) a
  Reach-Fifo _ _ (submits l s req r some_req) = submit-Fifo l s req (Reach-Fifo l s r)
  Reach-Fifo _ _ (changes l s ring requests r kept) =
      ap (λ es. requests_of es ++ l.queue) kept.accepted ∙ Reach-Fifo l s r
  Reach-Fifo _ _ (turns l l' s r e) =
      let (cs, turn) = Turn-of l l' (Reach-IsSound l s r) e in
      Turn-Fifo (taken ops l) l l' cs s turn (Reach-Fifo l s r)

  -- What the next round does to the loop that does not stop at its assertion
  abbrev pub Advances : Loop Res R → List ℕ → Type 0
  Advances l s =
      (l' : Loop Res R) × (run_round ops (with_ring ops l) ≡ some (with_ring ops l'))
      × Fifo l' s
      × (ready l'.ring ≡ [])
      × (length l'.queue + min (min (length l.queue) (sq_space ops l.ring)) max_submits
          ≡ length l.queue)

  -- Rounds that do not stop at their assertion and of which each finds space in the submission
  -- queue, without submissions between them
  pub data Rounds : ℕ → Loop Res R → Loop Res R → Type 0 where
    no_more : (l : Loop Res R) → Rounds 0 l l
    one_more :
        (n : ℕ) (l m l' : Loop Res R) (ring : R) (requests : ℕ → RingRequest Res)
        → Rounds n l m
        → Kept m ring requests
        → 0 < sq_space ops ring
        → round ops (changed m ring requests) ≡ some l'
        → Rounds (suc n) l l'
