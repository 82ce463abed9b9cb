-- ===== src/Infra/IoUring/Tests.antt =====
-- The parameter of `CoIoUring` (src/infra/io_uring.h) by concrete functions: a ring of four entries
-- that accepts what is submitted at once, and completes it in order; and a run on it.
use mathlib.Core.Path.{subst}
use qstorage.Infra.IoUring.Turns.{round-Turn}
use mathlib.Core.Option.{some-injective}
use qstorage.Prelude.{
  inl, inr, append_assoc, take-append-drop, take, ℕ, ◌<◌, ◌≤◌, ◌≡◌, refl, sym, ap, ◌∙◌, arith, none,
  some, List, [], ◌∷◌, ◌++◌, length, drop, All, ltb, if◌then◌else◌, if_true,
}
use qstorage.Infra.IoUring.{
  Sqe, Cqe, posts, sent, RingOps, Loop, round, run_round, co_io_uring, submit,
}
use qstorage.Infra.IoUring.Runs.{Reach-IsSound, Reach, starts, submits, turns}

-- Each entry completes with its size.
abbrev completions : List Sqe → List (Cqe ℕ)
completions [] = []
completions (e ∷ es) = record { user_data = e.user_data; res = e.size } ∷ completions es

record ListRing : Type 0 where
  filled : List Sqe
  done : List Sqe
  read : List (Cqe ℕ)
  unread : List (Cqe ℕ)
  balance : read ++ unread ≡ completions done

completions-append : (es fs : List Sqe) → completions (es ++ fs) ≡ completions es ++ completions fs
completions-append [] fs = refl
completions-append (e ∷ es) fs =
    ap (◌∷◌ (record { user_data = e.user_data; res = e.size })) (completions-append es fs)

abbrev submitted : ListRing → ListRing
submitted r = record {
  filled = [];
  done = r.done ++ r.filled;
  read = r.read;
  unread = r.unread ++ completions r.filled;
  balance =
      sym (append_assoc r.read r.unread (completions r.filled))
      ∙ (ap (λ cs. cs ++ completions r.filled) r.balance
          ∙ sym (completions-append r.done r.filled));
}

abbrev advanced : ListRing → ℕ → ListRing
advanced r n = record {
  filled = r.filled;
  done = r.done;
  read = r.read ++ take n r.unread;
  unread = drop n r.unread;
  balance =
      append_assoc r.read (take n r.unread) (drop n r.unread)
      ∙ (ap (λ cs. r.read ++ cs) (take-append-drop n r.unread) ∙ r.balance);
}

posts-completions : (a : ℕ) (es : List Sqe) → posts a (completions es) ≡ sent a es
posts-completions a [] = refl
posts-completions a (e ∷ es) = omega (arith, posts-completions a es)

posts-more : (a : ℕ) (cs ds : List (Cqe ℕ)) → posts a cs ≤ posts a (cs ++ ds)
posts-more a [] ds = omega arith
posts-more a (c ∷ cs) ds = omega (arith, posts-more a cs ds)

All-completions :
    (P : ℕ → Type 0) (es : List Sqe)
    → All (λ (e : Sqe). P e.user_data) es
    → All (λ (q : Cqe ℕ). P q.user_data) (completions es)
All-completions P [] h = tt
All-completions P (e ∷ es) h = (h.0, All-completions P es h.1)

All-unread :
    (P : ℕ → Type 0) (cs ds : List (Cqe ℕ))
    → All (λ (q : Cqe ℕ). P q.user_data) (cs ++ ds)
    → All (λ (q : Cqe ℕ). P q.user_data) ds
All-unread P [] ds h = h
All-unread P (c ∷ cs) ds h = All-unread P cs ds h.1

drop-every : (xs : List Sqe) → drop (length xs) xs ≡ []
drop-every [] = refl
drop-every (x ∷ xs) = drop-every xs

take-every : (xs : List Sqe) → take (length xs) xs ≡ xs
take-every [] = refl
take-every (x ∷ xs) = ap (◌∷◌ x) (take-every xs)

push-eq :
    (r : ListRing) (e : Sqe)
    → length r.filled < 4
    → (if ltb (length r.filled) 4 then some (record r { filled = r.filled ++ e ∷ [] }) else none)
      ≡ some (record r { filled = r.filled ++ e ∷ [] })
push-eq r e h =
    if_true (ltb (length r.filled) 4) (some (record r { filled = r.filled ++ e ∷ [] })) none
      (ground arith)

abbrev ring_ops : RingOps ℕ ListRing
ring_ops = record {
  ring_entries = λ r. 4;
  ktail = λ r. 0;
  khead = λ r. 0;
  pending = λ r. r.filled;
  accepted = λ r. r.done;
  ready = λ r. r.unread;
  consumed = λ r. r.read;
  push = λ r e.
      if ltb (length r.filled) 4 then some (record r { filled = r.filled ++ e ∷ [] }) else none;
  submit_entries = λ r. (some (length r.filled), submitted r);
  cq_advance = advanced;
  push-room = λ r e h. (
    record r { filled = r.filled ++ e ∷ [] },
    push-eq r e h,
    refl,
    refl,
    refl,
    refl,
    refl,
    refl,
    λ a. omega arith,
  );
  submit_entries-pending = λ r n e.
      let whole : n ≡ length r.filled = sym (some-injective _ _ e) in
      (
        omega (arith, whole),
        sym (ap (λ k. drop k r.filled) whole ∙ drop-every r.filled),
        ap (λ k. r.done ++ k) (sym (ap (λ k. take k r.filled) whole ∙ take-every r.filled)),
        refl,
        λ a. omega (arith, posts-more a r.unread (completions r.filled)),
      );
  cq_advance-ready = λ r n. (refl, refl, refl, refl);
  ready-accepted = λ P r h.
      All-unread P r.read r.unread
        (subst (All (λ (q : Cqe ℕ). P q.user_data)) (sym r.balance) (All-completions P r.done h));
  ready-once = λ r a. omega (arith, ap (posts a) r.balance, posts-completions a r.done);
}

-- Two requests wait in the queue.
abbrev two : Loop ℕ ListRing
two = record {
  queue = 64 ∷ 128 ∷ [];
  ring = record { filled = []; done = []; read = []; unread = []; balance = refl };
  requests =
      λ a. record { op_code = 23; fd = 3; addr = a; size = 512; offset = 0; res = 0; posted = 0 };
}

-- Two requests are submitted, and two rounds follow.
abbrev empty_loop : Loop ℕ ListRing
empty_loop = record two { queue = [] }

abbrev both_wait : Loop ℕ ListRing
both_wait = submit ring_ops (submit ring_ops empty_loop 64) 128

both_submitted : Reach ring_ops both_wait (64 ∷ 128 ∷ [])
both_submitted =
    submits (submit ring_ops empty_loop 64) (64 ∷ []) 128
      (submits empty_loop [] 64
        (starts empty_loop.ring empty_loop.requests refl refl refl (λ a. refl)) (omega arith))
      (omega arith)

-- A round after any run
abbrev Next : Loop ℕ ListRing → Type 0
Next l = (l' : Loop ℕ ListRing) × (round ring_ops l ≡ some l')

next_round : (l : Loop ℕ ListRing) (s : List ℕ) → Reach ring_ops l s → Next l
next_round l s r = elim (round-Turn ring_ops l (Reach-IsSound ring_ops l s r)) [
  | inl (l', cs, run, turn) ↦ (l', run)
  | inr (stops, less) ↦ absurd (less.short (ap some less.all_pending))
]

abbrev first_round : Next both_wait
first_round = next_round both_wait (64 ∷ 128 ∷ []) both_submitted

first_reached : Reach ring_ops first_round.0 (64 ∷ 128 ∷ [])
first_reached = turns both_wait first_round.0 (64 ∷ 128 ∷ []) both_submitted first_round.1

abbrev second_round : Next first_round.0
second_round = next_round first_round.0 (64 ∷ 128 ∷ []) first_reached

-- With the `ring_` of the constructor a round does not even begin.
null_ring : run_round ring_ops (co_io_uring two.requests) ≡ none
unfolding run_round
null_ring = refl
