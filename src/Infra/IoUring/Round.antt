-- ===== src/Infra/IoUring/Round.antt =====
-- A round of `CoIoUring::runLoop` (src/infra/io_uring.h).
use mathlib.Core.Path.{subst}
use mathlib.Core.Option.{some-injective, none-ne-some}
use qstorage.Prelude.{
  ℕ, zero, suc, ◌+◌, ◌≤◌, ◌≡◌, ◌≢◌, refl, sym, ap, ap₂, ◌∙◌, arith, Bool-cases, inl, inr, ◌⊎◌,
  Option, none, some, List, [], ◌∷◌, ◌++◌, append-nil, append_assoc, length, length-append, take,
  drop, All, All-append, ◌==◌, if◌then◌else◌, if_true, if_false,
}
use qstorage.Infra.IoUring.{
  RingRequest, Sqe, Cqe, posts, RingOps, Loop, sq_space, sqe_of, fill, process_complete,
  complete_all, complete_round, submit_filled, after_submit,
}

module _ {Res : Type 0} where
  -- Each request gets a post for each of its completions.
  abbrev pub Posted : (ℕ → RingRequest Res) → List (Cqe Res) → (ℕ → RingRequest Res) → Type 0
  Posted before cs after = (a : ℕ) → (after a).posted ≡ (before a).posted + posts a cs

module _ {Res : Type 0} where
  posted_one :
      (requests : ℕ → RingRequest Res) (c : Cqe Res) (a : ℕ)
      → (if c.user_data == a
          then record (requests c.user_data) {
            res = c.res;
            posted = suc (requests c.user_data).posted;
          }
          else requests a).posted
        ≡ (requests a).posted + (if c.user_data == a then 1 else 0)
  posted_one requests c a =
      let u = c.user_data in
      let old = requests u in
      let new : RingRequest Res = record old { res = c.res; posted = suc old.posted } in
      elim (Bool-cases (u == a)) [
        | inl e ↦
            let same : u ≡ a = ground arith in
            let hit =
              ap (λ (r : RingRequest Res). r.posted) (if_true (u == a) new (requests a) e) in
            let one = if_true {A = ℕ} (u == a) 1 0 e in
            omega (arith, hit, one, ap (λ k. (requests k).posted) same)
        | inr e ↦
            let miss =
              ap (λ (r : RingRequest Res). r.posted) (if_false (u == a) new (requests a) e) in
            let none_here = if_false {A = ℕ} (u == a) 1 0 e in omega (arith, miss, none_here)
      ]

module _ {Res R : Type 0} (ops : RingOps Res R) where
  -- The entries of requests
  abbrev pub entries : (ℕ → RingRequest Res) → List ℕ → List Sqe
  entries requests [] = []
  entries requests (io ∷ q) = sqe_of ops requests io ∷ entries requests q

  open ops use {
    ring_entries, ktail, khead, pending, accepted, ready, consumed, push, submit_entries,
    cq_advance, push-room, submit_entries-pending, cq_advance-ready, ready-accepted,
  }

  complete_all-Posted :
      (requests : ℕ → RingRequest Res) (cs : List (Cqe Res))
      → All (λ (c : Cqe Res). c.user_data ≢ 0) cs
      → (after : ℕ → RingRequest Res) × (complete_all ops requests cs ≡ some after)
        × Posted requests cs after
  unfolding complete_all
  complete_all-Posted requests [] h = (requests, refl, λ a. omega arith)
  complete_all-Posted requests (c ∷ cs) h =
      let old = requests c.user_data in
      let new : RingRequest Res = record old { res = c.res; posted = suc old.posted } in
      let next : ℕ → RingRequest Res = λ a. if c.user_data == a then new else requests a in
      let e : process_complete ops requests c.user_data c.res ≡ some next =
        if_false (c.user_data == 0) none (some next) (ground (arith, h.0)) in
      let (after, run, more) = complete_all-Posted next cs h.1 in
      (
        after,
        ap
              (λ (o : Option (ℕ → RingRequest Res)). elim o [
                | none ↦ none
                | some k ↦ complete_all ops k cs
              ])
              e
            ∙ run,
        λ a. omega (arith, more a, posted_one requests c a),
      )

  fill-entries :
      (n : ℕ) (q : List ℕ) (r : R) (requests : ℕ → RingRequest Res)
      → n ≤ length q
      → length (pending r) + n ≤ sq_space ops r
      → (r' : R) × (fill ops n q r requests ≡ some (drop n q, r'))
        × (pending r' ≡ pending r ++ entries requests (take n q))
        × (accepted r' ≡ accepted r)
        × (consumed r' ≡ consumed r)
        × ((a : ℕ) → posts a (ready r) ≤ posts a (ready r'))
  unfolding fill
  fill-entries zero q r requests h room =
      (r, refl, sym (append-nil (pending r)), refl, refl, λ a. omega arith)
  fill-entries (suc n) [] r requests h room = absurd (omega arith)
  fill-entries (suc n) (io ∷ q) r requests h room =
      let e = sqe_of ops requests io in
      let (r1, pushed, p, a, en, kt, kh, c, more) = push-room r e (omega arith) in
      let space : sq_space ops r1 ≡ sq_space ops r = rw (en, kt, kh) refl in
      let (r', run, p', a', c', more') =
        fill-entries n q r1 requests (omega arith)
          (omega (arith, space, ap length p, length-append (pending r) (e ∷ []))) in
      (
        r',
        ap (λ (o : Option R). elim o [ none ↦ none | some k ↦ fill ops n q k requests ]) pushed
            ∙ run,
        p'
            ∙ (ap (λ xs. xs ++ entries requests (take n q)) p
                ∙ append_assoc (pending r) (e ∷ []) (entries requests (take n q))),
        a' ∙ a,
        c' ∙ c,
        λ k. omega (arith, more k, more' k),
      )

  -- Nothing is filled between two rounds, and no request is at the null pointer.
  pub record IsSound (l : Loop Res R) : Type 0 where
    pub settled : pending l.ring ≡ []
    pub queued : All (λ io. io ≢ 0) l.queue
    pub submitted : All (λ (e : Sqe). e.user_data ≢ 0) (accepted l.ring)

  entries-NonNull :
      (requests : ℕ → RingRequest Res) (q : List ℕ)
      → All (λ io. io ≢ 0) q
      → All (λ (e : Sqe). e.user_data ≢ 0) (entries requests q)
  entries-NonNull requests [] h = tt
  entries-NonNull requests (io ∷ q) h = (h.0, entries-NonNull requests q h.1)

  All-take : (n : ℕ) (q : List ℕ) → All (λ io. io ≢ 0) q → All (λ io. io ≢ 0) (take n q)
  All-take zero q h = tt
  All-take (suc n) [] h = tt
  All-take (suc n) (x ∷ q) h = (h.0, All-take n q h.1)

  All-drop : (n : ℕ) (q : List ℕ) → All (λ io. io ≢ 0) q → All (λ io. io ≢ 0) (drop n q)
  All-drop zero q h = h
  All-drop (suc n) [] h = tt
  All-drop (suc n) (x ∷ q) h = All-drop n q h.1

  drop-every : (xs : List Sqe) → drop (length xs) xs ≡ []
  drop-every [] = refl
  drop-every (x ∷ xs) = drop-every xs

  take-every : (xs : List Sqe) → take (length xs) xs ≡ xs
  take-every [] = refl
  take-every (x ∷ xs) = ap (◌∷◌ x) (take-every xs)

  drop-all : (xs : List (Cqe Res)) → drop (length xs) xs ≡ []
  drop-all [] = refl
  drop-all (x ∷ xs) = drop-all xs

  take-all : (xs : List (Cqe Res)) → take (length xs) xs ≡ xs
  take-all [] = refl
  take-all (x ∷ xs) = ap (◌∷◌ x) (take-all xs)

  -- What a round does to a loop when it takes the first `n` requests of the queue
  pub record Turn (n : ℕ) (l l' : Loop Res R) (cs : List (Cqe Res)) : Type 0 where
    pub sound : IsSound l'
    pub rest : l'.queue ≡ drop n l.queue
    pub sent : accepted l'.ring ≡ accepted l.ring ++ entries l.requests (take n l.queue)
    pub unread : ready l'.ring ≡ []
    pub read : consumed l'.ring ≡ consumed l.ring ++ cs
    pub caught : (a : ℕ) → posts a (ready l.ring) ≤ posts a cs
    pub posted : Posted l.requests cs l'.requests

  pub completed :
      (n : ℕ) (l : Loop Res R) (r : R)
      → IsSound l
      → pending r ≡ []
      → accepted r ≡ accepted l.ring ++ entries l.requests (take n l.queue)
      → consumed r ≡ consumed l.ring
      → ((k : ℕ) → posts k (ready l.ring) ≤ posts k (ready r))
      → (l' : Loop Res R) × (complete_round ops (drop n l.queue) r l.requests ≡ some l')
        × Turn n l l' (ready r)
  unfolding complete_round
  completed n l r sound p a c more =
      let submitted : All (λ (e : Sqe). e.user_data ≢ 0) (accepted r) =
        subst (All (λ (e : Sqe). e.user_data ≢ 0)) (sym a) (
          All-append _ (accepted l.ring) (entries l.requests (take n l.queue)) sound.submitted
            (entries-NonNull l.requests (take n l.queue) (All-take n l.queue sound.queued))) in
      let (after, run, posted) =
        complete_all-Posted l.requests (ready r) (ready-accepted (λ u. u ≢ 0) r submitted) in
      let r' = cq_advance r (length (ready r)) in
      let (gone, p', a', c') = cq_advance-ready r (length (ready r)) in
      (
        record { queue = drop n l.queue; ring = r'; requests = after },
        ap
            (λ (o : Option (ℕ → RingRequest Res)). elim o [
              | none ↦ none
              | some k ↦ some (record { queue = drop n l.queue; ring = r'; requests = k })
            ])
            run,
        record {
          sound = record {
            settled = p' ∙ p;
            queued = All-drop n l.queue sound.queued;
            submitted = subst (All (λ (e : Sqe). e.user_data ≢ 0)) (sym a') submitted;
          };
          rest = refl;
          sent = a' ∙ a;
          unread = gone ∙ drop-all (ready r);
          read = c' ∙ ap₂ (λ xs ys. xs ++ ys) c (take-all (ready r));
          caught = more;
          posted = posted;
        },
      )

  length-entries :
      (requests : ℕ → RingRequest Res) (n : ℕ) (q : List ℕ)
      → n ≤ length q
      → length (entries requests (take n q)) ≡ n
  length-entries requests zero q h = refl
  length-entries requests (suc n) [] h = absurd (omega arith)
  length-entries requests (suc n) (x ∷ q) h = ap suc (length-entries requests n q (omega arith))

  -- A round stops at its assertion: `io_uring_submit` does not say that it has submitted all of the
  -- entries that the round has filled.
  pub record FallsShort (n : ℕ) (l : Loop Res R) : Type 0 where
    pub filled : List ℕ × R
    pub filling : fill ops n l.queue l.ring l.requests ≡ some filled
    pub all_pending : length (pending filled.1) ≡ n
    pub short : (submit_entries filled.1).0 ≢ some n

  abbrev pub busy_round : ℕ → Loop Res R → Option (Loop Res R)
  busy_round n l = elim (fill ops n l.queue l.ring l.requests) [
    | none ↦ none
    | some f ↦ submit_filled ops n f l.requests
  ]

  submitted_round :
      (n : ℕ) (q : List ℕ) (r : R) (requests : ℕ → RingRequest Res) (o : Option ℕ)
      → (submit_entries r).0 ≡ o
      → ((submit_entries r).0 ≡ some n)
          × (submit_filled ops n (q, r) requests
              ≡ complete_round ops q (submit_entries r).1 requests)
        ⊎ ((submit_entries r).0 ≢ some n) × (submit_filled ops n (q, r) requests ≡ none)
  unfolding submit_filled after_submit
  submitted_round n q r requests none e = inr (
    λ k. none-ne-some _ (sym e ∙ k),
    ap (λ o. after_submit ops n q (o, (submit_entries r).1) requests) e,
  )
  submitted_round n q r requests (some ret) e =
      let go = ap (λ o. after_submit ops n q (o, (submit_entries r).1) requests) e in
      elim (Bool-cases (ret == n)) [
        | inl same ↦ inl (e ∙ ap some (ground arith), go ∙ if_true _ _ _ same)
        | inr other ↦
            inr (
              λ k. ground (arith, other, some-injective _ _ (sym e ∙ k)),
              go ∙ if_false _ _ _ other,
            )
      ]

  pub filled_round :
      (n : ℕ) (l : Loop Res R)
      → IsSound l
      → n ≤ length l.queue
      → n ≤ sq_space ops l.ring
      → ((l' : Loop Res R) × (cs : List (Cqe Res)) × (busy_round n l ≡ some l') × Turn n l l' cs)
        ⊎ ((busy_round n l ≡ none) × FallsShort n l)
  filled_round n l sound few room =
      let (r1, run, p, a, c, more) =
        fill-entries n l.queue l.ring l.requests few
          (omega (arith, ap length sound.settled, room)) in
      let filled : pending r1 ≡ entries l.requests (take n l.queue) =
        p ∙ ap (λ es. es ++ entries l.requests (take n l.queue)) sound.settled in
      let all : length (pending r1) ≡ n =
        ap length filled ∙ length-entries l.requests n l.queue few in
      let filled_up =
        ap
          (λ (o : Option (List ℕ × R)). elim o [
            | none ↦ none
            | some f ↦ submit_filled ops n f l.requests
          ])
          run in
      elim (submitted_round n (drop n l.queue) r1 l.requests (submit_entries r1).0 refl) [
        | inl (got, went) ↦
            let (le, left, a2, c2, more2) = submit_entries-pending r1 n got in
            let r2 = (submit_entries r1).1 in
            let none_left : pending r2 ≡ [] =
              left ∙ (ap (λ k. drop k (pending r1)) (sym all) ∙ drop-every (pending r1)) in
            let taken : take n (pending r1) ≡ entries l.requests (take n l.queue) =
              ap (λ k. take k (pending r1)) (sym all) ∙ (take-every (pending r1) ∙ filled) in
            let (l', done, turn) =
              completed n l r2 sound none_left (a2 ∙ ap₂ (λ xs ys. xs ++ ys) a taken) (c2 ∙ c)
                (λ k. omega (arith, more k, more2 k)) in
            inl (l', ready r2, filled_up ∙ (went ∙ done), turn)
        | inr (less, stopped) ↦ inr (
          filled_up ∙ stopped,
          record { filled = (drop n l.queue, r1); filling = run; all_pending = all; short = less },
        )
      ]
