-- ===== src/Infra/IoUring/Turns.antt =====
-- What a round of `CoIoUring::runLoop` (src/infra/io_uring.h) promises.
use mathlib.Core.Path.{subst}
use qstorage.Prelude.{
  ℕ, ◌≡◌, refl, sym, ap, ◌∙◌, arith, min, true, false, ◌&&◌, Bool-cases, inl, inr, ◌⊎◌, none, some,
  List, [], ◌∷◌, append-nil, length, ◌==◌, if_true, if_false, ltb,
}
use qstorage.Infra.IoUring.{posts, Cqe, RingOps, Loop, max_submits, sq_space, round}
use qstorage.Infra.IoUring.Round.{IsSound, Turn, FallsShort, completed, filled_round}

module _ {Res R : Type 0} (ops : RingOps Res R) where
  open ops use {pending, accepted, ready, consumed}

  abbrev pub taken : Loop Res R → ℕ
  taken l = min (min (length l.queue) (sq_space ops l.ring)) max_submits

  empty-nil : (xs : List (Cqe Res)) → length xs ≡ 0 → xs ≡ []
  empty-nil [] e = refl
  empty-nil (x ∷ xs) e = absurd (omega arith)

  idle-Turn : (l : Loop Res R) → IsSound ops l → length (ready l.ring) ≡ 0 → Turn ops 0 l l []
  idle-Turn l sound e = record {
    sound = sound;
    rest = refl;
    sent = sym (append-nil (accepted l.ring));
    unread = empty-nil (ready l.ring) e;
    read = sym (append-nil (consumed l.ring));
    caught = λ a. omega (arith, ap (posts a) (empty-nil (ready l.ring) e));
    posted = λ a. omega arith;
  }

  -- What a round promises that does not stop at its assertion
  abbrev pub Turns : Loop Res R → Type 0
  Turns l =
      (l' : Loop Res R) × (cs : List (Cqe Res)) × (round ops l ≡ some l')
      × Turn ops (taken l) l l' cs

  -- A round on an empty queue submits nothing, and does not fail.
  pub quiet-Turns : (l : Loop Res R) → IsSound ops l → length l.queue ≡ 0 → Turns l
  unfolding round
  quiet-Turns l sound empty =
      let ioc = length l.queue in
      let idle = (ioc == 0) && (length (ready l.ring) == 0) in
      let waits_none : ltb 0 ioc ≡ false = ground arith in
      let nothing : taken l ≡ 0 = ground arith in
      elim (Bool-cases (length (ready l.ring) == 0)) [
        | inl quiet ↦
            let asleep : idle ≡ true = ground arith in
            (
              l,
              [],
              if_true _ _ _ asleep,
              subst (λ n. Turn ops n l l []) (sym nothing) (idle-Turn l sound (ground arith)),
            )
        | inr some_ready ↦
            let awake : idle ≡ false = ground arith in
            let (l', run, turn) =
              completed ops 0 l l.ring sound sound.settled (sym (append-nil (accepted l.ring))) refl
                (λ k. omega arith) in
            (
              l',
              ready l.ring,
              if_false _ _ _ awake ∙ (if_false _ _ _ waits_none ∙ run),
              subst (λ n. Turn ops n l l' (ready l.ring)) (sym nothing) turn,
            )
      ]

  -- On a loop where nothing was filled before and no request is null, a round fails only at its
  -- assertion, where `io_uring_submit` has submitted not all of the entries or has failed: no entry
  -- is missing, and no completion is without a request. Otherwise it submits the first requests of
  -- the queue in order, as many as there are, fit into the submission queue, and the limit allows;
  -- it consumes the completions that are ready, and posts to each request once for each of its
  -- completions.
  pub round-Turn :
      (l : Loop Res R)
      → IsSound ops l
      → Turns l ⊎ ((round ops l ≡ none) × FallsShort ops (taken l) l)
  unfolding round
  round-Turn l sound =
      let ioc = length l.queue in
      let idle = (ioc == 0) && (length (ready l.ring) == 0) in
      elim (Bool-cases (ltb 0 ioc)) [
        | inl busy ↦
            let awake : idle ≡ false = ground arith in
            elim (filled_round ops (taken l) l sound (omega arith) (omega arith)) [
              | inl (l', cs, run, turn) ↦
                  inl (l', cs, if_false _ _ _ awake ∙ (if_true _ _ _ busy ∙ run), turn)
              | inr (stops, short) ↦
                  inr (if_false _ _ _ awake ∙ (if_true _ _ _ busy ∙ stops), short)
            ]
        | inr empty ↦ inl (quiet-Turns l sound (ground arith))
      ]
