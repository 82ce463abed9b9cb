-- ===== src/Db/LogWriter/Leaders/Span.antt =====
-- What a leader of `LogWriter` (src/db/log_writer.h) writes, in any interleaving of the calls
use mathlib.Core.Path.{subst}
use qstorage.Prelude.{
  ℕ, suc, ◌+◌, ◌%◌, ◌≤◌, ◌<◌, ◌≡◌, refl, sym, ap, ◌∙◌, ◌⊎◌, inl, inr, Option, none, some, List, [],
  ◌∷◌, ◌++◌, All, All-change, total, total-append, arith, ltb, if◌then◌else◌,
}
use qstorage.Prelude.Words.{u64_mod}
use qstorage.Infra.Serialize.{Endian}
use qstorage.Db.Constant.{buffer_size}
use qstorage.Infra.Task.{BatonOps, MutexOps}
use qstorage.Db.LogWriter.{WriteTask, Write, LogWriter}
use qstorage.Db.LogWriter.Calls.{Call, TaskOps}
use qstorage.Db.LogWriter.Steps.{Fresh, Waits}
use qstorage.Db.LogWriter.Account.{AtFirst}
use qstorage.Db.LogWriter.Unwritten.{Reach-unwritten}
use qstorage.Db.LogWriter.Invariant.{Reach-IsSound}
use qstorage.Db.LogWriter.Areas.{Area, Given, begin, next, Given-Reach, Given-below, holders}
use qstorage.Db.LogWriter.Leaders.{leader, one_if, Begins, start_of, InGroup, Result}
use qstorage.Db.LogWriter.Leaders.Advance.{Event-Result}

-- Whether a call leads a group
abbrev pub leads_group : {B : Type 0} → Call B → ℕ
leads_group c = one_if (leader c)

Fresh-leads_group : {B : Type 0} (cs : List (Call B)) → All Fresh cs → total leads_group cs ≡ 0
Fresh-leads_group [] h = refl
Fresh-leads_group (c ∷ cs) h = omega (arith, ap leads_group h.0.1, Fresh-leads_group cs h.1)

-- Where no call leads, a group may begin anywhere.
abbrev BeginsAt : {B : Type 0} → ℕ → Call B → Type 0
BeginsAt from c = Begins from (leader c)

one-BeginsAt :
    (from to : ℕ) (o : Option WriteTask)
    → (one_if o ≡ 0) ⊎ (to ≡ from)
    → Begins from o
    → Begins to o
one-BeginsAt from to none h b = tt
one-BeginsAt from to (some task) (inl e) b = absurd (omega (arith, e))
one-BeginsAt from to (some task) (inr e) b = b ∙ ap (λ k. k % buffer_size) (sym e)

All-BeginsAt :
    {B : Type 0} (from to : ℕ) (cs : List (Call B))
    → (total leads_group cs ≡ 0) ⊎ (to ≡ from)
    → All (BeginsAt from) cs
    → All (BeginsAt to) cs
All-BeginsAt from to [] h b = tt
All-BeginsAt from to (c ∷ cs) (inl e) (b, bs) = (
  one-BeginsAt from to (leader c) (inl (omega (arith, e))) b,
  All-BeginsAt from to cs (inl (omega (arith, e))) bs,
)
All-BeginsAt from to (c ∷ cs) (inr e) (b, bs) =
    (one-BeginsAt from to (leader c) (inr e) b, All-BeginsAt from to cs (inr e) bs)

module _ {B X : Type 0} (batons : BatonOps B) (mutex : MutexOps X) (tasks : TaskOps)
    (host : Endian) where
  -- How many steps a run has
  abbrev pub steps :
      (mem : ℕ → ℕ) (base : ℕ) (cs : List (Call B)) (l : LogWriter B X) (areas : List Area)
      → Given batons mutex tasks host mem base cs l areas
      → ℕ
  steps mem base _ _ _ (begin cs fresh_calls) = 0
  steps mem base _ _ _ (next front c c' back l l' areas g e) =
      suc (steps mem base (front ++ c ∷ back) l areas g)

  record InGroups (n : ℕ) (cs : List (Call B)) (l : LogWriter B X) : Type 0 where
    few : total leads_group cs ≤ 1
    unled : (l.writers 0).count ≡ 0 → (total leads_group cs ≡ 0) × ((l.writers 0).len ≡ 0)
    counted : (l.writers 0).count ≤ n
    fits : (l.writers 0).len ≤ l.buffer.head
    begins : All (BeginsAt (start_of batons mutex tasks host l)) cs

  step-InGroups :
      (n : ℕ) (front : List (Call B)) (c c' : Call B) (back : List (Call B)) (l l' : LogWriter B X)
      → InGroups n (front ++ c ∷ back) l
      → ((others : ℕ)
          → InGroup batons mutex tasks host others n c l
          → Result batons mutex tasks host others n l (some (c', l')))
      → InGroups (suc n) (front ++ c' ∷ back) l'
  step-InGroups n front c c' back l l' s result =
      let others = total leads_group front + total leads_group back in
      let before = total-append leads_group front (c ∷ back) in
      let after = total-append leads_group front (c' ∷ back) in
      let from = start_of batons mutex tasks host l in
      let to = start_of batons mutex tasks host l' in
      let rest = All-change (BeginsAt from) front c Call.led back s.begins tt in
      let mine : InGroup batons mutex tasks host others n c l = record {
        few = omega (arith, s.few, before);
        unled = λ z. let (a, b) = s.unled z in (omega (arith, a, before), b);
        counted = s.counted;
        fits = s.fits;
        begins = rest.0;
      } in
      let (g, kept) = result others mine in
      let without : total leads_group (front ++ Call.led ∷ back) ≡ others =
        omega (arith, total-append leads_group front (Call.led ∷ back)) in
      let moved : (total leads_group (front ++ Call.led ∷ back) ≡ 0) ⊎ (to ≡ from) = elim kept [
        | inl e ↦ inl (omega (arith, e, without))
        | inr e ↦ inr e
      ] in
      let others_begin = All-BeginsAt from to (front ++ Call.led ∷ back) moved rest.1 in
      record {
        few = omega (arith, g.few, after);
        unled = λ z. let (a, b) = g.unled z in (omega (arith, a, after), b);
        counted = g.counted;
        fits = g.fits;
        begins = (All-change (BeginsAt to) front Call.led c' back others_begin g.begins).1;
      }

  Fresh-BeginsAt : (from : ℕ) (cs : List (Call B)) → All Fresh cs → All (BeginsAt from) cs
  Fresh-BeginsAt from [] h = tt
  Fresh-BeginsAt from (c ∷ cs) h =
      (subst (BeginsAt from) (sym h.0.1) tt, Fresh-BeginsAt from cs h.1)

module _ {B X : Type 0} (batons : BatonOps B) (mutex : MutexOps X) (tasks : TaskOps) (host : Endian)
    (lazy : (w : Write) (ws : List Write) → tasks.dropped w ws ≡ ws) where
  Given-InGroups :
      (mem : ℕ → ℕ) (base : ℕ) (cs : List (Call B)) (l : LogWriter B X) (areas : List Area)
      (g : Given batons mutex tasks host mem base cs l areas)
      → steps batons mutex tasks host mem base cs l areas g < u64_mod
      → InGroups batons mutex tasks host (steps batons mutex tasks host mem base cs l areas g) cs l
  Given-InGroups mem base _ _ _ (begin cs fresh_calls) few = record {
    few = omega (arith, Fresh-leads_group cs fresh_calls);
    unled = λ z. (Fresh-leads_group cs fresh_calls, refl);
    counted = omega arith;
    fits = omega arith;
    begins = Fresh-BeginsAt batons mutex tasks host 0 cs fresh_calls;
  }
  Given-InGroups mem base _ _ _ (next front c c' back l l' areas g e) few =
      let n = steps batons mutex tasks host mem base (front ++ c ∷ back) l areas g in
      let s =
        Reach-IsSound batons mutex tasks host lazy mem base (front ++ c ∷ back) l
          (Given-Reach batons mutex tasks host mem base (front ++ c ∷ back) l areas g) in
      let waits =
        (Reach-unwritten batons mutex tasks host lazy mem base (front ++ c ∷ back) l
          (Given-Reach batons mutex tasks host mem base (front ++ c ∷ back) l areas g)).0 in
      let waits_here = (All-change (Waits batons) front c (Call.malloc 0) back waits tt).0 in
      let first = (All-change AtFirst front c Call.led back s.firsts tt).0 in
      step-InGroups batons mutex tasks host n front c c' back l l'
        (Given-InGroups mem base (front ++ c ∷ back) l areas g (omega (arith, few)))
        (λ others k.
          Event-Result batons mutex tasks host others n c c' l l' e waits_here first s.tail s.head
            few k)

  -- If a task that is dropped does nothing: however the calls interleave, in a run of fewer than `2
  -- ^ 64` steps, if a call leads a group that has bytes and that it has not finished, then it is
  -- the only one; its area begins as far behind the head of the ring as the group is long, so that
  -- the group reaches to the head; each byte of the ring before the end of the group is in the area
  -- of exactly one call, and none behind it is in any.
  pub Given-span :
      (mem : ℕ → ℕ) (base : ℕ) (front : List (Call B)) (c : Call B) (back : List (Call B))
      (l : LogWriter B X) (areas : List Area) (task : WriteTask)
      (g : Given batons mutex tasks host mem base (front ++ c ∷ back) l areas)
      → steps batons mutex tasks host mem base (front ++ c ∷ back) l areas g < u64_mod
      → leader c ≡ some task
      → 0 < (l.writers 0).len
      → (total leads_group (front ++ c ∷ back) ≡ 1)
        × (task.addr + (l.writers 0).len ≡ l.buffer.head)
        × ((x : ℕ) → holders x areas ≡ (if ltb x (task.addr + (l.writers 0).len) then 1 else 0))
  Given-span mem base front c back l areas task g few leads some_bytes =
      let cs = front ++ c ∷ back in
      let r = Given-Reach batons mutex tasks host mem base cs l areas g in
      let s = Reach-IsSound batons mutex tasks host lazy mem base cs l r in
      let i = Given-InGroups mem base cs l areas g few in
      let begins : Begins (start_of batons mutex tasks host l) (some task) =
        subst (Begins (start_of batons mutex tasks host l)) leads
          (All-change (BeginsAt (start_of batons mutex tasks host l)) front c Call.led back i.begins
            tt).0 in
      let end : task.addr + (l.writers 0).len ≡ l.buffer.head =
        omega (arith, begins, i.fits, s.head, some_bytes) in
      (
        omega (arith, i.few, total-append leads_group front (c ∷ back), ap one_if leads),
        end,
        λ x.
            Given-below batons mutex tasks host lazy x mem base cs l areas g
            ∙ ap (λ k. if ltb x k then 1 else 0) (sym end),
      )
