-- ===== src/Db/LogWriter/Invariant.antt =====
-- What any number of calls keep of a `LogWriter` (src/db/log_writer.h), in any interleaving.
use mathlib.Core.Path.{subst}
use qstorage.Prelude.{
  ℕ, ◌+◌, ◌≤◌, ◌≡◌, refl, sym, ap, ◌∙◌, List, [], ◌∷◌, ◌++◌, All, All-change, total, total-append,
  arith,
}
use qstorage.Infra.Serialize.{Endian}
use qstorage.Db.Constant.{buffer_size}
use qstorage.Infra.Task.{BatonOps, MutexOps}
use qstorage.Db.LogWriter.{Write, LogWriter}
use qstorage.Db.LogWriter.Calls.{Call, TaskOps}
use qstorage.Db.LogWriter.Steps.{
  Fresh, Event, Reach, Waits, runs, leads, follows, opens, completes, start, later,
}
use qstorage.Db.LogWriter.Unwritten.{Reach-unwritten}
use qstorage.Db.LogWriter.Account.{
  inside, AtFirst, bit, bit-le, Account, After, advance-Account, moved,
}

Fresh-inside : {B : Type 0} (cs : List (Call B)) → All Fresh cs → total inside cs ≡ 0
Fresh-inside [] h = refl
Fresh-inside (c ∷ cs) h = omega (arith, ap inside h.0.1, Fresh-inside cs h.1)

Fresh-AtFirst : {B : Type 0} (cs : List (Call B)) → All Fresh cs → All AtFirst cs
Fresh-AtFirst [] h = tt
Fresh-AtFirst (c ∷ cs) h = (subst AtFirst (sym h.0.1) tt, Fresh-AtFirst cs h.1)

module _ {B X : Type 0} (batons : BatonOps B) (mutex : MutexOps X) (tasks : TaskOps) (host : Endian)
    (lazy : (w : Write) (ws : List Write) → tasks.dropped w ws ≡ ws) where
  open mutex use {held, held-new}

  pub record IsSound (cs : List (Call B)) (l : LogWriter B X) : Type 0 where
    pub lock : total inside cs ≡ bit (held l.lock)
    pub firsts : All AtFirst cs
    pub active : l.active_writer ≡ 0
    pub position : l.file_pos ≡ 0
    pub tail : l.buffer.tail ≡ 0
    pub head : l.buffer.head ≤ buffer_size
    pub offsets : All (λ (w : Write). w.offset ≡ 0) l.io

  Event-Account :
      (others : ℕ) (c c' : Call B) (l l' : LogWriter B X)
      → Event batons mutex tasks host c c' l l'
      → Waits batons c
      → Account batons mutex tasks host others c l
      → Account batons mutex tasks host others c' l'
  Event-Account others _ _ _ _ (runs c c' l l' e) w a =
      subst (After batons mutex tasks host others) e
        (advance-Account batons mutex tasks host others c l w a)
  Event-Account others _ _ _ _ (leads task crc len l y) w a =
      moved batons mutex tasks host others _ _ l l a refl a.first refl refl refl a.tail a.head
        a.offsets
  Event-Account others _ _ _ _ (follows task l y) w a =
      moved batons mutex tasks host others _ _ l l a refl a.first refl refl refl a.tail a.head
        a.offsets
  Event-Account others _ _ _ _ (opens c l) w a =
      moved batons mutex tasks host others c c l
        (record l { notify_leader = batons.post l.notify_leader }) a refl a.first refl refl refl
        a.tail a.head a.offsets
  Event-Account others _ _ _ _ (completes task baton l q ws e) w a =
      moved batons mutex tasks host others _ _ l (record l { io = ws }) a refl a.first refl refl
        refl a.tail a.head (subst (All (λ (w : Write). w.offset ≡ 0)) e a.offsets).1

  step-IsSound :
      (front : List (Call B)) (c c' : Call B) (back : List (Call B)) (l l' : LogWriter B X)
      → IsSound (front ++ c ∷ back) l
      → Event batons mutex tasks host c c' l l'
      → Waits batons c
      → IsSound (front ++ c' ∷ back) l'
  step-IsSound front c c' back l l' s e w =
      let others = total inside front + total inside back in
      let before : Account batons mutex tasks host others c l = record {
        lock = omega (arith, s.lock, total-append inside front (c ∷ back));
        first = (All-change AtFirst front c Call.led back s.firsts tt).0;
        active = s.active;
        position = s.position;
        tail = s.tail;
        head = s.head;
        offsets = s.offsets;
      } in
      let a = Event-Account others c c' l l' e w before in
      record {
        lock = omega (arith, a.lock, total-append inside front (c' ∷ back));
        firsts = (All-change AtFirst front c c' back s.firsts a.first).1;
        active = a.active;
        position = a.position;
        tail = a.tail;
        head = a.head;
        offsets = a.offsets;
      }

  pub Reach-IsSound :
      (mem : ℕ → ℕ) (base : ℕ) (cs : List (Call B)) (l : LogWriter B X)
      → Reach batons mutex tasks host mem base cs l
      → IsSound cs l
  Reach-IsSound mem base _ _ (start cs fresh_calls) = record {
    lock = Fresh-inside cs fresh_calls ∙ ap bit (sym held-new);
    firsts = Fresh-AtFirst cs fresh_calls;
    active = refl;
    position = refl;
    tail = refl;
    head = omega arith;
    offsets = tt;
  }
  Reach-IsSound mem base _ _ (later front c c' back k l r e) =
      let waits =
        (Reach-unwritten batons mutex tasks host lazy mem base (front ++ c ∷ back) k r).0 in
      step-IsSound front c c' back k l (Reach-IsSound mem base (front ++ c ∷ back) k r) e
        (All-change (Waits batons) front c (Call.malloc 0) back waits tt).0

  -- If a task that is dropped does nothing: however the calls interleave, at most one of them is
  -- inside the lock.
  pub Reach-exclusive :
      (mem : ℕ → ℕ) (base : ℕ) (cs : List (Call B)) (l : LogWriter B X)
      → Reach batons mutex tasks host mem base cs l
      → total inside cs ≤ 1
  Reach-exclusive mem base cs l r =
      omega (arith, (Reach-IsSound mem base cs l r).lock, bit-le (held l.lock))

  -- If a task that is dropped does nothing: however the calls interleave, the tail of the ring
  -- stays where it began, so that no more than the size of the ring is ever given out; every call
  -- is in the first of the two groups; and the position in the file at which a group is written
  -- stays 0.
  pub Reach-fixed :
      (mem : ℕ → ℕ) (base : ℕ) (cs : List (Call B)) (l : LogWriter B X)
      → Reach batons mutex tasks host mem base cs l
      → (l.buffer.tail ≡ 0) × (l.buffer.head ≤ buffer_size) × All AtFirst cs × (l.file_pos ≡ 0)
  Reach-fixed mem base cs l r =
      let s = Reach-IsSound mem base cs l r in (s.tail, s.head, s.firsts, s.position)
