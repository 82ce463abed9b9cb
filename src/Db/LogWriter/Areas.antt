-- ===== src/Db/LogWriter/Areas.antt =====
-- The areas of the ring that `asyncMalloc` (src/db/log_writer.h) gives to its callers
use mathlib.Core.Path.{subst, sym}
use qstorage.Prelude.{
  ℕ, ◌+◌, ◌≤◌, ◌≡◌, Bool, true, false, Bool-cases, inl, inr, ◌&&◌, Option, none, some, List, [],
  ◌∷◌, ◌++◌, All, arith, ltb, leb, if◌then◌else◌, if_false, All-change,
}
use qstorage.Prelude.Words.{sub64, add64}
use qstorage.Infra.Serialize.{Endian}
use qstorage.Db.Constant.{buffer_size}
use qstorage.Db.SpRingBuffer.{Ring, fresh, request_write_space}
use qstorage.Db.SpRingBuffer.Invariant.{index-mod}
use qstorage.Infra.Task.{BatonOps, MutexOps}
use qstorage.Db.LogWriter.{WriteTask, Write, LogWriter, new_writer}
use qstorage.Db.LogWriter.Calls.{Call, TaskOps, with_space, allocate, headed, cleared, advance}
use qstorage.Db.LogWriter.Steps.{
  Fresh, Event, Reach, Waits, runs, leads, follows, opens, completes, start, later,
}
use qstorage.Db.LogWriter.Unwritten.{Reach-unwritten}
use qstorage.Db.LogWriter.Invariant.{Reach-IsSound}

-- What a call has got: the address of its task, and the size that it asked for
pub record Area : Type 0 where
  pub addr : ℕ
  pub size : ℕ

abbrev pub area_of : {B : Type 0} → Call B → Call B → List Area
area_of (Call.allocating size aw_index) (Call.allocated task) =
    record { addr = task.addr; size = size } ∷ []
area_of _ _ = []

-- How many areas a byte is in
abbrev pub holders : ℕ → List Area → ℕ
holders x [] = 0
holders x (a ∷ areas) = (if leb a.addr x && ltb x (a.addr + a.size) then 1 else 0) + holders x areas

abbrev pub below : (x head : ℕ) → ℕ
below x head = if ltb x head then 1 else 0

below-zero : (x : ℕ) → below x 0 ≡ 0
below-zero x = ground arith

holders-append :
    (x : ℕ) (first rest : List Area) → holders x (first ++ rest) ≡ holders x first + holders x rest
holders-append x [] rest = omega arith
holders-append x (a ∷ first) rest = omega (arith, holders-append x first rest)

-- What a request gives out is what the head moves over.
abbrev Grants : (x size : ℕ) → Ring → Option ℕ × Ring → Type 0
Grants x size old (none, r) = below x old.head ≡ below x r.head
Grants x size old (some addr, r) =
    holders x (record { addr = addr; size = size } ∷ []) + below x old.head ≡ below x r.head

request-Grants :
    (x size : ℕ) (r : Ring)
    → r.tail ≡ 0
    → r.head ≤ buffer_size
    → Grants x size r (request_write_space r size)
unfolding request_write_space
request-Grants x size r t h =
    elim (Bool-cases (ltb (sub64 buffer_size (sub64 r.head r.tail)) size)) [
      | inl e ↦ rw (e) (omega arith)
      | inr e ↦
          let fits : r.head + size ≤ buffer_size = ground (arith, t, h, e) in
          let moved : add64 r.head size ≡ r.head + size = omega (arith, fits) in
          rw (e) (ground (arith, fits, moved, index-mod r.head))
    ]

module _ {B X : Type 0} (batons : BatonOps B) (mutex : MutexOps X) (tasks : TaskOps)
    (host : Endian) where
  open mutex use {acquire, acquire-held, acquire-free, held}

  -- The runs of `Steps`, with the areas that have been given out so far, the newest first
  pub data Given (mem : ℕ → ℕ) (base : ℕ) : List (Call B) → LogWriter B X → List Area → Type 0 where
    begin :
        (cs : List (Call B))
        → All Fresh cs
        → Given mem base cs (new_writer batons mutex (fresh mem) base) []
    next :
        (front : List (Call B)) (c c' : Call B) (back : List (Call B)) (l l' : LogWriter B X)
        (areas : List Area)
        → Given mem base (front ++ c ∷ back) l areas
        → Event batons mutex tasks host c c' l l'
        → Given mem base (front ++ c' ∷ back) l' (area_of c c' ++ areas)

  pub Given-Reach :
      (mem : ℕ → ℕ) (base : ℕ) (cs : List (Call B)) (l : LogWriter B X) (areas : List Area)
      → Given mem base cs l areas
      → Reach batons mutex tasks host mem base cs l
  Given-Reach mem base _ _ _ (begin cs fresh_calls) = start cs fresh_calls
  Given-Reach mem base _ _ _ (next front c c' back l l' areas g e) =
      later front c c' back l l' (Given-Reach mem base (front ++ c ∷ back) l areas g) e

  -- A step gives out what the head of the ring has moved over.
  abbrev Moves : ℕ → Call B → LogWriter B X → Option (Call B × LogWriter B X) → Type 0
  Moves x c l none = Unit
  Moves x c l (some r) = holders x (area_of c r.0) + below x l.buffer.head ≡ below x r.1.buffer.head

  if-Moves :
      (x : ℕ) (c : Call B) (l : LogWriter B X) (b : Bool) (r : Call B × LogWriter B X)
      → Moves x c l (some r)
      → Moves x c l (if b then some r else none)
  if-Moves x c l true r m = m
  if-Moves x c l false r m = tt

  with_space-Moves :
      (x size aw_index : ℕ) (l : LogWriter B X) (r : Option ℕ × Ring)
      → Grants x size l.buffer r
      → Moves x
          (Call.allocating size aw_index)
          l
          (some (with_space batons mutex tasks host size aw_index l r))
  unfolding with_space
  with_space-Moves x size aw_index l (none, buffer) g = omega (arith, g)
  with_space-Moves x size aw_index l (some addr, buffer) g = g

  headed-Moves :
      (x crc len since : ℕ) (task : WriteTask) (l : LogWriter B X) (b : B) (o : Option (ℕ → ℕ))
      → Moves x
          (Call.leading task crc len since)
          l
          (some (headed batons mutex tasks host task (record l { notify_leader = b }) o))
  unfolding headed
  headed-Moves x crc len since task l b none = omega arith
  headed-Moves x crc len since task l b (some mem) = omega arith

  cleared-Moves :
      (x : ℕ) (task : WriteTask) (l : LogWriter B X) (o : Option (ℕ → ℕ))
      → Moves x (Call.copying task) l (some (cleared batons mutex tasks host task l o))
  unfolding cleared
  cleared-Moves x task l none = omega arith
  cleared-Moves x task l (some mem) = omega arith

  locking-Moves :
      (x size aw_index : ℕ) (l : LogWriter B X)
      → Moves x
          (Call.locking size aw_index)
          l
          (advance batons mutex tasks host (Call.locking size aw_index) l)
  unfolding advance
  locking-Moves x size aw_index l = go (acquire l.lock)
    where
      go :
          (o : Option X)
          → Moves x (Call.locking size aw_index) l (elim o [
            | none ↦ none
            | some lock ↦ some (Call.allocating size aw_index, record l { lock = lock })
          ])
      go none = tt
      go (some lock) = omega arith

  never-Moves :
      (x : ℕ) (c : Call B) (l : LogWriter B X) (b : Bool) (r : Call B × LogWriter B X)
      → b ≡ false
      → Moves x c l (if b then some r else none)
  never-Moves x c l b r e = subst (Moves x c l) (sym (if_false _ _ _ e)) tt

  advance-Moves :
      (x : ℕ) (c : Call B) (l : LogWriter B X)
      → Waits batons c
      → l.buffer.tail ≡ 0
      → l.buffer.head ≤ buffer_size
      → Moves x c l (advance batons mutex tasks host c l)
  unfolding advance allocate
  advance-Moves x (Call.malloc size) l w t h = omega arith
  advance-Moves x (Call.locking size aw_index) l w t h = locking-Moves x size aw_index l
  advance-Moves x (Call.allocating size aw_index) l w t h =
      with_space-Moves x size aw_index l (request_write_space l.buffer size)
        (request-Grants x size l.buffer t h)
  advance-Moves x (Call.starved size since) l w t h =
      if-Moves x (Call.starved size since) l _ _ (omega arith)
  advance-Moves x (Call.leading task crc len since) l w t h =
      if-Moves x (Call.leading task crc len since) l _ _ (headed-Moves x crc len since task l _ _)
  advance-Moves x (Call.copying task) l w t h =
      if-Moves x (Call.copying task) l _ _ (cleared-Moves x task l _)
  advance-Moves x (Call.committing task baton) l w t h =
      never-Moves x (Call.committing task baton) l _ _ w
  advance-Moves x (Call.posting task) l w t h = absurd w
  advance-Moves x (Call.resetting task) l w t h = absurd w
  advance-Moves x (Call.releasing task) l w t h = absurd w
  advance-Moves x Call.waking l w t h = absurd w
  advance-Moves x (Call.following task) l w t h = omega arith
  advance-Moves x (Call.followed task since) l w t h =
      if-Moves x (Call.followed task since) l _ _ (omega arith)
  advance-Moves x (Call.allocated task) l w t h = tt
  advance-Moves x Call.led l w t h = tt
  advance-Moves x Call.done l w t h = tt
  advance-Moves x Call.faulted l w t h = tt

  Event-Moves :
      (x : ℕ) (c c' : Call B) (l l' : LogWriter B X)
      → Event batons mutex tasks host c c' l l'
      → Waits batons c
      → l.buffer.tail ≡ 0
      → l.buffer.head ≤ buffer_size
      → holders x (area_of c c') + below x l.buffer.head ≡ below x l'.buffer.head
  Event-Moves x _ _ _ _ (runs c c' l l' e) u t h = subst (Moves x c l) e (advance-Moves x c l u t h)
  Event-Moves x _ _ _ _ (leads task crc len l y) u t h = omega arith
  Event-Moves x _ _ _ _ (follows task l y) u t h = omega arith
  Event-Moves x _ _ _ _ (opens c l) u t h = opened c
    where
      opened :
          (c : Call B) → holders x (area_of c c) + below x l.buffer.head ≡ below x l.buffer.head
      opened (Call.allocating size aw_index) = omega arith
      opened _ = omega arith
  Event-Moves x _ _ _ _ (completes task baton l w ws e) u t h = omega arith

module _ {B X : Type 0} (batons : BatonOps B) (mutex : MutexOps X) (tasks : TaskOps) (host : Endian)
    (lazy : (w : Write) (ws : List Write) → tasks.dropped w ws ≡ ws) where
  pub Given-below :
      (x : ℕ) (mem : ℕ → ℕ) (base : ℕ) (cs : List (Call B)) (l : LogWriter B X) (areas : List Area)
      → Given batons mutex tasks host mem base cs l areas
      → holders x areas ≡ below x l.buffer.head
  Given-below x mem base _ _ _ (begin cs fresh_calls) = sym (below-zero x)
  Given-below x mem base _ _ _ (next front c c' back l l' areas g e) =
      let s =
        Reach-IsSound batons mutex tasks host lazy mem base (front ++ c ∷ back) l
          (Given-Reach batons mutex tasks host mem base (front ++ c ∷ back) l areas g) in
      let waits =
        (Reach-unwritten batons mutex tasks host lazy mem base (front ++ c ∷ back) l
          (Given-Reach batons mutex tasks host mem base (front ++ c ∷ back) l areas g)).0 in
      let waits_here = (All-change (Waits batons) front c (Call.malloc 0) back waits tt).0 in
      omega (
        arith,
        Given-below x mem base (front ++ c ∷ back) l areas g,
        Event-Moves batons mutex tasks host x c c' l l' e waits_here s.tail s.head,
        holders-append x (area_of c c') areas,
      )

  -- If a task that is dropped does nothing: however the calls interleave, each byte of the ring
  -- before the head is in the area of exactly one call and no other byte is in any; and the head is
  -- at most the size of the ring, so that every area is inside the first mapping.
  pub Given-apart :
      (mem : ℕ → ℕ) (base x : ℕ) (cs : List (Call B)) (l : LogWriter B X) (areas : List Area)
      → Given batons mutex tasks host mem base cs l areas
      → (holders x areas ≡ (if ltb x l.buffer.head then 1 else 0)) × (l.buffer.head ≤ buffer_size)
  Given-apart mem base x cs l areas g = (
    Given-below x mem base cs l areas g,
    (Reach-IsSound batons mutex tasks host lazy mem base cs l
        (Given-Reach batons mutex tasks host mem base cs l areas g)).head,
  )
