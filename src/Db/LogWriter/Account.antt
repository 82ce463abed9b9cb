-- ===== src/Db/LogWriter/Account.antt =====
-- What one step of a call keeps of a `LogWriter` (src/db/log_writer.h).
use mathlib.Core.Path.{subst}
use Prim.Native.Nat.{bit_and}
use qstorage.Prelude.{
  ℕ, ◌+◌, ◌≤◌, ◌≡◌, refl, sym, ap, ◌∙◌, Bool, true, false, Bool-cases, inl, inr, Option, none, some,
  All, arith, ◌==◌, if◌then◌else◌, if_false,
}
use qstorage.Prelude.Words.{sub64}
use qstorage.Infra.Serialize.{Endian}
use qstorage.Db.Constant.{buffer_size}
use qstorage.Db.SpRingBuffer.{Ring, request_write_space}
use qstorage.Infra.Task.{BatonOps, MutexOps}
use qstorage.Db.LogWriter.{WriteTask, Write, LogWriter}
use qstorage.Db.LogWriter.Steps.{Waits}
use qstorage.Db.LogWriter.Calls.{
  Call, TaskOps, with_space, allocate, headed, cleared, advance, resumes,
}

-- A call inside the lock of `asyncMalloc`
abbrev pub inside : {B : Type 0} → Call B → ℕ
inside (Call.allocating size aw_index) = 1
inside (Call.starved size since) = 1
inside _ = 0

-- The group that a call is in is the first one.
abbrev pub AtFirst : {B : Type 0} → Call B → Type 0
AtFirst (Call.locking size aw_index) = aw_index ≡ 0
AtFirst (Call.allocating size aw_index) = aw_index ≡ 0
AtFirst (Call.allocated task) = task.index ≡ 0
AtFirst (Call.leading task crc len since) = task.index ≡ 0
AtFirst (Call.copying task) = task.index ≡ 0
AtFirst (Call.committing task baton) = task.index ≡ 0
AtFirst (Call.posting task) = task.index ≡ 0
AtFirst (Call.resetting task) = task.index ≡ 0
AtFirst (Call.releasing task) = task.index ≡ 0
AtFirst (Call.following task) = task.index ≡ 0
AtFirst (Call.followed task since) = task.index ≡ 0
AtFirst _ = Unit

abbrev pub bit : Bool → ℕ
bit true = 1
bit false = 0

pub bit-le : (b : Bool) → bit b ≤ 1
bit-le true = omega arith
bit-le false = omega arith

module _ {B X : Type 0} (batons : BatonOps B) (mutex : MutexOps X) (tasks : TaskOps)
    (host : Endian) where
  open mutex use {acquire, unlock, held, acquire-held, acquire-free, held-unlock}
  open tasks use {dropped, dropped-All}

  -- What holds of a writer, where the other calls have the lock `others` times
  pub record Account (others : ℕ) (c : Call B) (l : LogWriter B X) : Type 0 where
    pub lock : inside c + others ≡ bit (held l.lock)
    pub first : AtFirst c
    pub active : l.active_writer ≡ 0
    pub position : l.file_pos ≡ 0
    pub tail : l.buffer.tail ≡ 0
    pub head : l.buffer.head ≤ buffer_size
    pub offsets : All (λ (w : Write). w.offset ≡ 0) l.io

  abbrev pub After : ℕ → Option (Call B × LogWriter B X) → Type 0
  After others none = Unit
  After others (some r) = Account others r.0 r.1

  zero_index : bit_and 0 1 ≡ 0
  zero_index = refl

  space-head :
      (r : Ring) (size : ℕ)
      → r.tail ≡ 0
      → r.head ≤ buffer_size
      → ((request_write_space r size).1.tail ≡ 0)
        × ((request_write_space r size).1.head ≤ buffer_size)
  unfolding request_write_space
  space-head r size t h = ground arith

  -- The account of a call that stays outside of the lock, over a writer with the same lock, groups
  -- and file position
  pub moved :
      (others : ℕ) (c c' : Call B) (l l' : LogWriter B X)
      → Account others c l
      → inside c' ≡ inside c
      → AtFirst c'
      → l'.lock ≡ l.lock
      → l'.active_writer ≡ l.active_writer
      → l'.file_pos ≡ l.file_pos
      → l'.buffer.tail ≡ 0
      → l'.buffer.head ≤ buffer_size
      → All (λ (w : Write). w.offset ≡ 0) l'.io
      → Account others c' l'
  moved others c c' l l' a same first lock active position tail head offsets = record {
    lock = ap (λ k. k + others) same ∙ (a.lock ∙ ap (λ x. bit (held x)) (sym lock));
    first = first;
    active = active ∙ a.active;
    position = position ∙ a.position;
    tail = tail;
    head = head;
    offsets = offsets;
  }

  locking-Account :
      (others size aw_index : ℕ) (l : LogWriter B X)
      → Account others (Call.locking size aw_index) l
      → After others (advance batons mutex tasks host (Call.locking size aw_index) l)
  unfolding advance
  locking-Account others size aw_index l a = elim (Bool-cases (held l.lock)) [
    | inl busy ↦ subst (λ o. After others (go o)) (sym (acquire-held l.lock busy)) tt
    | inr idle ↦
        let (x, got, now) = acquire-free l.lock idle in
        subst (λ o. After others (go o)) (sym got)
          (record {
            lock = omega (arith, a.lock, ap bit idle, ap bit now);
            first = a.first;
            active = a.active;
            position = a.position;
            tail = a.tail;
            head = a.head;
            offsets = a.offsets;
          })
  ]
    where
      go : Option X → Option (Call B × LogWriter B X)
      go o = elim o [
        | none ↦ none
        | some lock ↦ some (Call.allocating size aw_index, record l { lock = lock })
      ]

  with_space-Account :
      (others size aw_index : ℕ) (l : LogWriter B X) (r : Option ℕ × Ring)
      → Account others (Call.allocating size aw_index) l
      → r.1.tail ≡ 0
      → r.1.head ≤ buffer_size
      → After others (some (with_space batons mutex tasks host size aw_index l r))
  unfolding with_space
  with_space-Account others size aw_index l (none, buffer) a tail head = record {
    lock = a.lock;
    first = tt;
    active = a.active;
    position = a.position;
    tail = tail;
    head = head;
    offsets = a.offsets;
  }
  with_space-Account others size aw_index l (some addr, buffer) a tail head = record {
    lock = omega (arith, a.lock, bit-le (held l.lock), ap bit (held-unlock l.lock));
    first = a.first;
    active = a.active;
    position = a.position;
    tail = tail;
    head = head;
    offsets = a.offsets;
  }

  allocate-Account :
      (others size aw_index : ℕ) (l : LogWriter B X)
      → Account others (Call.allocating size aw_index) l
      → After others (some (allocate batons mutex tasks host size aw_index l))
  unfolding allocate
  allocate-Account others size aw_index l a =
      let (tail, head) = space-head l.buffer size a.tail a.head in
      with_space-Account others size aw_index l (request_write_space l.buffer size) a tail head

  headed-Account :
      (others crc len since : ℕ) (task : WriteTask) (l : LogWriter B X) (b : B) (o : Option (ℕ → ℕ))
      → Account others (Call.leading task crc len since) l
      → After others (some (headed batons mutex tasks host task (record l { notify_leader = b }) o))
  unfolding headed
  headed-Account others crc len since task l b none a =
      moved others (Call.leading task crc len since) Call.faulted l (record l { notify_leader = b })
        a refl tt refl refl refl a.tail a.head a.offsets
  headed-Account others crc len since task l b (some mem) a =
      moved others (Call.leading task crc len since) (Call.copying task) l
        (record l { notify_leader = b; buffer = record l.buffer { mem = mem } }) a refl a.first refl
        refl refl a.tail a.head a.offsets

  cleared-Account :
      (others : ℕ) (task : WriteTask) (l : LogWriter B X) (o : Option (ℕ → ℕ))
      → Account others (Call.copying task) l
      → After others (some (cleared batons mutex tasks host task l o))
  unfolding cleared
  cleared-Account others task l none a =
      moved others (Call.copying task) Call.faulted l l a refl tt refl refl refl a.tail a.head
        a.offsets
  cleared-Account others task l (some mem) a = record {
    lock = a.lock;
    first = a.first;
    active = a.active;
    position = a.position;
    tail = a.tail;
    head = a.head;
    offsets = dropped-All (λ (w : Write). w.offset ≡ 0) _ l.io a.position a.offsets;
  }

  never-After :
      (others : ℕ) (b : Bool) (r : Call B × LogWriter B X)
      → b ≡ false
      → After others (if b then some r else none)
  never-After others b r e = subst (After others) (sym (if_false _ _ _ e)) tt

  if-After :
      (others : ℕ) (b : Bool) (r : Call B × LogWriter B X)
      → Account others r.0 r.1
      → After others (if b then some r else none)
  if-After others true r a = a
  if-After others false r a = tt

  -- Every step of a call that has not come back keeps the account.
  pub advance-Account :
      (others : ℕ) (c : Call B) (l : LogWriter B X)
      → Waits batons c
      → Account others c l
      → After others (advance batons mutex tasks host c l)
  unfolding advance
  advance-Account others (Call.malloc size) l w a =
      moved others (Call.malloc size) (Call.locking size (bit_and l.active_writer 1)) l l a refl
        (ap (λ k. bit_and k 1) a.active) refl refl refl a.tail a.head a.offsets
  advance-Account others (Call.locking size aw_index) l w a =
      locking-Account others size aw_index l a
  advance-Account others (Call.allocating size aw_index) l w a =
      allocate-Account others size aw_index l a
  advance-Account others (Call.starved size since) l w a =
      if-After others (resumes batons mutex tasks host l.memory_notify since) _ (
        moved others (Call.starved size since) (Call.allocating size (bit_and l.active_writer 1)) l
          (record l { memory_notify = batons.reset l.memory_notify }) a refl
          (ap (λ k. bit_and k 1) a.active) refl refl refl a.tail a.head a.offsets)
  advance-Account others (Call.leading task crc len since) l w a =
      if-After others (resumes batons mutex tasks host l.notify_leader since) _
        (headed-Account others crc len since task l (batons.reset l.notify_leader) _ a)
  advance-Account others (Call.copying task) l w a =
      if-After others
        ((l.writers task.index).completed_copy == sub64 (l.writers task.index).count 1) _
        (cleared-Account others task l _ a)
  advance-Account others (Call.committing task baton) l w a =
      never-After others (batons.ready baton) _ w
  advance-Account others (Call.posting task) l w a = absurd w
  advance-Account others (Call.resetting task) l w a = absurd w
  advance-Account others (Call.releasing task) l w a = absurd w
  advance-Account others Call.waking l w a = absurd w
  advance-Account others (Call.following task) l w a = record {
    lock = a.lock;
    first = a.first;
    active = a.active;
    position = a.position;
    tail = a.tail;
    head = a.head;
    offsets = a.offsets;
  }
  advance-Account others (Call.followed task since) l w a =
      if-After others (resumes batons mutex tasks host (l.writers task.index).completion since) _ (
        moved others (Call.followed task since) Call.done l l a refl tt refl refl refl a.tail a.head
          a.offsets)
  advance-Account others (Call.allocated task) l w a = tt
  advance-Account others Call.led l w a = tt
  advance-Account others Call.done l w a = tt
  advance-Account others Call.faulted l w a = tt
