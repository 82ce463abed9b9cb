-- ===== src/Db/LogWriter/Leaders/Advance.antt =====
-- What a step of any call does to a group of `LogWriter` (src/db/log_writer.h)
use mathlib.Core.Path.{subst}
use qstorage.Prelude.{ℕ, suc, ◌≤◌, ◌<◌, ◌≡◌, refl, sym, ap, Option, none, some}
use qstorage.Prelude.Words.{u64_mod}
use qstorage.Infra.Serialize.{Endian}
use qstorage.Db.Constant.{buffer_size}
use qstorage.Db.SpRingBuffer.{request_write_space}
use qstorage.Infra.Task.{BatonOps, MutexOps}
use qstorage.Db.LogWriter.{WriteTask, LogWriter}
use qstorage.Db.LogWriter.Calls.{
  Call, TaskOps, allocate, headed, cleared, write_group, advance, commit,
}
use qstorage.Db.LogWriter.Steps.{Waits, Event, runs, leads, follows, opens, completes}
use qstorage.Db.LogWriter.Account.{AtFirst}
use qstorage.Db.LogWriter.Leaders.{
  elected, Grouped, InGroup, Result, if-Result, stays, leaves, Space, request-Space,
  with_space-Result, never-Result, follow-Result,
}

module _ {B X : Type 0} (batons : BatonOps B) (mutex : MutexOps X) (tasks : TaskOps)
    (host : Endian) where
  open mutex use {acquire}

  locking-Result :
      (others n size aw_index : ℕ) (l : LogWriter B X)
      → InGroup batons mutex tasks host others n (Call.locking size aw_index) l
      → Result batons mutex tasks host others n l
          (advance batons mutex tasks host (Call.locking size aw_index) l)
  unfolding advance
  locking-Result others n size aw_index l g = go (acquire l.lock)
    where
      go :
          (o : Option X)
          → Result batons mutex tasks host others n l (elim o [
            | none ↦ none
            | some lock ↦ some (Call.allocating size aw_index, record l { lock = lock })
          ])
      go none = tt
      go (some lock) = stays batons mutex tasks host others n (Call.locking size aw_index) l g

  headed-Result :
      (others n crc len since : ℕ) (task : WriteTask) (l : LogWriter B X) (b : B)
      (o : Option (ℕ → ℕ))
      → InGroup batons mutex tasks host others n (Call.leading task crc len since) l
      → Result batons mutex tasks host others n l
          (some (headed batons mutex tasks host task (record l { notify_leader = b }) o))
  unfolding headed
  headed-Result others n crc len since task l b none g =
      leaves batons mutex tasks host others n (Call.leading task crc len since) l g
  headed-Result others n crc len since task l b (some mem) g =
      stays batons mutex tasks host others n (Call.leading task crc len since) l g

  cleared-Result :
      (others n : ℕ) (task : WriteTask) (l : LogWriter B X) (o : Option (ℕ → ℕ))
      → InGroup batons mutex tasks host others n (Call.copying task) l
      → Result batons mutex tasks host others n l (some (cleared batons mutex tasks host task l o))
  unfolding cleared commit
  cleared-Result others n task l none g =
      leaves batons mutex tasks host others n (Call.copying task) l g
  cleared-Result others n task l (some mem) g =
      stays batons mutex tasks host others n (Call.copying task) l g

  allocating-Result :
      (others n size aw_index : ℕ) (l : LogWriter B X)
      → aw_index ≡ 0
      → Space size l.buffer (request_write_space l.buffer size)
      → suc n < u64_mod
      → InGroup batons mutex tasks host others n (Call.allocating size aw_index) l
      → Result batons mutex tasks host others n l
          (advance batons mutex tasks host (Call.allocating size aw_index) l)
  unfolding advance allocate
  allocating-Result others n size aw_index l first space few g =
      subst
        (λ i.
          Result batons mutex tasks host others n l
            (advance batons mutex tasks host (Call.allocating size i) l))
        (sym first)
        (with_space-Result batons mutex tasks host others n size l
          (request_write_space l.buffer size) space few g)

  advance-Result :
      (others n : ℕ) (c : Call B) (l : LogWriter B X)
      → Waits batons c
      → AtFirst c
      → l.buffer.tail ≡ 0
      → l.buffer.head ≤ buffer_size
      → suc n < u64_mod
      → InGroup batons mutex tasks host others n c l
      → Result batons mutex tasks host others n l (advance batons mutex tasks host c l)
  unfolding advance write_group
  advance-Result others n (Call.malloc size) l w f t h few g =
      stays batons mutex tasks host others n (Call.malloc size) l g
  advance-Result others n (Call.locking size aw_index) l w f t h few g =
      locking-Result others n size aw_index l g
  advance-Result others n (Call.allocating size aw_index) l w f t h few g =
      allocating-Result others n size aw_index l f (request-Space size l.buffer t h) few g
  advance-Result others n (Call.starved size since) l w f t h few g =
      if-Result batons mutex tasks host others n l _ _
        (stays batons mutex tasks host others n (Call.starved size since) l g)
  advance-Result others n (Call.leading task crc len since) l w f t h few g =
      if-Result batons mutex tasks host others n l _ _
        (headed-Result others n crc len since task l _ _ g)
  advance-Result others n (Call.copying task) l w f t h few g =
      if-Result batons mutex tasks host others n l _ _ (cleared-Result others n task l _ g)
  advance-Result others n (Call.committing task baton) l w f t h few g =
      never-Result batons mutex tasks host others n l _ _ w
  advance-Result others n (Call.posting task) l w f t h few g = absurd w
  advance-Result others n (Call.resetting task) l w f t h few g = absurd w
  advance-Result others n (Call.releasing task) l w f t h few g = absurd w
  advance-Result others n Call.waking l w f t h few g = absurd w
  advance-Result others n (Call.following task) l w f t h few g =
      follow-Result batons mutex tasks host others n task
        (batons.posts (l.writers task.index).completion) l _ f refl refl g
  advance-Result others n (Call.followed task since) l w f t h few g =
      if-Result batons mutex tasks host others n l _ _
        (leaves batons mutex tasks host others n (Call.followed task since) l g)
  advance-Result others n (Call.allocated task) l w f t h few g = tt
  advance-Result others n Call.led l w f t h few g = tt
  advance-Result others n Call.done l w f t h few g = tt
  advance-Result others n Call.faulted l w f t h few g = tt

  pub Event-Result :
      (others n : ℕ) (c c' : Call B) (l l' : LogWriter B X)
      → Event batons mutex tasks host c c' l l'
      → Waits batons c
      → AtFirst c
      → l.buffer.tail ≡ 0
      → l.buffer.head ≤ buffer_size
      → suc n < u64_mod
      → InGroup batons mutex tasks host others n c l
      → Result batons mutex tasks host others n l (some (c', l'))
  Event-Result others n _ _ _ _ (runs c c' l l' e) u f t h few g =
      subst (Result batons mutex tasks host others n l) e
        (advance-Result others n c l u f t h few g)
  Event-Result others n _ _ _ _ (leads task crc len l y) u f t h few g =
      stays batons mutex tasks host others n (Call.leading task crc len 0) l (
        subst (λ o. Grouped others n o (l.writers 0).count (l.writers 0).len l.buffer.head)
          (ap (λ b. elected b task) y) g)
  Event-Result others n _ _ _ _ (follows task l y) u f t h few g =
      leaves batons mutex tasks host others n (Call.allocated task) l g
  Event-Result others n _ _ _ _ (opens c l) u f t h few g =
      stays batons mutex tasks host others n c l g
  Event-Result others n _ _ _ _ (completes task baton l w ws e) u f t h few g =
      stays batons mutex tasks host others n (Call.committing task baton) l g
