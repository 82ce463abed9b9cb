-- ===== src/Db/LogWriter/Steps.antt =====
-- Any number of calls of one `LogWriter` (src/db/log_writer.h) in any interleaving.
use qstorage.Prelude.{ℕ, ◌≡◌, true, false, some, List, ◌∷◌, ◌++◌, All}
use qstorage.Infra.Serialize.{Endian}
use qstorage.Db.SpRingBuffer.{fresh}
use qstorage.Infra.Task.{BatonOps, MutexOps}
use qstorage.Db.LogWriter.{WriteTask, Write, LogWriter, new_writer}
use qstorage.Db.LogWriter.Calls.{Call, TaskOps, advance}

-- A call of `asyncMalloc` that has just been made
abbrev pub Fresh : {B : Type 0} → Call B → Type 0
Fresh c = (size : ℕ) × (c ≡ Call.malloc size)

-- A call that has not come back from `LeaderComplete` or `FollowerComplete`, nor from the wait for
-- the write
abbrev pub Waits : {B : Type 0} → BatonOps B → Call B → Type 0
Waits batons Call.led = ⊥
Waits batons Call.done = ⊥
Waits batons (Call.committing task baton) = batons.ready baton ≡ false
Waits batons (Call.posting task) = ⊥
Waits batons (Call.resetting task) = ⊥
Waits batons (Call.releasing task) = ⊥
Waits batons Call.waking = ⊥
Waits batons _ = Unit

module _ {B X : Type 0} (batons : BatonOps B) (mutex : MutexOps X) (tasks : TaskOps)
    (host : Endian) where
  open batons use {post, posts}

  -- A step of a call; what the user of a task calls next; the post of `init`, whenever it comes;
  -- and the end of a write, which posts the baton of a call that waits
  pub data Event : Call B → Call B → LogWriter B X → LogWriter B X → Type 0 where
    runs :
        (c c' : Call B) (l l' : LogWriter B X)
        → advance batons mutex tasks host c l ≡ some (c', l')
        → Event c c' l l'
    leads :
        (task : WriteTask) (crc len : ℕ) (l : LogWriter B X)
        → task.is_leader ≡ true
        → Event (Call.allocated task) (Call.leading task crc len (posts l.notify_leader)) l l
    follows :
        (task : WriteTask) (l : LogWriter B X)
        → task.is_leader ≡ false
        → Event (Call.allocated task) (Call.following task) l l
    opens :
        (c : Call B) (l : LogWriter B X)
        → Event c c l (record l { notify_leader = post l.notify_leader })
    completes :
        (task : WriteTask) (baton : B) (l : LogWriter B X) (w : Write) (ws : List Write)
        → l.io ≡ w ∷ ws
        → Event
            (Call.committing task baton)
            (Call.committing task (post baton))
            l
            (record l { io = ws })

  pub data Reach (mem : ℕ → ℕ) (base : ℕ) : List (Call B) → LogWriter B X → Type 0 where
    start :
        (cs : List (Call B))
        → All Fresh cs
        → Reach mem base cs (new_writer batons mutex (fresh mem) base)
    later :
        (front : List (Call B)) (c c' : Call B) (back : List (Call B)) (l l' : LogWriter B X)
        → Reach mem base (front ++ c ∷ back) l
        → Event c c' l l'
        → Reach mem base (front ++ c' ∷ back) l'
