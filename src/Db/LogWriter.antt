-- ===== src/Db/LogWriter.antt =====
-- `LogWriter` and `WriteTask` of src/db/log_writer.h: writers get room in the ring buffer of the
-- log in groups, and the first of a group, its leader, writes the group to the file. The batons,
-- the mutex and the tasks of folly are parameters with their documented laws. An address is given
-- by its offset from `buffer_` of the ring.
pub mod Init
pub mod Calls
pub mod Steps
pub mod Account
pub mod Invariant
pub mod Unwritten
pub mod Group
pub mod Areas
pub mod Leaders
mod Tests
use qstorage.Prelude.{
  ℕ, suc, ◌≡◌, Bool, true, false, Option, none, some, List, [], ◌==◌, if◌then◌else◌,
}
use qstorage.Prelude.Words.{add64}
use qstorage.Infra.Task.{BatonOps, MutexOps}
use qstorage.Db.SpRingBuffer.{Ring}

-- `LogWriter::Writers`, one group of writers
pub record Writers (B : Type 0) : Type 0 where
  pub completion : B
  pub count : ℕ
  pub len : ℕ
  pub completed_copy : ℕ

-- `WriteTask`, without the reference to its writer
pub record WriteTask : Type 0 where
  pub index : ℕ
  pub is_leader : Bool
  pub addr : ℕ

-- The request that `commit` makes, with the code `WRITE`
pub record Write : Type 0 where
  pub fd : Option ℕ
  pub addr : ℕ
  pub len : ℕ
  pub offset : ℕ

-- `LogWriter`. A negative `fd_` is `none`; `base` is the address of the ring's `buffer_`; `io` is
-- what the queue of the I/O ring has got.
pub record LogWriter (B X : Type 0) : Type 0 where
  pub writers : ℕ → Writers B
  pub active_writer : ℕ
  pub file_pos : ℕ
  pub fd : Option ℕ
  pub buffer : Ring
  pub base : ℕ
  pub lock : X
  pub memory_notify : B
  pub notify_leader : B
  pub io : List Write

abbrev pub set_writers : {B : Type 0} → (ℕ → Writers B) → ℕ → Writers B → ℕ → Writers B
set_writers ws i w j = if i == j then w else ws j

module _ {B X : Type 0} (batons : BatonOps B) (mutex : MutexOps X) where
  open batons use {new_baton, reset}
  open mutex use {new_mutex}

  -- `Writers::Reset`
  abbrev pub reset_writers : Writers B → Writers B
  reset_writers w = record {
    completion = reset w.completion;
    count = 0;
    len = 0;
    completed_copy = 0;
  }

  abbrev pub new_writers : Writers B
  new_writers = record { completion = new_baton; count = 0; len = 0; completed_copy = 0 }

  -- The constructor, around a ring at an address
  abbrev pub new_writer : (buffer : Ring) (base : ℕ) → LogWriter B X
  new_writer buffer base = record {
    writers = λ i. new_writers;
    active_writer = 0;
    file_pos = 0;
    fd = some 0;
    buffer = buffer;
    base = base;
    lock = new_mutex;
    memory_notify = new_baton;
    notify_leader = new_baton;
    io = [];
  }
