-- ===== src/Db/LogWriter/Calls.antt =====
-- `asyncMalloc`, `LeaderComplete` and `FollowerComplete` of src/db/log_writer.h. A call is the
-- point that it has reached; a step takes it from one wait to the next, and calls interleave in any
-- order. A wait for a baton keeps the number of posts that the baton had when the wait began.
use Prim.Native.Nat.{bit_and}
use qstorage.Prelude.{
  ℕ, ◌+◌, ◌-◌, ◌%◌, ◌^◌, Bool, ◌||◌, Option, none, some, List, replicate, All, ltb, ◌==◌,
  if◌then◌else◌,
}
use qstorage.Prelude.Words.{u64_mod, add64, sub64}
use qstorage.Infra.Serialize.{Endian, object_bytes, to_host}
use qstorage.Db.Constant.{block_size}
use qstorage.Db.SpRingBuffer.{Ring, request_write_space, commit_write, store}
use qstorage.Infra.Task.{BatonOps, MutexOps}
use qstorage.Db.LogWriter.{Writers, WriteTask, Write, LogWriter, set_writers, reset_writers}

pub data Call (B : Type 0) : Type 0 where
  -- `asyncMalloc`: called, before the lock, at `l1`, waiting for memory, and returned
  malloc : (size : ℕ) → Call B
  locking allocating : (size aw_index : ℕ) → Call B
  starved : (size since : ℕ) → Call B
  allocated : WriteTask → Call B
  -- `LeaderComplete`: called, in its loop, waiting for the write, then before each of the four
  -- statements behind the first post, and returned
  leading : WriteTask → (crc len since : ℕ) → Call B
  copying : WriteTask → Call B
  committing : WriteTask → B → Call B
  posting resetting releasing : WriteTask → Call B
  waking : Call B
  led : Call B
  -- `FollowerComplete`: called, waiting for its leader, and returned
  following : WriteTask → Call B
  followed : WriteTask → (since : ℕ) → Call B
  done : Call B
  -- A write outside of the mapped memory
  faulted : Call B

-- `& ~(kBlockSize - 1)`
abbrev pub align_down : ℕ → ℕ
align_down a = bit_and a (u64_mod - block_size)

-- What folly does with a task that is made and dropped without being awaited, as `commit` does with
-- the one of `submit`: the queue of the I/O ring after that. It holds nothing else than it held and
-- the write.
pub record TaskOps : Type 1 where
  pub dropped : Write → List Write → List Write
  pub dropped-All :
      (P : Write → Type 0) (w : Write) (ws : List Write) → P w → All P ws → All P (dropped w ws)

module _ {B X : Type 0} (batons : BatonOps B) (mutex : MutexOps X) (tasks : TaskOps)
    (host : Endian) where
  open tasks use {dropped}
  open batons use {new_baton, post, reset, ready, posts}
  open mutex use {acquire, unlock}

  abbrev pub resumes : B → (since : ℕ) → Bool
  resumes b since = ready b || ltb since (posts b)

  abbrev pub set_mem : LogWriter B X → (ℕ → ℕ) → LogWriter B X
  set_mem l mem = record l { buffer = record l.buffer { mem = mem } }

  -- From `l1` to the `goto` or the end of `asyncMalloc`, with what `RequestWriteSpace` gives
  unfoldable pub with_space :
      (size aw_index : ℕ) → LogWriter B X → Option ℕ × Ring → Call B × LogWriter B X
  with_space size aw_index l (none, buffer) =
      let g = l.writers aw_index in
      let counted : Writers B = record g { count = add64 g.count 1 } in
      (
        Call.starved size (posts l.memory_notify),
        record l { writers = set_writers l.writers aw_index counted; buffer = buffer },
      )
  with_space size aw_index l (some addr, buffer) =
      let g = l.writers aw_index in
      let counted : Writers B = record g { count = add64 g.count 1; len = add64 g.len size } in
      (
        Call.allocated (record { index = aw_index; is_leader = g.count == 0; addr = addr }),
        record l {
          writers = set_writers l.writers aw_index counted;
          buffer = buffer;
          lock = unlock l.lock;
        },
      )

  unfoldable pub allocate : (size aw_index : ℕ) → LogWriter B X → Call B × LogWriter B X
  unfolding with_space
  allocate size aw_index l = with_space size aw_index l (request_write_space l.buffer size)

  -- The two values of a header, as `SerializeLE` writes them
  unfoldable pub write_header : LogWriter B X → (addr crc len : ℕ) → Option (ℕ → ℕ)
  write_header l addr crc len =
      elim (store l.buffer.mem addr (object_bytes host 4 (to_host host 4 crc))) [
        | none ↦ none
        | some mem ↦ store mem (addr + 4) (object_bytes host 2 (to_host host 2 len))
      ]

  -- `commit`, up to the wait for its baton
  unfoldable pub commit : (addr len offset : ℕ) → LogWriter B X → LogWriter B X
  commit addr len offset l =
      let req : Write = record { fd = l.fd; addr = addr; len = len % 2 ^ 16; offset = offset } in
      record l { io = dropped req l.io }

  -- `LeaderComplete` behind its header
  unfoldable pub headed : WriteTask → LogWriter B X → Option (ℕ → ℕ) → Call B × LogWriter B X
  headed task l none = (Call.faulted, l)
  headed task l (some mem) = (Call.copying task, set_mem l mem)

  -- `LeaderComplete` behind its `memset`, up to the wait for the write
  unfoldable pub cleared : WriteTask → LogWriter B X → Option (ℕ → ℕ) → Call B × LogWriter B X
  unfolding commit
  cleared task l none = (Call.faulted, l)
  cleared task l (some mem) =
      let g = l.writers task.index in
      let start = align_down (l.base + task.addr) in
      let len = add64 g.len 6 in
      let size = align_down (sub64 (add64 len block_size) 1) in
      (Call.committing task new_baton, commit start size l.file_pos (set_mem l mem))

  -- Behind the loop of `LeaderComplete`
  unfoldable pub write_group : WriteTask → LogWriter B X → Call B × LogWriter B X
  unfolding cleared
  write_group task l =
      let g = l.writers task.index in
      cleared task l (store l.buffer.mem (task.addr + g.len) (replicate 6 0))

  -- Behind the write no lock is held, and other calls may run between the statements:
  -- `completion_.post()`,
  unfoldable pub post_completion : WriteTask → LogWriter B X → LogWriter B X
  post_completion task l =
      let g = l.writers task.index in
      let posted : Writers B = record g { completion = post g.completion } in
      record l { writers = set_writers l.writers task.index posted }

  -- `notify_leader_.post()`,
  abbrev pub notify_next : LogWriter B X → LogWriter B X
  notify_next l = record l { notify_leader = post l.notify_leader }

  -- `Reset()`,
  unfoldable pub reset_group : WriteTask → LogWriter B X → LogWriter B X
  reset_group task l =
      let clean = reset_writers batons mutex (l.writers task.index) in
      record l { writers = set_writers l.writers task.index clean }

  -- `CommitWrite` of the length that the group then has,
  unfoldable pub release_group : WriteTask → LogWriter B X → LogWriter B X
  release_group task l = record l { buffer = commit_write l.buffer (l.writers task.index).len }

  -- and `memory_notify_.post()`
  abbrev pub notify_memory : LogWriter B X → LogWriter B X
  notify_memory l = record l { memory_notify = post l.memory_notify }

  -- The next step of a call, `none` while it waits and after it has returned
  unfoldable pub advance : Call B → LogWriter B X → Option (Call B × LogWriter B X)
  unfolding allocate write_header headed write_group post_completion reset_group release_group
  advance (Call.malloc size) l = some (Call.locking size (bit_and l.active_writer 1), l)
  advance (Call.locking size aw_index) l = elim (acquire l.lock) [
    | none ↦ none
    | some lock ↦ some (Call.allocating size aw_index, record l { lock = lock })
  ]
  advance (Call.allocating size aw_index) l = some (allocate size aw_index l)
  advance (Call.starved size since) l =
      if resumes l.memory_notify since
      then some (
        Call.allocating size (bit_and l.active_writer 1),
        record l { memory_notify = reset l.memory_notify },
      )
      else none
  advance (Call.leading task crc len since) l =
      let alone : LogWriter B X = record l { notify_leader = reset l.notify_leader } in
      if resumes l.notify_leader since
      then some (headed task alone (write_header alone task.addr crc len))
      else none
  advance (Call.copying task) l =
      let g = l.writers task.index in
      if g.completed_copy == sub64 g.count 1 then some (write_group task l) else none
  advance (Call.committing task baton) l =
      if ready baton then some (Call.posting task, post_completion task l) else none
  advance (Call.posting task) l = some (Call.resetting task, notify_next l)
  advance (Call.resetting task) l = some (Call.releasing task, reset_group task l)
  advance (Call.releasing task) l = some (Call.waking, release_group task l)
  advance Call.waking l = some (Call.led, notify_memory l)
  advance (Call.following task) l =
      let g = l.writers task.index in
      let copied : Writers B = record g { completed_copy = add64 g.completed_copy 1 } in
      some (
        Call.followed task (posts g.completion),
        record l { writers = set_writers l.writers task.index copied },
      )
  advance (Call.followed task since) l =
      if resumes (l.writers task.index).completion since then some (Call.done, l) else none
  advance (Call.allocated task) l = none
  advance Call.led l = none
  advance Call.done l = none
  advance Call.faulted l = none
