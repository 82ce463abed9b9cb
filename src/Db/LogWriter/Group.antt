-- ===== src/Db/LogWriter/Group.antt =====
-- The writes and the groups of src/db/log_writer.h, one step at a time.
use qstorage.Prelude.{
  ℕ, ◌+◌, ◌-◌, ◌*◌, ◌/◌, ◌%◌, ◌^◌, ◌<◌, ◌≤◌, ◌↔◌, ◌≡◌, ap, ap₂, ◌∙◌, false, Option, none, some,
  arith, replicate, ◌==◌, if_true,
}
use qstorage.Prelude.Bits.{◌>>◌, and_mask, and_shifted}
use qstorage.Prelude.Words.{u64_mod, add64, sub64}
use qstorage.Infra.Serialize.{Endian}
use qstorage.Db.Constant.{block_size}
use qstorage.Db.SpRingBuffer.{Ring, request_write_space, store}
use qstorage.Infra.Task.{BatonOps, MutexOps}
use qstorage.Db.LogWriter.{Writers, WriteTask, Write, LogWriter, set_writers}
use qstorage.Db.LogWriter.Calls.{
  Call, TaskOps, align_down, with_space, allocate, cleared, commit, write_group,
}

pub align_down-eq : (a : ℕ) → a < u64_mod → align_down a ≡ a / block_size * block_size
align_down-eq a h = omega (arith, and_shifted 13 a (2 ^ 51 - 1), and_mask 51 (a >> 13))

-- The length of a group as `LeaderComplete` rounds it up
abbrev pub round_up : ℕ → ℕ
round_up n = (n + (block_size - 1)) / block_size * block_size

round_up-eq : (n : ℕ) → n + 8192 < u64_mod → align_down (sub64 (add64 n block_size) 1) ≡ round_up n
round_up-eq n h =
    let same : sub64 (add64 n block_size) 1 ≡ n + 8191 = omega arith in
    ap align_down same ∙ align_down-eq (n + 8191) (omega arith)

module _ {B X : Type 0} (batons : BatonOps B) (mutex : MutexOps X) (tasks : TaskOps)
    (host : Endian) where
  -- The write of a group begins at the block that the address of its leader is in, and has the
  -- length of the group and 6 bytes, rounded up to whole blocks, modulo `2 ^ 16`.
  pub write_group_lem :
      (task : WriteTask) (l : LogWriter B X) (mem : ℕ → ℕ)
      → store l.buffer.mem (task.addr + (l.writers task.index).len) (replicate 6 0) ≡ some mem
      → l.base + task.addr < u64_mod
      → (l.writers task.index).len + 8198 < u64_mod
      → (write_group batons mutex tasks host task l).1.io
        ≡ tasks.dropped
            (record {
              fd = l.fd;
              addr = (l.base + task.addr) / block_size * block_size;
              len = round_up ((l.writers task.index).len + 6) % 2 ^ 16;
              offset = l.file_pos;
            })
            l.io
  unfolding write_group cleared commit
  write_group_lem task l mem stored here fits =
      let n = (l.writers task.index).len in
      let six : add64 n 6 ≡ n + 6 = omega arith in
      let size : align_down (sub64 (add64 (add64 n 6) block_size) 1) ≡ round_up (n + 6) =
        ap (λ k. align_down (sub64 (add64 k block_size) 1)) six
        ∙ round_up-eq (n + 6) (omega arith) in
      let begun = align_down-eq (l.base + task.addr) here in
      ap (λ o. (cleared batons mutex tasks host task l o).1.io) stored
      ∙ ap₂
          (λ a k.
            tasks.dropped (record { fd = l.fd; addr = a; len = k % 2 ^ 16; offset = l.file_pos })
              l.io)
          begun size

  -- The write of a group, where its rounded length fits 16 bits, begins at most a block before the
  -- group. It reaches to the end of the group and of the 6 bytes behind it exactly when the bytes
  -- between the beginning of the block and the group fit what the rounding adds.
  pub write_group-Covers :
      (task : WriteTask) (l : LogWriter B X) (mem : ℕ → ℕ)
      → store l.buffer.mem (task.addr + (l.writers task.index).len) (replicate 6 0) ≡ some mem
      → l.base + task.addr < u64_mod
      → round_up ((l.writers task.index).len + 6) < 2 ^ 16
      → (w : Write) × ((write_group batons mutex tasks host task l).1.io ≡ tasks.dropped w l.io)
        × (w.addr ≤ l.base + task.addr)
        × (l.base + task.addr < w.addr + block_size)
        × ((l.base + task.addr + (l.writers task.index).len + 6 ≤ w.addr + w.len) ↔ (
            (l.base + task.addr) % block_size + (l.writers task.index).len + 6
            ≤ round_up ((l.writers task.index).len + 6)))
  write_group-Covers task l mem stored here short =
      let n = (l.writers task.index).len in
      let a = l.base + task.addr in
      (
        record {
          fd = l.fd;
          addr = a / block_size * block_size;
          len = round_up (n + 6) % 2 ^ 16;
          offset = l.file_pos;
        },
        write_group_lem task l mem stored here (omega (arith, short)),
        omega arith,
        omega arith,
        (λ h. omega (arith, h, short), λ h. omega (arith, h, short)),
      )

  set-same : (ws : ℕ → Writers B) (i : ℕ) (w : Writers B) → set_writers ws i w i ≡ w
  set-same ws i w = if_true (i == i) w (ws i) (ground arith)

  refused_count :
      (size aw_index : ℕ) (l : LogWriter B X) (r : Option ℕ × Ring)
      → r.0 ≡ none
      → ((with_space batons mutex tasks host size aw_index l r).1.writers aw_index).count
        ≡ add64 (l.writers aw_index).count 1
  unfolding with_space
  refused_count size aw_index l (none, buffer) e =
      ap (λ (w : Writers B). w.count) (set-same l.writers aw_index _)
  refused_count size aw_index l (some addr, buffer) e = absurd cc

  -- A call of `asyncMalloc` that finds no room counts itself in its group, and again when it goes
  -- on: it then counts twice, and it is not the leader even if it came first.
  pub retry_counts_twice :
      (size aw_index addr : ℕ) (l l' : LogWriter B X) (buffer : Ring)
      → (request_write_space l.buffer size).0 ≡ none
      → l'.writers ≡ (allocate batons mutex tasks host size aw_index l).1.writers
      → request_write_space l'.buffer size ≡ (some addr, buffer)
      → (l.writers aw_index).count + 2 < u64_mod
      → let r = allocate batons mutex tasks host size aw_index l' in
        (r.0 ≡ Call.allocated (record { index = aw_index; is_leader = false; addr = addr }))
        × ((r.1.writers aw_index).count ≡ (l.writers aw_index).count + 2)
  unfolding allocate with_space
  retry_counts_twice size aw_index addr l l' buffer refused same granted small =
      let once : (l'.writers aw_index).count ≡ (l.writers aw_index).count + 1 =
        ap (λ (ws : ℕ → Writers B). (ws aw_index).count) same
        ∙ (refused_count size aw_index l (request_write_space l.buffer size) refused
            ∙ omega arith) in
      let follower : ((l'.writers aw_index).count == 0) ≡ false = ground arith in
      let go = ap (with_space batons mutex tasks host size aw_index l') granted in
      let twice : add64 (l'.writers aw_index).count 1 ≡ (l.writers aw_index).count + 2 =
        omega arith in
      (
        ap (λ (p : Call B × LogWriter B X). p.0) go
            ∙ ap (λ b. Call.allocated (record { index = aw_index; is_leader = b; addr = addr }))
                follower,
        ap (λ (p : Call B × LogWriter B X). (p.1.writers aw_index).count) go
            ∙ (ap (λ (w : Writers B). w.count) (set-same l'.writers aw_index _) ∙ twice),
      )
