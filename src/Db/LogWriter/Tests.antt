-- ===== src/Db/LogWriter/Tests.antt =====
-- The parameters of `LogWriter` (src/db/log_writer.h) by concrete functions: a baton is its state
-- and its number of posts, a mutex whether it is held, a dropped task does nothing, and the file
-- system has one file that grows. Then runs of one and two calls.
use qstorage.Db.LogWriter.Group.{round_up, write_group-Covers}
use qstorage.Prelude.{
  All-append, ◌++◌, replicate, ◌%◌, ◌↔◌, false, ltb, if◌then◌else◌, total, ◌<◌, ℕ, zero, suc, ◌+◌,
  ◌≤◌, ◌≡◌, refl, ◌⊎◌, inl, Bool, true, none, some, List, [], ◌∷◌, All, arith,
}
use qstorage.Infra.Serialize.{Endian}
use qstorage.Db.Constant.{buffer_size, block_size}
use qstorage.Db.SpRingBuffer.{Ring, fresh, request_write_space, update, store}
use qstorage.Infra.Task.Flags.{Flag, batons, mutex}
use qstorage.Db.LogWriter.{WriteTask, Write, LogWriter, new_writer}
use qstorage.Db.LogWriter.Init.{FileOs, Opened, init, init-Opened}
use qstorage.Db.LogWriter.Calls.{Call, TaskOps, allocate, advance}
use qstorage.Db.LogWriter.Steps.{Waits, Reach, start, later, runs}
use qstorage.Db.LogWriter.Account.{AtFirst}
use qstorage.Db.LogWriter.Invariant.{Reach-fixed}
use qstorage.Db.LogWriter.Unwritten.{Reach-unwritten}
use qstorage.Db.LogWriter.Areas.{Area, Given, begin, next, holders, Given-apart}
use qstorage.Db.LogWriter.Calls.{with_space, write_group}
use qstorage.Db.LogWriter.Leaders.Span.{steps, leads_group, Given-span}
use qstorage.Prelude.Words.{u64_mod}

abbrev tasks : TaskOps
tasks = record { dropped = λ w ws. ws; dropped-All = λ P w ws p h. h }

fstat_size : (w n : ℕ) → ◌≡◌ {A = ℕ ⊎ ℕ} (inl w) (inl n) → w ≡ n
fstat_size w n h = cc

-- The state of the file system is the size of the file.
abbrev files : FileOs ℕ
files = record {
  file_size = λ w fd. w;
  open_file = λ w. (inl 5, w);
  fstat = λ fd w. (inl w, w);
  fallocate = λ fd size w. (inl tt, w + size);
  close = λ fd w. w;
  fstat-size = λ fd w n h. fstat_size w n h;
  fallocate-size = λ fd size w h. omega arith;
}

abbrev writer : LogWriter Flag Bool
writer = new_writer batons mutex (fresh (λ a. 0)) 8192

init-Opened_example : Opened files batons writer.notify_leader (init files batons writer 0)
init-Opened_example = init-Opened files batons writer 0

abbrev task : WriteTask
task = record { index = 0; is_leader = true; addr = 0 }

abbrev grown : LogWriter Flag Bool
grown = record writer {
  writers = λ i. elim i [
    | zero ↦ record { completion = batons.new_baton; count = 1; len = 100; completed_copy = 0 }
    | suc j ↦ record { completion = batons.new_baton; count = 0; len = 0; completed_copy = 0 }
  ];
  buffer = record { tail = 0; head = 100; mem = λ a. 0 };
}

called : Reach batons mutex tasks Endian.little (λ a. 0) 8192 (Call.malloc 100 ∷ []) writer
called = start (Call.malloc 100 ∷ []) ((100, refl), tt)

abbrev locked : LogWriter Flag Bool
locked = record writer { lock = true }

begun : Reach batons mutex tasks Endian.little (λ a. 0) 8192 (Call.allocating 100 0 ∷ []) locked
unfolding advance
begun =
    later [] (Call.locking 100 0) (Call.allocating 100 0) [] writer locked
      (later [] (Call.malloc 100) (Call.locking 100 0) [] writer writer called
        (runs (Call.malloc 100) (Call.locking 100 0) writer writer refl))
      (runs (Call.locking 100 0) (Call.allocating 100 0) writer locked refl)

abbrev calls : List (Call Flag)
calls = Call.allocating 100 0 ∷ []

Reach-fixed_example :
    (locked.buffer.tail ≡ 0)
    × (locked.buffer.head ≤ buffer_size)
    × All AtFirst calls
    × (locked.file_pos ≡ 0)
Reach-fixed_example =
    Reach-fixed batons mutex tasks Endian.little (λ w ws. refl) (λ a. 0) 8192 calls locked begun

Reach-unwritten_example : All (Waits batons) calls × (locked.io ≡ [])
Reach-unwritten_example =
    Reach-unwritten batons mutex tasks Endian.little (λ w ws. refl) (λ a. 0) 8192 calls locked begun

abbrev clear_at : ℕ → (ℕ → ℕ) → ℕ → ℕ
clear_at i mem = update mem i 0

abbrev cleared_mem : ℕ → ℕ
cleared_mem =
    clear_at 105 (clear_at 104 (clear_at 103 (clear_at 102 (clear_at 101 (clear_at 100 (λ a. 0))))))

cleared_here : store (λ a. 0) 100 (replicate 6 0) ≡ some cleared_mem
unfolding store
cleared_here = refl

-- Or a dropped task that has sent its write before
abbrev eager : TaskOps
eager = record {
  dropped = λ w ws. ws ++ w ∷ [];
  dropped-All = λ P w ws p h. All-append P ws (w ∷ []) h (p, tt);
}

write_group-Covers_example :
    (w : Write) × ((write_group batons mutex eager Endian.little task grown).1.io ≡ w ∷ [])
    × (w.addr ≤ 8192)
    × (8192 < w.addr + block_size)
    × ((8192 + 100 + 6 ≤ w.addr + w.len) ↔ (8192 % block_size + 100 + 6 ≤ round_up 106))
write_group-Covers_example =
    write_group-Covers batons mutex eager Endian.little task grown cleared_mem cleared_here
      (omega arith) (omega arith)

abbrev full : LogWriter Flag Bool
full = record writer { buffer = record { tail = 0; head = buffer_size; mem = λ a. 0 } }

abbrev freed : LogWriter Flag Bool
freed = record (allocate batons mutex tasks Endian.little 10 0 full).1 { buffer = fresh (λ a. 0) }

abbrev after_ten : Ring
after_ten = record { tail = 0; head = 10; mem = λ a. 0 }

full_here : (request_write_space full.buffer 10).0 ≡ none
unfolding request_write_space
full_here = refl

free_here : request_write_space freed.buffer 10 ≡ (some 0, after_ten)
unfolding request_write_space
free_here = refl

-- Two calls get the first 100 bytes and the next 50.
abbrev first_call : Call Flag
first_call = Call.allocated (record { index = 0; is_leader = true; addr = 0 })

abbrev second_call : Call Flag
second_call = Call.allocated (record { index = 0; is_leader = false; addr = 100 })

abbrev once : LogWriter Flag Bool
once = (allocate batons mutex tasks Endian.little 100 0 locked).1

abbrev locked_again : LogWriter Flag Bool
locked_again = record once { lock = true }

abbrev twice : LogWriter Flag Bool
twice = (allocate batons mutex tasks Endian.little 50 0 locked_again).1

abbrev Gave : List (Call Flag) → LogWriter Flag Bool → List Area → Type 0
Gave = Given batons mutex tasks Endian.little (λ a. 0) 8192

first-Gave : Gave (first_call ∷ Call.malloc 50 ∷ []) once (record { addr = 0; size = 100 } ∷ [])
unfolding advance allocate with_space request_write_space
first-Gave =
    next [] (Call.allocating 100 0) first_call (Call.malloc 50 ∷ []) locked once []
      (next [] (Call.locking 100 0) (Call.allocating 100 0) (Call.malloc 50 ∷ []) writer locked []
        (next [] (Call.malloc 100) (Call.locking 100 0) (Call.malloc 50 ∷ []) writer writer []
          (begin (Call.malloc 100 ∷ Call.malloc 50 ∷ []) ((100, refl), ((50, refl), tt)))
          (runs (Call.malloc 100) (Call.locking 100 0) writer writer refl))
        (runs (Call.locking 100 0) (Call.allocating 100 0) writer locked refl))
      (runs (Call.allocating 100 0) first_call locked once refl)

abbrev areas : List Area
areas = record { addr = 100; size = 50 } ∷ record { addr = 0; size = 100 } ∷ []

abbrev one : List Area
one = record { addr = 0; size = 100 } ∷ []

both-Gave : Gave (first_call ∷ second_call ∷ []) twice areas
unfolding advance allocate with_space request_write_space
both-Gave =
    next (first_call ∷ []) (Call.allocating 50 0) second_call [] locked_again twice one
      (next (first_call ∷ []) (Call.locking 50 0) (Call.allocating 50 0) [] once locked_again one
        (next (first_call ∷ []) (Call.malloc 50) (Call.locking 50 0) [] once once one first-Gave
          (runs (Call.malloc 50) (Call.locking 50 0) once once refl))
        (runs (Call.locking 50 0) (Call.allocating 50 0) once locked_again refl))
      (runs (Call.allocating 50 0) second_call locked_again twice refl)

Given-apart_example :
    (holders 100 areas ≡ (if ltb 100 twice.buffer.head then 1 else 0))
    × (twice.buffer.head ≤ buffer_size)
Given-apart_example =
    Given-apart batons mutex tasks Endian.little (λ w ws. refl) (λ a. 0) 8192 100
      (first_call ∷ second_call ∷ []) twice areas both-Gave

few_steps :
    steps batons mutex tasks Endian.little
      (λ a. 0)
      8192
      (first_call ∷ second_call ∷ [])
      twice
      areas
      both-Gave
    < u64_mod
unfolding first-Gave both-Gave
few_steps = omega arith

some_bytes : (twice.writers 0).len ≡ 150
unfolding allocate with_space request_write_space
some_bytes = refl

Given-span_example :
    (total leads_group (first_call ∷ second_call ∷ []) ≡ 1)
    × (0 + (twice.writers 0).len ≡ twice.buffer.head)
    × ((x : ℕ) → holders x areas ≡ (if ltb x (0 + (twice.writers 0).len) then 1 else 0))
Given-span_example =
    Given-span batons mutex tasks Endian.little (λ w ws. refl) (λ a. 0) 8192 [] first_call
      (second_call ∷ []) twice areas (record { index = 0; is_leader = true; addr = 0 }) both-Gave
      few_steps refl (omega (arith, some_bytes))
