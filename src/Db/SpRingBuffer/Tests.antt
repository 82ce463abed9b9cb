-- ===== src/Db/SpRingBuffer/Tests.antt =====
-- A ring that goes round the end of its storage and of its counters, and the theorems at it.
use qstorage.Prelude.{◌-◌, ◌^◌, ◌≡◌, refl, true, none, some, List, [], ◌∷◌, arith}
use qstorage.Db.Constant.{buffer_size}
use qstorage.Db.SpRingBuffer.{Ring, request_write_space, commit_write, store}
use qstorage.Db.SpRingBuffer.Bytes.{window}
use qstorage.Db.SpRingBuffer.Invariant.{IsValid}
use qstorage.Db.SpRingBuffer.Queue.{
  contents, got, read_bytes, Op, put, commit, put_bytes, run, run_queue, Committed, run-run_queue,
}

-- Two bytes in use; the head is two bytes before the end of the storage, and the next write wraps
-- the counter as well.
abbrev late : Ring
late = record { tail = 2 ^ 64 - 4; head = 2 ^ 64 - 2; mem = λ _. 0 }

late-IsValid : IsValid late
late-IsValid = omega arith

round_the_end :
    ((request_write_space late 10).0 ≡ some (buffer_size - 2))
    × ((request_write_space late 10).1.head ≡ 8)
    × ((request_write_space late buffer_size).0 ≡ none)
unfolding request_write_space
round_the_end = (refl, refl, refl)

abbrev script : List Op
script = put (7 ∷ 8 ∷ 9 ∷ []) ∷ commit 4 ∷ put (5 ∷ []) ∷ commit 2 ∷ []

script-Committed : Committed (contents late) script
unfolding Committed window
script-Committed = (omega arith, (omega arith, tt))

run-run_queue_example : run late script ≡ some (run_queue (contents late) script)
run-run_queue_example = run-run_queue script late late-IsValid script-Committed

script_runs :
    run late script
    ≡ some (got true ∷ read_bytes (0 ∷ 0 ∷ 7 ∷ 8 ∷ []) ∷ got true ∷ read_bytes (9 ∷ 5 ∷ []) ∷ [])
unfolding run window put_bytes request_write_space store commit_write
script_runs = refl
