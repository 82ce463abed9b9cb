-- ===== src/Db/SpRingBuffer/Threads/Tests.antt =====
-- The two threads of src/db/sp_ring_buffer.h: the whole ring is given out and half of it committed,
-- of which the next call has not heard.
use qstorage.Prelude.{◌+◌, ◌≤◌, ◌≡◌, refl, none, some, arith}
use qstorage.Db.Constant.{buffer_size}
use qstorage.Infra.Atomic.{load_relaxed, fetch_add_relaxed}
use qstorage.Db.SpRingBuffer.Threads.{
  Shared, Producer, Reach, initial, load_tail, reserve, commit_write, start, loads, reserves,
  commits,
}
use qstorage.Db.SpRingBuffer.Threads.Window.{Gives, Reach-Gives}

abbrev all_given : Shared
all_given = record initial { head = 8388608 }

first_loads : Reach (Producer.loaded 8388608 0) initial 0 0
unfolding load_tail load_relaxed
first_loads = loads 8388608 0 initial 0 0 start (omega arith)

first_gets : Reach Producer.outside all_given 8388608 0
unfolding reserve
first_gets = reserves 8388608 0 initial 0 0 first_loads

abbrev half_committed : Shared
half_committed = commit_write 4194304 all_given

second_commits : Reach Producer.outside half_committed 8388608 4194304
second_commits = commits 4194304 Producer.outside all_given 8388608 0 first_gets (omega arith)

abbrev unheard : Shared
unheard = record half_committed { visible = 1 }

second_loads : Reach (Producer.loaded 4096 0) unheard 8388608 4194304
unfolding load_tail load_relaxed commit_write fetch_add_relaxed
second_loads = loads 4096 1 half_committed 8388608 4194304 second_commits (omega arith)

-- It is refused, although there is room.
is_refused : (reserve 4096 0 unheard).0 ≡ none
unfolding reserve commit_write fetch_add_relaxed
is_refused = refl

-- One that has heard of the commit gets the beginning of the ring.
abbrev heard : Shared
heard = record half_committed { visible = 0 }

third_loads : Reach (Producer.loaded 4096 4194304) heard 8388608 4194304
unfolding load_tail load_relaxed commit_write fetch_add_relaxed
third_loads = loads 4096 0 half_committed 8388608 4194304 second_commits (omega arith)

Reach-Gives_example :
    (4194304 ≤ 8388608)
    × (8388608 ≤ 4194304 + buffer_size)
    × Gives heard 4096 4194304 8388608 (some 0)
unfolding reserve commit_write fetch_add_relaxed
Reach-Gives_example = Reach-Gives 4096 4194304 heard 8388608 4194304 third_loads
