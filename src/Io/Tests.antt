-- ===== src/Io/Tests.antt =====
-- A queue that is drained by a device with room for few requests, and results of the kernel.
use qstorage.Prelude.{ℕ, zero, suc, ◌≡◌, ◌≢◌, ◌↔◌, ◌⊎◌, refl, true, false, none, some, [], ◌∷◌}
use qstorage.Io.Request.Ops.{IoRequestType, IoRequest, fdatasync_member}
use qstorage.Io.Sink.{Sink, submit, Consumed, drain}
use qstorage.Io.Sink.Order.{Ends, drain-Ends}
use qstorage.Prelude.Words.{pos, negsuc}
use qstorage.Io.Completion.{
  ebadf, enotsock, complete, set_exception, complete_with, complete_with_lem,
}

abbrev sync : ℕ → IoRequest
sync fd = fdatasync_member (record { op = IoRequestType.fdatasync; fd = fd })

-- Takes requests while it has slots, and leaves a refused one as it is.
abbrev slots : IoRequest → ℕ → ℕ → Consumed ℕ
slots r c zero = record { taken = false; req = r; state = 0 }
slots r c (suc k) = record { taken = true; req = r; state = k }

abbrev three : Sink
three =
    record { req = sync 3; completion = 30 }
    ∷ record { req = sync 4; completion = 40 }
    ∷ record { req = sync 5; completion = 50 }
    ∷ []

submitted : submit (sync 5) 50 (submit (sync 4) 40 (submit (sync 3) 30 [])) ≡ three
unfolding submit
submitted = refl

drained :
    drain slots three 2
    ≡ record { processed = 2; queue = record { req = sync 5; completion = 50 } ∷ []; state = 0 }
unfolding drain
drained = refl

drain-Ends_example : Ends slots 0 three 2 (drain slots three 2)
drain-Ends_example = drain-Ends slots three 2

-- An I/O error of the device reaches nobody.
lost : complete_with (negsuc 4) ≡ none
unfolding complete_with
lost = refl

complete_with_lem_example :
    (complete_with (pos 4) ≡ some (complete 4))
    × ((complete_with (negsuc 4) ≡ some (set_exception 5)) ↔ ((5 ≡ ebadf) ⊎ (5 ≡ enotsock)))
    × ((complete_with (negsuc 4) ≡ none) ↔ ((5 ≢ ebadf) × (5 ≢ enotsock)))
complete_with_lem_example = complete_with_lem 4
