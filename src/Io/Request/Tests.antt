-- ===== src/Io/Request/Tests.antt =====
-- Requests that are split, and the theorems at them.
use qstorage.Prelude.{All, ◌≡◌, refl, true, none, List, [], ◌∷◌, arith}
use qstorage.Io.Request.Ops.{
  IoRequestType, Iovec, ReadOp, ReadvOp, readv_member, sub_req_buffer, sub_req_iovec, IoPart,
}
use qstorage.Io.Request.Split.{split_buffer, iovec_loop, split_iovec, split, parts}
use qstorage.Io.Request.Transfers.{transfers, moved, FillsUp, SameFile}
use qstorage.Io.Request.SplitIovec.{split_iovec_lem, iovec_loop_zero}
use qstorage.Io.Request.Dispatch.{IsTagged, SplitsUp, split-SplitsUp}

abbrev ten_bytes : ReadOp
ten_bytes = record {
  op = IoRequestType.write;
  nowait_works = true;
  fd = 3;
  pos = 4096;
  addr = 100;
  size = 10;
}

abbrev scattered : ReadvOp
scattered = record {
  op = IoRequestType.readv;
  nowait_works = true;
  fd = 3;
  pos = 4096;
  iovecs = record { base = 100; len = 3 } ∷ record { base = 200; len = 6 } ∷ [];
}

split_ten :
    split_buffer ten_bytes 4
    ≡ parts (
        record { req = sub_req_buffer ten_bytes 0 4; size = 4; iovecs = [] }
        ∷ record { req = sub_req_buffer ten_bytes 4 4; size = 4; iovecs = [] }
        ∷ record { req = sub_req_buffer ten_bytes 8 2; size = 2; iovecs = [] }
        ∷ [])
unfolding split_buffer
split_ten = refl

-- The second buffer is cut after its first byte, and again four bytes later.
split_scattered :
    let first : List Iovec = record { base = 100; len = 3 } ∷ record { base = 200; len = 1 } ∷ [] in
    let second : List Iovec = record { base = 201; len = 4 } ∷ [] in
    let third : List Iovec = record { base = 205; len = 1 } ∷ [] in
    split_iovec scattered 4
    ≡ parts (
        record { req = sub_req_iovec scattered 0 first; size = 4; iovecs = first }
        ∷ record { req = sub_req_iovec scattered 4 second; size = 4; iovecs = second }
        ∷ record { req = sub_req_iovec scattered 8 third; size = 1; iovecs = third }
        ∷ [])
unfolding split_iovec
split_scattered = refl

-- A request of no bytes is one empty part, and a vector of no buffers none.
split_nothing :
    (split_buffer (record ten_bytes { size = 0 }) 4
      ≡ parts (record { req = sub_req_buffer ten_bytes 0 0; size = 0; iovecs = [] } ∷ []))
    × (split_iovec (record scattered { iovecs = [] }) 4 ≡ parts [])
unfolding split_buffer split_iovec sub_req_buffer
split_nothing = (refl, refl)

split_iovec_lem_example :
    (ps : List IoPart) × (split_iovec scattered 4 ≡ parts ps)
    × (moved ps ≡ transfers (readv_member scattered))
    × FillsUp 4 ps
    × All (SameFile (readv_member scattered)) ps
split_iovec_lem_example = split_iovec_lem scattered 4 (omega arith) (omega arith) (omega arith)

iovec_loop_zero_example : iovec_loop 1000 scattered 0 scattered.iovecs [] 0 0 0 ≡ none
iovec_loop_zero_example =
    iovec_loop_zero 1000 scattered scattered.iovecs [] 0 (omega arith) (omega arith)

scattered-IsTagged : IsTagged (readv_member scattered)
unfolding IsTagged
scattered-IsTagged = (refl, refl, omega arith)

split-SplitsUp_example : SplitsUp (readv_member scattered) 4 (split (readv_member scattered) 4)
split-SplitsUp_example =
    split-SplitsUp (readv_member scattered) 4 scattered-IsTagged (omega arith) (omega arith)
