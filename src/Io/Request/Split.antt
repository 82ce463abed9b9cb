-- ===== src/Io/Request/Split.antt =====
-- `IoRequest::Split`, `SplitBuffer` and `SplitIovec` of src/io/io_request.cc.
use mathlib.Core.Option
use qstorage.Prelude.{
  ℕ, zero, suc, ◌+◌, ◌*◌, min, Bool, Option, none, some, List, [], ◌∷◌, ◌++◌, ltb, leb, ◌==◌,
  if◌then◌else◌, length,
}
use qstorage.Prelude.Words.{add64, sub64}
use qstorage.Io.Request.Ops.{
  IoRequestType, Iovec, ReadOp, ReadvOp, IoRequest, op_type, read_of, readv_of, IoPart,
  sub_req_buffer, sub_req_iovec,
}

-- How a call ends: with its parts, by the trap of a division by zero, by `std::abort`, by a read
-- of an inactive union member, or, on fuel, not within the rounds given.
pub data Outcome : Type 0 where
  parts : List IoPart → Outcome
  divide_by_zero aborted inactive_member running : Outcome

abbrev pub finished : Option (List IoPart) → Outcome
finished none = running
finished (some ps) = parts ps

-- The `do ... while (off < op.size)` of `SplitBuffer`, from offset `off` on.
unfoldable pub buffer_loop : ℕ → ReadOp → ℕ → ℕ → Option (List IoPart)
buffer_loop zero o max_length off = none
buffer_loop (suc f) o max_length off =
    let len = min (sub64 o.size off) max_length in
    let part : IoPart = record { req = sub_req_buffer o off len; size = len; iovecs = [] } in
    let off' = add64 off len in
    let rest = buffer_loop f o max_length off' in
    if ltb off' o.size then Option.map (◌∷◌ part) rest else some (part ∷ [])

-- `ret.reserve((op.size + max_length - 1) / max_length)` divides first. One round more than there
-- are bytes is enough.
unfoldable pub split_buffer : ReadOp → ℕ → Outcome
unfolding buffer_loop
split_buffer o max_length =
    if max_length == 0 then divide_by_zero else finished (buffer_loop (suc o.size) o max_length 0)

-- The `while (cur != end)` of `SplitIovec` and the last part behind it. `vecs`, `remaining`, `pos`
-- and `off` are its variables; the list is `[cur, end)`.
unfoldable pub iovec_loop :
    ℕ → ReadvOp → ℕ → (cur vecs : List Iovec) (remaining pos off : ℕ) → Option (List IoPart)
iovec_loop zero o max_length cur vecs remaining pos off = none
iovec_loop (suc f) o max_length [] vecs remaining pos off =
    if ltb 0 (length vecs)
    then some (
        record { req = sub_req_iovec o pos vecs; size = sub64 max_length remaining; iovecs = vecs }
        ∷ [])
    else some []
iovec_loop (suc f) o max_length (v ∷ cur) vecs remaining pos off =
    let base = add64 v.base off in
    let len = sub64 v.len off in
    let next =
      iovec_loop f o max_length cur (vecs ++ record { base = base; len = len } ∷ [])
        (sub64 remaining len) pos 0 in
    let full =
      if ltb 0 remaining then vecs ++ record { base = base; len = remaining } ∷ [] else vecs in
    let off' = if ltb 0 remaining then add64 off remaining else off in
    let part : IoPart = record {
      req = sub_req_iovec o pos full;
      size = max_length;
      iovecs = full;
    } in
    let rest = iovec_loop f o max_length (v ∷ cur) [] max_length (add64 pos max_length) off' in
    if leb len remaining then next else Option.map (◌∷◌ part) rest

abbrev pub total_len : List Iovec → ℕ
total_len [] = 0
total_len (v ∷ vs) = v.len + total_len vs

-- Each round finishes an element, takes bytes of one, or refills `remaining` for the next.
unfoldable pub split_iovec : ReadvOp → ℕ → Outcome
unfolding iovec_loop
split_iovec o max_length =
    let fuel = 2 * total_len o.iovecs + length o.iovecs + 1 in
    finished (iovec_loop fuel o max_length o.iovecs [] max_length 0 0)

abbrev pub is_buffer : IoRequestType → Bool
is_buffer IoRequestType.read = Bool.true
is_buffer IoRequestType.write = Bool.true
is_buffer _ = Bool.false

abbrev pub is_vector : IoRequestType → Bool
is_vector IoRequestType.readv = Bool.true
is_vector IoRequestType.writev = Bool.true
is_vector _ = Bool.false

unfoldable pub split : IoRequest → ℕ → Outcome
unfolding split_buffer split_iovec op_type
split r max_length =
    if is_buffer (op_type r)
    then elim (read_of r) [ none ↦ inactive_member | some o ↦ split_buffer o max_length ]
    else (if is_vector (op_type r)
        then elim (readv_of r) [ none ↦ inactive_member | some o ↦ split_iovec o max_length ]
        else aborted)
