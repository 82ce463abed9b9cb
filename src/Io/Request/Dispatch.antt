-- ===== src/Io/Request/Dispatch.antt =====
-- `IoRequest::Split` (src/io/io_request.cc) on every request whose tag fits its active member.
use qstorage.Prelude.{ℕ, ◌<◌, ◌≡◌, true, false, List, inl, inr, ◌⊎◌, All}
use qstorage.Prelude.Words.{u64_mod}
use qstorage.Io.Request.Ops.{IoRequest, op_type, IoPart, read_member, readv_member, recv_member}
use qstorage.Io.Request.Split.{is_buffer, is_vector, split, Outcome, parts, aborted}
use qstorage.Io.Request.Transfers.{transfers, moved, FillsUp, SameFile}
use qstorage.Io.Request.SplitBuffer.{split_buffer_lem}
use qstorage.Io.Request.SplitIovec.{LensFit, split_iovec_lem}

-- The tag names the member that is active, and its lengths are of type `size_t`.
unfoldable pub IsTagged : IoRequest → Type 0
IsTagged (read_member o) = (is_buffer o.op ≡ true) × (o.size < u64_mod)
IsTagged (readv_member o) = (is_buffer o.op ≡ false) × (is_vector o.op ≡ true) × LensFit o.iovecs
IsTagged r = (is_buffer (op_type r) ≡ false) × (is_vector (op_type r) ≡ false)

-- What a caller of `Split` gets: parts that do the work of the request, or, for a request that
-- reads and writes no file, the abort of the program.
abbrev pub SplitsUp : IoRequest → ℕ → Outcome → Type 0
SplitsUp r max_length out =
    ((ps : List IoPart) × (out ≡ parts ps)
      × (moved ps ≡ transfers r)
      × FillsUp max_length ps
      × All (SameFile r) ps)
    ⊎ ((out ≡ aborted) × (is_buffer (op_type r) ≡ false) × (is_vector (op_type r) ≡ false))

-- A request whose tag names its active member is split, for every positive `max_length` of type
-- `size_t`, into parts of at most that length, all but the last full, that move the same bytes
-- between the same places by the same operation on the same file descriptor; the program aborts
-- only on requests that are no read or write of a file.
pub split-SplitsUp :
    (r : IoRequest) (max_length : ℕ)
    → IsTagged r
    → 0 < max_length
    → max_length < u64_mod
    → SplitsUp r max_length (split r max_length)
unfolding split IsTagged op_type transfers
split-SplitsUp (read_member o) max_length (tag, fits) positive small =
    rw tag (inl (split_buffer_lem o max_length fits positive))
split-SplitsUp (readv_member o) max_length (not_buffer, tag, fits) positive small =
    rw (not_buffer, tag) (inl (split_iovec_lem o max_length fits positive small))
split-SplitsUp (recv_member o) max_length t positive small = inr (rw (t.0, t.1), t.0, t.1)
split-SplitsUp r max_length t positive small = inr (rw (t.0, t.1), t.0, t.1)
