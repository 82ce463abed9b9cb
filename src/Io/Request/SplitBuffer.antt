-- ===== src/Io/Request/SplitBuffer.antt =====
-- `IoRequest::SplitBuffer` (src/io/io_request.cc) moves what the request moves, in parts of the
-- length that is asked for.
use mathlib.Core.Option
use mathlib.Core.Path.{subst}
use qstorage.Prelude.{
  All, ℕ, zero, suc, ◌+◌, ◌-◌, ◌≤◌, ◌<◌, ◌≡◌, refl, ap, ◌∙◌, min, Option, some, List, [], ◌∷◌,
  arith, ltb, Bool-cases, inl, inr, length,
}
use qstorage.Prelude.Words.{add64, sub64, u64_mod}
use qstorage.Io.Request.Ops.{ReadOp, IoPart, read_member, sub_req_buffer}
use qstorage.Io.Request.Split.{buffer_loop, split_buffer, parts, divide_by_zero}
use qstorage.Io.Request.Transfers.{
  region, region-append, region_shift, length-region, transfers, moved, FillsUp, FillsUp-cons,
  SameFile, AllSame, AllSame-if, AllSame-map,
}

-- What the loop returns when it starts at `off`
pub record Cut (o : ReadOp) (max_length off : ℕ) (out : Option (List IoPart)) : Type 0 where
  pub cut : List IoPart
  pub returned : out ≡ some cut
  pub bytes : moved cut ≡ region o.pos o.addr off (o.size - off)
  pub fills : FillsUp max_length cut

module _ (o : ReadOp) (max_length : ℕ) where
  abbrev chunk : ℕ → ℕ
  chunk off = min (sub64 o.size off) max_length

  abbrev part_at : ℕ → IoPart
  part_at off = record { req = sub_req_buffer o off (chunk off); size = chunk off; iovecs = [] }

  moved-part_at :
      (off n m : ℕ) (ps : List IoPart) (off' : ℕ)
      → off' ≡ off + chunk off
      → m ≡ chunk off + n
      → moved ps ≡ region o.pos o.addr off' n
      → moved (part_at off ∷ ps) ≡ region o.pos o.addr off m
  unfolding moved transfers sub_req_buffer
  moved-part_at off n m ps off' e e' h =
      let z : off + 0 ≡ off = omega arith in
      rw (
        h,
        e,
        e',
        region_shift o.pos o.addr off 0 (chunk off),
        z,
        region-append o.pos o.addr off (chunk off) n,
      )

  none_left : (off : ℕ) → moved [] ≡ region o.pos o.addr off 0
  unfolding moved region
  none_left off = refl

  sized : (off : ℕ) → length (transfers (part_at off).req) ≡ chunk off
  unfolding transfers sub_req_buffer
  sized off = length-region _ _ 0 (chunk off)

  module _ (fits : o.size < u64_mod) (pos : 0 < max_length) where
    buffer_loop-Cut :
        (f off : ℕ)
        → off ≤ o.size
        → o.size - off < f
        → Cut o max_length off (buffer_loop f o max_length off)
    unfolding buffer_loop FillsUp
    buffer_loop-Cut zero off le fuel = absurd (omega arith)
    buffer_loop-Cut (suc f) off le fuel = elim (Bool-cases (ltb (add64 off (chunk off)) o.size)) [
      | inl more ↦
          let rest : Cut o max_length (add64 off (chunk off)) _ =
            buffer_loop-Cut f (add64 off (chunk off)) (ground arith) (ground arith) in
          record {
            cut = part_at off ∷ rest.cut;
            returned = rw (more, rest.returned);
            bytes =
                moved-part_at off (o.size - add64 off (chunk off)) (o.size - off) rest.cut
                  (add64 off (chunk off)) (omega arith) (ground arith) rest.bytes;
            fills = FillsUp-cons (part_at off) rest.cut (ground arith) (sized off) rest.fills;
          }
      | inr last ↦ record {
        cut = part_at off ∷ [];
        returned = rw last;
        bytes =
            moved-part_at off 0 (o.size - off) [] (off + chunk off) refl (ground arith)
              (none_left (off + chunk off));
        fills = (omega arith, sized off);
      }
    ]

buffer_loop-AllSame :
    (f : ℕ) (o : ReadOp) (max_length off : ℕ)
    → AllSame (read_member o) (buffer_loop f o max_length off)
unfolding buffer_loop sub_req_buffer
buffer_loop-AllSame zero o max_length off = tt
buffer_loop-AllSame (suc f) o max_length off =
    let len = min (sub64 o.size off) max_length in
    let part : IoPart = record { req = sub_req_buffer o off len; size = len; iovecs = [] } in
    let rest = buffer_loop f o max_length (add64 off len) in
    AllSame-if (read_member o) (ltb (add64 off len) o.size) (Option.map (◌∷◌ part) rest)
      (some (part ∷ []))
      (AllSame-map (read_member o) part rest refl (buffer_loop-AllSame f o max_length _)) (refl, tt)

-- For a request of `size_t` size and a positive `max_length`, `SplitBuffer` returns parts that move
-- the same bytes, in order, between the same places of the file and of memory, and do the same
-- operation on the same file descriptor; every part but the last is `max_length` long.
pub split_buffer_lem :
    (o : ReadOp) (max_length : ℕ)
    → o.size < u64_mod
    → 0 < max_length
    → (ps : List IoPart) × (split_buffer o max_length ≡ parts ps)
      × (moved ps ≡ transfers (read_member o))
      × FillsUp max_length ps
      × All (SameFile (read_member o)) ps
unfolding split_buffer transfers
split_buffer_lem o max_length fits pos =
    let c = buffer_loop-Cut o max_length fits pos (suc o.size) 0 (omega arith) (omega arith) in
    (
      c.cut,
      ground (arith, c.returned),
      c.bytes ∙ ap (region o.pos o.addr 0) (omega arith),
      c.fills,
      subst (AllSame (read_member o)) c.returned (buffer_loop-AllSame (suc o.size) o max_length 0),
    )

-- With `max_length` 0 `SplitBuffer` divides by zero before it makes any part.
split_buffer-zero : (o : ReadOp) → split_buffer o 0 ≡ divide_by_zero
unfolding split_buffer
split_buffer-zero o = refl
