-- ===== src/Io/Request/SplitIovec.antt =====
-- `IoRequest::SplitIovec` (src/io/io_request.cc) moves what the request moves, cut at every
-- `max_length` bytes, also inside a buffer.
mod Parts
use mathlib.Core.Option
use mathlib.Core.Path.{subst}
use qstorage.Prelude.{
  ℕ, zero, suc, ◌+◌, ◌-◌, ◌*◌, ◌≤◌, ◌<◌, ◌≡◌, refl, ap, sym, ◌∙◌, Bool, true, false, Option, none,
  some, List, [], ◌∷◌, ◌++◌, append-nil, append_assoc, arith, ltb, leb, Bool-cases, inl, inr,
  length, All, if◌then◌else◌,
}
use qstorage.Prelude.Words.{add64, sub64, u64_mod}
use qstorage.Io.Request.Ops.{IoRequest, Iovec, ReadvOp, IoPart, readv_member, sub_req_iovec}
use qstorage.Io.Request.Split.{iovec_loop, split_iovec, parts, running, finished, total_len}
use qstorage.Io.Request.Transfers.{
  span, span-append, addresses, place, place_shift, transfers, moved, FillsUp, FillsUp-cons,
  SameFile, AllSame, AllSame-if, AllSame-map,
}
pub use Parts.{LensFit}
use Parts.{
  addresses_from, Within, addresses_from_zero, Within-zero, addresses-snoc, total_len-snoc, rounds,
  Cut, part_of, length-part_of, moved-full,
}

module _ (o : ReadvOp) (max_length : ℕ) (pos_max : 0 < max_length)
    (fits : max_length < u64_mod) where
  -- The end of the vector: the bytes at hand make the last part, if there is any element.
  at_end :
      (f : ℕ) (vecs : List Iovec) (remaining pos : ℕ)
      → remaining ≤ max_length
      → total_len vecs + remaining ≡ max_length
      → Cut o max_length vecs [] pos 0 (iovec_loop (suc f) o max_length [] vecs remaining pos 0)
  unfolding iovec_loop FillsUp moved transfers sub_req_iovec addresses place
  at_end f [] remaining pos le full = record { cut = []; returned = refl; bytes = refl; fills = tt }
  at_end f (v ∷ vs) remaining pos le full = record {
    cut = part_of o max_length (v ∷ vs) pos (sub64 max_length remaining) ∷ [];
    returned = ground arith;
    bytes = simp append-nil;
    fills = (omega arith, length-part_of o max_length (v ∷ vs) pos _ (omega arith));
  }

  -- The bytes before and behind a cut inside an element
  joined :
      (full vecs : List Iovec) (v : Iovec) (rest : List ℕ) (off off' n : ℕ)
      → off' ≡ off + n
      → off + n ≤ v.len
      → addresses full ≡ addresses vecs ++ span v.base off n
      → addresses full ++ (span v.base off' (v.len - off') ++ rest)
        ≡ addresses vecs ++ (span v.base off (v.len - off) ++ rest)
  joined full vecs v rest off off' n e within a =
      let k : v.len - off ≡ n + (v.len - (off + n)) = omega arith in
      rw (a, e, k, ← span-append v.base off n (v.len - (off + n))) (simp append_assoc)

  -- A part is full inside the element: what follows it starts with nothing at hand.
  emitted :
      (full vecs : List Iovec) (v : Iovec) (cur : List Iovec) (pos off off' n : ℕ)
      {out : Option (List IoPart)}
      → total_len full ≡ max_length
      → off' ≡ off + n
      → off + n ≤ v.len
      → addresses full ≡ addresses vecs ++ span v.base off n
      → Cut o max_length [] (v ∷ cur) (add64 pos max_length) off' out
      → Cut o max_length vecs
          (v ∷ cur)
          pos
          off
          (Option.map (◌∷◌ (part_of o max_length full pos max_length)) out)
  unfolding addresses
  emitted full vecs v cur pos off off' n is_full e within a c = record {
    cut = part_of o max_length full pos max_length ∷ c.cut;
    returned = rw c.returned;
    bytes =
        moved-full o max_length full pos c.cut (addresses_from (v ∷ cur) off') is_full c.bytes
        ∙ ap (place (add64 o.pos pos) 0) (joined full vecs v (addresses cur) off off' n e within a);
    fills =
        FillsUp-cons _ c.cut refl (length-part_of o max_length full pos max_length is_full) c.fills;
  }

  -- The element fits: it is taken whole.
  taken :
      (vecs : List Iovec) (v : Iovec) (cur : List Iovec) (pos off : ℕ) {out : Option (List IoPart)}
      → Cut o max_length
          (vecs ++ record { base = add64 v.base off; len = v.len - off } ∷ [])
          cur
          pos
          0
          out
      → Cut o max_length vecs (v ∷ cur) pos off out
  taken vecs v cur pos off c = record {
    cut = c.cut;
    returned = c.returned;
    bytes =
        c.bytes
        ∙ ap (place (add64 o.pos pos) 0) (
            rw (
              addresses-snoc vecs v.base off (v.len - off),
              addresses_from_zero cur,
              append_assoc (addresses vecs) (span v.base off (v.len - off)) (addresses cur),
            ));
    fills = c.fills;
  }

  iovec_loop-Cut :
      (f : ℕ) (cur vecs : List Iovec) (remaining pos off : ℕ)
      → LensFit cur
      → Within cur off
      → remaining ≤ max_length
      → total_len vecs + remaining ≡ max_length
      → rounds cur remaining off < f
      → Cut o max_length vecs cur pos off (iovec_loop f o max_length cur vecs remaining pos off)
  unfolding iovec_loop span
  iovec_loop-Cut zero cur vecs remaining pos off lens within le full fuel = absurd (omega arith)
  iovec_loop-Cut (suc f) [] vecs remaining pos off lens within le full fuel =
      rw within (at_end f vecs remaining pos le full)
  iovec_loop-Cut (suc f) (v ∷ cur) vecs remaining pos off lens within le full fuel =
      let len : sub64 v.len off ≡ v.len - off = omega arith in
      rw len (elim (Bool-cases (leb (v.len - off) remaining)) [
        | inl whole ↦
            let r : sub64 remaining (v.len - off) ≡ remaining - (v.len - off) = ground arith in
            let w : Iovec = record { base = add64 v.base off; len = v.len - off } in
            rw (whole, r)
              (taken vecs v cur pos off (
                iovec_loop-Cut f cur (vecs ++ w ∷ []) (remaining - (v.len - off)) pos 0 lens.1
                  (Within-zero cur) (omega arith) (ground (arith, total_len-snoc vecs w.base w.len))
                  (ground arith)))
        | inr cut ↦ elim (Bool-cases (ltb 0 remaining)) [
          | inl some_room ↦
              let off' : add64 off remaining ≡ off + remaining = ground arith in
              let w : Iovec = record { base = add64 v.base off; len = remaining } in
              rw (cut, some_room, off')
                (emitted (vecs ++ w ∷ []) vecs v cur pos off (off + remaining) remaining
                  (omega (arith, total_len-snoc vecs w.base w.len)) refl (ground arith)
                  (addresses-snoc vecs v.base off remaining)
                  (iovec_loop-Cut f (v ∷ cur) [] max_length (add64 pos max_length) (off + remaining)
                    lens (ground arith) (omega arith) (omega arith) (ground arith)))
          | inr no_room ↦
              rw (cut, no_room)
                (emitted vecs vecs v cur pos off off 0 (ground arith) (omega arith) (omega arith)
                  (sym (append-nil (addresses vecs)))
                  (iovec_loop-Cut f (v ∷ cur) [] max_length (add64 pos max_length) off lens within
                    (omega arith) (omega arith) (ground arith)))
        ]
      ])

iovec_loop-AllSame :
    (f : ℕ) (o : ReadvOp) (max_length : ℕ) (cur vecs : List Iovec) (remaining pos off : ℕ)
    → AllSame (readv_member o) (iovec_loop f o max_length cur vecs remaining pos off)
unfolding iovec_loop sub_req_iovec
iovec_loop-AllSame zero o max_length cur vecs remaining pos off = tt
iovec_loop-AllSame (suc f) o max_length [] vecs remaining pos off =
    AllSame-if (readv_member o) (ltb 0 (length vecs))
      (some (
        record { req = sub_req_iovec o pos vecs; size = sub64 max_length remaining; iovecs = vecs }
        ∷ []))
      (some []) (refl, tt) tt
iovec_loop-AllSame (suc f) o max_length (v ∷ cur) vecs remaining pos off =
    AllSame-if (readv_member o) _ _ _ (iovec_loop-AllSame f o max_length cur _ _ _ _)
      (AllSame-map (readv_member o) _ _ refl (iovec_loop-AllSame f o max_length (v ∷ cur) [] _ _ _))

-- For buffers of `size_t` length and a positive `max_length`, `SplitIovec` returns parts that move
-- the same bytes, in order, between the same places of the file and of memory, and do the same
-- operation on the same file descriptor; every part but the last is `max_length` long.
pub split_iovec_lem :
    (o : ReadvOp) (max_length : ℕ)
    → LensFit o.iovecs
    → 0 < max_length
    → max_length < u64_mod
    → (ps : List IoPart) × (split_iovec o max_length ≡ parts ps)
      × (moved ps ≡ transfers (readv_member o))
      × FillsUp max_length ps
      × All (SameFile (readv_member o)) ps
unfolding split_iovec transfers addresses
split_iovec_lem o max_length lens positive fits =
    let c =
      iovec_loop-Cut o max_length positive fits (2 * total_len o.iovecs + length o.iovecs + 1)
        o.iovecs [] max_length 0 0 lens (Within-zero o.iovecs) (omega arith) (omega arith)
        (ground arith) in
    (
      c.cut,
      ap finished c.returned,
      c.bytes ∙ (place_shift o.pos 0 0 _ ∙ ap (place o.pos 0) (addresses_from_zero o.iovecs)),
      c.fills,
      subst (AllSame (readv_member o)) c.returned (
          iovec_loop-AllSame (2 * total_len o.iovecs + length o.iovecs + 1) o max_length o.iovecs []
            max_length 0 0),
    )

-- With `max_length` 0 and a byte to move, in whichever buffer, no number of rounds ends the loop of
-- `SplitIovec`.
pub iovec_loop_zero :
    (f : ℕ) (o : ReadvOp) (cur vecs : List Iovec) (pos : ℕ)
    → LensFit cur
    → 0 < total_len cur
    → iovec_loop f o 0 cur vecs 0 pos 0 ≡ none
unfolding iovec_loop
iovec_loop_zero zero o cur vecs pos lens some_byte = refl
iovec_loop_zero (suc f) o [] vecs pos lens some_byte = absurd (omega arith)
iovec_loop_zero (suc f) o (v ∷ cur) vecs pos lens some_byte = elim (Bool-cases (ltb 0 v.len)) [
  | inl full ↦
      let test : leb (sub64 v.len 0) 0 ≡ false = ground (arith, lens.0) in
      rw (test, iovec_loop_zero f o (v ∷ cur) [] (add64 pos 0) lens some_byte)
  | inr empty ↦
      let test : leb (sub64 v.len 0) 0 ≡ true = ground (arith, lens.0) in
      let rest : sub64 0 (sub64 v.len 0) ≡ 0 = ground (arith, lens.0) in
      rw (
        test,
        rest,
        iovec_loop_zero f o cur (vecs ++ record { base = add64 v.base 0; len = sub64 v.len 0 } ∷ [])
            pos lens.1 (ground (arith, some_byte)),
      )
]
