-- ===== src/Io/Request/SplitIovec/Parts.antt =====
-- The parts that `IoRequest::SplitIovec` (src/io/io_request.cc) makes, and what they move.
use qstorage.Prelude.{
  ℕ, ◌+◌, ◌-◌, ◌*◌, ◌≤◌, ◌<◌, ◌≡◌, refl, ap, Option, some, List, [], ◌∷◌, ◌++◌, append-nil, arith,
  ltb, length, length-append, All, if◌then◌else◌,
}
use qstorage.Prelude.Words.{add64, u64_mod}
use qstorage.Io.Request.Ops.{Iovec, ReadvOp, IoPart, sub_req_iovec}
use qstorage.Io.Request.Split.{total_len}
use qstorage.Io.Request.Transfers.{
  span, span_shift, length-span, addresses, addresses-append, place, place-append, place_shift,
  length-place, transfers, moved, FillsUp,
}

abbrev pub LensFit : List Iovec → Type 0
LensFit = All (λ v. v.len < u64_mod)

-- The addresses of what is left: `[cur, end)` less the first `off` bytes
abbrev pub addresses_from : List Iovec → ℕ → List ℕ
addresses_from [] off = []
addresses_from (v ∷ cur) off = span v.base off (v.len - off) ++ addresses cur

-- The loop keeps `off` inside the element that it works on.
abbrev pub Within : List Iovec → ℕ → Type 0
Within [] off = off ≡ 0
Within (v ∷ cur) off = off ≤ v.len

pub addresses_from_zero : (cur : List Iovec) → addresses_from cur 0 ≡ addresses cur
unfolding addresses
addresses_from_zero [] = refl
addresses_from_zero (v ∷ cur) = ap (λ n. span v.base 0 n ++ addresses cur) (omega arith)

pub Within-zero : (cur : List Iovec) → Within cur 0
Within-zero [] = refl
Within-zero (v ∷ cur) = omega arith

pub length-addresses : (vs : List Iovec) → length (addresses vs) ≡ total_len vs
unfolding addresses
length-addresses [] = refl
length-addresses (v ∷ vs) = omega (
  arith,
  length-append (span v.base 0 v.len) (addresses vs),
  length-span v.base 0 v.len,
  length-addresses vs,
)

total_len-append : (xs ys : List Iovec) → total_len (xs ++ ys) ≡ total_len xs + total_len ys
total_len-append [] ys = omega arith
total_len-append (x ∷ xs) ys = omega (arith, total_len-append xs ys)

-- One element more, that starts at byte `off` of a buffer
pub addresses-snoc :
    (vs : List Iovec) (base off n : ℕ)
    → addresses (vs ++ record { base = add64 base off; len = n } ∷ [])
      ≡ addresses vs ++ span base off n
unfolding addresses
addresses-snoc vs base off n =
    let z : off + 0 ≡ off = omega arith in
    rw (
      addresses-append vs (record { base = add64 base off; len = n } ∷ []),
      span_shift base off 0 n,
      z,
      append-nil,
    )

pub total_len-snoc :
    (vs : List Iovec) (base n : ℕ)
    → total_len (vs ++ record { base = base; len = n } ∷ []) ≡ total_len vs + n
total_len-snoc vs base n = omega (arith, total_len-append vs (record { base = base; len = n } ∷ []))

-- Rounds that are enough from a state of the loop
abbrev pub rounds : List Iovec → ℕ → ℕ → ℕ
rounds cur remaining off =
    2 * (total_len cur - off) + length cur + (if ltb 0 remaining then 0 else 1)

module _ (o : ReadvOp) (max_length : ℕ) where
  -- What the loop returns, started with `vecs` filled and the rest of the vector to come
  pub record Cut (vecs cur : List Iovec) (pos off : ℕ) (out : Option (List IoPart)) : Type 0 where
    pub cut : List IoPart
    pub returned : out ≡ some cut
    pub bytes : moved cut ≡ place (add64 o.pos pos) 0 (addresses vecs ++ addresses_from cur off)
    pub fills : FillsUp max_length cut

  abbrev pub part_of : List Iovec → ℕ → ℕ → IoPart
  part_of vs pos n = record { req = sub_req_iovec o pos vs; size = n; iovecs = vs }

  pub length-part_of :
      (vs : List Iovec) (pos n : ℕ)
      → total_len vs ≡ n
      → length (transfers (part_of vs pos n).req) ≡ n
  unfolding transfers sub_req_iovec
  length-part_of vs pos n e =
      omega (arith, length-place (add64 o.pos pos) 0 (addresses vs), length-addresses vs)

  -- A full part and the parts behind it
  pub moved-full :
      (vs : List Iovec) (pos : ℕ) (ps : List IoPart) (rest : List ℕ)
      → total_len vs ≡ max_length
      → moved ps ≡ place (add64 o.pos (add64 pos max_length)) 0 rest
      → moved (part_of vs pos max_length ∷ ps) ≡ place (add64 o.pos pos) 0 (addresses vs ++ rest)
  unfolding moved transfers sub_req_iovec
  moved-full vs pos ps rest full e =
      let p : add64 o.pos (add64 pos max_length) ≡ add64 (add64 o.pos pos) max_length =
        omega arith in
      let z : max_length + 0 ≡ 0 + length (addresses vs) = omega (arith, length-addresses vs) in
      rw (
        e,
        p,
        place_shift (add64 o.pos pos) max_length 0 rest,
        z,
        ← place-append (add64 o.pos pos) 0 (addresses vs) rest,
      )
