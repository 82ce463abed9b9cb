-- ===== src/Io/Request/Transfers.antt =====
-- What a request moves: for each byte, its position in the file and its address in memory.
use mathlib.Core.Option
use qstorage.Prelude.{
  Bool, true, false, Option, none, some, All, if◌then◌else◌, ℕ, zero, suc, ◌+◌, ◌≡◌, refl, List, [],
  ◌∷◌, ◌++◌, ◌≤◌, append_assoc, arith, length,
}
use qstorage.Prelude.Words.{add64}
use qstorage.Io.Request.Ops.{IoRequestType, Iovec, IoRequest, read_member, readv_member, IoPart}

abbrev pub Transfer : Type 0
Transfer = ℕ × ℕ

-- `n` bytes from offset `k` on, of a region that is contiguous in the file and in memory
unfoldable pub region : (pos addr k n : ℕ) → List Transfer
region pos addr k zero = []
region pos addr k (suc n) = (add64 pos k, add64 addr k) ∷ region pos addr (suc k) n

pub region-append :
    (pos addr k m n : ℕ)
    → region pos addr k m ++ region pos addr (k + m) n ≡ region pos addr k (m + n)
unfolding region
region-append pos addr k zero n =
    let e : k + 0 ≡ k = omega arith in let e' : 0 + n ≡ n = omega arith in rw (e, e')
region-append pos addr k (suc m) n =
    let e : k + suc m ≡ suc k + m = omega arith in
    let e' : suc m + n ≡ suc (m + n) = omega arith in rw (e, e', region-append pos addr (suc k) m n)

-- A region that starts at an offset of another
pub region_shift :
    (pos addr off k n : ℕ)
    → region (add64 pos off) (add64 addr off) k n ≡ region pos addr (off + k) n
unfolding region
region_shift pos addr off k zero = refl
region_shift pos addr off k (suc n) =
    let e : suc (off + k) ≡ off + suc k = omega arith in
    let p : add64 (add64 pos off) k ≡ add64 pos (off + k) = omega arith in
    let q : add64 (add64 addr off) k ≡ add64 addr (off + k) = omega arith in
    rw (p, q, e, region_shift pos addr off (suc k) n)

-- The addresses that an `iovec` covers, from byte `k` on
unfoldable pub span : (base k n : ℕ) → List ℕ
span base k zero = []
span base k (suc n) = add64 base k ∷ span base (suc k) n

pub span-append : (base k m n : ℕ) → span base k m ++ span base (k + m) n ≡ span base k (m + n)
unfolding span
span-append base k zero n =
    let e : k + 0 ≡ k = omega arith in let e' : 0 + n ≡ n = omega arith in rw (e, e')
span-append base k (suc m) n =
    let e : k + suc m ≡ suc k + m = omega arith in
    let e' : suc m + n ≡ suc (m + n) = omega arith in rw (e, e', span-append base (suc k) m n)

pub span_shift : (base off k n : ℕ) → span (add64 base off) k n ≡ span base (off + k) n
unfolding span
span_shift base off k zero = refl
span_shift base off k (suc n) =
    let e : suc (off + k) ≡ off + suc k = omega arith in
    let p : add64 (add64 base off) k ≡ add64 base (off + k) = omega arith in
    rw (p, e, span_shift base off (suc k) n)

pub length-span : (base k n : ℕ) → length (span base k n) ≡ n
unfolding span
length-span base k zero = refl
length-span base k (suc n) = omega (arith, length-span base (suc k) n)

-- The addresses of a vector of buffers, in order
unfoldable pub addresses : List Iovec → List ℕ
addresses [] = []
addresses (v ∷ vs) = span v.base 0 v.len ++ addresses vs

pub addresses-append : (xs ys : List Iovec) → addresses (xs ++ ys) ≡ addresses xs ++ addresses ys
unfolding addresses
addresses-append [] ys = refl
addresses-append (v ∷ vs) ys =
    rw (addresses-append vs ys, append_assoc (span v.base 0 v.len) (addresses vs) (addresses ys))

-- Consecutive positions of the file, from offset `k`, paired with the addresses
unfoldable pub place : (pos k : ℕ) → List ℕ → List Transfer
place pos k [] = []
place pos k (a ∷ rest) = (add64 pos k, a) ∷ place pos (suc k) rest

pub place-append :
    (pos k : ℕ) (xs ys : List ℕ)
    → place pos k (xs ++ ys) ≡ place pos k xs ++ place pos (k + length xs) ys
unfolding place
place-append pos k [] ys = let e : k + 0 ≡ k = omega arith in rw e
place-append pos k (x ∷ xs) ys =
    let e : k + suc (length xs) ≡ suc k + length xs = omega arith in
    rw (e, place-append pos (suc k) xs ys)

pub place_shift :
    (pos off k : ℕ) (xs : List ℕ) → place (add64 pos off) k xs ≡ place pos (off + k) xs
unfolding place
place_shift pos off k [] = refl
place_shift pos off k (x ∷ xs) =
    let e : suc (off + k) ≡ off + suc k = omega arith in
    let p : add64 (add64 pos off) k ≡ add64 pos (off + k) = omega arith in
    rw (p, e, place_shift pos off (suc k) xs)

-- What one request moves. A request that is no read or write of a file moves nothing here.
unfoldable pub transfers : IoRequest → List Transfer
transfers (read_member o) = region o.pos o.addr 0 o.size
transfers (readv_member o) = place o.pos 0 (addresses o.iovecs)
transfers _ = []

-- What the parts of a split move, in the order of the parts
unfoldable pub moved : List IoPart → List Transfer
moved [] = []
moved (p ∷ ps) = transfers p.req ++ moved ps

-- Every part but the last has exactly `max_length` bytes, and the last has at most that many; the
-- size that a part states is the number of bytes that its request moves.
unfoldable pub FillsUp : ℕ → List IoPart → Type 0
FillsUp max_length [] = Unit
FillsUp max_length (p ∷ []) = (p.size ≤ max_length) × (length (transfers p.req) ≡ p.size)
FillsUp max_length (p ∷ q ∷ ps) =
    (p.size ≡ max_length) × (length (transfers p.req) ≡ p.size) × FillsUp max_length (q ∷ ps)

pub FillsUp-cons :
    {max_length : ℕ} (p : IoPart) (ps : List IoPart)
    → p.size ≡ max_length
    → length (transfers p.req) ≡ p.size
    → FillsUp max_length ps
    → FillsUp max_length (p ∷ ps)
unfolding FillsUp
FillsUp-cons p [] e l h = (omega arith, l)
FillsUp-cons p (q ∷ ps) e l h = (e, l, h)

pub length-region : (pos addr k n : ℕ) → length (region pos addr k n) ≡ n
unfolding region
length-region pos addr k zero = refl
length-region pos addr k (suc n) = omega (arith, length-region pos addr (suc k) n)

pub length-place : (pos k : ℕ) (xs : List ℕ) → length (place pos k xs) ≡ length xs
unfolding place
length-place pos k [] = refl
length-place pos k (x ∷ xs) = omega (arith, length-place pos (suc k) xs)

-- What a read or write of a file does where: its operation, its file descriptor and its flag
abbrev pub place_of : IoRequest → Option (IoRequestType × ℕ × Bool)
place_of (read_member o) = some (o.op, o.fd, o.nowait_works)
place_of (readv_member o) = some (o.op, o.fd, o.nowait_works)
place_of r = none

-- A part does the same operation on the same file as a request.
abbrev pub SameFile : IoRequest → IoPart → Type 0
SameFile r part = place_of part.req ≡ place_of r

abbrev pub AllSame : IoRequest → Option (List IoPart) → Type 0
AllSame r none = Unit
AllSame r (some ps) = All (SameFile r) ps

-- A round of the loop, for either way that its test goes
pub AllSame-if :
    (r : IoRequest) (b : Bool) (x y : Option (List IoPart))
    → AllSame r x
    → AllSame r y
    → AllSame r (if b then x else y)
AllSame-if r true x y a c = a
AllSame-if r false x y a c = c

pub AllSame-map :
    (r : IoRequest) (part : IoPart) (rest : Option (List IoPart))
    → SameFile r part
    → AllSame r rest
    → AllSame r (Option.map (◌∷◌ part) rest)
AllSame-map r part none same more = tt
AllSame-map r part (some ps) same more = (same, more)
