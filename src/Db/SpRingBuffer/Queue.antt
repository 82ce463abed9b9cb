-- ===== src/Db/SpRingBuffer/Queue.antt =====
-- The ring holds a queue of bytes: a client that reserves, copies and commits sees a bounded FIFO.
use qstorage.Prelude.{
  ℕ, ◌+◌, ◌-◌, ◌%◌, ◌≤◌, ◌<◌, ◌≡◌, refl, ap, ◌∙◌, sym, Bool, true, false, Option, none, some, List,
  zero, suc, take, [], ◌∷◌, ◌++◌, arith, length, drop, ltb, inl, inr, Bool-cases,
}
use qstorage.Prelude.Words.{add64, sub64}
use qstorage.Db.Constant.{buffer_size}
use qstorage.Db.SpRingBuffer.{Ring, request_write_space, commit_write, store}
use qstorage.Db.SpRingBuffer.Bytes.{window, length-window, window-drop, window-mod, store-window}
use qstorage.Db.SpRingBuffer.Invariant.{
  used, IsValid, request_write_space-refused, request_write_space-granted, used-grant,
  commit_write-IsValid,
}

-- The bytes between the two counters, oldest first
abbrev pub contents : Ring → List ℕ
contents r = window r.mem r.tail (used r)

-- What a client does to the ring: `put` reserves a region and copies into it.
pub data Op : Type 0 where
  put : List ℕ → Op
  commit : ℕ → Op

-- What the client sees: of `put` whether it got a region, and of `commit` the bytes that it reads
-- from the tail on before it gives them back
pub data Answer : Type 0 where
  got : Bool → Answer
  read_bytes : List ℕ → Answer

-- `none` is a fault of the copy.
copied : Ring → Option (ℕ → ℕ) → Option (Bool × Ring)
copied r none = none
copied r (some mem) = some (true, record r { mem = mem })

copy_into : Option ℕ × Ring → List ℕ → Option (Bool × Ring)
copy_into (none, r) bs = some (false, r)
copy_into (some off, r) bs = copied r (store r.mem off bs)

unfoldable pub put_bytes : Ring → List ℕ → Option (Bool × Ring)
unfolding copy_into copied
put_bytes r bs = copy_into (request_write_space r (length bs)) bs

unfoldable pub run : Ring → List Op → Option (List Answer)
run r [] = some []
run r (commit n ∷ ops) =
    let seen = read_bytes (window r.mem r.tail n) in
    elim (run (commit_write r n) ops) [ none ↦ none | some rest ↦ some (seen ∷ rest) ]
run r (put bs ∷ ops) = elim (put_bytes r bs) [
  | none ↦ none
  | some (granted, r') ↦ elim (run r' ops) [ none ↦ none | some rest ↦ some (got granted ∷ rest) ]
]

-- The same client of a queue of at most `buffer_size` bytes
unfoldable pub run_queue : List ℕ → List Op → List Answer
run_queue q [] = []
run_queue q (commit n ∷ ops) = read_bytes (take n q) ∷ run_queue (drop n q) ops
run_queue q (put bs ∷ ops) = elim (ltb buffer_size (length q + length bs)) [
  | true ↦ got false ∷ run_queue q ops
  | false ↦ got true ∷ run_queue (q ++ bs) ops
]

-- A commit takes no more than the queue holds.
unfoldable pub Committed : List ℕ → List Op → Type 0
Committed q [] = Unit
Committed q (commit n ∷ ops) = (n ≤ length q) × Committed (drop n q) ops
Committed q (put bs ∷ ops) = elim (ltb buffer_size (length q + length bs)) [
  | true ↦ Committed q ops
  | false ↦ Committed (q ++ bs) ops
]

pub length-contents : (r : Ring) → length (contents r) ≡ used r
length-contents r = length-window r.mem r.tail (used r)

-- What `put_bytes` does when the bytes fit
pub record Put (r : Ring) (bs : List ℕ) (out : Option (Bool × Ring)) : Type 0 where
  pub after : Ring
  pub returned : out ≡ some (true, after)
  pub valid : IsValid after
  pub appended : contents after ≡ contents r ++ bs

-- Bytes that fit go behind the contents, with no fault, and the invariant holds again.
pub put_bytes-Put :
    (r : Ring) (bs : List ℕ)
    → IsValid r
    → used r + length bs ≤ buffer_size
    → Put r bs (put_bytes r bs)
unfolding put_bytes
put_bytes-Put r bs v h =
    let (mem, stored, bytes) =
      store-window r.mem r.tail (used r) (r.head % buffer_size) bs h (omega arith) in
    let after : Ring = record { tail = r.tail; head = add64 r.head (length bs); mem = mem } in
    record {
      after = after;
      returned = rw (request_write_space-granted r (length bs) v h, stored);
      valid = omega arith;
      appended = rw (used-grant r (length bs) v h) bytes;
    }

-- A commit drops the oldest bytes.
pub contents-commit_write :
    (r : Ring) (n : ℕ) → IsValid r → n ≤ used r → contents (commit_write r n) ≡ drop n (contents r)
unfolding commit_write
contents-commit_write r n v h =
    let left : sub64 r.head (add64 r.tail n) ≡ used r - n =
      omega (arith, (commit_write-IsValid r n v h).1) in
    let whole : used r ≡ n + (used r - n) = omega arith in
    ap (window r.mem (add64 r.tail n)) left
    ∙ (window-mod r.mem (add64 r.tail n) (r.tail + n) (used r - n) (omega arith)
        ∙ (sym (window-drop r.mem r.tail n (used r - n))
            ∙ ap (λ k. drop n (window r.mem r.tail k)) (sym whole)))

put_bytes-refused :
    (r : Ring) (bs : List ℕ)
    → IsValid r
    → buffer_size < used r + length bs
    → put_bytes r bs ≡ some (false, r)
unfolding put_bytes
put_bytes-refused r bs v h = rw (request_write_space-refused r (length bs) v h)

window-take : (mem : ℕ → ℕ) (t k n : ℕ) → take k (window mem t (k + n)) ≡ window mem t k
unfolding window
window-take mem t zero n = refl
window-take mem t (suc k) n =
    let e : suc k + n ≡ suc (k + n) = omega arith in
    ap (λ m. take (suc k) (window mem t m)) e
    ∙ ap (◌∷◌ (mem (t % buffer_size))) (window-take mem (suc t) k n)

-- The bytes at the tail are the oldest.
window-contents : (r : Ring) (n : ℕ) → n ≤ used r → window r.mem r.tail n ≡ take n (contents r)
window-contents r n h =
    let whole : used r ≡ n + (used r - n) = omega arith in
    sym (window-take r.mem r.tail n (used r - n))
    ∙ ap (λ k. take n (window r.mem r.tail k)) (sym whole)

-- No sequence of writes and commits tells the ring from a FIFO of at most `buffer_size` bytes, as
-- long as each commit takes no more than is there: the same writes are refused, and each commit
-- reads the same bytes, the oldest. No copy leaves the mapped storage.
pub run-run_queue :
    (ops : List Op) (r : Ring)
    → IsValid r
    → Committed (contents r) ops
    → run r ops ≡ some (run_queue (contents r) ops)
unfolding run run_queue Committed
run-run_queue [] r v c = refl
run-run_queue (commit n ∷ ops) r v (le, c) =
    let le' : n ≤ used r = omega (arith, length-contents r) in
    let step = contents-commit_write r n v le' in
    let rest =
      run-run_queue ops (commit_write r n) (commit_write-IsValid r n v le').0 (rw step c)
      ∙ ap (λ q. some (run_queue q ops)) step in
    let seen = read_bytes (window r.mem r.tail n) in
    ap (λ (o : Option (List Answer)). elim o [ none ↦ none | some k ↦ some (seen ∷ k) ]) rest
    ∙ ap (λ b. some (read_bytes b ∷ run_queue (drop n (contents r)) ops)) (window-contents r n le')
run-run_queue (put bs ∷ ops) r v c =
    elim (Bool-cases (ltb buffer_size (length (contents r) + length bs))) [
      | inl full ↦
          let over : buffer_size < used r + length bs = ground (arith, length-contents r) in
          let c' : Committed (contents r) ops = rw (full, Committed) at c in
          rw (full, run_queue, put_bytes-refused r bs v over, run, run-run_queue ops r v c')
      | inr room ↦
          let p = put_bytes-Put r bs v (ground (arith, length-contents r)) in
          let c' : Committed (contents r ++ bs) ops = rw (room, Committed) at c in
          let c'' : Committed (contents p.after) ops = rw p.appended c' in
          rw (room, run_queue, p.returned, run, run-run_queue ops p.after p.valid c'', p.appended)
    ]
