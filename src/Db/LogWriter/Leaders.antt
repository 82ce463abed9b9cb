-- ===== src/Db/LogWriter/Leaders.antt =====
-- The groups of `LogWriter` (src/db/log_writer.h) and what one step of a call does to them
pub mod Advance
pub mod Span
use mathlib.Core.Path.{subst}
use qstorage.Prelude.{
  ℕ, suc, ◌+◌, ◌-◌, ◌%◌, ◌≤◌, ◌<◌, ◌≡◌, refl, sym, ap, ◌∙◌, Bool, true, false, Bool-cases, ◌⊎◌, inl,
  inr, Option, none, some, arith, ltb, ◌==◌, if◌then◌else◌, if_true, if_false,
}
use qstorage.Prelude.Words.{u64_mod, sub64, add64}
use qstorage.Infra.Serialize.{Endian}
use qstorage.Db.Constant.{buffer_size}
use qstorage.Db.SpRingBuffer.{Ring, request_write_space}
use qstorage.Db.SpRingBuffer.Invariant.{index-mod}
use qstorage.Infra.Task.{BatonOps, MutexOps}
use qstorage.Db.LogWriter.{Writers, WriteTask, LogWriter, set_writers}
use qstorage.Db.LogWriter.Calls.{
  Call, TaskOps, with_space, allocate, headed, cleared, advance, commit,
}
use qstorage.Db.LogWriter.Account.{AtFirst}

abbrev pub elected : Bool → WriteTask → Option WriteTask
elected true task = some task
elected false task = none

-- The task of a call that leads a group which it has not finished
abbrev pub leader : {B : Type 0} → Call B → Option WriteTask
leader (Call.allocated task) = elected task.is_leader task
leader (Call.leading task crc len since) = some task
leader (Call.copying task) = some task
leader (Call.committing task baton) = some task
leader (Call.posting task) = some task
leader (Call.resetting task) = some task
leader _ = none

abbrev pub one_if : Option WriteTask → ℕ
one_if none = 0
one_if (some task) = 1

-- The area of a leader begins at a place of the log.
abbrev pub Begins : ℕ → Option WriteTask → Type 0
Begins start none = Unit
Begins start (some task) = task.addr ≡ start % buffer_size

-- A group by the number of its calls and its length, where a call leads it or not, and `others`
-- others lead: at most one call leads, none leads a group without calls, and the leader's area
-- begins as far behind the head as the group is long.
pub record Grouped (others n : ℕ) (o : Option WriteTask) (count len head : ℕ) : Type 0 where
  pub few : others + one_if o ≤ 1
  pub unled : count ≡ 0 → (others + one_if o ≡ 0) × (len ≡ 0)
  pub counted : count ≤ n
  pub fits : len ≤ head
  pub begins : Begins (head - len) o

stay :
    (others n : ℕ) (o : Option WriteTask) (count len head : ℕ)
    → Grouped others n o count len head
    → Grouped others (suc n) o count len head
stay others n o count len head g = record {
  few = g.few;
  unled = g.unled;
  counted = omega (arith, g.counted);
  fits = g.fits;
  begins = g.begins;
}

leave :
    (others n : ℕ) (o : Option WriteTask) (count len head : ℕ)
    → Grouped others n o count len head
    → Grouped others (suc n) none count len head
leave others n o count len head g = record {
  few = omega (arith, g.few);
  unled = λ z. let (a, b) = g.unled z in (omega (arith, a), b);
  counted = omega (arith, g.counted);
  fits = g.fits;
  begins = tt;
}

-- What a request for space does to the head, and where the space begins
abbrev pub Space : (size : ℕ) → Ring → Option ℕ × Ring → Type 0
Space size old (none, r) = r.head ≡ old.head
Space size old (some addr, r) =
    (r.head ≡ old.head + size) × (addr ≡ old.head % buffer_size) × (r.head ≤ buffer_size)

pub request-Space :
    (size : ℕ) (r : Ring)
    → r.tail ≡ 0
    → r.head ≤ buffer_size
    → Space size r (request_write_space r size)
unfolding request_write_space
request-Space size r t h = elim (Bool-cases (ltb (sub64 buffer_size (sub64 r.head r.tail)) size)) [
  | inl e ↦ rw (e) refl
  | inr e ↦
      let fits : r.head + size ≤ buffer_size = ground (arith, t, h, e) in
      rw (e) (omega (arith, fits), index-mod r.head, omega (arith, fits))
]

written :
    {B : Type 0} (ws : ℕ → Writers B) (i : ℕ) (w : Writers B) → i ≡ 0 → set_writers ws i w 0 ≡ w
written ws i w e = if_true (i == 0) w (ws 0) (ground arith)

module _ {B X : Type 0} (batons : BatonOps B) (mutex : MutexOps X) (tasks : TaskOps)
    (host : Endian) where
  open mutex use {acquire}

  abbrev pub start_of : LogWriter B X → ℕ
  start_of l = l.buffer.head - (l.writers 0).len

  abbrev pub InGroup : (others n : ℕ) → Call B → LogWriter B X → Type 0
  InGroup others n c l =
      Grouped others n (leader c) (l.writers 0).count (l.writers 0).len l.buffer.head

  -- What a step makes of the group: where others lead, the group begins where it began.
  abbrev pub Result : (others n : ℕ) → LogWriter B X → Option (Call B × LogWriter B X) → Type 0
  Result others n l none = Unit
  Result others n l (some r) =
      InGroup others (suc n) r.0 r.1 × ((others ≡ 0) ⊎ (start_of r.1 ≡ start_of l))

  pub if-Result :
      (others n : ℕ) (l : LogWriter B X) (b : Bool) (r : Call B × LogWriter B X)
      → Result others n l (some r)
      → Result others n l (if b then some r else none)
  if-Result others n l true r m = m
  if-Result others n l false r m = tt

  pub stays :
      (others n : ℕ) (c : Call B) (l : LogWriter B X)
      → InGroup others n c l
      → InGroup others (suc n) c l × ((others ≡ 0) ⊎ (start_of l ≡ start_of l))
  stays others n c l g =
      (stay others n (leader c) (l.writers 0).count (l.writers 0).len l.buffer.head g, inr refl)

  pub leaves :
      (others n : ℕ) (c : Call B) (l : LogWriter B X)
      → InGroup others n c l
      → Grouped others (suc n) none (l.writers 0).count (l.writers 0).len l.buffer.head
        × ((others ≡ 0) ⊎ (start_of l ≡ start_of l))
  leaves others n c l g =
      (leave others n (leader c) (l.writers 0).count (l.writers 0).len l.buffer.head g, inr refl)

  -- Where the call that allocates is given no space
  starves :
      (others n count len head head' : ℕ)
      → Grouped others n none count len head
      → suc n < u64_mod
      → head' ≡ head
      → Grouped others (suc n) none (add64 count 1) len head'
  starves others n count len head head' g few same = record {
    few = g.few;
    unled = λ z. absurd (omega (arith, g.counted, few, z));
    counted = omega (arith, g.counted, few);
    fits = omega (arith, g.fits, same);
    begins = tt;
  }

  -- Where it gets an area, as the leader of an empty group or in one that has calls
  elects :
      (others n count len size head head' : ℕ) (task : WriteTask)
      → Grouped others n none count len head
      → suc n < u64_mod
      → head' ≡ head + size
      → head' ≤ buffer_size
      → task.addr ≡ head % buffer_size
      → (e : Bool) → (count == 0) ≡ e
      → Grouped others (suc n) (elected e task) (add64 count 1) (add64 len size) head'
        × ((others ≡ 0) ⊎ (head' - add64 len size ≡ head - len))
  elects others n count len size head head' task g few moved room here true e =
      let (alone, empty) = g.unled (ground arith) in
      let new_len : add64 len size ≡ size = omega (arith, empty, moved, room) in
      let behind : head' - add64 len size ≡ head = omega (arith, moved, new_len) in
      (
        record {
          few = omega (arith, alone);
          unled = λ z. absurd (omega (arith, g.counted, few, z));
          counted = omega (arith, g.counted, few);
          fits = omega (arith, moved, new_len);
          begins = here ∙ ap (λ k. k % buffer_size) (sym behind);
        },
        inl (omega (arith, alone)),
      )
  elects others n count len size head head' task g few moved room here false e =
      let longer : add64 len size ≡ len + size = omega (arith, g.fits, moved, room) in
      (
        record {
          few = g.few;
          unled = λ z. absurd (omega (arith, g.counted, few, z));
          counted = omega (arith, g.counted, few);
          fits = omega (arith, g.fits, moved, longer);
          begins = tt;
        },
        inr (omega (arith, g.fits, moved, longer)),
      )

  -- Two descriptions of the same group
  same_group :
      (others n : ℕ) (o : Option WriteTask) (w w' : Writers B) (start head : ℕ)
      → w' ≡ w
      → Grouped others n o w.count w.len head × ((others ≡ 0) ⊎ (head - w.len ≡ start))
      → Grouped others n o w'.count w'.len head × ((others ≡ 0) ⊎ (head - w'.len ≡ start))
  same_group others n o w w' start head e g =
      subst
        (λ (k : Writers B).
          Grouped others n o k.count k.len head × ((others ≡ 0) ⊎ (head - k.len ≡ start)))
        (sym e) g

  pub with_space-Result :
      (others n size : ℕ) (l : LogWriter B X) (r : Option ℕ × Ring)
      → Space size l.buffer r
      → suc n < u64_mod
      → InGroup others n (Call.allocating size 0) l
      → Result others n l (some (with_space batons mutex tasks host size 0 l r))
  unfolding with_space
  with_space-Result others n size l (none, buffer) same few g = (
    starves others n (l.writers 0).count (l.writers 0).len l.buffer.head buffer.head g few same,
    inr (ap (λ k. k - (l.writers 0).len) same),
  )
  with_space-Result others n size l (some addr, buffer) (moved, here, room) few g =
      let task : WriteTask = record {
        index = 0;
        is_leader = (l.writers 0).count == 0;
        addr = addr;
      } in
      elects others n (l.writers 0).count (l.writers 0).len size l.buffer.head buffer.head task g
        few moved room here ((l.writers 0).count == 0) refl

  pub never-Result :
      (others n : ℕ) (l : LogWriter B X) (b : Bool) (r : Call B × LogWriter B X)
      → b ≡ false
      → Result others n l (if b then some r else none)
  never-Result others n l b r e = subst (Result others n l) (sym (if_false _ _ _ e)) tt

  pub follow-Result :
      (others n : ℕ) (task : WriteTask) (since : ℕ) (l : LogWriter B X) (w : Writers B)
      → task.index ≡ 0
      → w.count ≡ (l.writers task.index).count
      → w.len ≡ (l.writers task.index).len
      → InGroup others n (Call.following task) l
      → Result others n l (
          some
            (Call.followed task since, record l { writers = set_writers l.writers task.index w }))
  follow-Result others n task since l w first count len g =
      let old = l.writers 0 in
      let at : l.writers task.index ≡ old = ap l.writers first in
      same_group others (suc n) none w _ (start_of l) l.buffer.head
        (written l.writers task.index w first)
        (subst
          (λ (k : ℕ × ℕ).
            Grouped others (suc n) none k.0 k.1 l.buffer.head
            × ((others ≡ 0) ⊎ (l.buffer.head - k.1 ≡ start_of l)))
          (λ i. (
            (sym (count ∙ ap (λ (k : Writers B). k.count) at)) i,
            (sym (len ∙ ap (λ (k : Writers B). k.len) at)) i,
          ))
          (leaves others n (Call.following task) l g))
