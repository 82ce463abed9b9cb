-- ===== src/Db/SpRingBuffer/Threads/Window.antt =====
-- What `RequestWriteSpace` (src/db/sp_ring_buffer.h) gives out where the `tail_` that it reads may
-- be an old one
use qstorage.Prelude.{
  ℕ, zero, suc, ◌+◌, ◌%◌, ◌≤◌, ◌<◌, ◌≡◌, refl, ap, ◌∙◌, Option, none, some, Bool-cases, inl, inr,
  ltb, ◌*◌, List, [], ◌∷◌, arith,
}
use qstorage.Prelude.Words.{u64_mod, add64, sub64}
use qstorage.Db.Constant.{buffer_size}
use qstorage.Infra.Atomic.{Message, message, nth_older, load_relaxed, fetch_add_relaxed}
use qstorage.Db.SpRingBuffer.Invariant.{index-mod}
use qstorage.Db.SpRingBuffer.Threads.{
  Shared, Producer, Reach, load_tail, reserve, commit_write, given, start, loads, reserves, commits,
}

-- The bytes between a value of `tail_` and the head
abbrev pub behind : ℕ → Message → ℕ
behind head m = sub64 head m.value

-- A write that is at most the size of the ring behind
abbrev pub InRing : (head : ℕ) → Message → Type 0
InRing head m = (m.value < u64_mod) × (behind head m ≤ buffer_size)

-- From a write on, as far as may be looked back: each is at most as far behind as the one before
-- it, and the last at most the size of the ring.
abbrev pub Window : (head : ℕ) → Message → List Message → (visible : ℕ) → Type 0
Window head m ms zero = InRing head m
Window head m [] (suc k) = InRing head m
Window head m (n ∷ ms) (suc k) =
    (m.value < u64_mod) × (behind head m ≤ behind head n) × Window head n ms k

Window-InRing :
    (head : ℕ) (m : Message) (ms : List Message) (k : ℕ) → Window head m ms k → InRing head m
Window-InRing head m ms zero w = w
Window-InRing head m [] (suc k) w = w
Window-InRing head m (n ∷ ms) (suc k) w =
    let r = Window-InRing head n ms k w.2 in (w.0, omega (arith, w.1, r.1))

-- A load narrows what may be looked back later, and reads a value at least as far behind as the
-- newest.
Window-narrow :
    (head : ℕ) (m : Message) (ms : List Message) (k back : ℕ)
    → Window head m ms k
    → back ≤ k
    → Window head m ms back
Window-narrow head m ms k zero w h = Window-InRing head m ms k w
Window-narrow head m ms zero (suc back) w h = absurd (omega arith)
Window-narrow head m [] (suc k) (suc back) w h = w
Window-narrow head m (n ∷ ms) (suc k) (suc back) w h =
    (w.0, w.1, Window-narrow head n ms k back w.2 (omega (arith, h)))

Window-last :
    (head : ℕ) (m : Message) (ms : List Message) (k : ℕ)
    → Window head m ms k
    → InRing head (nth_older m ms k) × (behind head m ≤ behind head (nth_older m ms k))
Window-last head m ms zero w = (w, omega arith)
Window-last head m [] (suc k) w = (w, omega arith)
Window-last head m (n ∷ ms) (suc k) w =
    let (r, le) = Window-last head n ms k w.2 in (r, omega (arith, w.1, le))

behind-add :
    (head size : ℕ) (m : Message)
    → head < u64_mod
    → m.value < u64_mod
    → behind head m + size ≤ buffer_size
    → behind (add64 head size) m ≡ behind head m + size
behind-add head size m h v fits = omega (arith, h, v, fits)

-- The head moves on by no more than the room behind the last write that may be looked back to.
Window-grow :
    (head size : ℕ) (m : Message) (ms : List Message) (k : ℕ)
    → head < u64_mod
    → Window head m ms k
    → behind head (nth_older m ms k) + size ≤ buffer_size
    → Window (add64 head size) m ms k
Window-grow head size m ms zero h w fits =
    (w.0, omega (arith, behind-add head size m h w.0 fits, fits))
Window-grow head size m [] (suc k) h w fits =
    (w.0, omega (arith, behind-add head size m h w.0 fits, fits))
Window-grow head size m (n ∷ ms) (suc k) h w fits =
    let (last, le) = Window-last head n ms k w.2 in
    let first = Window-InRing head n ms k w.2 in
    (
      w.0,
      omega (
        arith,
        w.1,
        behind-add head size n h first.0 (omega (arith, le, fits)),
        behind-add head size m h w.0 (omega (arith, w.1, le, fits)),
      ),
      Window-grow head size n ms k h w.2 fits,
    )

-- What a call that has read `tail_` knows: it was the last value that may be looked back to.
abbrev pub Known : Producer → Shared → Type 0
Known Producer.outside s = Unit
Known (Producer.loaded size cur_tail) s = cur_tail ≡ (message s.tail s.visible).value

pub record IsSafe (p : Producer) (s : Shared) (granted committed : ℕ) : Type 0 where
  pub head : s.head ≡ granted % u64_mod
  pub in_use : behind s.head s.tail.latest + committed ≡ granted
  pub window : Window s.head s.tail.latest s.tail.older s.visible
  pub known : Known p s

Known-commit : (size : ℕ) (p : Producer) (s : Shared) → Known p s → Known p (commit_write size s)
unfolding commit_write fetch_add_relaxed
Known-commit size Producer.outside s k = tt
Known-commit size (Producer.loaded n cur_tail) s k = k

commit-IsSafe :
    (size : ℕ) (p : Producer) (s : Shared) (granted committed : ℕ)
    → IsSafe p s granted committed
    → committed + size ≤ granted
    → IsSafe p (commit_write size s) granted (committed + size)
unfolding commit_write fetch_add_relaxed
commit-IsSafe size p s granted committed i h =
    let inside = Window-InRing s.head s.tail.latest s.tail.older s.visible i.window in
    record {
      head = i.head;
      in_use = omega (arith, i.in_use, i.head, inside.0, inside.1, h);
      window = (omega arith, omega (arith, i.in_use, i.head, inside.0, inside.1, h), i.window);
      known = Known-commit size p s i.known;
    }

load-IsSafe :
    (size back : ℕ) (s : Shared) (granted committed : ℕ)
    → IsSafe Producer.outside s granted committed
    → back ≤ s.visible
    → IsSafe (load_tail size back s).0 (load_tail size back s).1 granted committed
unfolding load_tail load_relaxed
load-IsSafe size back s granted committed i h = record {
  head = i.head;
  in_use = i.in_use;
  window = Window-narrow s.head s.tail.latest s.tail.older s.visible back i.window h;
  known = refl;
}

-- What a call gives: no region, or one behind the bytes in use, which with them fits the ring, and
-- which does not leave the two mappings
abbrev pub Gives : (s : Shared) (size committed granted : ℕ) → Option ℕ → Type 0
Gives s size committed granted none = Unit
Gives s size committed granted (some off) =
    (off ≡ granted % buffer_size)
    × (granted + size ≤ committed + buffer_size)
    × (off + size ≤ 2 * buffer_size)

reserve-IsSafe :
    (size cur_tail : ℕ) (s : Shared) (granted committed : ℕ)
    → IsSafe (Producer.loaded size cur_tail) s granted committed
    → IsSafe Producer.outside
        (reserve size cur_tail s).1
        (granted + given (reserve size cur_tail s).0 size)
        committed
      × Gives s size committed granted (reserve size cur_tail s).0
unfolding reserve
reserve-IsSafe size cur_tail s granted committed i =
    let used = sub64 s.head cur_tail in
    let (last, le) = Window-last s.head s.tail.latest s.tail.older s.visible i.window in
    let same : used ≡ behind s.head (message s.tail s.visible) = ap (λ t. sub64 s.head t) i.known in
    let head_fits : s.head < u64_mod = omega (arith, i.head) in
    elim (Bool-cases (ltb (sub64 buffer_size used) size)) [
      | inl e ↦
          let none_given : granted + 0 ≡ granted = omega arith in
          rw (e, none_given)
            (record { head = i.head; in_use = i.in_use; window = i.window; known = tt }, tt)
      | inr e ↦
          let room : behind s.head (message s.tail s.visible) + size ≤ buffer_size =
            ground (arith, same, last.1, e) in
          let newest = Window-InRing s.head s.tail.latest s.tail.older s.visible i.window in
          rw (e) (
            record {
              head = omega (arith, i.head);
              in_use = omega (
                arith,
                i.in_use,
                behind-add s.head size s.tail.latest head_fits newest.0 (omega (arith, le, room)),
              );
              window =
                  Window-grow s.head size s.tail.latest s.tail.older s.visible head_fits i.window
                    room;
              known = tt;
            },
            (
              index-mod s.head ∙ omega (arith, i.head),
              omega (arith, i.in_use, le, room),
              omega (arith, index-mod s.head, room),
            ),
          )
    ]

Reach-IsSafe :
    (p : Producer) (s : Shared) (granted committed : ℕ)
    → Reach p s granted committed
    → IsSafe p s granted committed
Reach-IsSafe _ _ _ _ start = record {
  head = refl;
  in_use = refl;
  window = (omega arith, omega arith);
  known = tt;
}
Reach-IsSafe _ _ _ _ (loads size back s granted committed r h) =
    load-IsSafe size back s granted committed (Reach-IsSafe _ s granted committed r) h
Reach-IsSafe _ _ _ _ (reserves size cur_tail s granted committed r) =
    (reserve-IsSafe size cur_tail s granted committed (Reach-IsSafe _ s granted committed r)).0
Reach-IsSafe _ _ _ _ (commits size p s granted committed r h) =
    commit-IsSafe size p s granted committed (Reach-IsSafe p s granted committed r) h

-- However the two threads interleave, and however old the value of `tail_` is that the first has
-- read: the bytes given out are at most the size of the ring ahead of those committed, and a region
-- that is given out next begins behind them, is with them at most the size of the ring, and stays
-- inside the two mappings.
pub Reach-Gives :
    (size cur_tail : ℕ) (s : Shared) (granted committed : ℕ)
    → Reach (Producer.loaded size cur_tail) s granted committed
    → (committed ≤ granted)
      × (granted ≤ committed + buffer_size)
      × Gives s size committed granted (reserve size cur_tail s).0
Reach-Gives size cur_tail s granted committed r =
    let i = Reach-IsSafe _ s granted committed r in
    let newest = Window-InRing s.head s.tail.latest s.tail.older s.visible i.window in
    (
      omega (arith, i.in_use),
      omega (arith, i.in_use, newest.1),
      (reserve-IsSafe size cur_tail s granted committed i).1,
    )
