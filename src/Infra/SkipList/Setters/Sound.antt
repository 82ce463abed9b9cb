-- ===== src/Infra/SkipList/Setters/Sound.antt =====
-- What calls of `SetKeyValue` (src/infra/skip_list.h) keep: the counter is as at first, or its top
-- bit is set and at most each call that has returned has added 1.
use Prim.Native.Nat.{bit_or}
use qstorage.Prelude.{
  ℕ, ◌+◌, ◌-◌, ◌^◌, ◌≤◌, ◌<◌, ◌≡◌, refl, sym, ap, ◌∙◌, ◌⊎◌, inl, inr, Bool, true, false, List, [],
  ◌∷◌, ◌++◌, All, All-change, total, total-append, length, length-append, arith,
}
use qstorage.Prelude.Bits.{or_set}
use qstorage.Infra.Atomic.{Cell}
use qstorage.Infra.SkipList.Setters.{Slots, Setter}

or_top : (v : ℕ) → 2 ^ 63 ≤ v → v < 2 ^ 64 → bit_or v (2 ^ 63) ≡ v
or_top v low room =
    let e : v ≡ 2 ^ 63 + (v - 2 ^ 63) = omega (arith, low) in
    ap (λ k. bit_or k (2 ^ 63)) e ∙ (or_set 63 (v - 2 ^ 63) (omega (arith, room, low)) ∙ sym e)

module _ {A : Type 0} where
  -- A call that has not stored and is not going to
  abbrev pub quiet : Setter A → Bool
  quiet (Setter.storing x index) = false
  quiet Setter.committing = false
  quiet Setter.ended = false
  quiet _ = true

  -- One that does not rely on the top bit
  abbrev pub early : Setter A → Bool
  early (Setter.called x) = true
  early (Setter.marking x res) = true
  early Setter.returned_false = true
  early _ = false

  abbrev pub weight : Setter A → ℕ
  weight Setter.returned_false = 1
  weight _ = 0

  abbrev pub Quiet : Setter A → Type 0
  Quiet t = quiet t ≡ true

  abbrev pub Early : Setter A → Type 0
  Early t = early t ≡ true

  -- The counter is as at first and no call relies on the top bit, or the bit is set and at most
  -- each call that has returned has added 1.
  abbrev pub Counted : List (Setter A) → ℕ → Type 0
  Counted ts v = ((v ≡ 1) × All Early ts) ⊎ ((2 ^ 63 ≤ v) × (v ≤ 2 ^ 63 + 1 + total weight ts))

  pub record IsSound (stored : List A) (calls : ℕ) (ts : List (Setter A)) (n : Slots A)
      : Type 0 where
    pub calls_quiet : All Quiet ts
    pub counted : Counted ts n.count.latest.value
    pub same_stored : n.stored ≡ stored
    pub same_commit : n.commit ≡ 1
    pub size : length ts ≡ calls

  early→quiet : (t : Setter A) → Early t → Quiet t
  early→quiet (Setter.called x) h = refl
  early→quiet (Setter.marking x res) h = refl
  early→quiet (Setter.counting x) h = refl
  early→quiet (Setter.storing x index) h = absurd cc
  early→quiet Setter.committing h = absurd cc
  early→quiet Setter.returned_false h = refl
  early→quiet Setter.ended h = absurd cc

  weight-bound : (t : Setter A) → weight t ≤ 1
  weight-bound (Setter.called x) = omega arith
  weight-bound (Setter.marking x res) = omega arith
  weight-bound (Setter.counting x) = omega arith
  weight-bound (Setter.storing x index) = omega arith
  weight-bound Setter.committing = omega arith
  weight-bound Setter.returned_false = omega arith
  weight-bound Setter.ended = omega arith

  pub total-bound : (ts : List (Setter A)) → total weight ts ≤ length ts
  total-bound [] = omega arith
  total-bound (t ∷ ts) = omega (arith, weight-bound t, total-bound ts)

  pub total-change :
      (front : List (Setter A)) (t t' : Setter A) (back : List (Setter A))
      → total weight (front ++ t' ∷ back) + weight t ≡ total weight (front ++ t ∷ back) + weight t'
  total-change front t t' back =
      omega (arith, total-append weight front (t ∷ back), total-append weight front (t' ∷ back))

  length-change :
      (front : List (Setter A)) (t t' : Setter A) (back : List (Setter A))
      → length (front ++ t' ∷ back) ≡ length (front ++ t ∷ back)
  length-change front t t' back =
      omega (arith, length-append front (t ∷ back), length-append front (t' ∷ back))

  module _ (stored : List A) (calls : ℕ) (front : List (Setter A)) (t : Setter A)
      (back : List (Setter A)) (n : Slots A)
      (sound : IsSound stored calls (front ++ t ∷ back) n) where
    -- A step that leaves what is stored
    pub change :
        (t' : Setter A) (c : Cell)
        → Quiet t'
        → Counted (front ++ t' ∷ back) c.latest.value
        → IsSound stored calls (front ++ t' ∷ back) (record n { count = c })
    change t' c q counted = record {
      calls_quiet = (All-change Quiet front t t' back sound.calls_quiet q).1;
      counted = counted;
      same_stored = sound.same_stored;
      same_commit = sound.same_commit;
      size = length-change front t t' back ∙ sound.size;
    }

    -- A step to a call that does not rely on the bit, which leaves the counter
    pub stay :
        (t' : Setter A)
        → Early t'
        → weight t ≤ weight t'
        → IsSound stored calls (front ++ t' ∷ back) n
    stay t' e heavier = change t' n.count (early→quiet t' e) (elim sound.counted [
      | inl (first, all) ↦ inl (first, (All-change Early front t t' back all e).1)
      | inr (low, high) ↦ inr (low, omega (arith, high, heavier, total-change front t t' back))
    ])

    -- The exchange has set the bit.
    pub mark :
        (x : A) (c : Cell)
        → weight t ≡ 0
        → c.latest.value ≡ bit_or n.count.latest.value (2 ^ 63)
        → calls < 2 ^ 62
        → IsSound stored calls (front ++ Setter.counting x ∷ back) (record n { count = c })
    mark x c light set small = change (Setter.counting x) c refl (
        inr (elim sound.counted [
          | inl (first, all) ↦
              let e : c.latest.value ≡ 2 ^ 63 + 1 = set ∙ ap (λ v. bit_or v (2 ^ 63)) first in
              (omega (arith, e), omega (arith, e))
          | inr (low, high) ↦
              let room : n.count.latest.value < 2 ^ 64 =
                omega (arith, high, small, sound.size, total-bound (front ++ t ∷ back)) in
              let e : c.latest.value ≡ n.count.latest.value =
                set ∙ or_top n.count.latest.value low room in
              (
                omega (arith, e, low),
                omega (arith, e, high, light, total-change front t (Setter.counting x) back),
              )
        ]))
