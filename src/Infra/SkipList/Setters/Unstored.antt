-- ===== src/Infra/SkipList/Setters/Unstored.antt =====
-- Calls of `SetKeyValue` (src/infra/skip_list.h) never store: the first exchange sets the top bit
-- of the counter, which stays there and is part of every index.
use Prim.Native.Nat.{bit_or}
use mathlib.Core.List.{map}
use mathlib.Core.Path.{subst}
use qstorage.Prelude.{
  ℕ, suc, ◌+◌, ◌^◌, ◌≤◌, ◌<◌, ◌≡◌, refl, sym, ap, inl, inr, Bool, true, false, Bool-cases, not,
  ◌&&◌, ◌==◌, Option, none, some, List, [], ◌∷◌, ◌++◌, All, All-change, length, leb, arith,
}
use qstorage.Infra.Atomic.{load_relaxed, cas_weak_relaxed, fetch_add_relaxed}
use qstorage.Infra.SkipList.Setters.{
  Slots, Setter, Choice, after_load, after_exchange, after_add, advance,
}
use qstorage.Infra.SkipList.Setters.Steps.{Reach, start, later}
use qstorage.Infra.SkipList.Setters.Sound.{
  Quiet, Early, IsSound, total-bound, total-change, change, stay, mark,
}

module _ {A : Type 0} (capacity : ℕ) (fits : capacity ≤ 2 ^ 63) (stored : List A) (calls : ℕ)
    (small : calls < 2 ^ 62) where
  abbrev After : (front back : List (Setter A)) → Option (Setter A × Slots A) → Type 0
  After front back none = Unit
  After front back (some r) = IsSound stored calls (front ++ r.0 ∷ back) r.1

  load-After :
      (front : List (Setter A)) (x : A) (back : List (Setter A)) (n : Slots A) (b : Bool) (res : ℕ)
      → IsSound stored calls (front ++ Setter.called x ∷ back) n
      → IsSound stored calls (front ++ after_load capacity b x res ∷ back) n
  load-After front x back n true res sound =
      stay stored calls front _ back n sound Setter.returned_false refl (omega arith)
  load-After front x back n false res sound =
      stay stored calls front _ back n sound (Setter.marking x res) refl (omega arith)

  exchange-After :
      (fails : Bool) (front : List (Setter A)) (x : A) (res : ℕ) (back : List (Setter A))
      (n : Slots A)
      → IsSound stored calls (front ++ Setter.marking x res ∷ back) n
      → After front back (
          some (
            after_exchange capacity x
              (cas_weak_relaxed 64 fails n.count res (bit_or res (2 ^ 63)))
              n))
  unfolding cas_weak_relaxed
  exchange-After fails front x res back n sound =
      elim (Bool-cases ((n.count.latest.value == res) && not fails)) [
        | inl e ↦
            let same : n.count.latest.value ≡ res = ground (arith, e) in
            rw (e) (
              mark stored calls front (Setter.marking x res) back n sound x _ refl
                (ap (λ v. bit_or v (2 ^ 63)) (sym same)) small)
        | inr e ↦ rw (e) (
            stay stored calls front (Setter.marking x res) back n sound
              (Setter.marking x n.count.latest.value) refl (omega arith))
      ]

  add-After :
      (front : List (Setter A)) (x : A) (back : List (Setter A)) (n : Slots A)
      → IsSound stored calls (front ++ Setter.counting x ∷ back) n
      → let v = n.count.latest.value in
        IsSound stored calls
          (front ++ after_add capacity (leb capacity v) x v ∷ back)
          (record n { count = (fetch_add_relaxed 64 n.count 1).1 })
  unfolding fetch_add_relaxed
  add-After front x back n sound = elim sound.counted [
    | inl (first, all) ↦
        absurd
          (cc ((All-change Early front (Setter.counting x) Setter.returned_false back all refl).0))
    | inr (low, high) ↦
        let over : leb capacity n.count.latest.value ≡ true = ground (arith, fits, low) in
        let room : n.count.latest.value < 2 ^ 63 + 1 + 2 ^ 62 =
          omega (arith, high, small, sound.size, total-bound (front ++ Setter.counting x ∷ back)) in
        rw (over) (
          change stored calls front (Setter.counting x) back n sound Setter.returned_false _ refl (
            inr (
              omega (arith, low, room),
              omega (
                arith,
                high,
                room,
                total-change front (Setter.counting x) Setter.returned_false back,
              ),
            )))
  ]

  sound-Quiet :
      (front : List (Setter A)) (t : Setter A) (back : List (Setter A)) (n : Slots A)
      → IsSound stored calls (front ++ t ∷ back) n
      → Quiet t
  sound-Quiet front t back n sound =
      (All-change Quiet front t Setter.returned_false back sound.calls_quiet refl).0

  advance-After :
      (c : Choice) (front : List (Setter A)) (t : Setter A) (back : List (Setter A)) (n : Slots A)
      → IsSound stored calls (front ++ t ∷ back) n
      → After front back (advance capacity c t n)
  unfolding advance load_relaxed fetch_add_relaxed
  advance-After c front (Setter.called x) back n sound = load-After front x back n _ _ sound
  advance-After c front (Setter.marking x res) back n sound =
      exchange-After c.fails front x res back n sound
  advance-After c front (Setter.counting x) back n sound = add-After front x back n sound
  advance-After c front (Setter.storing x index) back n sound =
      absurd (cc (sound-Quiet front (Setter.storing x index) back n sound))
  advance-After c front Setter.committing back n sound =
      absurd (cc (sound-Quiet front Setter.committing back n sound))
  advance-After c front Setter.returned_false back n sound = tt
  advance-After c front Setter.ended back n sound = tt

module _ {A : Type 0} where
  All-called :
      (P : Setter A → Type 0) (xs : List A)
      → ((x : A) → P (Setter.called x))
      → All P (map Setter.called xs)
  All-called P [] h = tt
  All-called P (x ∷ xs) h = (h x, All-called P xs h)

  length-called : (xs : List A) → length (map Setter.called xs) ≡ length xs
  length-called [] = refl
  length-called (x ∷ xs) = ap suc (length-called xs)

  Reach-IsSound :
      (capacity : ℕ) (stored xs : List A)
      → capacity ≤ 2 ^ 63
      → length xs < 2 ^ 62
      → (ts : List (Setter A)) (n : Slots A) → Reach capacity stored xs ts n
      → IsSound stored (length xs) ts n
  Reach-IsSound capacity stored xs fits small _ _ start = record {
    calls_quiet = All-called Quiet xs (λ x. refl);
    counted = inl (refl, All-called Early xs (λ x. refl));
    same_stored = refl;
    same_commit = refl;
    size = length-called xs;
  }
  Reach-IsSound capacity stored xs fits small _ _ (later c front t back n r before step) =
      subst (After capacity fits stored (length xs) small front back) step (
        advance-After capacity fits stored (length xs) small c front t back n
          (Reach-IsSound capacity stored xs fits small _ n before))

  -- However fewer than `2 ^ 62` calls of `SetKeyValue` on a new node of at most `2 ^ 63` slots
  -- interleave, nothing is stored or committed, and no call stores or comes behind its last line.
  pub Reach-unstored :
      (capacity : ℕ) (stored xs : List A) (ts : List (Setter A)) (n : Slots A)
      → capacity ≤ 2 ^ 63
      → length xs < 2 ^ 62
      → Reach capacity stored xs ts n
      → (n.stored ≡ stored) × (n.commit ≡ 1) × All Quiet ts
  Reach-unstored capacity stored xs ts n fits small reached =
      let sound = Reach-IsSound capacity stored xs fits small ts n reached in
      (sound.same_stored, sound.same_commit, sound.calls_quiet)
