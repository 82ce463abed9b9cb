-- ===== src/Infra/Atomic/Counter.antt =====
-- Counters with the two wrappers of src/infra/atomic.h.
use mathlib.Core.Path.{subst}
use native.Mathlib.Nat.{mod-eq_of_lt, mod-lt, mod-add-mod}
use qstorage.Prelude.{ℕ, ◌+◌, ◌%◌, ◌^◌, ◌<◌, ◌≡◌, refl, sym, ap, ◌∙◌, List, [], ◌∷◌, arith}
use qstorage.Infra.Atomic.{Seen, Cell, fetch_add_relaxed, fetch_add}

module _ (w : ℕ) where
  -- One `FetchAddRelaxed` after another, by any threads: what they give back
  abbrev pub add_all_relaxed : List ℕ → Cell → List ℕ × Cell
  add_all_relaxed [] c = ([], c)
  add_all_relaxed (n ∷ ns) c =
      let r = fetch_add_relaxed w c n in let rest = add_all_relaxed ns r.1 in (r.0 ∷ rest.0, rest.1)

  -- One `FetchAdd` after another, each by a thread with its own knowledge
  abbrev pub add_all : List (Seen × ℕ) → Cell → List ℕ × Cell
  add_all [] c = ([], c)
  add_all ((k, n) ∷ ns) c =
      let r = fetch_add w k c n in let rest = add_all ns r.1.1 in (r.0 ∷ rest.0, rest.1)

  abbrev pub operands : List (Seen × ℕ) → List ℕ
  operands [] = []
  operands ((k, n) ∷ ns) = n ∷ operands ns

  -- The values before each of the additions, and after all of them
  abbrev pub running : ℕ → List ℕ → List ℕ
  running v [] = []
  running v (n ∷ ns) = v ∷ running ((v + n) % 2 ^ w) ns

  abbrev pub final : ℕ → List ℕ → ℕ
  final v [] = v
  final v (n ∷ ns) = final ((v + n) % 2 ^ w) ns

  add_all-running :
      (ns : List (Seen × ℕ)) (c : Cell)
      → ((add_all ns c).0 ≡ running c.latest.value (operands ns))
        × ((add_all ns c).1.latest.value ≡ final c.latest.value (operands ns))
  unfolding fetch_add
  add_all-running [] c = (refl, refl)
  add_all-running ((k, n) ∷ ns) c =
      let (values, end_value) = add_all-running ns (fetch_add w k c n).1.1 in
      (ap (◌∷◌ c.latest.value) values, end_value)

  add_all_relaxed-running :
      (ns : List ℕ) (c : Cell)
      → ((add_all_relaxed ns c).0 ≡ running c.latest.value ns)
        × ((add_all_relaxed ns c).1.latest.value ≡ final c.latest.value ns)
  unfolding fetch_add_relaxed
  add_all_relaxed-running [] c = (refl, refl)
  add_all_relaxed-running (n ∷ ns) c =
      let (values, end_value) = add_all_relaxed-running ns (fetch_add_relaxed w c n).1 in
      (ap (◌∷◌ c.latest.value) values, end_value)

  abbrev pub sum : List ℕ → ℕ
  sum [] = 0
  sum (n ∷ ns) = n + sum ns

  final-sum : (v : ℕ) (ns : List ℕ) → v < 2 ^ w → final v ns ≡ (v + sum ns) % 2 ^ w
  final-sum v [] h =
      let same : v ≡ v + 0 = omega arith in
      same ∙ sym (mod-eq_of_lt (subst (λ k. k < 2 ^ w) same h))
  final-sum v (n ∷ ns) h =
      let flat : v + n + sum ns ≡ v + (n + sum ns) = omega arith in
      final-sum ((v + n) % 2 ^ w) ns (mod-lt (v + n) (omega arith))
      ∙ (mod-add-mod (v + n) (2 ^ w) (sum ns) ∙ ap (λ k. k % 2 ^ w) flat)

  -- Both wrappers count alike: each addition gives back the value that the ones before it have
  -- left, and after all of them the newest value is the sum, whatever their order, modulo `2 ^ w`.
  pub add_all_lem :
      (ns : List (Seen × ℕ)) (c : Cell)
      → c.latest.value < 2 ^ w
      → ((add_all ns c).0 ≡ (add_all_relaxed (operands ns) c).0)
        × ((add_all ns c).0 ≡ running c.latest.value (operands ns))
        × ((add_all ns c).1.latest.value ≡ (c.latest.value + sum (operands ns)) % 2 ^ w)
        × ((add_all_relaxed (operands ns) c).1.latest.value
            ≡ (c.latest.value + sum (operands ns)) % 2 ^ w)
  add_all_lem ns c small =
      let (values, end_value) = add_all-running ns c in
      let (values', end_value') = add_all_relaxed-running (operands ns) c in
      let sum_value = final-sum c.latest.value (operands ns) small in
      (values ∙ sym values', values, end_value ∙ sum_value, end_value' ∙ sum_value)
