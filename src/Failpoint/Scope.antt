-- ===== src/Failpoint/Scope.antt =====
-- `ScopedFailPoint` and `Disable`, and the write-ahead log of the demo under a point.
use text.Mathlib.Text.{◌==◌ as str_eq}
use text.Mathlib.TextEquality.{eq_iff}
use mathlib.Core.Path.{subst}
use mathlib.Core.List.{map}
use Prim.Native.String.{String}
use qstorage.Prelude.{
  ℕ, zero, suc, ◌+◌, ◌<◌, ◌≡◌, ◌≢◌, refl, sym, ap, ap₂, ◌∙◌, inl, inr, Bool, true, false, List, [],
  ◌∷◌, if◌then◌else◌, arith, Bool-cases, if_true, if_false,
}
use qstorage.Prelude.Words.{u64_mod}
use qstorage.Failpoint.{
  Mode, Point, Registry, RandomSource, find, put, should_fire, enable, scoped, write_wal,
}
use qstorage.Failpoint.Points.{find-put, find-put_self, find-put_ne}
use qstorage.Failpoint.Schedule.{fires_at, schedule}
use qstorage.Failpoint.Policy.{IsOn, enable-IsOn, IsOn-should_fire_ne, should_fire-IsOn}

module _ (src : RandomSource) where
  open src use {Number, Gen}

  find-put_same :
      (name key : String) (ps : List (String × Point Number))
      → find src key (put src name (find src name ps) ps) ≡ find src key ps
  find-put_same name key ps = elim (Bool-cases (str_eq name key)) [
    | inl same ↦
        find-put src key name (find src name ps) ps
        ∙ (if_true _ _ _ same ∙ ap (λ k. find src k ps) ((eq_iff name key).0 same))
    | inr other ↦ find-put_ne src key name (find src name ps) ps other
  ]

  -- A point that is off does not fire, and the call changes no point.
  pub should_fire-off :
      (name : String) (r : Registry Number Gen)
      → (find src name r.points).enabled ≡ false
      → ((should_fire src name r).0 ≡ false)
        × ((key : String) → find src key (should_fire src name r).1.points ≡ find src key r.points)
  unfolding should_fire
  should_fire-off name r off =
      let left : Registry Number Gen = record {
        points = put src name (find src name r.points) r.points;
        gen = r.gen;
      } in
      let e : should_fire src name r ≡ (false, left) = if_false _ _ _ off in
      (
        ap (λ (x : Bool × Registry Number Gen). x.0) e,
        λ key.
            ap (λ (x : Bool × Registry Number Gen). find src key x.1.points) e
            ∙ find-put_same name key r.points,
      )

  -- Whatever the body does, when the scope ends its point is off, every other point is as the body
  -- left it, and the answer is the body's.
  pub scoped_lem :
      {A : Type 0} (name : String) (m : Mode) (n : ℕ) (prob : Number)
      (body : Registry Number Gen → A × Registry Number Gen) (r : Registry Number Gen)
      → let inside = body (enable src name m n prob r) in
        let after = scoped src name m n prob body r in
        (after.0 ≡ inside.0)
        × ((find src name after.1.points).enabled ≡ false)
        × ((key : String)
            → str_eq name key ≡ false
            → find src key after.1.points ≡ find src key inside.1.points)
  unfolding scoped
  scoped_lem name m n prob body r =
      let r' = (body (enable src name m n prob r)).1 in
      let off = record (find src name r'.points) { enabled = false } in
      (
        refl,
        ap (λ (p : Point Number). p.enabled) (find-put_self src name off r'.points),
        λ key ne. find-put_ne src key name off r'.points ne,
      )

  abbrev fail_name : String
  fail_name = "wal::write::fail"

  abbrev delay_name : String
  delay_name = "wal::write::delay"

  -- One call of `WriteWAL` answers 1 if the point fires at this hit, and counts one hit.
  write_wal-IsOn :
      (m : Mode) (n h : ℕ) (r : Registry Number Gen)
      → m ≢ Mode.random
      → suc h < u64_mod
      → IsOn src fail_name m n h r
      → ((write_wal src true r).0 ≡ (if fires_at m n (suc h) then 1 else 0))
        × IsOn src fail_name m n (suc h) (write_wal src true r).1
  unfolding write_wal
  write_wal-IsOn m n h r fixed small i =
      let step = should_fire-IsOn src fail_name m n h r fixed small i in
      elim (Bool-cases (should_fire src fail_name r).0) [
        | inl fires ↦ (
          ap (λ (x : ℕ × Registry Number Gen). x.0) (if_true _ _ _ fires)
              ∙ ap (λ b. if b then 1 else 0) (sym fires ∙ step.0),
          subst (λ (x : ℕ × Registry Number Gen). IsOn src fail_name m n (suc h) x.1)
              (sym (if_true _ _ _ fires)) step.1,
        )
        | inr silent ↦ (
          ap (λ (x : ℕ × Registry Number Gen). x.0) (if_false _ _ _ silent)
              ∙ ap (λ b. if b then 1 else 0) (sym silent ∙ step.0),
          subst (λ (x : ℕ × Registry Number Gen). IsOn src fail_name m n (suc h) x.1)
              (sym (if_false _ _ _ silent))
              (IsOn-should_fire_ne src fail_name m n (suc h) delay_name
                (should_fire src fail_name r).1 refl step.1),
        )
      ]

  -- The answers of `k` calls of `WriteWAL`
  unfoldable pub write_wals : ℕ → Registry Number Gen → List ℕ
  write_wals zero r = []
  write_wals (suc k) r = let (a, r') = write_wal src true r in a ∷ write_wals k r'

  write_wals-schedule :
      (m : Mode) (n k h : ℕ) (r : Registry Number Gen)
      → m ≢ Mode.random
      → h + k < u64_mod
      → IsOn src fail_name m n h r
      → write_wals k r ≡ map (λ b. if b then 1 else 0) (schedule m n h k)
  unfolding write_wals schedule
  write_wals-schedule m n zero h r fixed small i = refl
  write_wals-schedule m n (suc k) h r fixed small i =
      let step = write_wal-IsOn m n h r fixed (omega arith) i in
      ap₂ ◌∷◌ step.0
        (write_wals-schedule m n k (suc h) (write_wal src true r).1 fixed (omega arith) step.1)

  -- With the point of the demo enabled under a policy that is not random, the calls of `WriteWAL`
  -- that answer 1 are those at which the policy fires, and the others answer 0.
  pub write_wals-enable :
      (m : Mode) (n k : ℕ) (prob : Number) (r : Registry Number Gen)
      → m ≢ Mode.random
      → k < u64_mod
      → write_wals k (enable src fail_name m n prob r)
        ≡ map (λ b. if b then 1 else 0) (schedule m n 0 k)
  write_wals-enable m n k prob r fixed small =
      write_wals-schedule m n k 0 (enable src fail_name m n prob r) fixed (omega arith)
        (enable-IsOn src fail_name m n prob r)
