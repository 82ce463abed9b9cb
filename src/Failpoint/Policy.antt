-- ===== src/Failpoint/Policy.antt =====
-- At which hits a point fires, whatever other points are hit in between.
use text.Mathlib.Text.{◌==◌ as str_eq}
use text.Mathlib.TextEquality.{eq_iff}
use mathlib.Core.Path.{subst}
use Prim.Native.String.{String}
use qstorage.Prelude.{
  ℕ, suc, ◌+◌, ◌<◌, ◌≡◌, ◌≢◌, refl, sym, ap, ◌∙◌, inl, inr, Bool, true, false, List, [], ◌∷◌, ◌++◌,
  if◌then◌else◌, arith, replicate, Bool-cases, if_true,
}
use qstorage.Prelude.Words.{add64, u64_mod}
use qstorage.Failpoint.{Mode, Point, Registry, RandomSource, find, put, decide, should_fire, enable}
use qstorage.Failpoint.Schedule.{fires_at, schedule, schedule-once, schedule_until}
use qstorage.Failpoint.Points.{find-put_self, find-put_ne}

-- How many calls are for a name
unfoldable pub hits : String → List String → ℕ
hits name [] = 0
hits name (key ∷ keys) = let rest = hits name keys in if str_eq key name then suc rest else rest

module _ (src : RandomSource) (name : String) where
  open src use {Number, Gen, one, less, draw}

  -- The answers to the calls of `ShouldFire` for `name`, among calls for any points
  unfoldable pub answers : List String → Registry Number Gen → List Bool
  answers [] r = []
  answers (key ∷ keys) r =
      let (fires, r') = should_fire src key r in
      let rest = answers keys r' in if str_eq key name then fires ∷ rest else rest

  -- The point of this name is on, with this policy and count of hits.
  pub record IsOn (m : Mode) (n h : ℕ) (r : Registry Number Gen) : Type 0 where
    pub on : (find src name r.points).enabled ≡ true
    pub mode : (find src name r.points).mode ≡ m
    pub nth : (find src name r.points).nth ≡ n
    pub hit : (find src name r.points).hit ≡ h

  pub enable-IsOn :
      (m : Mode) (n : ℕ) (prob : Number) (r : Registry Number Gen)
      → IsOn m n 0 (enable src name m n prob r)
  unfolding enable
  enable-IsOn m n prob r =
      let p : Point Number = record {
        enabled = true;
        hit = 0;
        mode = m;
        nth = n;
        probability = prob;
      } in
      let e = find-put_self src name p r.points in
      record { on = rw e; mode = rw e; nth = rw e; hit = rw e }

  -- A call for another point leaves this one.
  pub find-should_fire_ne :
      (key : String) (r : Registry Number Gen)
      → str_eq key name ≡ false
      → find src name (should_fire src key r).1.points ≡ find src name r.points
  unfolding should_fire
  find-should_fire_ne key r ne = elim (Bool-cases (find src key r.points).enabled) [
    | inl on ↦ rw on (find-put_ne src name key _ r.points ne)
    | inr off ↦ rw off (find-put_ne src name key _ r.points ne)
  ]

  pub IsOn-should_fire_ne :
      (m : Mode) (n h : ℕ) (key : String) (r : Registry Number Gen)
      → str_eq key name ≡ false
      → IsOn m n h r
      → IsOn m n h (should_fire src key r).1
  IsOn-should_fire_ne m n h key r ne i =
      let e = find-should_fire_ne key r ne in
      record { on = rw e i.on; mode = rw e i.mode; nth = rw e i.nth; hit = rw e i.hit }

  IsOn-put :
      (m : Mode) (n h : ℕ) (q : Point Number) (ps : List (String × Point Number)) (g : Gen)
      → q.enabled ≡ true
      → q.mode ≡ m
      → q.nth ≡ n
      → q.hit ≡ h
      → IsOn m n h (record { points = put src name q ps; gen = g })
  IsOn-put m n h q ps g on mode nth hit =
      let e = find-put_self src name q ps in
      record {
        on = ap (λ (p : Point Number). p.enabled) e ∙ on;
        mode = ap (λ (p : Point Number). p.mode) e ∙ mode;
        nth = ap (λ (p : Point Number). p.nth) e ∙ nth;
        hit = ap (λ (p : Point Number). p.hit) e ∙ hit;
      }

  abbrev point : Registry Number Gen → Point Number
  point r = find src name r.points

  abbrev next_hit : Registry Number Gen → ℕ
  next_hit r = add64 (point r).hit 1

  abbrev decided : Registry Number Gen → Bool × Gen
  decided r = decide src (point r).mode (point r) (next_hit r) r.gen

  should_fire_on :
      (r : Registry Number Gen)
      → (point r).enabled ≡ true
      → should_fire src name r ≡ (
        (decided r).0,
        record {
          points = put src name (record (point r) { hit = next_hit r }) r.points;
          gen = (decided r).1;
        },
      )
  unfolding should_fire
  should_fire_on r on = if_true _ _ _ on

  decide-fires_at :
      (m : Mode) (p : Point Number) (n h k : ℕ) (g : Gen)
      → m ≢ Mode.random
      → p.nth ≡ n
      → h ≡ k
      → (decide src m p h g).0 ≡ fires_at m n k
  unfolding decide fires_at
  decide-fires_at Mode.always p n h k g fixed e e' = refl
  decide-fires_at Mode.once p n h k g fixed e e' = rw e'
  decide-fires_at Mode.nth p n h k g fixed e e' = rw (e, e')
  decide-fires_at Mode.random p n h k g fixed e e' = absurd (fixed refl)

  -- A call for this point answers by the policy, and counts.
  pub should_fire-IsOn :
      (m : Mode) (n h : ℕ) (r : Registry Number Gen)
      → m ≢ Mode.random
      → suc h < u64_mod
      → IsOn m n h r
      → ((should_fire src name r).0 ≡ fires_at m n (suc h))
        × IsOn m n (suc h) (should_fire src name r).1
  should_fire-IsOn m n h r fixed small i =
      let e = should_fire_on r i.on in
      let count : next_hit r ≡ suc h = omega (arith, i.hit) in
      let by_mode : (decided r).0 ≡ (decide src m (point r) (next_hit r) r.gen).0 =
        ap (λ k. (decide src k (point r) (next_hit r) r.gen).0) i.mode in
      (
        ap (λ (x : Bool × Registry Number Gen). x.0) e
            ∙ (by_mode
                ∙ decide-fires_at m (point r) n (next_hit r) (suc h) r.gen fixed i.nth count),
        subst (λ (x : Bool × Registry Number Gen). IsOn m n (suc h) x.1) (sym e)
            (IsOn-put m n (suc h) (record (point r) { hit = next_hit r }) r.points (decided r).1
              i.on i.mode i.nth count),
      )

  -- From a state in which the point is on, its answers follow the policy by its own hits alone.
  answers-schedule :
      (m : Mode) (n : ℕ) (keys : List String) (h : ℕ) (r : Registry Number Gen)
      → m ≢ Mode.random
      → h + hits name keys < u64_mod
      → IsOn m n h r
      → answers keys r ≡ schedule m n h (hits name keys)
  unfolding answers hits schedule
  answers-schedule m n [] h r fixed small i = refl
  answers-schedule m n (key ∷ keys) h r fixed small i = elim (Bool-cases (str_eq key name)) [
    | inl own ↦
        let same : key ≡ name = (eq_iff key name).0 own in
        let small' : suc h + hits name keys < u64_mod = ground arith in
        let step = should_fire-IsOn m n h r fixed (omega arith) i in
        let rest =
          answers-schedule m n keys (suc h) (should_fire src name r).1 fixed small' step.1 in
        rw (own, same, step.0, rest)
    | inr other ↦
        let small' : h + hits name keys < u64_mod = ground arith in
        rw other (
          answers-schedule m n keys h (should_fire src key r).1 fixed small'
            (IsOn-should_fire_ne m n h key r other i))
  ]

  -- After `Enable` with a policy that is not random, the answers for the point follow the policy by
  -- the number of its own calls since, whatever points are hit in between, for fewer than `2 ^ 64`
  -- of them.
  pub answers-enable :
      (m : Mode) (n : ℕ) (prob : Number) (keys : List String) (r : Registry Number Gen)
      → m ≢ Mode.random
      → hits name keys < u64_mod
      → answers keys (enable src name m n prob r) ≡ schedule m n 0 (hits name keys)
  answers-enable m n prob keys r fixed small =
      answers-schedule m n keys 0 (enable src name m n prob r) fixed (omega arith)
        (enable-IsOn m n prob r)

module _ (src : RandomSource) (name : String) where
  open src use {Number, Gen}

  -- A point that is enabled with `ONCE` fires at its first call and at no later one, up to `2 ^ 64`
  -- calls; calls for other points in between change nothing.
  pub answers-once :
      (k : ℕ) (prob : Number) (keys : List String) (r : Registry Number Gen)
      → hits name keys ≡ suc k
      → suc k < u64_mod
      → answers src name keys (enable src name Mode.once 0 prob r) ≡ true ∷ replicate k false
  unfolding schedule fires_at
  answers-once k prob keys r e small =
      answers-enable src name Mode.once 0 prob keys r (λ p. cc) (omega arith)
      ∙ (ap (schedule Mode.once 0 0) e ∙ ap (◌∷◌ true) (schedule-once 0 1 k (omega arith)))

  -- A point that is enabled with `NTH` and `j + 1` fires at that call and at no other, up to
  -- `2 ^ 64` calls; calls for other points in between change nothing.
  pub answers-nth :
      (j k : ℕ) (prob : Number) (keys : List String) (r : Registry Number Gen)
      → hits name keys ≡ j + suc k
      → j + suc k < u64_mod
      → answers src name keys (enable src name Mode.nth (suc j) prob r)
        ≡ replicate j false ++ true ∷ replicate k false
  answers-nth j k prob keys r e small =
      answers-enable src name Mode.nth (suc j) prob keys r (λ p. cc) (omega arith)
      ∙ (ap (schedule Mode.nth (suc j) 0) e ∙ schedule_until (suc j) 0 j k (omega arith))
