-- ===== src/Failpoint.antt =====
-- The fault injection of tools/failpoint: a registry of named points, each with a policy that says
-- at which of its hits it fires. The random source and its numbers are the standard library's, and
-- parameters here. The accesses of one point are modelled in the order in which they take effect.
pub mod Points
pub mod Schedule
pub mod Policy
pub mod Scope
mod Tests
use text.Mathlib.Text.{◌==◌ as str_eq}
use Prim.Native.String.{String}
use qstorage.Prelude.{
  Option, none, some, ℕ, ◌+◌, ◌-◌, ◌%◌, Bool, true, false, ◌&&◌, List, [], ◌∷◌, ltb, ◌==◌,
  if◌then◌else◌,
}
use qstorage.Prelude.Words.{add64}

pub data Mode : Type 0 where
  always once nth random : Mode

-- `Point`; `probability` is of the type of the random numbers
pub record Point (R : Type 0) : Type 0 where
  pub enabled : Bool
  pub hit : ℕ
  pub mode : Mode
  pub nth : ℕ
  pub probability : R

-- `points_` as an association list, and the state of `rng_`
pub record Registry (R Gen : Type 0) : Type 0 where
  pub points : List (String × Point R)
  pub gen : Gen

-- What the registry asks of the standard library: the numbers, and `dist_(rng_)`
pub record RandomSource : Type 1 where
  pub Number : Type 0
  pub Gen : Type 0
  pub one : Number
  pub less : Number → Number → Bool
  pub draw : Gen → Number × Gen

module _ (src : RandomSource) where
  open src use {Number, Gen, one, less, draw}

  -- `Point{}`
  abbrev pub fresh_point : Point Number
  fresh_point = record { enabled = false; hit = 0; mode = Mode.always; nth = 0; probability = one }

  -- The registry that `Instance` gives at first, with the generator that the constructor seeds
  abbrev pub new_registry : Gen → Registry Number Gen
  new_registry seeded = record { points = []; gen = seeded }

  -- `points_[name]`: a name that is not there stands for a fresh point.
  unfoldable pub find : String → List (String × Point Number) → Point Number
  find name [] = fresh_point
  find name ((key, p) ∷ ps) = let rest = find name ps in if str_eq name key then p else rest

  unfoldable pub put :
      String → Point Number → List (String × Point Number) → List (String × Point Number)
  put name p [] = (name, p) ∷ []
  put name p ((key, q) ∷ ps) =
      let rest = put name p ps in if str_eq name key then (key, p) ∷ ps else (key, q) ∷ rest

  -- `Registry::Get` inserts a fresh point under a new name, and returns a reference.
  abbrev pub get : String → Registry Number Gen → Point Number
  get name r = find name r.points

  abbrev pub write_point : String → Point Number → Registry Number Gen → Registry Number Gen
  write_point name p r = record r { points = put name p r.points }

  -- The `switch` of `ShouldFire`, on the new count of hits
  unfoldable pub decide : Mode → Point Number → ℕ → Gen → Bool × Gen
  decide Mode.always p h g = (true, g)
  decide Mode.once p h g = (h == 1, g)
  decide Mode.nth p h g = (ltb 0 p.nth && (h == p.nth), g)
  decide Mode.random p h g = let (x, g') = draw g in (less x p.probability, g')

  -- `Registry::ShouldFire`
  unfoldable pub should_fire : String → Registry Number Gen → Bool × Registry Number Gen
  unfolding decide
  should_fire name r =
      let p = get name r in
      let h = add64 p.hit 1 in
      let (fires, g) = decide p.mode p h r.gen in
      let counted : Registry Number Gen = record {
        points = put name (record p { hit = h }) r.points;
        gen = g;
      } in
      if p.enabled then (fires, counted) else (false, write_point name p r)

  -- `Enable`
  unfoldable pub enable : String → Mode → ℕ → Number → Registry Number Gen → Registry Number Gen
  enable name mode n prob r =
      write_point name
        (record { enabled = true; hit = 0; mode = mode; nth = n; probability = prob }) r

  -- `Disable`
  unfoldable pub disable : String → Registry Number Gen → Registry Number Gen
  disable name r = write_point name (record (get name r) { enabled = false }) r

  -- `ScopedFailPoint` around a body: its constructor, the body and its destructor
  unfoldable pub scoped :
      {A : Type 0}
      → String
      → Mode
      → ℕ
      → Number
      → (Registry Number Gen → A × Registry Number Gen)
      → Registry Number Gen
      → A × Registry Number Gen
  unfolding enable disable
  scoped name mode n prob body r =
      let (a, r') = body (enable name mode n prob r) in (a, disable name r')

  -- Each of the macros where `ENABLE_FAILPOINT` is not defined, before the rest of a function
  abbrev pub no_fail_point :
      {A : Type 0}
      → (Registry Number Gen → A × Registry Number Gen)
      → Registry Number Gen
      → A × Registry Number Gen
  no_fail_point rest r = rest r

  -- `FAIL_POINT(name, action)` where it is defined; the action ends the function or goes on.
  unfoldable pub fail_point :
      {B : Type 0} → String → (action rest : Registry Number Gen → B) → Registry Number Gen → B
  unfolding should_fire
  fail_point name action rest r =
      let (fires, r') = should_fire name r in if fires then action r' else rest r'

  -- `FAIL_POINT_RETURN(name, value)` before the rest of a function, where `ENABLE_FAILPOINT` is
  -- defined, and where it is not
  unfoldable pub fail_point_return :
      {A : Type 0}
      → Bool
      → String
      → A
      → (Registry Number Gen → A × Registry Number Gen)
      → Registry Number Gen
      → A × Registry Number Gen
  unfolding fail_point
  fail_point_return false name value rest = no_fail_point rest
  fail_point_return true name value rest = fail_point name (λ r. (value, r)) rest

  -- `FAIL_POINT_SLEEP(name, ms)`: a delay, which leaves no trace in the state
  unfoldable pub fail_point_sleep :
      {A : Type 0}
      → Bool
      → String
      → (Registry Number Gen → A × Registry Number Gen)
      → Registry Number Gen
      → A × Registry Number Gen
  unfolding should_fire
  fail_point_sleep false name rest r = no_fail_point rest r
  fail_point_sleep true name rest r = let (fires, r') = should_fire name r in rest r'

  -- `FAIL_POINT_CRASH(name)`; a process that aborts is `none`.
  unfoldable pub fail_point_crash :
      {A : Type 0}
      → Bool
      → String
      → (Registry Number Gen → A × Registry Number Gen)
      → Registry Number Gen
      → Option (A × Registry Number Gen)
  unfolding fail_point
  fail_point_crash false name rest r = some (no_fail_point rest r)
  fail_point_crash true name rest r = fail_point name (λ r. none) (λ r. some (rest r)) r

  -- `WriteWAL` of tests/failpoint_demo/demo.cc
  unfoldable pub write_wal : Bool → Registry Number Gen → ℕ × Registry Number Gen
  unfolding fail_point_return fail_point_sleep
  write_wal on =
      fail_point_return on "wal::write::fail" 1
        (fail_point_sleep on "wal::write::delay" (λ r. (0, r)))
