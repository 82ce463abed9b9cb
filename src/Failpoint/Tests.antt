-- ===== src/Failpoint/Tests.antt =====
-- The test of tests/failpoint_demo/demo_test.cc, and the theorems at a source of coin tosses.
use Prim.Native.String.{String}
use qstorage.Prelude.{
  ℕ, none, some, ◌==◌, ◌≡◌, refl, Bool, true, false, not, ◌&&◌, List, [], ◌∷◌, ◌++◌, arith,
  replicate,
}
use qstorage.Failpoint.{
  Mode, Registry, RandomSource, find, put, should_fire, enable, scoped, write_wal, fail_point_crash,
  new_registry,
}
use qstorage.Failpoint.Policy.{answers, hits, answers-nth}

-- Numbers are 0 and 1, and the generator gives them in turn.
abbrev coin : RandomSource
coin = record {
  Number = Bool;
  Gen = Bool;
  one = true;
  less = λ x y. not x && y;
  draw = λ g. (g, not g);
}

abbrev empty : Registry Bool Bool
empty = new_registry coin false

-- EXPECT_EQ(WriteWAL(), 1), in the scope of a point that fires once
unfoldable open_fail_once : Bool
unfolding scoped write_wal should_fire find put
open_fail_once =
    (scoped coin "wal::write::fail" Mode.once 0 true (write_wal coin true) empty).0 == 1

open_fail_once_passes : open_fail_once ≡ true
unfolding open_fail_once
open_fail_once_passes = refl

-- A point that fires ends the process, and where the macros are off the rest runs.
abbrev rest : Registry Bool Bool → ℕ × Registry Bool Bool
rest r = (0, r)

crashes :
    (fail_point_crash coin true "a" rest (enable coin "a" Mode.always 0 true empty) ≡ none)
    × (fail_point_crash coin false "a" rest empty ≡ some (0, empty))
unfolding fail_point_crash enable should_fire find put
crashes = (refl, refl)

random_fires :
    answers coin "a" ("a" ∷ "a" ∷ "a" ∷ []) (enable coin "a" Mode.random 0 true empty)
    ≡ true ∷ false ∷ true ∷ []
unfolding answers enable should_fire find put
random_fires = refl

abbrev calls : List String
calls = "a" ∷ "b" ∷ "a" ∷ "b" ∷ "a" ∷ []

answers-nth_example :
    answers coin "a" calls (enable coin "a" Mode.nth 2 true empty)
    ≡ replicate 1 false ++ true ∷ replicate 1 false
unfolding hits
answers-nth_example = answers-nth coin "a" 1 1 true calls empty refl (omega arith)
