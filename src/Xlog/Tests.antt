-- ===== src/Xlog/Tests.antt =====
-- The tests of tests/xlog/xlog_test.cc, and the program of src/main.cc.
use qstorage.Prelude.{◌≡◌, refl, Bool, true, false, ◌&&◌, Option, none, some, [], ◌∷◌, ◌==◌}
use qstorage.Prelude.Words.{ℤ, pos, negsuc}
use qstorage.Xlog.{Added, add, main, HasSum, add_lem}

abbrev same : ℤ → ℤ → Bool
same (pos a) (pos b) = a == b
same (negsuc a) (negsuc b) = a == b
same _ _ = false

-- `EXPECT_EQ` of a call and a number
abbrev expect_eq : Option Added → ℤ → Bool
expect_eq none n = false
expect_eq (some s) n = same s.result n

unfoldable add_two_numbers : Bool
unfolding add
add_two_numbers =
    expect_eq (add true (pos 2) (pos 3)) (pos 5)
    && expect_eq (add true (negsuc 0) (pos 1)) (pos 0)
    && expect_eq (add true (pos 0) (pos 0)) (pos 0)

unfoldable add_negative_numbers : Bool
unfolding add
add_negative_numbers = expect_eq (add true (negsuc 4) (negsuc 2)) (negsuc 7)

add_two_numbers_passes : add_two_numbers ≡ true
unfolding add_two_numbers
add_two_numbers_passes = refl

add_negative_numbers_passes : add_negative_numbers ≡ true
unfolding add_negative_numbers
add_negative_numbers_passes = refl

main_prints : main ≡ some (record { a = pos 1; b = pos 2; sum = pos 3 } ∷ [], 0)
unfolding main
main_prints = refl

overflow : add true (pos 2147483647) (pos 1) ≡ none
unfolding add
overflow = refl

add_lem_example : HasSum (pos 5) (negsuc 7) (add false (pos 5) (negsuc 7))
add_lem_example = add_lem (pos 5) (negsuc 7) false refl refl
