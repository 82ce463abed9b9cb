-- ===== src/Infra/IoUring/Posts.antt =====
-- How often `CoIoUring::runLoop` (src/infra/io_uring.h) posts to the baton of a request
use mathlib.Core.Option
use qstorage.Prelude.{ℕ, ◌+◌, List, [], ◌∷◌, ◌==◌, if◌then◌else◌}

-- How many times a request is in a list
abbrev pub times : ℕ → List ℕ → ℕ
times a [] = 0
times a (x ∷ xs) = (if x == a then 1 else 0) + times a xs
