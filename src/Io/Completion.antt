-- ===== src/Io/Completion.antt =====
-- `IoCompletion::CompleteWith` (src/io/reactor.h) and `ThrowKernelError` (src/io/posix.h).
use qstorage.Prelude.{
  ℕ, suc, ◌+◌, ◌≡◌, ◌≢◌, refl, ◌⊎◌, List, ◌∷◌, [], ◌++◌, Option, none, some, ◌||◌, ◌==◌,
  if◌then◌else◌, arith, ◌↔◌,
}
use qstorage.Prelude.Words.{ℤ, pos, negsuc}

-- <errno.h> on Linux
abbrev pub ebadf : ℕ
ebadf = 9

abbrev pub enotsock : ℕ
enotsock = 88

abbrev pub eio : ℕ
eio = 5

-- The error number of the `std::system_error` that is thrown; `none` if the call returns.
unfoldable pub throw_kernel_error : ℤ → Option ℕ
throw_kernel_error (pos n) = none
throw_kernel_error (negsuc n) =
    if ((n + 1) == ebadf) || ((n + 1) == enotsock) then some (n + 1) else none

-- `KernelCompletion` of src/io/io_desc.h: what the kernel tells, for an object whose state is in
-- `C`
pub record KernelCompletion (C : Type 0) : Type 0 where
  pub complete_with : ℤ → C → C

-- The virtual calls that a completion makes on its subclass
pub data Notice : Type 0 where
  complete : ℕ → Notice
  set_exception : ℕ → Notice

-- `CompleteWith`: the call that reaches the subclass, or `none`
unfoldable pub complete_with : ℤ → Option Notice
unfolding throw_kernel_error
complete_with (pos n) = some (complete n)
complete_with (negsuc n) = elim (throw_kernel_error (negsuc n)) [
  | none ↦ none
  | some ec ↦ some (set_exception ec)
]

abbrev told : Option Notice → List Notice → List Notice
told none ns = ns
told (some n) ns = ns ++ n ∷ []

-- `IoCompletion` as such an object, whose state is what its subclass has been told
unfoldable pub io_completion : KernelCompletion (List Notice)
unfolding complete_with
io_completion = record { complete_with = λ res ns. told (complete_with res) ns }

-- A result is delivered exactly when it is no error; an error is delivered, with its number,
-- exactly when it is EBADF or ENOTSOCK; for every other error the subclass is told nothing.
pub complete_with_lem :
    (n : ℕ)
    → (complete_with (pos n) ≡ some (complete n))
      × ((complete_with (negsuc n) ≡ some (set_exception (suc n)))
          ↔ ((suc n ≡ ebadf) ⊎ (suc n ≡ enotsock)))
      × ((complete_with (negsuc n) ≡ none) ↔ ((suc n ≢ ebadf) × (suc n ≢ enotsock)))
unfolding complete_with
complete_with_lem n =
    (refl, (λ h. ground arith, λ h. ground arith), (λ h. ground arith, λ h. ground arith))
