-- ===== src/Infra/LockGuard.antt =====
-- `LockGuard` of src/infra/lock_guard.h: its constructor takes over a mutex that is held.
use qstorage.Prelude.{◌≡◌, refl, true, some}
use qstorage.Infra.Task.{MutexOps}

module _ {X : Type 0} (mutex : MutexOps X) where
  open mutex use {acquire, unlock, held}

  -- The constructor: the guard refers to the mutex as it is.
  abbrev pub lock_guard : X → X
  lock_guard m = m

  -- The destructor
  unfoldable pub end_guard : X → X
  end_guard m = unlock m

  -- A scope with a guard: its body may use the mutex, and what else it changes is in `A`.
  unfoldable pub guarded : {A : Type 0} → (X → A × X) → X → A × X
  unfolding end_guard
  guarded body m = let inside = body (lock_guard m) in (inside.0, end_guard inside.1)

  -- A guarded scope that is entered with the lock held has it while the body starts, and
  -- the lock is free after the scope, whatever the body does, so that the next can get it.
  pub guarded_lem :
      {A : Type 0} (body : X → A × X) (m : X)
      → held m ≡ true
      → (held (lock_guard m) ≡ true)
        × ((guarded body m).0 ≡ (body m).0)
        × (next : X) × (acquire (guarded body m).1 ≡ some next)
        × (held next ≡ true)
  unfolding guarded
  guarded_lem body m h =
      let (next, got, has) = mutex.acquire-free _ (mutex.held-unlock (body m).1) in
      (h, refl, next, got, has)
