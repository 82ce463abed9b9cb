-- ===== src/Infra/Task.antt =====
-- `Baton` and `Mutex` of src/infra/task.h. They are names for types of folly, so that both are
-- interfaces with the laws that folly documents.
pub mod Flags
use qstorage.Prelude.{ℕ, suc, ◌≡◌, Bool, true, false, Option, none, some}

-- `folly::coro::Baton`. A `co_await` goes on when the baton is ready, or when it has been posted
-- since the wait began: `post` resumes whoever waits, even if a `reset` follows at once.
pub record BatonOps (B : Type 0) : Type 0 where
  pub new_baton : B
  pub post : B → B
  pub reset : B → B
  pub ready : B → Bool
  pub posts : B → ℕ
  pub ready-new : ready new_baton ≡ false
  pub posts-new : posts new_baton ≡ 0
  pub ready-post : (b : B) → ready (post b) ≡ true
  pub ready-reset : (b : B) → ready (reset b) ≡ false
  pub posts-post : (b : B) → posts (post b) ≡ suc (posts b)
  pub posts-reset : (b : B) → posts (reset b) ≡ posts b

-- `folly::coro::Mutex`; `acquire` is the moment at which `co_lock` gets the lock.
pub record MutexOps (X : Type 0) : Type 0 where
  pub new_mutex : X
  pub acquire : X → Option X
  pub unlock : X → X
  pub held : X → Bool
  pub held-new : held new_mutex ≡ false
  pub acquire-held : (x : X) → held x ≡ true → acquire x ≡ none
  pub acquire-free : (x : X) → held x ≡ false → (x' : X) × (acquire x ≡ some x') × (held x' ≡ true)
  pub held-unlock : (x : X) → held (unlock x) ≡ false
