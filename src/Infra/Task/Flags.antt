-- ===== src/Infra/Task/Flags.antt =====
-- A baton as its state and its number of posts, and a mutex as whether it is held: the interfaces
-- of src/infra/task.h can be filled.
use qstorage.Prelude.{ℕ, suc, ◌≡◌, refl, Bool, true, false, Option, none, some}
use qstorage.Infra.Task.{BatonOps, MutexOps}

pub record Flag : Type 0 where
  pub up : Bool
  pub times : ℕ

abbrev pub batons : BatonOps Flag
batons = record {
  new_baton = record { up = false; times = 0 };
  post = λ b. record { up = true; times = suc b.times };
  reset = λ b. record b { up = false };
  ready = λ b. b.up;
  posts = λ b. b.times;
  ready-new = refl;
  posts-new = refl;
  ready-post = λ b. refl;
  ready-reset = λ b. refl;
  posts-post = λ b. refl;
  posts-reset = λ b. refl;
}

abbrev pub take_lock : Bool → Option Bool
take_lock true = none
take_lock false = some true

pub take_lock-held : (x : Bool) → x ≡ true → take_lock x ≡ none
take_lock-held true e = refl
take_lock-held false e = absurd cc

pub take_lock-free : (x : Bool) → x ≡ false → (x' : Bool) × (take_lock x ≡ some x') × (x' ≡ true)
take_lock-free true e = absurd cc
take_lock-free false e = (true, refl, refl)

abbrev pub mutex : MutexOps Bool
mutex = record {
  new_mutex = false;
  acquire = take_lock;
  unlock = λ x. false;
  held = λ x. x;
  held-new = refl;
  acquire-held = take_lock-held;
  acquire-free = take_lock-free;
  held-unlock = λ x. refl;
}
