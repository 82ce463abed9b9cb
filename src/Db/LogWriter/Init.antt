-- ===== src/Db/LogWriter/Init.antt =====
-- `LogWriter::init` and the destructor (src/db/log_writer.h). The file system is a parameter.
use mathlib.Core.Path.{subst}
use qstorage.Prelude.{
  ℕ, ◌≤◌, ◌≡◌, refl, ◌⊎◌, inl, inr, true, Bool-cases, none, some, ltb, if◌then◌else◌, if_true,
  if_false, arith, sym,
}
use qstorage.Db.Constant.{log_file_size}
use qstorage.Infra.Task.{BatonOps}
use qstorage.Db.LogWriter.{LogWriter}

-- The calls of `init`: each gives its result, or `errno`.
pub record FileOs (W : Type 0) : Type 0 where
  pub file_size : W → (fd : ℕ) → ℕ
  pub open_file : W → (ℕ ⊎ ℕ) × W
  pub fstat : (fd : ℕ) → W → (ℕ ⊎ ℕ) × W
  pub fallocate : (fd size : ℕ) → W → (Unit {0} ⊎ ℕ) × W
  pub close : (fd : ℕ) → W → W
  pub fstat-size :
      (fd : ℕ) (w : W) (n : ℕ) → (fstat fd w).0 ≡ inl n → file_size (fstat fd w).1 fd ≡ n
  pub fallocate-size :
      (fd size : ℕ) (w : W)
      → (fallocate fd size w).0 ≡ inl tt
      → size ≤ file_size (fallocate fd size w).1 fd

-- How `init` ends: with the error of a code, or past its last line, where the source returns
-- nothing
pub data InitEnd : Type 0 where
  failed : ℕ → InitEnd
  no_return : InitEnd

module _ {W B X : Type 0} (files : FileOs W) (batons : BatonOps B) where
  open files use {file_size, open_file, fstat, fallocate, close, fstat-size, fallocate-size}
  open batons use {post, ready, ready-post}

  abbrev notify : LogWriter B X → LogWriter B X
  notify l = record l { notify_leader = post l.notify_leader }

  -- The parts of `init`; each takes the result of the call before.
  unfoldable pub after_allocate : LogWriter B X → (Unit {0} ⊎ ℕ) × W → InitEnd × (LogWriter B X × W)
  after_allocate l (inl ok, w) = (no_return, (notify l, w))
  after_allocate l (inr errno, w) = (failed errno, (l, w))

  unfoldable pub after_stat : (fd : ℕ) → LogWriter B X → (ℕ ⊎ ℕ) × W → InitEnd × (LogWriter B X × W)
  unfolding after_allocate
  after_stat fd l (inl size, w) =
      if ltb size log_file_size
      then after_allocate l (fallocate fd log_file_size w)
      else (no_return, (notify l, w))
  after_stat fd l (inr errno, w) = (failed errno, (l, w))

  unfoldable pub after_open_file : LogWriter B X → (ℕ ⊎ ℕ) × W → InitEnd × (LogWriter B X × W)
  unfolding after_stat
  after_open_file l (inl fd, w) = after_stat fd (record l { fd = some fd }) (fstat fd w)
  after_open_file l (inr errno, w) = (failed errno, (record l { fd = none }, w))

  unfoldable pub init : LogWriter B X → W → InitEnd × (LogWriter B X × W)
  unfolding after_open_file
  init l w = after_open_file l (open_file w)

  -- The destructor closes a descriptor above 0.
  unfoldable pub close_writer : LogWriter B X → W → W
  close_writer l w = elim l.fd [ none ↦ w | some fd ↦ if ltb 0 fd then close fd w else w ]

  -- How `init` leaves a writer whose baton for the leader was `b`
  abbrev pub Opened : B → InitEnd × (LogWriter B X × W) → Type 0
  Opened b (failed errno, (l', w)) = l'.notify_leader ≡ b
  Opened b (no_return, (l', w)) =
      (fd : ℕ) × (l'.fd ≡ some fd)
      × (log_file_size ≤ file_size w fd)
      × (ready l'.notify_leader ≡ true)

  after_allocate-Opened :
      (l : LogWriter B X) (fd : ℕ) (r : (Unit {0} ⊎ ℕ) × W)
      → l.fd ≡ some fd
      → (r.0 ≡ inl tt → log_file_size ≤ file_size r.1 fd)
      → Opened l.notify_leader (after_allocate l r)
  unfolding after_allocate
  after_allocate-Opened l fd (inl ok, w) e h = (fd, e, h refl, ready-post l.notify_leader)
  after_allocate-Opened l fd (inr errno, w) e h = refl

  after_stat-Opened :
      (l : LogWriter B X) (fd : ℕ) (r : (ℕ ⊎ ℕ) × W)
      → l.fd ≡ some fd
      → ((n : ℕ) → r.0 ≡ inl n → file_size r.1 fd ≡ n)
      → Opened l.notify_leader (after_stat fd l r)
  unfolding after_stat
  after_stat-Opened l fd (inl size, w) e h = elim (Bool-cases (ltb size log_file_size)) [
    | inl small ↦ subst (Opened l.notify_leader) (sym (if_true _ _ _ small)) (
        after_allocate-Opened l fd (fallocate fd log_file_size w) e
          (fallocate-size fd log_file_size w))
    | inr large ↦
        subst (Opened l.notify_leader) (sym (if_false _ _ _ large))
          (fd, e, ground (arith, h size refl), ready-post l.notify_leader)
  ]
  after_stat-Opened l fd (inr errno, w) e h = refl

  after_open_file-Opened :
      (l : LogWriter B X) (r : (ℕ ⊎ ℕ) × W) → Opened l.notify_leader (after_open_file l r)
  unfolding after_open_file
  after_open_file-Opened l (inl fd, w) =
      after_stat-Opened (record l { fd = some fd }) fd (fstat fd w) refl (fstat-size fd w)
  after_open_file-Opened l (inr errno, w) = refl

  -- Where `init` meets no error, the descriptor is kept, the file has at least the size of a log
  -- file, and the first leader may go on; after an error the baton of the leader is as it was.
  pub init-Opened : (l : LogWriter B X) (w : W) → Opened l.notify_leader (init l w)
  unfolding init
  init-Opened l w = after_open_file-Opened l (open_file w)
