-- ===== src/Io/AsyncIo.antt =====
-- `AsyncIO` of src/io/async_io.h and `IoUring` of src/io/io_uring.h: a file that is open while the
-- object lives. The file system is a parameter.
mod Tests
use qstorage.Prelude.{
  ℕ, ◌%◌, ◌^◌, ◌≡◌, refl, ap, ◌∙◌, Bool, true, false, Option, none, some, List, ◌++◌, ◌==◌,
  if◌then◌else◌, if_true, if_false, Bool-cases, inl, inr, sym, arith,
}
use qstorage.Prelude.Words.{codes}

-- `fopen` gives a stream, or the error number; `is_open` says which streams are open.
pub data Opened : Type 0 where
  stream : ℕ → Opened
  failed : (errno : ℕ) → Opened

pub record Stdio (W : Type 0) : Type 0 where
  pub fopen : (name mode : List ℕ) → W → Opened × W
  pub fclose : ℕ → W → W
  pub strerror : ℕ → List ℕ
  pub is_open : W → ℕ → Bool
  pub fopen-failed :
      (name mode : List ℕ) (w w' : W) (e : ℕ)
      → fopen name mode w ≡ (failed e, w')
      → is_open w' ≡ is_open w
  pub fopen-new :
      (name mode : List ℕ) (w w' : W) (f : ℕ)
      → fopen name mode w ≡ (stream f, w')
      → (is_open w f ≡ false) × ((g : ℕ) → is_open w' g ≡ (if f == g then true else is_open w g))
  pub fclose-open :
      (f g : ℕ) (w : W) → is_open (fclose f w) g ≡ (if f == g then false else is_open w g)

pub record AsyncIo : Type 0 where
  pub file_name : List ℕ
  pub depth : ℕ
  pub file_ptr : ℕ

-- The object, or the text of the exception
pub data Made : Type 0 where
  object : AsyncIo → Made
  runtime_error : List ℕ → Made

eq_self : (n : ℕ) → (n == n) ≡ true
eq_self n = ground arith

module _ {W : Type 0} (stdio : Stdio W) where
  open stdio use {fopen, fclose, strerror, is_open}

  abbrev pub after_fopen : (file_name : List ℕ) (queue_depth : ℕ) → Opened × W → Made × W
  after_fopen file_name queue_depth (stream f, w) =
      (object (record { file_name = file_name; depth = queue_depth % 2 ^ 16; file_ptr = f }), w)
  after_fopen file_name queue_depth (failed e, w) =
      (runtime_error (codes "fopen failed. reason: " ++ strerror e), w)

  -- The constructor
  unfoldable pub async_io : (file_name : List ℕ) (queue_depth : ℕ) → W → Made × W
  async_io file_name queue_depth w =
      after_fopen file_name queue_depth (fopen file_name (codes "r+w+b") w)

  -- The destructor calls `FileCloser`.
  unfoldable pub end_async_io : AsyncIo → W → W
  end_async_io o w = fclose o.file_ptr w

  -- The constructor of `IoUring`
  unfoldable pub io_uring : (file_name : List ℕ) (queue_depth : ℕ) → W → Made × W
  unfolding async_io
  io_uring file_name queue_depth w = async_io file_name queue_depth w

  -- A construction and then the destruction of what it made, if it made something
  abbrev pub lifetime : Made × W → W
  lifetime (object o, w) = end_async_io o w
  lifetime (runtime_error t, w) = w

  -- How a construction ends: with a new open stream, and a depth modulo `2 ^ 16`, or with an
  -- exception and no new stream
  abbrev pub IsMade : W → (file_name : List ℕ) (queue_depth : ℕ) → Made × W → Type 0
  IsMade w file_name queue_depth (object o, w') =
      (o.file_name ≡ file_name)
      × (o.depth ≡ queue_depth % 2 ^ 16)
      × (is_open w o.file_ptr ≡ false)
      × (is_open w' o.file_ptr ≡ true)
  IsMade w file_name queue_depth (runtime_error t, w') = is_open w' ≡ is_open w

  after_fopen-IsMade :
      (file_name : List ℕ) (queue_depth : ℕ) (w : W) (r : Opened × W)
      → fopen file_name (codes "r+w+b") w ≡ r
      → IsMade w file_name queue_depth (after_fopen file_name queue_depth r)
        × ((g : ℕ) → is_open (lifetime (after_fopen file_name queue_depth r)) g ≡ is_open w g)
  unfolding end_async_io
  after_fopen-IsMade file_name queue_depth w (failed e, w') opened =
      let same = stdio.fopen-failed file_name _ w w' e opened in (same, λ g. ap (λ o. o g) same)
  after_fopen-IsMade file_name queue_depth w (stream f, w') opened =
      let (closed, now) = stdio.fopen-new file_name _ w w' f opened in
      (
        (refl, refl, closed, now f ∙ if_true _ _ _ (eq_self f)),
        λ g. stdio.fclose-open f g w' ∙ elim (Bool-cases (f == g)) [
          | inl e ↦
              let eq : f ≡ g = ground (arith, e) in
              if_true _ _ _ e ∙ (sym closed ∙ ap (is_open w) eq)
          | inr e ↦ if_false _ _ _ e ∙ (now g ∙ if_false _ _ _ e)
        ],
      )

  -- A construction gives an object with a stream that was not open and now is, and the depth modulo
  -- `2 ^ 16`, or an exception; and after the destruction exactly the streams are open that were
  -- before.
  pub async_io_lem :
      (file_name : List ℕ) (queue_depth : ℕ) (w : W)
      → IsMade w file_name queue_depth (async_io file_name queue_depth w)
        × ((g : ℕ) → is_open (lifetime (async_io file_name queue_depth w)) g ≡ is_open w g)
  unfolding async_io
  async_io_lem file_name queue_depth w = after_fopen-IsMade file_name queue_depth w _ refl
