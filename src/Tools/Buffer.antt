-- ===== src/Tools/Buffer.antt =====
-- `getFreeBlock` of src/tools/buffer.cc, over the list of src/tools/list.h.
mod Tests
use qstorage.Prelude.{
  ℕ, ◌+◌, ◌≡◌, ◌<◌, suc, refl, Bool, true, false, Option, none, some, List, [], ◌∷◌, arith, length,
  ltb, if◌then◌else◌, if_true, if_false, ap, ◌∙◌,
}
use qstorage.Prelude.Words.{u64_mod}
use qstorage.Infra.Task.{MutexOps}
use qstorage.Tools.LinkedList.{State, remove}
use qstorage.Tools.LinkedList.Links.{IsList}
use qstorage.Tools.LinkedList.Removal.{remove-IsList}

-- How a call ends: it waits for the mutex, it gives a block, an assertion fails, or it comes to the
-- end of the function, where the source returns nothing.
pub data Got : Type 0 where
  waits : Got
  block : ℕ → Got
  aborted : Got
  no_return : Got

module _ {X : Type 0} (mutex : MutexOps X) where
  open mutex use {acquire, unlock, held}

  -- The `mutex_` and the `free_` of a `Buffer`
  pub record Buffer : Type 0 where
    pub lock : X
    pub free : State

  abbrev pub after_remove : (elem : ℕ) → X → State → Option State → Got × Buffer
  after_remove elem x s none = (aborted, record { lock = x; free = s })
  after_remove elem x s (some s') = (block elem, record { lock = unlock x; free = s' })

  abbrev pub after_lock : State → Option X → Buffer → Got × Buffer
  after_lock s none b = (waits, b)
  after_lock s (some x) b =
      let removed = after_remove s.list.start x s (remove s s.list.start) in
      if ltb 0 s.list.count then removed else (no_return, record { lock = x; free = s })

  unfoldable pub get_free_block : Buffer → Got × Buffer
  get_free_block b = after_lock b.free (acquire b.lock) b

  -- With the mutex and a free block there, a call gives the first free block and takes it out of
  -- the list, which stays well-formed, and releases the mutex.
  pub get_free_block-first :
      (b : Buffer) (x : X) (elem : ℕ) (back : List ℕ)
      → acquire b.lock ≡ some x
      → IsList b.free (elem ∷ back)
      → suc (length back) < u64_mod
      → (b' : Buffer) × (get_free_block b ≡ (block elem, b'))
        × IsList b'.free back
        × (held b'.lock ≡ false)
  unfolding get_free_block
  get_free_block-first b x elem back got is small =
      let (s', e, is', _) = remove-IsList b.free [] elem back is (omega (arith, small)) in
      let some_block : ltb 0 b.free.list.count ≡ true = ground (arith, is.count) in
      let removed : after_remove b.free.list.start x b.free (remove b.free b.free.list.start)
          ≡ (block elem, record { lock = unlock x; free = s' }) =
        ap (λ a. after_remove a x b.free (remove b.free a)) is.start
        ∙ ap (after_remove elem x b.free) e in
      (
        record { lock = unlock x; free = s' },
        ap (λ o. after_lock b.free o b) got ∙ (if_true _ _ _ some_block ∙ removed),
        is',
        mutex.held-unlock x,
      )

  -- With the mutex there but no free block, a call ends without a block and keeps the mutex, so
  -- that every later call waits.
  pub get_free_block-empty :
      (b : Buffer) (x : X)
      → acquire b.lock ≡ some x
      → held x ≡ true
      → IsList b.free []
      → (b' : Buffer) × (get_free_block b ≡ (no_return, b')) × (get_free_block b' ≡ (waits, b'))
  unfolding get_free_block
  get_free_block-empty b x got has is =
      let b' : Buffer = record { lock = x; free = b.free } in
      let no_block : ltb 0 b.free.list.count ≡ false = ground (arith, is.count) in
      (
        b',
        ap (λ o. after_lock b.free o b) got ∙ if_false _ _ _ no_block,
        ap (λ o. after_lock b.free o b') (mutex.acquire-held x has),
      )
