-- ===== src/Db/SpRingBuffer/Mapping/Construct.antt =====
-- What the constructor of `SPSCRingBuffer` (src/db/sp_ring_buffer.h) leaves behind on each of its
-- branches.
use mathlib.Core.Option
use mathlib.Core.Path.{subst}
use qstorage.Prelude.{
  ℕ, ◌+◌, ◌-◌, ◌*◌, ◌<◌, ◌≡◌, refl, sym, ap, ◌∙◌, Bool, true, false, Bool-cases, inl, inr, Option,
  none, some, List, ◌∷◌, ltb, if◌then◌else◌, if_true, if_false, arith,
}
use qstorage.Db.Constant.{block_size, page_size, buffer_size}
use qstorage.Db.SpRingBuffer.{physical}
use qstorage.Db.SpRingBuffer.Mapping.{
  Place, within, Opens, Os, Failure, Built, after_second, after_first, after_space, after_size,
  after_open, after_exclusive, construct, destroy,
}

module _ {W : Type 0} (os : Os W) where
  open os use {
    fds, mapped, shm_open, shm_unlink, ftruncate, close, mmap_anywhere, mmap_fixed, munmap,
    shm_open-Opens, shm_unlink-fds, ftruncate-fds, close-fds, close-mapped, mmap_anywhere-fds,
    mmap_fixed-fds, mmap_fixed-mapped, munmap-fds, munmap-mapped,
  }

  -- The bytes behind the buffer are those of one memory object, at the offsets of `physical`.
  abbrev pub Mirror : (fd base : ℕ) → W → Type 0
  Mirror fd base w =
      (off : ℕ)
      → (if ltb off (2 * buffer_size) then mapped w (base + off) else none)
        ≡ Option.map (λ i. (fd, i)) (physical off)

  -- After the constructor: the descriptors, and the mapping where it has not thrown
  abbrev pub Settled : List ℕ → Built × W → Type 0
  Settled rest (Built.built base, w) = (fds w ≡ rest) × ((fd : ℕ) × Mirror fd base w)
  Settled rest (Built.thrown Failure.no_object, w) = fds w ≡ rest
  Settled rest (Built.thrown Failure.no_size, w) = fds w ≡ rest
  Settled rest (Built.thrown Failure.no_space, w) = (fd : ℕ) × (fds w ≡ fd ∷ rest)
  Settled rest (Built.thrown Failure.no_first, w) = (fd : ℕ) × (fds w ≡ fd ∷ rest)
  Settled rest (Built.thrown Failure.no_second, w) = (fd : ℕ) × (fds w ≡ fd ∷ rest)

  after_second-Settled :
      (fd base : ℕ) (rest : List ℕ) (r : Bool × W)
      → fds r.1 ≡ fd ∷ rest
      → (r.0 ≡ true → Mirror fd base r.1)
      → Settled rest (after_second os fd base r)
  unfolding after_second
  after_second-Settled fd base rest (false, w) h m = (fd, h)
  after_second-Settled fd base rest (true, w) h m = (
    close-fds fd rest w h,
    (
      fd,
      λ off.
          ap (λ (f : ℕ → Option Place). if ltb off (2 * buffer_size) then f (base + off) else none)
            (close-mapped fd w)
          ∙ m refl off,
    ),
  )

  second_copy :
      (fd base : ℕ) (w : W)
      → ((off : ℕ) → off < buffer_size → mapped w (base + off) ≡ some (fd, off))
      → (mmap_fixed (base + buffer_size) buffer_size fd w).0 ≡ true
      → Mirror fd base (mmap_fixed (base + buffer_size) buffer_size fd w).1
  second_copy fd base w first ok off =
      let e = mmap_fixed-mapped (base + buffer_size) buffer_size fd w (base + off) ok in
      elim (Bool-cases (ltb off buffer_size)) [
        | inl low ↦
            let outside : within (base + buffer_size) buffer_size (base + off) ≡ false =
              ground arith in
            let inside : ltb off (2 * buffer_size) ≡ true = ground arith in
            if_true _ _ _ inside
            ∙ (e
                ∙ (if_false _ _ _ outside
                    ∙ (first off (ground arith)
                        ∙ ap (Option.map (λ i. (fd, i))) (sym (if_true _ _ _ low)))))
        | inr high ↦ elim (Bool-cases (ltb off (2 * buffer_size))) [
          | inl inside ↦
              let second : within (base + buffer_size) buffer_size (base + off) ≡ true =
                ground arith in
              let back : base + off - (base + buffer_size) ≡ off - buffer_size = omega arith in
              let place : physical off ≡ some (off - buffer_size) =
                if_false _ _ _ high ∙ if_true _ _ _ inside in
              if_true _ _ _ inside
              ∙ (e
                  ∙ (if_true _ _ _ second
                      ∙ (ap (λ k. some (fd, k)) back ∙ ap (Option.map (λ i. (fd, i))) (sym place))))
          | inr past ↦
              let nowhere : physical off ≡ none = if_false _ _ _ high ∙ if_false _ _ _ past in
              if_false _ _ _ past ∙ ap (Option.map (λ i. (fd, i))) (sym nowhere)
        ]
      ]

  after_first-Settled :
      (fd base : ℕ) (rest : List ℕ) (r : Bool × W)
      → fds r.1 ≡ fd ∷ rest
      → (r.0 ≡ true → (off : ℕ) → off < buffer_size → mapped r.1 (base + off) ≡ some (fd, off))
      → Settled rest (after_first os fd base r)
  unfolding after_first
  after_first-Settled fd base rest (false, w) h m = (fd, h)
  after_first-Settled fd base rest (true, w) h m =
      after_second-Settled fd base rest (mmap_fixed (base + buffer_size) buffer_size fd w)
        (mmap_fixed-fds (base + buffer_size) buffer_size fd w ∙ h) (second_copy fd base w (m refl))

  first_copy :
      (fd base : ℕ) (w : W)
      → (mmap_fixed base buffer_size fd w).0 ≡ true
      → (off : ℕ) → off < buffer_size
      → mapped (mmap_fixed base buffer_size fd w).1 (base + off) ≡ some (fd, off)
  first_copy fd base w ok off small =
      let inside : within base buffer_size (base + off) ≡ true = ground arith in
      let same : base + off - base ≡ off = omega arith in
      mmap_fixed-mapped base buffer_size fd w (base + off) ok
      ∙ (if_true _ _ _ inside ∙ ap (λ k. some (fd, k)) same)

  after_space-Settled :
      (fd : ℕ) (rest : List ℕ) (r : Option ℕ × W)
      → fds r.1 ≡ fd ∷ rest
      → Settled rest (after_space os fd r)
  unfolding after_space
  after_space-Settled fd rest (none, w) h = (fd, h)
  after_space-Settled fd rest (some raw_space, w) h =
      let base = raw_space + (block_size - page_size) in
      let w' = munmap raw_space (block_size - page_size) w in
      after_first-Settled fd base rest (mmap_fixed base buffer_size fd w')
        (mmap_fixed-fds base buffer_size fd w'
          ∙ (munmap-fds raw_space (block_size - page_size) w ∙ h))
        (first_copy fd base w')

  after_size-Settled :
      (fd : ℕ) (rest : List ℕ) (r : Bool × W)
      → fds r.1 ≡ fd ∷ rest
      → Settled rest (after_size os fd r)
  unfolding after_size
  after_size-Settled fd rest (false, w) h = close-fds fd rest w h
  after_size-Settled fd rest (true, w) h =
      let cap = buffer_size * 2 + block_size - page_size in
      after_space-Settled fd rest (mmap_anywhere cap w) (mmap_anywhere-fds cap w ∙ h)

  after_open-Settled :
      (rest : List ℕ) (r : Option ℕ × W) → Opens r.0 rest (fds r.1) → Settled rest (after_open os r)
  unfolding after_open
  after_open-Settled rest (none, w) h = h
  after_open-Settled rest (some fd, w) h =
      after_size-Settled fd rest (ftruncate fd buffer_size (shm_unlink w))
        (ftruncate-fds fd buffer_size (shm_unlink w) ∙ (shm_unlink-fds w ∙ h))

  after_exclusive-Settled :
      (rest : List ℕ) (r : Option ℕ × W)
      → Opens r.0 rest (fds r.1)
      → Settled rest (after_exclusive os r)
  unfolding after_exclusive
  after_exclusive-Settled rest (none, w) h =
      subst (λ l. Settled l (after_open os (shm_open false w))) h
        (after_open-Settled (fds w) (shm_open false w) (shm_open-Opens false w))
  after_exclusive-Settled rest (some fd, w) h = after_open-Settled rest (some fd, w) h

  -- The constructor either maps one memory object twice, as `physical` says, and closes its
  -- descriptor; or it throws, and then it leaves the open descriptors as they were if the object
  -- could not be opened or sized, and one more if a mapping failed.
  pub construct-Settled : (w : W) → Settled (fds w) (construct os w)
  unfolding construct
  construct-Settled w = after_exclusive-Settled (fds w) (shm_open true w) (shm_open-Opens true w)

  -- After the destructor no byte of the two copies is mapped.
  pub destroy-mapped :
      (base : ℕ) (w : W) (off : ℕ)
      → off < 2 * buffer_size
      → mapped (destroy os (some base) w) (base + off) ≡ none
  unfolding destroy
  destroy-mapped base w off h =
      let inside : within base (buffer_size * 2) (base + off) ≡ true = ground arith in
      munmap-mapped base (buffer_size * 2) w (base + off) ∙ if_true _ _ _ inside
