-- ===== src/Tools/Allocator.antt =====
-- `SimpleAllocator` of src/tools/allocator.h. The allocator of the C library is a parameter.
use qstorage.Prelude.{
  ℕ, ◌≡◌, ◌≢◌, refl, sym, ap, ◌∙◌, ◌<◌, true, false, Bool-cases, inl, inr, Option, none, some, ◌==◌,
  if◌then◌else◌, if_true, if_false, arith,
}

abbrev pub null : ℕ
null = 0

-- `malloc` and `free`: `size` gives the size of the block that begins at an address, if one is in
-- use.
pub record Libc (M : Type 0) : Type 0 where
  pub malloc : ℕ → M → Option ℕ × M
  pub free : ℕ → M → M
  pub size : M → ℕ → Option ℕ
  pub size-null : (m : M) → size m null ≡ none
  pub malloc-none : (n : ℕ) (m m' : M) → malloc n m ≡ (none, m') → size m' ≡ size m
  pub malloc-new : (n p : ℕ) (m m' : M) → malloc n m ≡ (some p, m') → (p ≢ null) × (size m p ≡ none)
  pub malloc-some :
      (n p q : ℕ) (m m' : M)
      → malloc n m ≡ (some p, m')
      → size m' q ≡ (if p == q then some n else size m q)
  pub free-null : (m : M) → free null m ≡ m
  pub size-free :
      (p q : ℕ) (m : M) → p ≢ null → size (free p m) q ≡ (if p == q then none else size m q)

-- What `allocate` gives: a pointer, or the exception
pub data Allocated : Type 0 where
  pointer : ℕ → Allocated
  bad_alloc : Allocated

eq_self : (n : ℕ) → (n == n) ≡ true
eq_self n = ground arith

-- What `allocate` of at least one byte gives: a new block of that size, or no change of the blocks
abbrev pub Gives : {M : Type 0} → (M → ℕ → Option ℕ) → ℕ → M → Allocated × M → Type 0
Gives size n m (pointer p, m') = (size m p ≡ none) × (size m' p ≡ some n)
Gives size n m (bad_alloc, m') = size m' ≡ size m

-- The concept `IsAllocator`, with the law that its clients use; `in_use` is the size of the block
-- that begins at an address.
pub record IsAllocator (M : Type 0) : Type 0 where
  pub allocate_block : ℕ → M → Allocated × M
  pub deallocate_block : ℕ → M → M
  pub in_use : M → ℕ → Option ℕ
  pub allocate_block-Gives : (n : ℕ) (m : M) → 0 < n → Gives in_use n m (allocate_block n m)

module _ {M : Type 0} (libc : Libc M) where
  open libc use {malloc, free, size}

  abbrev pub after_malloc : Option ℕ × M → Allocated × M
  after_malloc (none, m) = (bad_alloc, m)
  after_malloc (some p, m) = (pointer p, m)

  unfoldable pub allocate : ℕ → M → Allocated × M
  allocate n m = let got = malloc n m in if n == 0 then (pointer null, m) else after_malloc got

  unfoldable pub deallocate : ℕ → M → M
  deallocate p m = free p m

  -- Giving a block back
  abbrev pub undo : Allocated × M → M
  undo (pointer p, m) = deallocate p m
  undo (bad_alloc, m) = m

  undo-after_malloc :
      (n : ℕ) (m : M) (r : Option ℕ × M)
      → malloc n m ≡ r
      → (q : ℕ) → size (undo (after_malloc r)) q ≡ size m q
  unfolding deallocate
  undo-after_malloc n m (none, m') e q = ap (λ s. s q) (libc.malloc-none n m m' e)
  undo-after_malloc n m (some p, m') e q =
      let (non_null, new) = libc.malloc-new n p m m' e in
      elim (Bool-cases (p == q)) [
        | inl same ↦
            let eq : p ≡ q = ground (arith, same) in
            libc.size-free p q m' non_null ∙ (if_true _ _ _ same ∙ (sym new ∙ ap (size m) eq))
        | inr other ↦
            libc.size-free p q m' non_null
            ∙ (if_false _ _ _ other ∙ (libc.malloc-some n p q m m' e ∙ if_false _ _ _ other))
      ]

  -- Giving back what `allocate` gives leaves every block as before, an allocation of no bytes and
  -- one that throws included.
  pub undo-allocate : (n q : ℕ) (m : M) → size (undo (allocate n m)) q ≡ size m q
  unfolding allocate deallocate
  undo-allocate n q m = elim (Bool-cases (n == 0)) [
    | inl e ↦ rw (e) (ap (λ s. size s q) (libc.free-null m))
    | inr e ↦ rw (e) (undo-after_malloc n m (malloc n m) refl q)
  ]

  after_malloc-Gives :
      (n : ℕ) (m : M) (r : Option ℕ × M) → malloc n m ≡ r → Gives size n m (after_malloc r)
  after_malloc-Gives n m (none, m') e = libc.malloc-none n m m' e
  after_malloc-Gives n m (some p, m') e =
      ((libc.malloc-new n p m m' e).1, libc.malloc-some n p p m m' e ∙ if_true _ _ _ (eq_self p))

  pub allocate-Gives : (n : ℕ) (m : M) → 0 < n → Gives size n m (allocate n m)
  unfolding allocate
  allocate-Gives n m positive =
      let e : (n == 0) ≡ false = ground arith in rw (e) (after_malloc-Gives n m (malloc n m) refl)

  -- `SimpleAllocator`
  abbrev pub simple_allocator : IsAllocator M
  simple_allocator = record {
    allocate_block = allocate;
    deallocate_block = deallocate;
    in_use = size;
    allocate_block-Gives = allocate-Gives;
  }
