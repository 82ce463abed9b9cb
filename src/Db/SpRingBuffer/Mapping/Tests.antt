-- ===== src/Db/SpRingBuffer/Mapping/Tests.antt =====
-- The system calls of `SPSCRingBuffer` (src/db/sp_ring_buffer.h) by concrete functions: the object
-- exists already, and every mapping is granted.
use qstorage.Prelude.{
  ℕ, ◌-◌, ◌≡◌, refl, ap, Bool, true, false, Option, none, some, List, [], ◌∷◌, if◌then◌else◌,
}
use qstorage.Db.SpRingBuffer.Mapping.{Place, within, Opens, Os, built, construct}
use qstorage.Db.SpRingBuffer.Mapping.Construct.{Settled, construct-Settled}

record Process : Type 0 where
  open_fds : List ℕ
  space : ℕ → Option Place

abbrev rest_of : List ℕ → List ℕ
rest_of [] = []
rest_of (x ∷ xs) = xs

abbrev open_object : Bool → Process → Option ℕ × Process
open_object true w = (none, w)
open_object false w = (some 7, record w { open_fds = 7 ∷ w.open_fds })

open_object-Opens :
    (exclusive : Bool) (w : Process)
    → Opens (open_object exclusive w).0 w.open_fds (open_object exclusive w).1.open_fds
open_object-Opens true w = refl
open_object-Opens false w = refl

abbrev map_fixed : (addr size fd : ℕ) → Process → Bool × Process
map_fixed addr size fd w =
    (true, record w { space = λ a. if within addr size a then some (fd, a - addr) else w.space a })

abbrev unmap : (addr size : ℕ) → Process → Process
unmap addr size w = record w { space = λ a. if within addr size a then none else w.space a }

abbrev process_os : Os Process
process_os = record {
  fds = λ w. w.open_fds;
  mapped = λ w. w.space;
  shm_open = open_object;
  shm_unlink = λ w. w;
  ftruncate = λ fd size w. (true, w);
  close = λ fd w. record w { open_fds = rest_of w.open_fds };
  mmap_anywhere = λ size w. (some 65536, w);
  mmap_fixed = map_fixed;
  munmap = unmap;
  shm_open-Opens = open_object-Opens;
  shm_unlink-fds = λ w. refl;
  ftruncate-fds = λ fd size w. refl;
  close-fds = λ fd rest w h. ap rest_of h;
  close-mapped = λ fd w. refl;
  mmap_anywhere-fds = λ size w. refl;
  mmap_fixed-fds = λ addr size fd w. refl;
  mmap_fixed-mapped = λ addr size fd w a h. refl;
  munmap-fds = λ addr size w. refl;
  munmap-mapped = λ addr size w a. refl;
}

abbrev started : Process
started = record { open_fds = 0 ∷ 1 ∷ []; space = λ a. none }

construct-Settled_example : Settled process_os (0 ∷ 1 ∷ []) (construct process_os started)
construct-Settled_example = construct-Settled process_os started

-- Here the buffer begins one page behind the space.
base_here : (construct process_os started).0 ≡ built 69632
unfolding construct
base_here = refl
