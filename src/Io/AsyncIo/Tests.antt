-- ===== src/Io/AsyncIo/Tests.antt =====
-- `AsyncIO` of src/io/async_io.h where one stream can be open, the number 1.
use qstorage.Prelude.{ℕ, ◌≡◌, refl, sym, ap, ◌∙◌, Bool, true, false, [], ◌==◌, if◌then◌else◌}
use qstorage.Io.AsyncIo.{Opened, Stdio}

abbrev Streams : Type 0
Streams = ℕ → Bool

abbrev set : ℕ → Bool → Streams → Streams
set f b w g = if f == g then b else w g

abbrev open_by : Bool → Streams → Opened × Streams
open_by true w = (Opened.failed 24, w)
open_by false w = (Opened.stream 1, set 1 true w)

abbrev number_of : Opened → ℕ
number_of (Opened.stream f) = f
number_of (Opened.failed e) = 0

open_by-failed : (b : Bool) (w w' : Streams) (e : ℕ) → open_by b w ≡ (Opened.failed e, w') → w' ≡ w
open_by-failed true w w' e h = cc
open_by-failed false w w' e h = absurd cc

open_by-new :
    (b : Bool) (w w' : Streams) (f : ℕ)
    → w 1 ≡ b
    → open_by b w ≡ (Opened.stream f, w')
    → (w f ≡ false) × ((g : ℕ) → w' g ≡ (if f == g then true else w g))
open_by-new true w w' f e h = absurd cc
open_by-new false w w' f e h =
    let number : 1 ≡ f = ap (λ r. number_of r.0) h in
    (
      ap w (sym number) ∙ e,
      λ g.
          ap (λ (r : Opened × Streams). r.1 g) (sym h)
          ∙ ap (λ k. if k == g then true else w g) number,
    )

abbrev stdio : Stdio Streams
stdio = record {
  fopen = λ name mode w. open_by (w 1) w;
  fclose = λ f w. set f false w;
  strerror = λ e. [];
  is_open = λ w f. w f;
  fopen-failed = λ name mode w w' e h. open_by-failed (w 1) w w' e h;
  fopen-new = λ name mode w w' f h. open_by-new (w 1) w w' f refl h;
  fclose-open = λ f g w. refl;
}
