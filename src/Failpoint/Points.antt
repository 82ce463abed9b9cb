-- ===== src/Failpoint/Points.antt =====
-- The registry keeps its points apart.
use text.Mathlib.Text.{◌==◌ as str_eq}
use text.Mathlib.TextEquality.{eq_iff}
use text.Mathlib.TextPositions.{eq_refl}
use Prim.Native.String.{String}
use qstorage.Prelude.{◌≡◌, false, List, [], ◌∷◌, if◌then◌else◌, arith}
use qstorage.Failpoint.{Point, RandomSource, find, put}

module _ (src : RandomSource) where
  open src use {Number, Gen, one, less, draw}

  pub find-put :
      (name key : String) (p : Point Number) (ps : List (String × Point Number))
      → find src name (put src key p ps) ≡ (if str_eq key name then p else find src name ps)
  unfolding find put
  find-put name key p [] = ground (arith, eq_iff name key, eq_iff key name)
  find-put name key p ((k, q) ∷ ps) =
      ground (
        arith,
        eq_iff name key,
        eq_iff key name,
        eq_iff key k,
        eq_iff name k,
        find-put name key p ps,
      )

  pub find-put_self :
      (name : String) (p : Point Number) (ps : List (String × Point Number))
      → find src name (put src name p ps) ≡ p
  find-put_self name p ps = simp (find-put, eq_refl)

  pub find-put_ne :
      (name key : String) (p : Point Number) (ps : List (String × Point Number))
      → str_eq key name ≡ false
      → find src name (put src key p ps) ≡ find src name ps
  find-put_ne name key p ps h = rw (find-put name key p ps, h)
