-- ===== src/Base/Order.antt =====
-- The order of texts byte by byte, which is that of SQLite's `BINARY` collation.
use mathlib.Core.Path.{◌≡◌, refl}
use mathlib.Core.Bool.{Bool, true, false, ◌&&◌, ◌||◌}
use native.Mathlib.Omega.{arith}
use mathlib.Core.List.{[], ◌∷◌}
use swa_drive.Base.Checks.{ltb, ◌==◌}
use swa_drive.Base.Text.{Text, text_eq}

unfoldable pub text_le : Text → Text → Bool
text_le [] t = true
text_le (x ∷ s) [] = false
text_le (x ∷ s) (y ∷ t) = ltb x y || x == y && text_le s t

unfoldable pub text_lt : Text → Text → Bool
text_lt [] [] = false
text_lt [] (y ∷ t) = true
text_lt (x ∷ s) [] = false
text_lt (x ∷ s) (y ∷ t) = ltb x y || x == y && text_lt s t

pub text_lt_irrefl : (s : Text) → text_lt s s ≡ false
unfolding text_lt
text_lt_irrefl [] = refl
text_lt_irrefl (x ∷ s) = ground (arith, text_lt_irrefl s)

no_less : (s : Text) → text_lt s [] ≡ true → ⊥
unfolding text_lt
no_less [] h = ground arith
no_less (x ∷ s) h = ground arith

pub text_lt_trans : (s t u : Text) → text_lt s t ≡ true → text_lt t u ≡ true → text_lt s u ≡ true
unfolding text_lt
text_lt_trans s [] u h k = absurd (no_less s h)
text_lt_trans [] (y ∷ t) [] h k = absurd (ground arith)
text_lt_trans [] (y ∷ t) (z ∷ u) h k = refl
text_lt_trans (x ∷ s) (y ∷ t) [] h k = absurd (ground arith)
text_lt_trans (x ∷ s) (y ∷ t) (z ∷ u) h k = ground (arith, text_lt_trans s t u)

pub text_lt_total : (s t : Text) → text_eq s t ≡ false → text_lt s t ≡ false → text_lt t s ≡ true
unfolding text_lt text_eq
text_lt_total [] [] h k = absurd (ground arith)
text_lt_total [] (y ∷ t) h k = absurd (ground arith)
text_lt_total (x ∷ s) [] h k = refl
text_lt_total (x ∷ s) (y ∷ t) h k = ground (arith, text_lt_total s t)
