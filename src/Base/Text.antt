-- ===== src/Base/Text.antt =====
-- Go strings and byte slices as lists of bytes, with the functions of `strings` that the server
-- calls.
use Prim.Native.Char.{code}
use Prim.Native.String.{String}
use swa_drive.Base.Checks.{◌==◌, if◌then◌else◌, Bool-cases}
use Prim.Native.Nat.{ℕ}
use mathlib.Core.Path.{◌≡◌, refl}
use mathlib.Core.Logic.{◌↔◌, inl, inr}
use mathlib.Core.Bool.{Bool, true, false, ◌&&◌}
use mathlib.Core.List.{List, [], ◌∷◌, ◌++◌}
use native.Mathlib.Omega.{arith}

abbrev pub Text : Type 0
Text = List ℕ

-- A literal of the source, which is ASCII throughout.
abbrev pub codes : String → Text
codes String.[] = []
codes (String.◌∷◌ c s) = code c ∷ codes s

-- `==` of strings, `bytes.Equal`, and `subtle.ConstantTimeCompare(a, b) == 1`.
unfoldable pub text_eq : Text → Text → Bool
text_eq [] [] = true
text_eq [] (y ∷ ys) = false
text_eq (x ∷ xs) [] = false
text_eq (x ∷ xs) (y ∷ ys) = x == y && text_eq xs ys

pub text_eq_iff : (s t : Text) → (text_eq s t ≡ true) ↔ (s ≡ t)
unfolding text_eq
text_eq_iff [] [] = ((λ _. refl), (λ _. refl))
text_eq_iff [] (y ∷ ys) = ((λ h. cc), (λ h. cc))
text_eq_iff (x ∷ xs) [] = ((λ h. cc), (λ h. cc))
text_eq_iff (x ∷ xs) (y ∷ ys) =
    let ih = text_eq_iff xs ys in ((λ h. ground (arith, ih)), (λ h. ground (arith, ih)))

pub text_eq_comm : (s t : Text) → text_eq s t ≡ text_eq t s
unfolding text_eq
text_eq_comm [] [] = refl
text_eq_comm [] (b ∷ bs) = refl
text_eq_comm (a ∷ xs) [] = refl
text_eq_comm (a ∷ xs) (b ∷ bs) = ground (arith, text_eq_comm xs bs)

pub text_eq_refl : (s : Text) → text_eq s s ≡ true
text_eq_refl s = (text_eq_iff s s).1 refl

-- `strings.Split(s, sep)` for a separator of one byte.
unfoldable pub cons_head : ℕ → List Text → List Text
cons_head b [] = (b ∷ []) ∷ []
cons_head b (c ∷ cs) = (b ∷ c) ∷ cs

unfoldable pub split : ℕ → Text → List Text
unfolding cons_head
split sep [] = [] ∷ []
split sep (b ∷ bs) = let rest = split sep bs in if b == sep then [] ∷ rest else cons_head b rest

-- `strings.Join(cs, sep)`
unfoldable pub join : ℕ → List Text → Text
join sep [] = []
join sep (c ∷ []) = c
join sep (c ∷ d ∷ cs) = c ++ (sep ∷ join sep (d ∷ cs))

join-cons_head : (sep b : ℕ) (cs : List Text) → join sep (cons_head b cs) ≡ b ∷ join sep cs
unfolding join cons_head
join-cons_head sep b [] = refl
join-cons_head sep b (c ∷ []) = refl
join-cons_head sep b (c ∷ d ∷ cs) = refl

split-cases : (sep : ℕ) (s : Text) → (c : Text) × (cs : List Text) × (split sep s ≡ c ∷ cs)
unfolding split
split-cases sep [] = ([], [], refl)
split-cases sep (b ∷ bs) = elim (Bool-cases (b == sep)) [
  | inl e ↦ ([], split sep bs, rw e)
  | inr e ↦ let (c, cs, p) = split-cases sep bs in ((b ∷ c), cs, rw (e, p))
]

join-nil_head :
    (sep : ℕ) (cs ds : List Text) (c : Text) → ds ≡ c ∷ cs → join sep ([] ∷ ds) ≡ sep ∷ join sep ds
unfolding join
join-nil_head sep cs ds c e = rw e

-- Splitting and joining again gives the text back.
pub join-split : (sep : ℕ) (s : Text) → join sep (split sep s) ≡ s
unfolding split
join-split sep [] = unfold join in refl
join-split sep (b ∷ bs) =
    let t = split-cases sep bs in
    let first = join-nil_head sep t.1 (split sep bs) t.0 t.2 in
    let step = join-cons_head sep b (split sep bs) in ground (arith, first, step, join-split sep bs)
