-- ===== src/Storage/Disk/Writing.antt =====
-- What a write into the middle of a file leaves and changes.
use swa_drive.Base.{
  ℕ, zero, suc, ◌+◌, ◌-◌, ◌≤◌, ◌≡◌, refl, sym, ap, ◌∙◌, [], ◌∷◌, ◌++◌, arith, length, take, drop,
  min,
}
use Prim.Native.Nat.add
use mathlib.Core.List.{append_assoc}
use swa_drive.Base.{drop-append, take-append, length-append}
use swa_drive.Base.Text.{Text}
use swa_drive.Storage.Disk.{pad, write_at}

pub length-pad : (n : ℕ) → length (pad n) ≡ n
unfolding pad
length-pad zero = refl
length-pad (suc n) = omega (arith, length-pad n)

pub length-take : (n : ℕ) (xs : Text) → length (take n xs) ≡ min n (length xs)
length-take zero xs = omega arith
length-take (suc n) [] = omega arith
length-take (suc n) (x ∷ xs) = omega (arith, length-take n xs)

drop_nil : (n : ℕ) → drop {A = ℕ} n [] ≡ []
drop_nil zero = refl
drop_nil (suc n) = refl

drop-drop : (a b : ℕ) (xs : Text) → drop b (drop a xs) ≡ drop (a + b) xs
drop-drop zero b xs = rw add.zero
drop-drop (suc a) b [] = drop_nil b ∙ sym (drop_nil (suc a + b))
drop-drop (suc a) b (x ∷ xs) = rw add.suc (drop-drop a b xs)

-- The bytes before the written ones, zeros included, are as many as the offset says.
length-before :
    (old : Text) (offset : ℕ) → offset ≡ length (take offset old ++ pad (offset - length old))
length-before old offset = omega (
  arith,
  length-append (take offset old) (pad (offset - length old)),
  length-take offset old,
  length-pad (offset - length old),
)

drop-write_at :
    (old new : Text) (offset : ℕ)
    → drop offset (write_at old offset new) ≡ new ++ drop (offset + length new) old
unfolding write_at
drop-write_at old new offset =
    rw
      (← append_assoc (take offset old) (pad (offset - length old))
        (new ++ drop (offset + length new) old))
      (drop-append _ (new ++ drop (offset + length new) old) offset (length-before old offset))

-- The section that was written is what was written.
pub section-write_at :
    (old new : Text) (offset : ℕ) → take (length new) (drop offset (write_at old offset new)) ≡ new
section-write_at old new offset =
    rw (drop-write_at old new offset) (take-append new _ (length new) refl)

-- What lies behind it is as it was.
pub after-write_at :
    (old new : Text) (offset start : ℕ)
    → offset + length new ≤ start
    → drop start (write_at old offset new) ≡ drop start old
after-write_at old new offset start h =
    let rest = start - offset in
    let back = start - (offset + length new) in
    let split : start ≡ offset + rest = omega arith in
    let tail = drop (offset + length new) old in
    ap (λ k. drop k (write_at old offset new)) split
    ∙ sym (drop-drop offset rest (write_at old offset new))
    ∙ ap (drop rest) (drop-write_at old new offset)
    ∙ ap (λ k. drop k (new ++ tail)) (omega arith)
    ∙ sym (drop-drop (length new) back (new ++ tail))
    ∙ ap (drop back) (drop-append new tail (length new) refl)
    ∙ drop-drop (offset + length new) back old
    ∙ ap (λ k. drop k old) (omega arith)

take-take_append :
    (k n : ℕ) (xs ys : Text) → k ≤ n → k ≤ length xs → take k (take n xs ++ ys) ≡ take k xs
take-take_append zero n xs ys a b = refl
take-take_append (suc k) zero xs ys a b = absurd (omega arith)
take-take_append (suc k) (suc n) [] ys a b = absurd (omega arith)
take-take_append (suc k) (suc n) (x ∷ xs) ys a b =
    ap (◌∷◌ x) (take-take_append k n xs ys (omega arith) (omega arith))

-- What lies before it, as far as the file reached, is as it was.
pub before-write_at :
    (old new : Text) (offset n : ℕ)
    → n ≤ offset
    → n ≤ length old
    → take n (write_at old offset new) ≡ take n old
unfolding write_at
before-write_at old new offset n a b = take-take_append n offset old _ a b
