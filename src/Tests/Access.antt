-- ===== src/Tests/Access.antt =====
-- A user with a password, and stand-ins for base64 and Argon2id.
use swa_drive.Base.{
  ℕ, suc, zero, ◌+◌, ◌-◌, ◌*◌, ◌/◌, ◌≡◌, refl, ap, ◌∙◌, Bool, false, some, [], ◌∷◌, ◌++◌, map, any,
  take, length, length-append, arith, ◌==◌, take-append,
}
use swa_drive.Base.Text.{Text}
use swa_drive.Storage.Disk.{pad}
use swa_drive.Storage.Disk.Writing.{length-take, length-pad}
use swa_drive.Auth.Hashing.{IsSound}
use swa_drive.Auth.Library.{Library}

-- As long as base64 is, and without a `$`.
abbrev pub shifted : Text → Text
shifted b = map (λ c. c + 37) b ++ pad ((length b * 8 + 5) / 6 - length b)

abbrev pub unshifted : Text → Text
unshifted s = map (λ c. c - 37) (take (length s * 6 / 8) s)

abbrev pub lib : Library
lib = record {
  trim_space = λ s. s;
  encode_url = shifted;
  decode_url = λ s. some (unshifted s);
  encode_std = shifted;
  decode_std = λ s. some (unshifted s);
  id_key = λ password salt i m p n. take n (password ++ (salt ++ pad n));
}

length-map : (f : ℕ → ℕ) (b : Text) → length (map f b) ≡ length b
length-map f [] = refl
length-map f (c ∷ cs) = ap suc (length-map f cs)

map-back : (b : Text) → map (λ c. c - 37) (map (λ c. c + 37) b) ≡ b
map-back [] = refl
map-back (c ∷ cs) =
    let back : c + 37 - 37 ≡ c = omega arith in
    ap (λ z. z ∷ map (λ d. d - 37) (map (λ d. d + 37) cs)) back ∙ ap (◌∷◌ c) (map-back cs)

no_dollar-map : (b : Text) → any (λ c. c == b'$') (map (λ c. c + 37) b) ≡ false
no_dollar-map [] = refl
no_dollar-map (c ∷ cs) =
    let past : (c + 37 == b'$') ≡ false = ground arith in
    let ih = no_dollar-map cs in rw (past, ih) refl

no_dollar-pad : (n : ℕ) → any (λ c. c == b'$') (pad n) ≡ false
unfolding pad
no_dollar-pad zero = refl
no_dollar-pad (suc n) = no_dollar-pad n

any-append :
    (p : ℕ → Bool) (s t : Text) → any p s ≡ false → any p t ≡ false → any p (s ++ t) ≡ false
any-append p [] t h k = k
any-append p (c ∷ cs) t h k = ground (arith, any-append p cs t)

length-shifted : (b : Text) → length (shifted b) ≡ (length b * 8 + 5) / 6
length-shifted b =
    let spare = (length b * 8 + 5) / 6 - length b in
    omega (
      arith,
      length-append (map (λ c. c + 37) b) (pad spare),
      length-map (λ c. c + 37) b,
      length-pad spare,
    )

pub unshifted-shifted : (b : Text) → unshifted (shifted b) ≡ b
unshifted-shifted b =
    let spare = (length b * 8 + 5) / 6 - length b in
    let size : length (shifted b) * 6 / 8 ≡ length (map (λ c. c + 37) b) =
      omega (arith, length-shifted b, length-map (λ c. c + 37) b) in
    ap (map (λ c. c - 37))
      (take-append (map (λ c. c + 37) b) (pad spare) (length (shifted b) * 6 / 8) size)
    ∙ map-back b

length-key : (password salt : Text) (n : ℕ) → length (take n (password ++ (salt ++ pad n))) ≡ n
length-key password salt n =
    let taken = length-take n (password ++ (salt ++ pad n)) in
    let a = length-append password (salt ++ pad n) in
    let b = length-append salt (pad n) in let c = length-pad n in ground arith

pub sound : IsSound lib
sound = record {
  decodes = λ b. ap some (unshifted-shifted b);
  no_dollar = λ b.
      any-append (λ c. c == b'$') (map (λ c. c + 37) b) (pad ((length b * 8 + 5) / 6 - length b))
        (no_dollar-map b) (no_dollar-pad ((length b * 8 + 5) / 6 - length b));
  encoded_length = length-shifted;
  key_size = λ password salt i m p n. length-key password salt n;
}
