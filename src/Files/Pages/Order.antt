-- ===== src/Files/Pages/Order.antt =====
-- Both orders of the index are strict: entries with different paths have an order, and rows in order are
-- strictly ascending.
use swa_drive.Base.{
  ◌≡◌, refl, sym, subst, ◌⊎◌, ◌∙◌, Bool, true, false, ◌&&◌, ◌||◌, arith, inl, inr, Bool-cases,
}
use swa_drive.Base.Text.{Text, text_eq, text_eq_iff}
use swa_drive.Base.Order.{text_lt, text_lt_irrefl, text_lt_trans, text_lt_total}
use swa_drive.Files.Index.{Entry}
use swa_drive.Files.Pages.{listed_before, found_before}

-- A strict order of entries with different paths.
pub record IsOrder (before : Entry → Entry → Bool) : Type 0 where
  pub irrefl : (a : Entry) → before a a ≡ false
  pub trans : (a b c : Entry) → before a b ≡ true → before b c ≡ true → before a c ≡ true
  pub total : (a b : Entry) → text_eq a.path b.path ≡ false → before a b ≡ false → before b a ≡ true

-- One key before another, and a rest that decides where they are equal.
abbrev lex : Text → Text → Bool → Bool
lex a b r = text_lt a b || text_eq a b && r

lex_irrefl : (a : Text) (r : Bool) → r ≡ false → lex a a r ≡ false
lex_irrefl a r h = ground (arith, text_lt_irrefl a)

lex_cases :
    (a b : Text) (r : Bool) → lex a b r ≡ true → (text_lt a b ≡ true) ⊎ ((a ≡ b) × (r ≡ true))
lex_cases a b r h = elim (Bool-cases (text_lt a b)) [
  | inl e ↦ inl e
  | inr e ↦
      (let same : text_eq a b ≡ true = ground arith in inr ((text_eq_iff a b).0 same, ground arith))
]

lex_less : (a b : Text) (r : Bool) → text_lt a b ≡ true → lex a b r ≡ true
lex_less a b r h = rw h refl

lex_same : (a b : Text) (r : Bool) → a ≡ b → r ≡ true → lex a b r ≡ true
lex_same a b r e h = let same : text_eq a b ≡ true = (text_eq_iff a b).1 e in ground arith

lex_trans :
    (a b c : Text) (r s t : Bool)
    → (r ≡ true → s ≡ true → t ≡ true)
    → lex a b r ≡ true
    → lex b c s ≡ true
    → lex a c t ≡ true
lex_trans a b c r s t rest h k = elim (lex_cases a b r h) [
  | inl l ↦ elim (lex_cases b c s k) [
    | inl m ↦ lex_less a c t (text_lt_trans a b c l m)
    | inr (e, _) ↦ lex_less a c t (subst (λ z. text_lt a z ≡ true) e l)
  ]
  | inr (e, u) ↦ elim (lex_cases b c s k) [
    | inl m ↦ lex_less a c t (subst (λ z. text_lt z c ≡ true) (sym e) m)
    | inr (f, v) ↦ lex_same a c t (e ∙ f) (rest u v)
  ]
]

lex_total :
    (a b : Text) (r s : Bool) → (r ≡ false → s ≡ true) → lex a b r ≡ false → lex b a s ≡ true
lex_total a b r s rest h = elim (Bool-cases (text_eq a b)) [
  | inr e ↦ lex_less b a s (text_lt_total a b e (ground arith))
  | inl e ↦ lex_same b a s (sym ((text_eq_iff a b).0 e)) (rest (ground arith))
]

listed_lex :
    (a b : Entry)
    → listed_before a b
      ≡ lex a.normalized_name b.normalized_name (lex a.name b.name (text_lt a.path b.path))
unfolding listed_before
listed_lex a b = ground arith

found_lex :
    (a b : Entry)
    → found_before a b ≡ lex a.normalized_path b.normalized_path (text_lt a.path b.path)
unfolding found_before
found_lex a b = refl

pub listed_before-IsOrder : IsOrder listed_before
listed_before-IsOrder = record {
  irrefl = λ a.
      listed_lex a a ∙ lex_irrefl a.normalized_name _ (lex_irrefl a.name _ (text_lt_irrefl a.path));
  trans = λ a b c h k.
      listed_lex a c
      ∙ lex_trans a.normalized_name b.normalized_name c.normalized_name _ _ _
          (lex_trans a.name b.name c.name _ _ _ (text_lt_trans a.path b.path c.path))
          (sym (listed_lex a b) ∙ h) (sym (listed_lex b c) ∙ k);
  total = λ a b other h.
      listed_lex b a
      ∙ lex_total a.normalized_name b.normalized_name _ _
          (lex_total a.name b.name _ _ (text_lt_total a.path b.path other))
          (sym (listed_lex a b) ∙ h);
}

pub found_before-IsOrder : IsOrder found_before
found_before-IsOrder = record {
  irrefl = λ a. found_lex a a ∙ lex_irrefl a.normalized_path _ (text_lt_irrefl a.path);
  trans = λ a b c h k.
      found_lex a c
      ∙ lex_trans a.normalized_path b.normalized_path c.normalized_path _ _ _
          (text_lt_trans a.path b.path c.path) (sym (found_lex a b) ∙ h) (sym (found_lex b c) ∙ k);
  total = λ a b other h.
      found_lex b a
      ∙ lex_total a.normalized_path b.normalized_path _ _ (text_lt_total a.path b.path other)
          (sym (found_lex a b) ∙ h);
}
