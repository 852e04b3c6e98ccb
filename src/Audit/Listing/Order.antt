-- ===== src/Audit/Listing/Order.antt =====
-- The order of the audit log: rows newest first, and the older part of a listing.
use swa_drive.Base.{
  ℕ, zero, suc, ◌≡◌, ◌≤◌, refl, ap, subst, ◌∙◌, Bool, true, false, not, ◌&&◌, List, [], ◌∷◌, ltb,
  ◌==◌, all, filter, length, drop, arith, inl, inr, Bool-cases,
}
use swa_drive.Base.Text.{Text}
use swa_drive.Audit.Event.{Event, StoredEvent, append_event}
use swa_drive.Audit.Listing.{insert_newest, sort_newest}

-- The newest first, and no number 0.
abbrev pub IsDescending : List StoredEvent → Type 0
IsDescending [] = Unit
IsDescending (e ∷ es) =
    (all (λ f. ltb f.id e.id && not (f.id == 0)) es ≡ true)
    × (not (e.id == 0) ≡ true)
    × IsDescending es

module _ (q : StoredEvent → Bool) where
  all-filter :
      (p : StoredEvent → Bool) (es : List StoredEvent)
      → all p es ≡ true
      → all p (filter q es) ≡ true
  all-filter p [] h = refl
  all-filter p (e ∷ es) h = ground (arith, all-filter p es)

  pub filter-IsDescending : (es : List StoredEvent) → IsDescending es → IsDescending (filter q es)
  filter-IsDescending [] d = tt
  filter-IsDescending (e ∷ es) (h, k, d) = elim (Bool-cases (q e)) [
    | inl s ↦
        rw s (all-filter (λ f. ltb f.id e.id && not (f.id == 0)) es h, k, filter-IsDescending es d)
    | inr s ↦ rw s (filter-IsDescending es d)
  ]

insert_newest-first :
    (e : StoredEvent) (es : List StoredEvent)
    → all (λ f. ltb f.id e.id && not (f.id == 0)) es ≡ true
    → insert_newest e es ≡ e ∷ es
unfolding insert_newest
insert_newest-first e [] h = refl
insert_newest-first e (f ∷ fs) h = let first : ltb f.id e.id ≡ true = ground arith in rw first refl

pub sort_newest-IsDescending : (es : List StoredEvent) → IsDescending es → sort_newest es ≡ es
unfolding sort_newest
sort_newest-IsDescending [] d = refl
sort_newest-IsDescending (e ∷ es) (h, k, d) =
    ap (insert_newest e) (sort_newest-IsDescending es d) ∙ insert_newest-first e es h

filter_everything :
    (p : StoredEvent → Bool) (es : List StoredEvent) → all p es ≡ true → filter p es ≡ es
filter_everything p [] h = refl
filter_everything p (e ∷ es) h = ground (arith, filter_everything p es)

pub all-drop :
    (p : StoredEvent → Bool) (n : ℕ) (es : List StoredEvent) (x : StoredEvent)
    (rest : List StoredEvent)
    → all p es ≡ true
    → drop n es ≡ x ∷ rest
    → p x ≡ true
all-drop p zero [] x rest h k = absurd (ground arith)
all-drop p (suc n) [] x rest h k = absurd (ground arith)
all-drop p zero (e ∷ es) x rest h k = ground arith
all-drop p (suc n) (e ∷ es) x rest h k = all-drop p n es x rest (ground arith) k

all_weaken :
    (p q : StoredEvent → Bool) (es : List StoredEvent)
    → ((e : StoredEvent) → p e ≡ true → q e ≡ true)
    → all p es ≡ true
    → all q es ≡ true
all_weaken p q [] w h = refl
all_weaken p q (e ∷ es) w h =
    let first = w e (ground arith) in let rest = all_weaken p q es w (ground arith) in ground arith

-- What is older than one event of a listing is what follows it.
pub older-drop :
    (n : ℕ) (es : List StoredEvent) (x : StoredEvent) (rest : List StoredEvent)
    → IsDescending es
    → drop n es ≡ x ∷ rest
    → filter (λ e. ltb e.id x.id) es ≡ rest
older-drop zero [] x rest d h = absurd (ground arith)
older-drop (suc n) [] x rest d h = absurd (ground arith)
older-drop zero (e ∷ es) x rest (lower, k, d) h =
    let same : e ≡ x = cc in
    let follow : es ≡ rest = cc in
    let older = all_weaken _ (λ f. ltb f.id e.id) es (λ f w. ground arith) lower in
    let itself : ltb e.id e.id ≡ false = ground arith in
    subst (λ z. filter (λ f. ltb f.id z.id) (e ∷ es) ≡ rest) same
      (rw itself (filter_everything (λ f. ltb f.id e.id) es older ∙ follow))
older-drop (suc n) (e ∷ es) x rest (lower, k, d) h =
    let below = all-drop (λ f. ltb f.id e.id && not (f.id == 0)) n es x rest lower h in
    let newer : ltb e.id x.id ≡ false = ground arith in rw newer (older-drop n es x rest d h)

pub filter-filter :
    (p q : StoredEvent → Bool) (es : List StoredEvent)
    → filter p (filter q es) ≡ filter (λ e. q e && p e) es
filter-filter p q [] = refl
filter-filter p q (e ∷ es) = elim (Bool-cases (q e)) [
  | inr s ↦ rw s (filter-filter p q es)
  | inl s ↦ elim (Bool-cases (p e)) [
    | inl t ↦ rw (s, t) (ap (◌∷◌ e) (filter-filter p q es))
    | inr t ↦ rw (s, t) (filter-filter p q es)
  ]
]

pub filter_alike :
    (p q : StoredEvent → Bool) (es : List StoredEvent)
    → ((e : StoredEvent) → p e ≡ q e)
    → filter p es ≡ filter q es
filter_alike p q [] h = refl
filter_alike p q (e ∷ es) h = rw (h e, filter_alike p q es h) refl

pub filter-passes : (p : StoredEvent → Bool) (es : List StoredEvent) → all p (filter p es) ≡ true
filter-passes p [] = refl
filter-passes p (e ∷ es) = elim (Bool-cases (p e)) [
  | inl s ↦ rw (s, s, filter-passes p es) refl
  | inr s ↦ rw s (filter-passes p es)
]

pub IsDescending-positive :
    (es : List StoredEvent) → IsDescending es → all (λ e. not (e.id == 0)) es ≡ true
IsDescending-positive [] d = refl
IsDescending-positive (e ∷ es) (h, k, d) = rw (k, IsDescending-positive es d) refl

-- What a sequence of appended events leaves, the last one first.
unfoldable pub append_all : List (Event × Text) → List StoredEvent
append_all [] = []
append_all ((e, json) ∷ es) = append_event e json (append_all es)

append_all-numbers :
    (es : List (Event × Text)) (n : ℕ)
    → length (append_all es) ≤ n
    → all (λ f. ltb f.id (suc n) && not (f.id == 0)) (append_all es) ≡ true
unfolding append_all append_event
append_all-numbers [] n h = refl
append_all-numbers ((e, json) ∷ es) n h =
    let rest = append_all-numbers es n (omega arith) in ground arith

pub append_all-IsDescending : (es : List (Event × Text)) → IsDescending (append_all es)
unfolding append_all append_event
append_all-IsDescending [] = tt
append_all-IsDescending ((e, json) ∷ es) = (
  append_all-numbers es (length (append_all es)) (omega arith),
  ground arith,
  append_all-IsDescending es,
)
