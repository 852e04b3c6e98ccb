-- ===== src/Files/Subtree/View.antt =====
-- What the index shows under a path, and that moving a subtree of the index is the renaming of the
-- volume.
use swa_drive.Base.{
  ℕ, ◌≡◌, refl, sym, ap, ◌∙◌, subst, Bool, true, false, not, ◌&&◌, Option, none, some, List, [],
  ◌∷◌, ◌++◌, ok, err, arith, inl, inr, Bool-cases, Option-cases, ◌==◌, if◌then◌else◌, drop, length,
  some_eq,
}
use mathlib.Core.List.{append-nil}
use swa_drive.Base.Text.{Text, text_eq, text_eq_iff}
use swa_drive.Platform.{Platform}
use swa_drive.Storage.Disk.{below}
use swa_drive.Files.Index.{Index, Entry, Kind, metadata_in_generation}
use swa_drive.Files.Subtree.{
  in_subtree, is_shown, selected, update_entries, moved_entry, update_moved,
}

-- The kind and the size of what is shown under a path.
unfoldable pub shown : ℕ → List Entry → Text → Option (Kind × ℕ)
shown g [] q = none
shown g (e ∷ es) q =
    if is_shown g e && text_eq e.path q then some (e.kind, e.size) else shown g es q

pub shown-metadata :
    (g : ℕ) (es : List Entry) (q : Text)
    → shown g es q
      ≡ (elim (metadata_in_generation g q es) [ ok e ↦ some (e.kind, e.size) | err _ ↦ none ])
unfolding shown metadata_in_generation
shown-metadata g [] q = refl
shown-metadata g (e ∷ es) q = ground (arith, shown-metadata g es q)

pub below-eq : (p q rest : Text) → below p q ≡ some rest → q ≡ p ++ rest
unfolding below
below-eq [] [] rest h = ground arith
below-eq [] (b ∷ bs) rest h = ground arith
below-eq (x ∷ xs) [] rest h = absurd (ground arith)
below-eq (x ∷ xs) (y ∷ ys) rest h = ground (arith, below-eq xs ys rest)

drop-prefix : (p rest : Text) → drop (length p) (p ++ rest) ≡ rest
drop-prefix [] rest = refl
drop-prefix (x ∷ xs) rest = drop-prefix xs rest

-- What remains behind a path is nothing or begins with a slash, so it fits behind any other.
pub below-append : (s p t rest : Text) → below s p ≡ some rest → below t (t ++ rest) ≡ some rest
unfolding below
below-append [] [] [] rest h = subst (λ r. below [] r ≡ some r) (some_eq h) refl
below-append [] (b ∷ bs) [] rest h =
    (let whole : (b ∷ bs) ≡ rest = ground arith in
      let slash : below [] (b ∷ bs) ≡ some (b ∷ bs) = ground arith in
      subst (λ r. below [] r ≡ some r) whole slash)
below-append (x ∷ xs) [] [] rest h = absurd (ground arith)
below-append (x ∷ xs) (y ∷ ys) [] rest h = elim (Bool-cases (x == y)) [
  | inl e ↦ below-append xs ys [] rest (ground arith)
  | inr e ↦ absurd (ground arith)
]
below-append s p (z ∷ zs) rest h = ground (arith, below-append s p zs rest h)

text_eq-append : (t a b : Text) → text_eq (t ++ a) (t ++ b) ≡ text_eq a b
unfolding text_eq
text_eq-append [] a b = refl
text_eq-append (x ∷ xs) a b = ground (arith, text_eq-append xs a b)

text_eq_apart : (p q : Text) → (p ≡ q → ⊥) → text_eq p q ≡ false
text_eq_apart p q h = elim (Bool-cases (text_eq p q)) [
  | inl e ↦ absurd (h ((text_eq_iff p q).0 e))
  | inr e ↦ e
]

below_differs : (p q rest : Text) → below p q ≡ some rest → below p q ≡ none → ⊥
below_differs p q rest a b = cc

-- The path of a moved entry.
moved-path :
    (env : Platform) (s t rest : Text) (e : Entry)
    → below s e.path ≡ some rest
    → (moved_entry env s t e).path ≡ t ++ rest
unfolding moved_entry
moved-path env s t rest e h =
    let same = below-eq s e.path rest h in
    let dropped : drop (length s) e.path ≡ rest = ap (drop (length s)) same ∙ drop-prefix s rest in
    elim (Bool-cases (text_eq e.path s)) [
      | inl whole ↦
          (let itself = (text_eq_iff e.path s).0 whole in
            let empty : rest ≡ [] =
              sym dropped ∙ ap (drop (length s)) (itself ∙ sym (append-nil s)) ∙ drop-prefix s [] in
            rw (whole, moved_entry, empty) (sym (append-nil t)))
      | inr part ↦ rw (part, moved_entry, dropped)
    ]

-- An entry that shows something at a path.
abbrev pub shows : ℕ → Entry → Text → Bool
shows g e q = is_shown g e && text_eq e.path q

not_shown :
    (g : ℕ) (e : Entry) (es : List Entry) (q : Text)
    → shown g (e ∷ es) q ≡ none
    → (shows g e q ≡ false) × (shown g es q ≡ none)
unfolding shown
not_shown g e es q h = (ground arith, ground arith)

module _ (env : Platform) (g : ℕ) (s t : Text) where
  abbrev changed : Entry → Entry
  changed e = if selected g s e then moved_entry env s t e else e

  moved-kind : (e : Entry) → ((changed e).kind ≡ e.kind) × ((changed e).size ≡ e.size)
  unfolding moved_entry
  moved-kind e = ground arith

  kept_shown :
      (e : Entry) (q : Text)
      → is_shown g e ≡ true
      → shows g (moved_entry env s t e) q ≡ text_eq (moved_entry env s t e).path q
  unfolding moved_entry
  kept_shown e q h = rw h

  changed_selected :
      (e : Entry) (r q : Text)
      → is_shown g e ≡ true
      → below s e.path ≡ some r
      → shows g (changed e) q ≡ text_eq (t ++ r) q
  unfolding in_subtree
  changed_selected e r q h b =
      let chosen : selected g s e ≡ true = rw (h, in_subtree, b) in
      let same : changed e ≡ moved_entry env s t e = rw chosen in
      let where_to = moved-path env s t r e b in
      ap (λ z. shows g z q) same ∙ kept_shown e q h ∙ ap (λ z. text_eq z q) where_to

  -- At the destination.
  changed-below :
      (e : Entry) (q rest : Text)
      → below t q ≡ some rest
      → shows g e q ≡ false
      → shows g (changed e) q ≡ shows g e (s ++ rest)
  unfolding in_subtree
  changed-below e q rest b free = elim (Bool-cases (is_shown g e)) [
    | inr hidden ↦ rw (hidden, in_subtree, hidden)
    | inl visible ↦ elim (Option-cases (below s e.path)) [
      | inl out ↦
          (let apart : text_eq e.path (s ++ rest) ≡ false =
              text_eq_apart e.path (s ++ rest) (λ same.
                below_differs s (s ++ rest) rest (below-append t q s rest b)
                  (ap (below s) (sym same) ∙ out)) in
            rw (visible, in_subtree, out, visible) (ground (arith, apart)))
      | inr (r, in_it) ↦
          changed_selected e r q visible in_it
          ∙ ap (text_eq (t ++ r)) (below-eq t q rest b)
          ∙ text_eq-append t r rest
          ∙ sym (text_eq-append s r rest)
          ∙ ap (λ z. text_eq z (s ++ rest)) (sym (below-eq s e.path r in_it))
          ∙ (rw visible)
    ]
  ]

  outside :
      (e : Entry) (q : Text)
      → below s e.path ≡ none
      → text_eq e.path q ≡ (text_eq e.path q && not (in_subtree s q))
  unfolding in_subtree
  outside e q out = elim (Bool-cases (text_eq e.path q)) [
    | inl here ↦
        (let still = ap (below s) (sym ((text_eq_iff e.path q).0 here)) ∙ out in
          rw (here, in_subtree, still))
    | inr there ↦ rw there
  ]

  inside :
      (e : Entry) (r q : Text)
      → below s e.path ≡ some r
      → shows g e q && not (in_subtree s q) ≡ false
  unfolding in_subtree
  inside e r q in_it = elim (Bool-cases (text_eq e.path q)) [
    | inl here ↦
        (let still = ap (below s) (sym ((text_eq_iff e.path q).0 here)) ∙ in_it in
          rw (in_subtree, still) (ground arith))
    | inr there ↦ rw there (ground arith)
  ]

  missed :
      (e : Entry) (r q : Text)
      → below t q ≡ none
      → below s e.path ≡ some r
      → text_eq (t ++ r) q ≡ false
  missed e r q b in_it =
      text_eq_apart (t ++ r) q
        λ same. below_differs t (t ++ r) r (below-append s e.path t r in_it) (ap (below t) same ∙ b)

  -- Elsewhere.
  changed-apart :
      (e : Entry) (q : Text)
      → below t q ≡ none
      → shows g (changed e) q ≡ (shows g e q && not (in_subtree s q))
  unfolding in_subtree
  changed-apart e q b = elim (Bool-cases (is_shown g e)) [
    | inr hidden ↦ rw (hidden, in_subtree, hidden)
    | inl visible ↦ elim (Option-cases (below s e.path)) [
      | inl out ↦ rw (visible, in_subtree, out, visible) (outside e q out)
      | inr (r, in_it) ↦
          changed_selected e r q visible in_it ∙ missed e r q b in_it ∙ sym (inside e r q in_it)
    ]
  ]

  after_move : List Entry → List Entry
  after_move es = update_entries (selected g s) (moved_entry env s t) es

  shown-after_move :
      (e : Entry) (es : List Entry) (q : Text)
      → shown g (after_move (e ∷ es)) q
        ≡ (if shows g (changed e) q then some (e.kind, e.size) else shown g (after_move es) q)
  unfolding after_move update_entries shown
  shown-after_move e es q = rw ((moved-kind e).0, (moved-kind e).1)

  shown-below :
      (es : List Entry) (q rest : Text)
      → below t q ≡ some rest
      → shown g es q ≡ none
      → shown g (after_move es) q ≡ shown g es (s ++ rest)
  unfolding shown
  shown-below [] q rest b free = unfold after_move update_entries in refl
  shown-below (e ∷ es) q rest b free =
      let (head, tail) = not_shown g e es q free in
      rw (shown-after_move e es q, changed-below e q rest b head, shown-below es q rest b tail)

  shown-apart :
      (es : List Entry) (q : Text)
      → below t q ≡ none
      → shown g (after_move es) q ≡ (if in_subtree s q then none else shown g es q)
  unfolding shown
  shown-apart [] q b = unfold after_move update_entries in ground arith
  shown-apart (e ∷ es) q b =
      rw (shown-after_move e es q, changed-apart e q b, shown-apart es q b) (ground arith)

-- Moving a subtree of the index renames the view: what was shown below the source is shown below the
-- destination, nothing is shown below the source any more unless that is below the destination, and
-- every other path shows what it showed. The paths below the destination showed nothing before.
pub shown-update_moved :
    (env : Platform) (g : ℕ) (s t q : Text) (i i' : Index)
    → ((rest : Text) → below t (t ++ rest) ≡ some rest → shown g i.entries (t ++ rest) ≡ none)
    → update_moved env g s t i ≡ ok i'
    → shown g i'.entries q ≡ (elim (below t q) [
      | some rest ↦ shown g i.entries (s ++ rest)
      | none ↦ if in_subtree s q then none else shown g i.entries q
    ])
unfolding update_moved after_move
shown-update_moved env g s t q i i' free h =
    let entries : i'.entries ≡ after_move env g s t i.entries = ground arith in
    ap (λ es. shown g es q) entries ∙ elim (Option-cases (below t q)) [
      | inl out ↦ rw out (shown-apart env g s t i.entries q out)
      | inr (rest, b) ↦
          (let same = below-eq t q rest b in
            rw b (
              shown-below env g s t i.entries q rest b
                (ap (shown g i.entries) same ∙ free rest (ap (below t) (sym same) ∙ b))))
    ]
