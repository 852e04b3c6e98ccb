-- ===== src/Files/Subtree/Hiding.antt =====
-- What the index shows once a subtree is hidden.
use swa_drive.Base.{
  ℕ, ◌≡◌, sym, ap, ◌∙◌, true, false, not, ◌&&◌, none, List, [], ◌∷◌, arith, inl, inr, Bool-cases,
  ◌==◌, if◌then◌else◌, length,
}
use swa_drive.Base.Text.{Text, text_eq, text_eq_iff}
use swa_drive.Files.Index.{Entry}
use swa_drive.Files.Subtree.{in_subtree, selected, update_entries}
use swa_drive.Files.Subtree.View.{shown, shows}

module _ (g : ℕ) (path id : Text) (named : (length id == 0) ≡ false) where
  abbrev hide_in : Entry → Entry
  hide_in e = if selected g path e then record e { trash_entry_id = id } else e

  at_path :
      (e : Entry) (q : Text)
      → selected g path e ≡ true
      → text_eq e.path q ≡ true
      → in_subtree path q ≡ true
  at_path e q s h = ap (in_subtree path) (sym ((text_eq_iff e.path q).0 h)) ∙ ground arith

  off_path :
      (e : Entry) (q : Text)
      → selected g path e ≡ false
      → shows g e q ≡ true
      → in_subtree path q ≡ false
  off_path e q s h =
      let here : text_eq e.path q ≡ true = ground arith in
      ap (in_subtree path) (sym ((text_eq_iff e.path q).0 here)) ∙ ground arith

  hide_in-shows :
      (e : Entry) (q : Text) → shows g (hide_in e) q ≡ shows g e q && not (in_subtree path q)
  hide_in-shows e q = elim (Bool-cases (selected g path e)) [
    | inl s ↦ rw (s, named) (ground (arith, at_path e q s))
    | inr s ↦ rw s (ground (arith, off_path e q s))
  ]

  hide_in-kind : (e : Entry) → (hide_in e).kind ≡ e.kind
  hide_in-kind e = ground arith

  hide_in-size : (e : Entry) → (hide_in e).size ≡ e.size
  hide_in-size e = ground arith

  -- The index then shows what it showed outside of the subtree.
  pub shown-hidden :
      (es : List Entry) (q : Text)
      → shown g (update_entries (selected g path) (λ e. record e { trash_entry_id = id }) es) q
        ≡ (if in_subtree path q then none else shown g es q)
  unfolding shown update_entries
  shown-hidden [] q = ground arith
  shown-hidden (e ∷ es) q =
      rw (hide_in-shows e q, hide_in-kind e, hide_in-size e, shown-hidden es q) ground arith
