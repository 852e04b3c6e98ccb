-- ===== src/Files/Subtree/Restoring.antt =====
-- Hiding a subtree in the trash and showing it again (`CommitTrashWithAudit` and
-- `FinishRestoreWithAudit` of server/internal/files/sqlite_repository.go).
use swa_drive.Base.{
  ℕ, ◌≡◌, refl, sym, ap, ◌∙◌, true, false, not, ◌&&◌, ◌||◌, List, [], ◌∷◌, ok, arith, inl, inr,
  Bool-cases, ◌==◌, if◌then◌else◌, all, any, length,
}
use swa_drive.Base.Text.{Text, text_eq, text_eq_refl}
use swa_drive.Files.Index.{Index, Entry}
use swa_drive.Files.Subtree.{
  is_shown, selected, is_hidden_by, update_entries, hide_subtree, show_again, no_clash,
}

no_text : (t : Text) → (length t == 0) ≡ true → t ≡ []
no_text [] h = refl
no_text (b ∷ bs) h = absurd (ground arith)

module _ (g : ℕ) (path id : Text) where
  abbrev hide : Entry → Entry
  hide e = record e { trash_entry_id = id }

  abbrev unhide : Entry → Entry
  unhide e = record e { trash_entry_id = [] }

  abbrev hidden : List Entry → List Entry
  hidden es = update_entries (selected g path) hide es

  hide-hidden : (e : Entry) → selected g path e ≡ true → is_hidden_by g id (hide e) ≡ true
  hide-hidden e h = ground (arith, text_eq_refl id)

  hide_clear : (e : Entry) → selected g path e ≡ true → unhide (hide e) ≡ e
  hide_clear e h =
      let none : e.trash_entry_id ≡ [] = no_text e.trash_entry_id (ground arith) in
      ap (λ z. record e { trash_entry_id = z }) (sym none)

  abbrev hide_one : Entry → Entry
  hide_one e = if selected g path e then hide e else e

  hide_one-hidden :
      (e : Entry) → is_hidden_by g id e ≡ false → is_hidden_by g id (hide_one e) ≡ selected g path e
  hide_one-hidden e h = elim (Bool-cases (selected g path e)) [
    | inl s ↦ rw s (hide-hidden e s)
    | inr s ↦ rw s h
  ]

  hide_one-unhide :
      (e : Entry)
      → is_hidden_by g id e ≡ false
      → (if is_hidden_by g id (hide_one e) then unhide (hide_one e) else hide_one e) ≡ e
  hide_one-unhide e h = elim (Bool-cases (selected g path e)) [
    | inl s ↦ rw (hide_one-hidden e h, s) (hide_clear e s)
    | inr s ↦ rw (hide_one-hidden e h, s) refl
  ]

  -- An entry that is shown and stays.
  hide_one-stays :
      (e : Entry) (q : Text)
      → is_hidden_by g id e ≡ false
      → is_shown g (hide_one e)
          && not (is_hidden_by g id (hide_one e))
          && text_eq (hide_one e).path q
        ≡ is_shown g e && not (selected g path e) && text_eq e.path q
  hide_one-stays e q h = elim (Bool-cases (selected g path e)) [
    | inl s ↦ rw (hide_one-hidden e h, s) ground arith
    | inr s ↦ rw (hide_one-hidden e h, s) refl
  ]

  shown_again :
      (es : List Entry)
      → any (is_hidden_by g id) es ≡ false
      → update_entries (is_hidden_by g id) unhide (hidden es) ≡ es
  unfolding update_entries
  shown_again [] h = refl
  shown_again (e ∷ es) h = rw (hide_one-unhide e (ground arith), shown_again es (ground arith)) refl

  hidden-any :
      (es : List Entry)
      → any (is_hidden_by g id) es ≡ false
      → any (is_hidden_by g id) (hidden es) ≡ any (selected g path) es
  unfolding update_entries
  hidden-any [] h = refl
  hidden-any (e ∷ es) h = rw (hide_one-hidden e (ground arith), hidden-any es (ground arith)) refl

  stays-any :
      (es : List Entry) (q : Text)
      → any (is_hidden_by g id) es ≡ false
      → any (λ o. is_shown g o && not (is_hidden_by g id o) && text_eq o.path q) (hidden es)
        ≡ any (λ o. is_shown g o && not (selected g path o) && text_eq o.path q) es
  unfolding update_entries
  stays-any [] q h = refl
  stays-any (e ∷ es) q h =
      rw (hide_one-stays e q (ground arith), stays-any es q (ground arith)) refl

  hide_one-path : (e : Entry) → (hide_one e).path ≡ e.path
  hide_one-path e = ground arith

  clash_part :
      (all_es es : List Entry)
      → any (is_hidden_by g id) all_es ≡ false
      → any (is_hidden_by g id) es ≡ false
      → all
          (λ e.
            not (is_hidden_by g id e)
            || not (
                any
                  (λ o. is_shown g o && not (is_hidden_by g id o) && text_eq o.path e.path)
                  (hidden all_es)))
          (hidden es)
        ≡ all
            (λ e.
              not (selected g path e)
              || not (
                  any
                    (λ o. is_shown g o && not (selected g path o) && text_eq o.path e.path)
                    all_es))
            es
  unfolding update_entries
  clash_part all_es [] h k = refl
  clash_part all_es (e ∷ es) h k =
      rw
        (
          hide_one-hidden e (ground arith),
          hide_one-path e,
          stays-any all_es e.path h,
          clash_part all_es es h (ground arith),
        )
        refl

-- A subtree that is hidden under the id of a trash entry and shown again gives back the index exactly
-- as it was: where no entry had that id, and no path of the subtree is that of
-- another entry that is shown.
pub show_again-hide_subtree :
    (g : ℕ) (path id : Text) (i i' : Index)
    → hide_subtree g path id i ≡ ok i'
    → any (is_hidden_by g id) i.entries ≡ false
    → no_clash g (selected g path) (λ e. e) i.entries ≡ true
    → show_again g id i' ≡ ok i
unfolding hide_subtree show_again no_clash
show_again-hide_subtree g path id i i' h fresh apart =
    let found : any (selected g path) i.entries ≡ true = ground arith in
    let new : i' ≡ record i { entries = hidden g path id i.entries } = ground arith in
    let clash = clash_part g path id i.entries i.entries fresh fresh in
    let back = shown_again g path id i.entries fresh in
    ap (show_again g id) new
    ∙ (rw (show_again, hidden-any g path id i.entries fresh, found, no_clash, clash, apart, back)
        refl)
