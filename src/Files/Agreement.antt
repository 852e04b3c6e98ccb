-- ===== src/Files/Agreement.antt =====
-- The index agrees with the volume, and a move keeps that.
use swa_drive.Base.{
  ℕ, ◌≡◌, refl, sym, ap, ◌∙◌, false, Option, none, some, List, [], ◌∷◌, ◌++◌, ok, arith, inl, inr,
  ◌⊎◌, Result-cases, Option-cases, if◌then◌else◌, length, some_eq,
}
use mathlib.Core.List.{append-nil}
use swa_drive.Base.Text.{Text, codes, text_eq}
use swa_drive.Platform.{Platform}
use swa_drive.Storage.Path.{LogicalPath, root_name}
use swa_drive.Storage.Disk.{Disk, regular, folder, Lookup, present, absent, below, rename}
use swa_drive.Storage.Manager
use swa_drive.Storage.Manager.{in_files, ensure_destination_available}
use swa_drive.Storage.Manager.Publication.{available-ok}
use swa_drive.Files.Index.{
  Index, Entry, Kind, file, directory, generation_for, active_generation,
  active_generation_for_repair,
}
use swa_drive.Files.Subtree.{in_subtree, move_subtree, update_moved}
use swa_drive.Files.Subtree.View.{shown, shown-update_moved}

-- What an index would show of a name of the volume: its kind and its size.
abbrev pub node_view : Lookup → Option (Kind × ℕ)
node_view (present (regular content t)) = some (file, length content)
node_view (present folder) = some (directory, 0)
node_view _ = none

abbrev pub file_at : Text → Text
file_at q = codes "files/" ++ q

-- Under every path the index shows what the volume has.
abbrev pub Agrees : Disk → ℕ → List Entry → Type 0
Agrees d g es = (q : Text) → node_view (d (file_at q)) ≡ shown g es q

-- Nothing is below a name that is not there: what every file system ensures.
abbrev pub IsTree : Disk → Type 0
IsTree d = (p rest : Text) → d p ≡ absent → d (p ++ b'/' ∷ rest) ≡ absent

below-start :
    (t rest : Text)
    → below t (t ++ rest) ≡ some rest
    → (rest ≡ []) ⊎ ((r : Text) × (rest ≡ b'/' ∷ r))
unfolding below
below-start [] [] h = inl refl
below-start [] (b ∷ bs) h = inr (bs, ground arith)
below-start (x ∷ xs) rest h = below-start xs rest (ground arith)

-- Below a free name there is nothing.
pub free_below :
    (d : Disk) (t rest : Text)
    → IsTree d
    → d (file_at t) ≡ absent
    → below t (t ++ rest) ≡ some rest
    → d (file_at (t ++ rest)) ≡ absent
free_below d t rest tree free h = elim (below-start t rest h) [
  | inl e ↦ ap (λ r. d (file_at (t ++ r))) e ∙ ap (λ z. d (file_at z)) (append-nil t) ∙ free
  | inr (r, e) ↦ ap (λ z. d (file_at (t ++ z))) e ∙ tree (file_at t) r free
]

-- A renaming below the files' directory.
pub rename-files :
    (s t q : Text) (d : Disk)
    → rename (file_at s) (file_at t) d (file_at q) ≡ (elim (below t q) [
      | some rest ↦ d (file_at (s ++ rest))
      | none ↦ elim (below s q) [ some _ ↦ absent | none ↦ d (file_at q) ]
    ])
unfolding rename below
rename-files s t q d = refl

pub nonempty_name : (p : LogicalPath) → text_eq p.value [] ≡ false → in_files p ≡ file_at p.value
unfolding root_name
nonempty_name p h = rw h

pub move-inv :
    (s t : LogicalPath) (d d' : Disk)
    → Manager.move s t d ≡ ok d'
    → (d (in_files t) ≡ absent)
      × (d' ≡ rename (in_files s) (in_files t) d)
      × (text_eq t.value [] ≡ false)
      × (text_eq s.value [] ≡ false)
      × (ensure_destination_available t d ≡ ok tt)
unfolding Manager.move
move-inv s t d d' h =
    let free : ensure_destination_available t d ≡ ok tt = ground arith in
    (available-ok t d free, ground arith, ground arith, ground arith, free)

-- Each generation that could be active agrees with the volume.
abbrev pub Consistent : Disk → Index → Type 0
Consistent d i = (g : ℕ) → i.active_generation ≡ some g → Agrees d g i.entries

pub generation_for-ok :
    (reason : Text) (i : Index) (g : ℕ)
    → generation_for reason i ≡ ok g
    → i.active_generation ≡ some g
unfolding generation_for active_generation active_generation_for_repair
generation_for-ok reason i g h = ground arith

update_moved-inv :
    (env : Platform) (g : ℕ) (s t : Text) (i i' : Index)
    → update_moved env g s t i ≡ ok i'
    → (i'.active_generation ≡ i.active_generation) × (i'.unhealthy ≡ i.unhealthy)
unfolding update_moved
update_moved-inv env g s t i i' h = (ground arith, ground arith)

-- What `move_subtree` did.
pub move_subtree-inv :
    (env : Platform) (source destination reason : Text) (i i' : Index)
    → move_subtree env source destination reason i ≡ ok i'
    → (g : ℕ) × (i.active_generation ≡ some g)
      × (update_moved env g source destination i ≡ ok i')
      × (i'.active_generation ≡ i.active_generation)
      × (i'.unhealthy ≡ i.unhealthy)
unfolding move_subtree
move_subtree-inv env source destination reason i i' h =
    elim (Result-cases (generation_for reason i)) [
      | inr (e, f) ↦ absurd (ground arith)
      | inl (g, f) ↦
          (let updated : update_moved env g source destination i ≡ ok i' = ground arith in
            let (kept, still) = update_moved-inv env g source destination i i' updated in
            (g, generation_for-ok reason i g f, updated, kept, still))
    ]

view_after :
    (d : Disk) (g : ℕ) (es : List Entry) (s t q : Text)
    → Agrees d g es
    → node_view (rename (file_at s) (file_at t) d (file_at q)) ≡ (elim (below t q) [
      | some rest ↦ shown g es (s ++ rest)
      | none ↦ if in_subtree s q then none else shown g es q
    ])
unfolding in_subtree
view_after d g es s t q agrees = elim (Option-cases (below t q)) [
  | inl out ↦ elim (Option-cases (below s q)) [
    | inl off ↦ rw (rename-files s t q d, out, off, in_subtree) (agrees q)
    | inr (r, moved) ↦ rw (rename-files s t q d, out, moved, in_subtree)
  ]
  | inr (rest, b) ↦ rw (rename-files s t q d, b) (agrees (s ++ rest))
]

-- Where the volume has nothing, neither shows the index anything.
nothing_shown :
    (d : Disk) (g : ℕ) (es : List Entry) (t rest : Text)
    → IsTree d
    → Agrees d g es
    → d (file_at t) ≡ absent
    → below t (t ++ rest) ≡ some rest
    → shown g es (t ++ rest) ≡ none
nothing_shown d g es t rest tree agrees free b =
    sym (agrees (t ++ rest)) ∙ ap node_view (free_below d t rest tree free b)

-- Moving a path on the volume and then the same subtree of the index keeps the two in agreement: under
-- every path the index shows the kind and the size of what the volume has there, if it did so before
-- and the volume is a tree.
pub move-Consistent :
    (env : Platform) (s t : LogicalPath) (reason : Text) (d d' : Disk) (i i' : Index)
    → IsTree d
    → Consistent d i
    → Manager.move s t d ≡ ok d'
    → move_subtree env s.value t.value reason i ≡ ok i'
    → Consistent d' i'
move-Consistent env s t reason d d' i i' tree before moved indexed g active q =
    let (free, same, named_t, named_s, _) = move-inv s t d d' moved in
    let at_t = nonempty_name t named_t in
    let at_s = nonempty_name s named_s in
    let (h, current, updated, kept, _) = move_subtree-inv env s.value t.value reason i i' indexed in
    let agrees = before h current in
    let empty = ap d (sym at_t) ∙ free in
    let renamed : d' ≡ rename (file_at s.value) (file_at t.value) d = cc in
    let g_is_h : h ≡ g = some_eq (sym current ∙ sym kept ∙ active) in
    ap (λ z. node_view (z (file_at q))) renamed
    ∙ view_after d h i.entries s.value t.value q agrees
    ∙ sym (
        shown-update_moved env h s.value t.value q i i'
          (λ rest b. nothing_shown d h i.entries t.value rest tree agrees empty b) updated)
    ∙ ap (λ z. shown z i'.entries q) g_is_h
