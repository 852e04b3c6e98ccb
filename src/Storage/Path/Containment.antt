-- ===== src/Storage/Path/Containment.antt =====
-- What `ParsePath` lets through never leaves the tree that it is resolved in.
use swa_drive.Base.{
  ◌≡◌, refl, ◌≢◌, ◌≤◌, Bool, true, ◌||◌, List, [], ◌∷◌, ◌++◌, ok, arith, sym, ◌⊎◌, inl, inr,
  &&-eq_true, if◌then◌else◌, All, all, length,
}
use mathlib.Core.List.{reverse, append_assoc, append-nil, reverse-cons}
use swa_drive.Base.Text.{Text, codes, text_eq, text_eq_iff, split, join, join-split}
use swa_drive.Storage.Path.{
  LogicalPath, parse_path, maximum_path_bytes, maximum_component_bytes, maximum_path_depth,
  valid_component,
}

-- The lexical resolution of `path.Clean` on relative components: an empty component and `.` are
-- dropped, and `..` takes the last one back.
push_component : List Text → Text → List Text
push_component stack c =
    if text_eq c [] || text_eq c (codes ".")
    then stack
    else if text_eq c (codes "..")
    then elim stack [ [] ↦ [] | _ ∷ rest ↦ rest ]
    else c ∷ stack

resolve_onto : List Text → List Text → List Text
resolve_onto stack [] = reverse stack
resolve_onto stack (c ∷ cs) = resolve_onto (push_component stack c) cs

pub resolve : List Text → List Text
unfolding resolve_onto push_component
resolve cs = resolve_onto [] cs

valid-push :
    (stack : List Text) (c : Text) → valid_component c ≡ true → push_component stack c ≡ c ∷ stack
unfolding valid_component push_component
valid-push stack c h = ground arith

resolve_onto-valid :
    (stack cs : List Text)
    → all valid_component cs ≡ true
    → resolve_onto stack cs ≡ reverse stack ++ cs
unfolding resolve_onto
resolve_onto-valid stack [] h = sym (append-nil (reverse stack))
resolve_onto-valid stack (c ∷ cs) h =
    let both = &&-eq_true (valid_component c) (all valid_component cs) h in
    rw (valid-push stack c both.0, resolve_onto-valid (c ∷ stack) cs both.1, reverse-cons c stack)
      (append_assoc (reverse stack) (c ∷ []) cs)

-- What an accepted value satisfies, as the proofs use it.
pub parse_path-ok :
    (v : Text) (root : Bool) (p : LogicalPath)
    → parse_path v root ≡ ok p
    → (p.value ≡ v)
      × (((v ≡ []) × (root ≡ true))
          ⊎ ((v ≢ [])
              × (length v ≤ maximum_path_bytes)
              × (length (split b'/' v) ≤ maximum_path_depth)
              × (all valid_component (split b'/' v) ≡ true)))
unfolding parse_path
parse_path-ok v root p h = ground (arith, text_eq_iff v [])

-- Every component of an accepted path is a name of 1 to 255 bytes and is neither `.` nor `..`.
abbrev pub IsName : Text → Type 0
IsName c =
    (1 ≤ length c) × (length c ≤ maximum_component_bytes) × (c ≢ codes ".") × (c ≢ codes "..")

length_pos : (c : Text) → c ≢ [] → 1 ≤ length c
length_pos [] h = absurd (h refl)
length_pos (b ∷ bs) h = omega arith

valid_component-IsName : (c : Text) → valid_component c ≡ true → IsName c
unfolding valid_component
valid_component-IsName c h =
    let empty = text_eq_iff c [] in
    let dot = text_eq_iff c (codes ".") in
    let up = text_eq_iff c (codes "..") in
    (length_pos c (ground arith), ground arith, ground arith, ground arith)

all-IsName : (cs : List Text) → all valid_component cs ≡ true → All IsName cs
all-IsName [] h = tt
all-IsName (c ∷ cs) h =
    let both = &&-eq_true (valid_component c) (all valid_component cs) h in
    (valid_component-IsName c both.0, all-IsName cs both.1)

-- An accepted path is kept as it was given and resolves to itself: the lexical resolution of its
-- components, which drops `.` and takes a component back at `..`, changes no byte of it.
pub parse_path-resolve :
    (v : Text) (root : Bool) (p : LogicalPath)
    → parse_path v root ≡ ok p
    → (p.value ≡ v) × (join b'/' (resolve (split b'/' v)) ≡ v)
unfolding resolve
parse_path-resolve v root p h = elim (parse_path-ok v root p h).1 [
  | inl (e, _) ↦ (
    (parse_path-ok v root p h).0,
    rw e (unfold split join resolve_onto push_component text_eq in refl),
  )
  | inr (_, _, _, names) ↦ (
    (parse_path-ok v root p h).0,
    rw (resolve_onto-valid [] (split b'/' v) names) (join-split b'/' v),
  )
]

-- An accepted path that is not the root has at most 4096 bytes and 128 components, each a name
-- of 1 to 255 bytes other than `.` and `..`. The root is accepted only where it is allowed.
pub parse_path-bounds :
    (v : Text) (root : Bool) (p : LogicalPath)
    → parse_path v root ≡ ok p
    → ((v ≡ []) × (root ≡ true))
      ⊎ ((length v ≤ 4096) × (length (split b'/' v) ≤ 128) × All IsName (split b'/' v))
parse_path-bounds v root p h = elim (parse_path-ok v root p h).1 [
  | inl r ↦ inl r
  | inr (_, bytes, depth, names) ↦ inr (bytes, depth, all-IsName _ names)
]
