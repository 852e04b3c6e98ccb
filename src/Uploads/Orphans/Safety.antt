-- ===== src/Uploads/Orphans/Safety.antt =====
-- What the removal of orphan parts can never touch.
use swa_drive.Base.{
  ℕ, ◌+◌, ◌≡◌, refl, sym, ap, subst, ◌∙◌, Bool, true, false, not, ◌&&◌, ◌||◌, List, [], ◌∷◌, ◌++◌,
  ok, arith, inl, inr, Bool-cases, if◌then◌else◌, All, length, leb, ◌==◌,
}
use swa_drive.Base.Text.{Text, text_eq, text_eq_iff}
use swa_drive.Base.Int.{ℤ}
use swa_drive.Storage.Disk.{Disk, Lookup, put_node}
use swa_drive.Storage.Manager.{remove_part, in_uploads}
use swa_drive.Uploads.Repository.{Db, is_known_part}
use swa_drive.World.{World, change, fallible, now}
use swa_drive.World.Laws.{bind-ok, query-ok, lift-ok, fallible-same, now-same}
use swa_drive.World.Frame.{
  Keeps, bind-Keeps, disk_of, now-disk, fallible-disk, query-disk, change-Keeps, bind_view,
}
use swa_drive.Uploads.Orphans.{
  UploadPartEntry, valid_part_name, collect, select_orphans, remove_orphans, finish_orphans,
  reconcile_orphans,
}

module _ (name : Text) where
  -- What the volume has under a part's name.
  abbrev part_of : World → Lookup
  part_of w = w.disk (in_uploads name)

  -- A part is spared by a list of names that it is not in.
  abbrev IsSpared : List Text → Type 0
  IsSpared = All (λ n. text_eq name n ≡ false)

  remove_part-other :
      (n : Text) (d d' : Disk)
      → text_eq name n ≡ false
      → remove_part n d ≡ ok d'
      → d' (in_uploads name) ≡ d (in_uploads name)
  unfolding remove_part put_node text_eq
  remove_part-other n d d' apart h = ground (arith, apart)

  remove-part_of : (n : Text) → text_eq name n ≡ false → Keeps part_of (change (remove_part n))
  remove-part_of n apart =
      change-Keeps (λ d. d (in_uploads name)) (remove_part n)
        (λ d d' h. remove_part-other n d d' apart h)

  orphans-part_of : (ns : List Text) → IsSpared ns → Keeps part_of (remove_orphans ns)
  unfolding remove_orphans
  orphans-part_of [] s = λ w. refl
  orphans-part_of (n ∷ ns) (apart, s) =
      bind-Keeps part_of _ _ (remove-part_of n apart) (λ _. orphans-part_of ns s)

finish-part_of :
    (name : Text) (apply : Bool) (n : ℕ) (os : List Text)
    → IsSpared name os
    → Keeps (part_of name) (finish_orphans apply n os)
unfolding finish_orphans
finish-part_of name true n os s =
    bind-Keeps (part_of name) _ _ (orphans-part_of name os s) (λ _ w. refl)
finish-part_of name false n os s = λ w. refl

All-append : {A : Type 0} (P : A → Type 0) (xs ys : List A) → All P xs → All P ys → All P (xs ++ ys)
All-append P [] ys a b = b
All-append P (x ∷ xs) ys (p, a) b = (p, All-append P xs ys a b)

-- What the code may delete: a name in the format of parts that no upload has.
abbrev deletable : Db → Text → Bool
deletable db n = not (is_known_part n db) && valid_part_name n

collect-valid :
    (limit : ℕ) (es cs : List UploadPartEntry) {r : List UploadPartEntry}
    → collect limit es cs ≡ ok r
    → All (λ c. valid_part_name c.name ≡ true) cs
    → All (λ c. valid_part_name c.name ≡ true) r
unfolding collect
collect-valid limit [] cs h a = subst (All (λ c. valid_part_name c.name ≡ true)) (ground arith) a
collect-valid limit (e ∷ es) cs h a = elim (Bool-cases (valid_part_name e.name)) [
  | inl valid ↦ elim (Bool-cases (length cs == limit)) [
    | inl full ↦ absurd (ground arith)
    | inr room ↦
        collect-valid limit es (cs ++ e ∷ []) (ground arith)
          (All-append _ cs (e ∷ []) a (valid, tt))
  ]
  | inr other ↦ collect-valid limit es cs (ground arith) a
]

select-deletable :
    (age t : ℕ) (db : Db) (cs : List UploadPartEntry) (os : List Text) (w : World) {r : List Text}
    {v : World}
    → w.db ≡ db
    → All (λ c. valid_part_name c.name ≡ true) cs
    → All (λ n. deletable db n ≡ true) os
    → select_orphans age t cs os w ≡ (ok r, v)
    → All (λ n. deletable db n ≡ true) r
unfolding select_orphans
select-deletable age t db [] os w same valid a h =
    subst (All (λ n. deletable db n ≡ true)) (ground arith) a
select-deletable age t db (c ∷ cs) os w {r} {v} same (valid, rest) a h =
    let (known, w₁, asked, h₁) = bind-ok _ _ w h in
    let (answer, same₁, _) = query-ok (λ z. ok (is_known_part c.name z)) w asked in
    let known_is : is_known_part c.name db ≡ known =
      ap (is_known_part c.name) (sym same) ∙ (ground arith) in
    elim (Bool-cases (known || not (leb (c.modified_at + age) t))) [
      | inl spare ↦ select-deletable age t db cs os w₁ (same₁ ∙ same) rest a (
          subst (λ b. select_orphans age t cs (if b then os else os ++ c.name ∷ []) w₁ ≡ (ok r, v))
            spare h₁)
      | inr old ↦
          select-deletable age t db cs (os ++ c.name ∷ []) w₁ (same₁ ∙ same) rest
            (All-append _ os (c.name ∷ []) a ((rw (known_is, valid) (ground arith)), tt))
            (subst
              (λ b. select_orphans age t cs (if b then os else os ++ c.name ∷ []) w₁ ≡ (ok r, v))
              old h₁)
    ]

select-disk :
    (age t : ℕ) (cs : List UploadPartEntry) (os : List Text)
    → Keeps disk_of (select_orphans age t cs os)
unfolding select_orphans
select-disk age t [] os = λ w. refl
select-disk age t (c ∷ cs) os =
    bind-Keeps disk_of _ _ (query-disk _) (λ known. select-disk age t cs _)

-- A name that may not be deleted is none of those that may be.
deletable-IsSpared :
    (db : Db) (name : Text) (ns : List Text)
    → deletable db name ≡ false
    → All (λ n. deletable db n ≡ true) ns
    → IsSpared name ns
deletable-IsSpared db name [] h a = tt
deletable-IsSpared db name (n ∷ ns) h (p, a) =
    let apart : text_eq name n ≡ false = elim (Bool-cases (text_eq name n)) [
      | inl e ↦
          (let one = (text_eq_iff name n).0 e in absurd (ground (arith, ap (deletable db) one)))
      | inr e ↦ e
    ] in
    (apart, deletable-IsSpared db name ns h a)

-- Whatever the walk visits, whatever the limits are and whatever fails on the way, a reconciliation of
-- orphan parts leaves a part alone that belongs to an upload or that is not named in the format of
-- upload parts.
pub reconcile_orphans-spares :
    (entries : List UploadPartEntry) (age limit : ℤ) (apply : Bool) (w : World) (name : Text)
    → is_known_part name w.db || not (valid_part_name name) ≡ true
    → (reconcile_orphans entries age limit apply w).1.disk (in_uploads name)
      ≡ w.disk (in_uploads name)
unfolding reconcile_orphans
reconcile_orphans-spares entries age limit apply w name h =
    let x = part_of name w in
    bind_view (part_of name) x _ _ w refl λ limits w₁ parsed.
      let same₁ : w₁ ≡ w = ground arith in
      let kept₁ = ap (part_of name) same₁ in
      bind_view (part_of name) x _ _ w₁ (ap (λ d. d (in_uploads name)) (fallible-disk w₁) ∙ kept₁)
        λ _ w₂ passed.
          let same₂ : w₂ ≡ (fallible w₁).1 = ap (λ z. z.1) (sym passed) in
          let kept₂ =
            ap (part_of name) same₂ ∙ ap (λ d. d (in_uploads name)) (fallible-disk w₁) ∙ kept₁ in
          let db₂ = ap (λ z. z.db) same₂ ∙ (fallible-same w₁).0 ∙ ap (λ z. z.db) same₁ in
          bind_view (part_of name) x _ _ w₂ kept₂ λ cs w₃ collected.
            let (listed, same₃) = lift-ok (collect limits.1 entries []) w₂ collected in
            let kept₃ = ap (part_of name) same₃ ∙ kept₂ in
            let db₃ = ap (λ z. z.db) same₃ ∙ db₂ in
            bind_view (part_of name) x _ _ w₃ (ap (λ d. d (in_uploads name)) (now-disk w₃) ∙ kept₃)
              λ t w₄ looked.
                let same₄ : w₄ ≡ (now w₃).1 = ap (λ z. z.1) (sym looked) in
                let kept₄ =
                  ap (part_of name) same₄ ∙ ap (λ d. d (in_uploads name)) (now-disk w₃) ∙ kept₃ in
                let db₄ = ap (λ z. z.db) same₄ ∙ (now-same w₃).0 ∙ db₃ in
                let disk₅ =
                  ap (λ d. d (in_uploads name)) (select-disk limits.0 t cs [] w₄) ∙ kept₄ in
                bind_view (part_of name) x _ _ w₄ disk₅ λ os w₅ selected.
                  let valid = collect-valid limits.1 entries [] listed tt in
                  let found = select-deletable limits.0 t w.db cs [] w₄ db₄ valid tt selected in
                  finish-part_of name apply (length cs) os
                    (deletable-IsSpared w.db name os (ground arith) found) w₅
                  ∙ ap (λ z. z.1.disk (in_uploads name)) (sym selected)
                  ∙ disk₅
