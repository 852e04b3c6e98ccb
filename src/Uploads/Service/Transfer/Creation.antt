-- ===== src/Uploads/Service/Transfer/Creation.antt =====
-- What `Create` stores (server/internal/uploads/service.go).
use swa_drive.Base.{
  invalid_upload, ℕ, ◌≤◌, ◌<◌, ◌≡◌, refl, sym, ap, subst, List, ◌∙◌, true, not, ◌||◌, Option, some,
  Result, ok, err, arith, inl, inr, if◌then◌else◌, ◌==◌, ltb, length, ◌∷◌, ◌⊎◌,
}
use swa_drive.Base.Text.{Text, text_eq_refl}
use swa_drive.Base.Int.{ℤ, pos, negsuc}
use swa_drive.Audit.Event.{Event}
use swa_drive.Uploads.Model.{Upload, CreateInput, pending}
use swa_drive.Uploads.Chunks.{total_chunks, allowed_chunk_size}
use swa_drive.Uploads.Chunks.Tiling.{IsPlanned}
use swa_drive.Uploads.Repository.{find_row, upload_row, create_with_audit}
use swa_drive.Uploads.Repository.Rows.{create-rows}
use swa_drive.World.{World, transact}
use swa_drive.World.Laws.{after_bind, lift-ok, transact-ok, attempt_lem}
use swa_drive.Uploads.Service.{Identity}
use swa_drive.Uploads.Service.Transfer.{
  after_storing, store_upload, create, plan, requested_chunk_size,
}

-- A size that is allowed is not 0.
allowed-pos : (c : ℕ) → allowed_chunk_size (pos c) ≡ true → 0 < c
unfolding allowed_chunk_size
allowed-pos c h = ground arith

sizes : CreateInput → ℕ → ℕ → Result (ℕ × ℕ × ℕ)
sizes input t c =
    if not (allowed_chunk_size (pos c))
      || not (length input.whole_sha256 == 0 || length input.whole_sha256 == 32)
      || ltb 1000000 (total_chunks t c)
    then err invalid_upload
    else ok (t, c, total_chunks t c)

plan-sizes :
    (input : CreateInput) (t c : ℕ)
    → input.total_size ≡ pos t
    → requested_chunk_size input.chunk_size ≡ pos c
    → plan input ≡ sizes input t c
unfolding plan sizes
plan-sizes input t c e f = rw (e, f, plan)

plan_negative :
    (input : CreateInput) (t n : ℕ)
    → input.total_size ≡ pos t
    → requested_chunk_size input.chunk_size ≡ negsuc n
    → plan input ≡ err invalid_upload
unfolding plan
plan_negative input t n e f = rw (e, f, plan)

ℤ-cases : (z : ℤ) → ((n : ℕ) × (z ≡ pos n)) ⊎ ((n : ℕ) × (z ≡ negsuc n))
ℤ-cases (pos n) = inl (n, refl)
ℤ-cases (negsuc n) = inr (n, refl)

plan-ok :
    (input : CreateInput) (t total size count : ℕ)
    → input.total_size ≡ pos t
    → plan input ≡ ok (total, size, count)
    → (total ≡ t) × (0 < size) × (count ≡ total_chunks t size) × (count ≤ 1000000)
unfolding sizes
plan-ok input t total size count e h = elim (ℤ-cases (requested_chunk_size input.chunk_size)) [
  | inl (c, f) ↦
      (let h' : sizes input t c ≡ ok (total, size, count) = sym (plan-sizes input t c e f) ∙ h in
        let same : c ≡ size = ground arith in
        let fits : allowed_chunk_size (pos c) ≡ true = ground arith in
        (ground arith, (rw (← same) (allowed-pos c fits)), ground arith, ground arith))
  | inr (n, f) ↦ (let bad = plan_negative input t n e f in absurd (cc))
]

find_row-first :
    (x : Upload) (rows : List Upload)
    → find_row x.user_id x.id (upload_row x ∷ rows) ≡ some (upload_row x)
unfolding find_row upload_row
find_row-first x rows = rw (text_eq_refl x.id) (ground arith)

after_storing-ok :
    (x : Upload) (e : Event) (w : World) (r : Result (Unit {0})) (w₁ : World) {u : Upload}
    {v : World}
    → transact (create_with_audit x e) w ≡ (r, w₁)
    → after_storing x r w₁ ≡ (ok u, v)
    → (u ≡ x) × (find_row u.user_id u.id v.db.uploads ≡ some (upload_row u))
unfolding after_storing
after_storing-ok x e w (err f) w₁ done after = absurd (cc)
after_storing-ok x e w (ok _) w₁ {u} {v} done after =
    let (t, stored, _) = transact-ok (create_with_audit x e) w done in
    let rows = (create-rows x e t w.db w₁.db stored).0 in
    let same : u ≡ x = ground arith in
    let last : v ≡ w₁ = ground arith in
    let found =
      ap (find_row x.user_id x.id) (ap (λ z. z.db.uploads) last ∙ rows)
      ∙ find_row-first x w.db.uploads in
    (same, subst (λ z. find_row z.user_id z.id v.db.uploads ≡ some (upload_row z)) (sym same) found)

store_upload-ok :
    (x : Upload) (e : Event) (w : World) {u : Upload} {v : World}
    → store_upload x e w ≡ (ok u, v)
    → (u ≡ x) × (find_row u.user_id u.id v.db.uploads ≡ some (upload_row u))
unfolding store_upload
store_upload-ok x e w h = after_bind _ _ w h λ stored w₁ tried h₁.
    after_storing-ok x e w stored w₁ (attempt_lem (transact (create_with_audit x e)) w tried) h₁

-- An upload that `Create` returns, for a total size that is an `int64`, has the sizes of a plan: a
-- positive chunk size, and the chunk count that goes with the total size, at most a million. It is
-- pending, and the repository finds its row under its owner and its id.
pub create-IsPlanned :
    (who : Identity) (input : CreateInput) (random : Option Text) (t : ℕ) (w : World) {u : Upload}
    {v : World}
    → input.total_size ≡ pos t
    → t ≤ 9223372036854775807
    → create who input random w ≡ (ok u, v)
    → IsPlanned u
      × (u.total_size ≡ t)
      × (u.total_chunks ≤ 1000000)
      × (u.status ≡ pending)
      × (find_row u.user_id u.id v.db.uploads ≡ some (upload_row u))
unfolding create
create-IsPlanned who input random t w {u} {v} e small h = after_bind _ _ w h λ _ w₁ owner h₁.
    after_bind _ _ w₁ h₁ λ destination w₂ parsed h₂. after_bind _ _ w₂ h₂ λ sizes w₃ planned h₃.
      after_bind _ _ w₃ h₃ λ _ w₄ space h₄. after_bind _ _ w₄ h₄ λ _ w₅ prepared h₅.
        after_bind _ _ w₅ h₅ λ id w₆ named h₆. after_bind _ _ w₆ h₆ λ x w₇ looked h₇.
          after_bind _ _ w₇ h₇ λ _ w₈ made h₈. after_bind _ _ w₈ h₈ λ now w₉ ticked h₉.
            after_bind _ _ w₉ h₉ λ ev w₁₀ noted h₁₀.
              let (chosen, _) = lift-ok (plan input) w₂ planned in
              let (total, positive, count, few) =
                plan-ok input t sizes.0 sizes.1 sizes.2 e chosen in
              let (same, found) = store_upload-ok _ ev w₁₀ h₁₀ in
              let its_size = ap (λ z. z.chunk_size) same in
              let its_total = ap (λ z. z.total_size) same in
              let its_count = ap (λ z. z.total_chunks) same in
              (
                record {
                  chunk_pos = omega (arith, its_size, positive);
                  total_int64 = omega (arith, its_total, total, small);
                  count =
                      its_count
                      ∙ count
                      ∙ ap (λ z. total_chunks z sizes.1) (sym (its_total ∙ total))
                      ∙ ap (total_chunks u.total_size) (sym its_size);
                },
                its_total ∙ total,
                omega (arith, its_count, few),
                ap (λ z. z.status) same,
                found,
              )
