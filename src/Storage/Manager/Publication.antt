-- ===== src/Storage/Manager/Publication.antt =====
-- Publishing a part: what `FinalizePart` does to the volume.
use swa_drive.Base.{
  ℕ, ◌≡◌, refl, true, false, ◌&&◌, not, none, some, [], ◌∷◌, ok, arith, length, inl, inr,
  Result-cases, ◌∙◌,
}
use mathlib.Core.List.{append-nil}
use swa_drive.Base.Text.{Text, text_eq}
use swa_drive.Storage.Path.{LogicalPath, valid_internal_name}
use swa_drive.Storage.Disk.{regular, present, absent, Disk, rename, below}
use swa_drive.Storage.Manager.{
  in_files, in_uploads, part_info, finalize_part, finalization_state, lstat,
  ensure_destination_available, regular_or_absent,
}

below_self : (p : Text) → below p p ≡ some []
unfolding below
below_self [] = refl
below_self (x ∷ xs) = ground (arith, below_self xs)

-- The two directories are apart.
below-files_uploads : (p : LogicalPath) (name : Text) → below (in_files p) (in_uploads name) ≡ none
unfolding below
below-files_uploads p name = refl

rename-destination : (s t : Text) (d : Disk) → rename s t d t ≡ d s
unfolding rename
rename-destination s t d = rw (below_self t, rename, append-nil s)

rename-source : (s t : Text) (d : Disk) → below t s ≡ none → rename s t d s ≡ absent
unfolding rename
rename-source s t d apart = rw (apart, below_self s, rename)

rename-other :
    (s t name : Text) (d : Disk)
    → below t name ≡ none
    → below s name ≡ none
    → rename s t d name ≡ d name
unfolding rename
rename-other s t name d a b = rw (a, b, rename)

pub part_info-ok :
    (name : Text) (d : Disk) (info : Text × ℕ)
    → part_info name d ≡ ok info
    → d (in_uploads name) ≡ present (regular info.0 info.1)
unfolding part_info lstat
part_info-ok name d info h = ground arith

pub available-ok :
    (p : LogicalPath) (d : Disk)
    → ensure_destination_available p d ≡ ok tt
    → d (in_files p) ≡ absent
unfolding ensure_destination_available
available-ok p d h = ground arith

-- The guards and the effect of a successful publication.
pub finalize_part-inv :
    (name : Text) (p : LogicalPath) (d d' : Disk)
    → finalize_part name p d ≡ ok d'
    → (info : Text × ℕ) × (part_info name d ≡ ok info)
      × (ensure_destination_available p d ≡ ok tt)
      × (valid_internal_name name && not (text_eq p.value []) ≡ true)
      × (d' ≡ rename (in_uploads name) (in_files p) d)
unfolding finalize_part
finalize_part-inv name p d d' h = elim (Result-cases (part_info name d)) [
  | inl (info, e) ↦ (info, e, ground arith, ground arith, ground arith)
  | inr (f, e) ↦ absurd (ground arith)
]

-- A publication that succeeds takes exactly the part to the destination, which was free before: the
-- destination then holds the part's bytes and modification time, the part is gone, and every name
-- outside the two is as it was.
pub finalize_part-publishes :
    (name : Text) (p : LogicalPath) (d d' : Disk) (other : Text)
    → finalize_part name p d ≡ ok d'
    → below (in_files p) other ≡ none
    → below (in_uploads name) other ≡ none
    → (info : Text × ℕ) × (part_info name d ≡ ok info)
      × (d (in_files p) ≡ absent)
      × (d' (in_files p) ≡ present (regular info.0 info.1))
      × (d' (in_uploads name) ≡ absent)
      × (d' other ≡ d other)
finalize_part-publishes name p d d' other h a b =
    let (info, found, free, _, e) = finalize_part-inv name p d d' h in
    (
      info,
      found,
      available-ok p d free,
      rw e (rename-destination (in_uploads name) (in_files p) d ∙ part_info-ok name d info found),
      rw e (rename-source (in_uploads name) (in_files p) d (below-files_uploads p name)),
      rw e (rename-other (in_uploads name) (in_files p) other d a b),
    )

-- The state that recovery reads after a successful publication: no part, and a destination of the
-- part's size and modification time.
pub finalization_state-finalize_part :
    (name : Text) (p : LogicalPath) (d d' : Disk)
    → finalize_part name p d ≡ ok d'
    → (info : Text × ℕ) × (part_info name d ≡ ok info)
      × (finalization_state name p d'
          ≡ ok (record {
            part_exists = false;
            destination_exists = true;
            destination_size = length info.0;
            destination_modified_at = info.1;
          }))
unfolding finalization_state regular_or_absent
finalization_state-finalize_part name p d d' h =
    let (info, found, free, valid, e) = finalize_part-inv name p d d' h in
    let gone = rename-source (in_uploads name) (in_files p) d (below-files_uploads p name) in
    let there =
      rename-destination (in_uploads name) (in_files p) d ∙ part_info-ok name d info found in
    (info, found, rw (e, valid, finalization_state, gone, there, regular_or_absent))
