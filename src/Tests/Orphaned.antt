-- ===== src/Tests/Orphaned.antt =====
-- A sweep over the uploads' directory.
use swa_drive.Base.{◌≡◌, refl, true, List, [], ◌∷◌}
use swa_drive.Base.Text.{Text, codes, text_eq}
use swa_drive.Base.Int.{pos}
use swa_drive.Storage.Disk.{present, regular, put_node}
use swa_drive.Uploads.Model.{pending}
use swa_drive.Uploads.Repository.{is_known_part}
use swa_drive.World.{World}
use swa_drive.Uploads.Orphans.{UploadPartEntry, valid_part_name, reconcile_orphans}
use swa_drive.Uploads.Orphans.Safety.{reconcile_orphans-spares}
use swa_drive.Tests.Samples.{volume, world}

-- A part that no upload has.
abbrev lost : Text
lost = codes "00112233445566778899aabbccddeeff.part"

abbrev entries : List UploadPartEntry
entries =
    record { name = codes "p.part"; modified_at = 7 } ∷ record { name = lost; modified_at = 7 } ∷ []

abbrev littered : World
littered = world pending [] (
    put_node (codes "uploads/00112233445566778899aabbccddeeff.part") (present (regular [] 7))
      volume)

lost_valid : valid_part_name lost ≡ true
unfolding valid_part_name text_eq
lost_valid = refl

reconcile_orphans-spares_example :
    (reconcile_orphans entries (pos 1) (pos 100) true littered).1.disk (codes "uploads/p.part")
    ≡ littered.disk (codes "uploads/p.part")
reconcile_orphans-spares_example =
    reconcile_orphans-spares entries (pos 1) (pos 100) true littered (codes "p.part")
      (unfold is_known_part text_eq in refl)
