-- ===== src/Uploads/Service/Completion/Unmarked.antt =====
-- An upload whose name cannot be booked: its completion fails and the index does not tell.
use swa_drive.Base.{◌≡◌, none}
use swa_drive.Base.Text.{Text}
use swa_drive.Platform.{Platform}
use swa_drive.Files.Index.{Index}
use swa_drive.World.{World, M}

-- A method that leaves a healthy index as it is.
module _ (i : Index) (healthy : i.unhealthy ≡ none) where
  abbrev Stays : {A : Type 0} → M A → Type 0
  Stays m = (w : World) → w.db.index ≡ i → (m w).1.db.index ≡ i
