-- ===== src/Tests/Rebuilding.antt =====
-- Generations of the index one after the other.
use swa_drive.Base.{
  ℕ, ◌≡◌, refl, false, none, some, List, [], ◌∷◌, ok, arith, any, length, filter, ◌==◌,
}
use swa_drive.Base.Text.{codes}
use swa_drive.Database.{Db}
use swa_drive.Files.Index.{
  Entry, Generation, active, building, obsolete, directory, active_generation,
}
use swa_drive.Files.Reindex.{cleanup}
use swa_drive.Files.Reindex.Activation.{IsOnlyActive, activate_generation-IsOnlyActive}
use swa_drive.Files.Reindex.Cleanup.{cleanup-ends, obsolete_rows, other_rows}
use swa_drive.Files.Reindex.Generations.{
  Step, starts, inserts, cleans, run_steps, run_steps-IsShownAs, IsShownAs,
}
use swa_drive.Files.Reindex.Tables.{
  activate_generation, require_building, find_generation, switch_status, is_orphaned, in_obsolete,
}
use swa_drive.Uploads.Model.{pending}
use swa_drive.World.{World}
use swa_drive.Tests.Samples.{env, world, volume}

abbrev folder_of : ℕ → Entry
folder_of g = record {
  generation_id = g;
  path = codes "a";
  parent_path = [];
  name = codes "a";
  normalized_name = codes "a";
  normalized_path = codes "a";
  kind = directory;
  size = 0;
  modified_at = 0;
  indexed_at = 0;
  trash_entry_id = [];
  whole_sha256 = [];
}

-- Generation 1 is obsolete, 2 is active and 3 is being built.
abbrev generations : List Generation
generations =
    record { id = 3; status = building; started_at = 0; completed_at = none }
    ∷ record { id = 2; status = active; started_at = 0; completed_at = some 0 }
    ∷ record { id = 1; status = obsolete; started_at = 0; completed_at = some 0 }
    ∷ []

abbrev rebuilding : World
rebuilding = record (world pending [] volume) {
  db = record (world pending [] volume).db {
    generations = generations;
    index = record {
      active_generation = some 2;
      unhealthy = some (codes "multiple");
      entries = folder_of 3 ∷ folder_of 2 ∷ folder_of 1 ∷ [];
    };
  };
}

cleanup-ends_example :
    (v : World) × (cleanup 2 5 rebuilding ≡ (ok (some 6), v))
    × (obsolete_rows v.db ≡ [])
    × (other_rows v.db ≡ folder_of 3 ∷ folder_of 2 ∷ [])
cleanup-ends_example = unfold in_obsolete in cleanup-ends 2 5 rebuilding refl (omega arith)

abbrev steps : List Step
steps = cleans 500 ∷ starts 7000000000 ∷ inserts 4 (folder_of 0 ∷ []) ∷ cleans 1 ∷ []

run_steps-IsShownAs_example : IsShownAs 2 rebuilding.db (run_steps env steps rebuilding.db)
run_steps-IsShownAs_example = run_steps-IsShownAs env 2 steps rebuilding.db (refl, refl)

abbrev activated : Db
activated = record rebuilding.db {
  generations =
      record { id = 3; status = active; started_at = 0; completed_at = some 9000000000 }
      ∷ record { id = 2; status = obsolete; started_at = 0; completed_at = some 0 }
      ∷ record { id = 1; status = obsolete; started_at = 0; completed_at = some 0 }
      ∷ [];
  index = record rebuilding.db.index { active_generation = some 3; unhealthy = none };
}

activate_generation-IsOnlyActive_example :
    (r : Generation) × (find_generation 3 rebuilding.db.generations ≡ some r)
    × (r.status ≡ building)
    × (length (filter (λ e. e.generation_id == 3) rebuilding.db.index.entries) ≡ 1)
    × (any (is_orphaned 3 rebuilding.db.index.entries) rebuilding.db.index.entries ≡ false)
    × (active_generation activated.index ≡ ok 3)
    × IsOnlyActive 3 activated.generations
    × (activated.index.entries ≡ rebuilding.db.index.entries)
activate_generation-IsOnlyActive_example =
    activate_generation-IsOnlyActive 3 1 9000000000 rebuilding.db {db' = activated} (
      unfold activate_generation require_building find_generation is_orphaned switch_status in refl)
