-- ===== src/Storage/Disk.antt =====
-- The storage volume as the operating system shows it to `os.Root`: what `Lstat` answers at each name
-- below the storage root, and the calls that change it.
pub mod Writing
use swa_drive.Base.{
  ℕ, zero, suc, ◌+◌, ◌-◌, ◌≡◌, Bool, true, false, ◌&&◌, Option, none, some, List, [], ◌∷◌, ◌++◌,
  Result, ok, err, conflict, not_found, fault, ◌==◌, if◌then◌else◌, length, take, drop,
}
use swa_drive.Base.Text.{Text, text_eq}

pub data Node : Type 0 where
  -- the bytes and the modification time
  regular : Text → ℕ → Node
  folder link special : Node

-- `broken` stands for any error but `fs.ErrNotExist`, such as a component that is no directory.
pub data Lookup : Type 0 where
  present : Node → Lookup
  absent broken : Lookup

abbrev pub Disk : Type 0
Disk = Text → Lookup

-- `some rest` where `name` is `path`, with `rest` empty, or lies below it, with `rest` from the slash on.
unfoldable pub below : Text → Text → Option Text
below [] [] = some []
below [] (b ∷ bs) = if b == b'/' then some (b ∷ bs) else none
below (x ∷ xs) [] = none
below (x ∷ xs) (y ∷ ys) = if x == y then below xs ys else none

-- Sets what is at one name.
unfoldable pub put_node : Text → Lookup → Disk → Disk
put_node path l d name = if text_eq name path then l else d name

-- `Rename` of a name that exists to one that does not, with all that lies below.
unfoldable pub rename : Text → Text → Disk → Disk
rename source destination d name = elim (below destination name) [
  | some rest ↦ d (source ++ rest)
  | none ↦ elim (below source name) [ some _ ↦ absent | none ↦ d name ]
]

unfoldable pub pad : ℕ → Text
pad zero = []
pad (suc n) = 0 ∷ pad n

-- `WriteAt`: a write past the end leaves zeros in between.
unfoldable pub write_at : Text → ℕ → Text → Text
unfolding pad
write_at old offset new =
    take offset old ++ (pad (offset - length old) ++ (new ++ drop (offset + length new) old))
