-- ===== src/StorageNode/Files.antt =====
-- The part of std::filesystem that the chunk store uses: the regular files below the data root, and
-- the extension and the stem of a file name. A path is the list of its components below the root.
-- Directories are not recorded.
pub mod Names
pub mod Update
pub mod Moves
use microsoft.Base.{
  ℕ, suc, ◌+◌, ◌-◌, Bool, true, false, ◌&&◌, Option, none, some, List, [], ◌∷◌, ◌++◌, Bytes,
  bytes_eq, codes, length, take, ◌==◌, if◌then◌else◌,
}

abbrev pub FilePath : Type 0
FilePath = List Bytes

abbrev pub path_eq : FilePath → FilePath → Bool
path_eq [] [] = true
path_eq [] (y ∷ q) = false
path_eq (x ∷ p) [] = false
path_eq (x ∷ p) (y ∷ q) = bytes_eq x y && path_eq p q

abbrev pub Disk : Type 0
Disk = List (FilePath × Bytes)

unfoldable pub lookup : FilePath → Disk → Option Bytes
lookup p [] = none
lookup p ((q, content) ∷ d) = if path_eq p q then some content else lookup p d

-- Create a file, or replace its content.
unfoldable pub insert : FilePath → Bytes → Disk → Disk
insert p content [] = (p, content) ∷ []
insert p content ((q, old) ∷ d) =
    if path_eq p q then (q, content) ∷ d else (q, old) ∷ insert p content d

unfoldable pub erase : FilePath → Disk → Disk
erase p [] = []
erase p ((q, content) ∷ d) =
    let rest = erase p d in if path_eq p q then rest else (q, content) ∷ rest

-- `std::filesystem::rename`, which replaces the target.
unfoldable pub rename : FilePath → FilePath → Disk → Disk
rename old new d = elim (lookup old d) [
  | none ↦ d
  | some content ↦ insert new content (erase old d)
]

-- The part of a name from its last dot on.
unfoldable pub last_dot : Bytes → Option Bytes
last_dot [] = none
last_dot (c ∷ s) = elim (last_dot s) [
  | some e ↦ some e
  | none ↦ if c == b'.' then some (c ∷ s) else none
]

-- `path::extension`: a dot in front does not count, nor do those of `..`.
unfoldable pub extension : Bytes → Bytes
unfolding last_dot
extension [] = []
extension (c ∷ s) =
    if bytes_eq (c ∷ s) (codes "..") then [] else elim (last_dot s) [ none ↦ [] | some e ↦ e ]

unfoldable pub stem : Bytes → Bytes
unfolding extension
stem name = take (length name - length (extension name)) name

abbrev pub filename : FilePath → Bytes
filename [] = []
filename (name ∷ []) = name
filename (dir ∷ name ∷ p) = filename (name ∷ p)

-- `entry.path().extension() == ".chunk"`
unfoldable pub is_chunk_file : FilePath → Bool
unfolding extension
is_chunk_file p = bytes_eq (extension (filename p)) (codes ".chunk")
