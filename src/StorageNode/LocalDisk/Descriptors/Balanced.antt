-- ===== src/StorageNode/LocalDisk/Descriptors/Balanced.antt =====
-- local_disk_chunk_store.cpp, `ScopedFd`: which descriptors are open.
use microsoft.Base.{
  ◌≡◌, refl, Bool, true, false, ◌&&◌, ◌||◌, Option, none, some, List, [], ◌∷◌, Bytes, ◌==◌, arith,
  Bool-cases, inl, inr, if◌then◌else◌,
}
use microsoft.Base.Int.{ℤ, pos, negsuc, pos_part, neg_part, ltb_ℤ}
use microsoft.StorageNode.ChunkId.{ChunkId}
use microsoft.StorageNode.LocalDisk.{Env}
use microsoft.StorageNode.LocalDisk.Descriptors.{
  SystemCall, opens, writes, reads, fsyncs, closes, renames, removes, scoped_fd, destroy, release,
  sync_directory_calls, rename_calls, put_calls, get_calls,
}

abbrev fd_eq : ℤ → ℤ → Bool
fd_eq a b = (pos_part a == pos_part b) && (neg_part a == neg_part b)

abbrev pub has : ℤ → List ℤ → Bool
has fd [] = false
has fd (a ∷ held) = fd_eq fd a || has fd held

abbrev pub without : ℤ → List ℤ → List ℤ
without fd [] = []
without fd (a ∷ held) = if fd_eq fd a then held else a ∷ without fd held

-- The descriptors that are open after the calls. There is none if one is opened that is open, or
-- used or closed when it is not.
unfoldable pub open_after : List SystemCall → List ℤ → Option (List ℤ)
open_after [] held = some held
open_after (opens path fd ∷ calls) held =
    let opened = open_after calls (fd ∷ held) in
    if ltb_ℤ fd (pos 0) then open_after calls held else (if has fd held then none else opened)
open_after (writes fd ∷ calls) held = if has fd held then open_after calls held else none
open_after (reads fd ∷ calls) held = if has fd held then open_after calls held else none
open_after (fsyncs fd ∷ calls) held = if has fd held then open_after calls held else none
open_after (closes fd ∷ calls) held =
    if has fd held then open_after calls (without fd held) else none
open_after (renames old new ∷ calls) held = open_after calls held
open_after (removes path ∷ calls) held = open_after calls held

fd_eq_refl : (fd : ℤ) → fd_eq fd fd ≡ true
fd_eq_refl fd = ground arith

module _ (env : Env) (id : ChunkId) (held : List ℤ) where
  -- With the file's descriptor released, what is left closes the directory's.
  sync_directory_calls-open_after :
      (dir_fd : ℤ)
      → has dir_fd held ≡ false
      → open_after (sync_directory_calls env id dir_fd (scoped_fd (negsuc 0))) held ≡ some held
  unfolding open_after sync_directory_calls destroy
  sync_directory_calls-open_after dir_fd new = elim (Bool-cases (ltb_ℤ dir_fd (pos 0))) [
    | inl fails ↦ rw fails refl
    | inr opened ↦ rw (opened, new, fd_eq_refl dir_fd) refl
  ]

  put_calls-open_after :
      (content : Bytes) (fd dir_fd : ℤ)
      → has fd held ≡ false
      → has dir_fd held ≡ false
      → open_after (put_calls env id content fd dir_fd) held ≡ some held
  unfolding open_after put_calls rename_calls destroy release
  put_calls-open_after content fd dir_fd new new_dir = elim (Bool-cases (ltb_ℤ fd (pos 0))) [
    | inl fails ↦ rw fails refl
    | inr opened ↦
        rw (opened, new)
          (ground (arith, fd_eq_refl fd, sync_directory_calls-open_after dir_fd new_dir))
  ]

  get_calls-open_after :
      (content : Bytes) (fd : ℤ)
      → has fd held ≡ false
      → open_after (get_calls env id content fd) held ≡ some held
  unfolding open_after get_calls destroy
  get_calls-open_after content fd new = elim (Bool-cases (ltb_ℤ fd (pos 0))) [
    | inl fails ↦ rw fails refl
    | inr opened ↦ rw (opened, new) (ground (arith, fd_eq_refl fd))
  ]

  -- Whatever the system calls answer, as long as `open` gives no descriptor that the process had open
  -- before, `Put` and `Get` close every descriptor that they open, once, and use none that is not
  -- open: a process has open after them what it had before. The system may give the directory the
  -- number that the file had, since `Put` has closed and released that.
  pub calls-open_after :
      (content : Bytes) (fd dir_fd : ℤ)
      → has fd held ≡ false
      → has dir_fd held ≡ false
      → (open_after (put_calls env id content fd dir_fd) held ≡ some held)
        × (open_after (get_calls env id content fd) held ≡ some held)
  calls-open_after content fd dir_fd new new_dir =
      (put_calls-open_after content fd dir_fd new new_dir, get_calls-open_after content fd new)
