-- ===== src/StorageNode/LocalDisk/Descriptors.antt =====
-- local_disk_chunk_store.cpp, `ScopedFd` and its use in `Put` and `Get`: the system calls on file
-- descriptors, in order. What a call answers is in `Env`, but for `open`, which answers the
-- descriptors given.
pub mod Balanced
use microsoft.Base.{
  Bool, not, ◌||◌, List, [], ◌∷◌, ◌++◌, Bytes, codes, length, leb, ◌==◌, none, some, if◌then◌else◌,
}
use microsoft.Base.Int.{ℤ, pos, negsuc, ltb_ℤ}
use microsoft.StorageNode.ChunkId.{ChunkId}
use microsoft.StorageNode.Files.{FilePath}
use microsoft.StorageNode.LocalDisk.{Env, shard_dir_for, final_path_for, tmp_path_for, write_fails}

-- With the paths and the descriptors that they are about.
pub data SystemCall : Type 0 where
  opens : FilePath → ℤ → SystemCall
  writes reads fsyncs closes : ℤ → SystemCall
  renames : FilePath → FilePath → SystemCall
  removes : FilePath → SystemCall

pub record ScopedFd : Type 0 where
  pub fd : ℤ

abbrev pub scoped_fd : ℤ → ScopedFd
scoped_fd fd = record { fd = fd }

abbrev pub is_closed : ScopedFd → Bool
is_closed file = ltb_ℤ file.fd (pos 0)

-- The destructor.
unfoldable pub destroy : ScopedFd → List SystemCall
destroy file = if is_closed file then [] else closes file.fd ∷ []

unfoldable pub release : ScopedFd → ℤ × ScopedFd
release file = (file.fd, record file { fd = negsuc 0 })

module _ (env : Env) (id : ChunkId) where
  -- `Put` from the fsync of the directory on, with the descriptor of the file still in scope.
  unfoldable pub sync_directory_calls : ℤ → ScopedFd → List SystemCall
  unfolding destroy
  sync_directory_calls dir_fd file =
      let dir = scoped_fd dir_fd in
      opens (shard_dir_for id) dir_fd
      ∷ ((if is_closed dir then [] else fsyncs dir_fd ∷ []) ++ destroy dir ++ destroy file)

  -- `Put` from the `close` on.
  unfoldable pub rename_calls : ℤ → ScopedFd → List SystemCall
  unfolding release sync_directory_calls
  rename_calls dir_fd file =
      let (fd, released) = release file in
      let tmp = tmp_path_for id env.uuid in
      closes fd
      ∷ renames tmp (final_path_for id)
      ∷ (if env.rename_fails
          then removes tmp ∷ destroy released
          else sync_directory_calls dir_fd released)

  -- `Put` from the `open` of the temporary file on; an empty chunk is not written.
  unfoldable pub put_calls : Bytes → ℤ → ℤ → List SystemCall
  unfolding rename_calls
  put_calls content fd dir_fd =
      let file = scoped_fd fd in
      let tmp = tmp_path_for id env.uuid in
      opens tmp fd
      ∷ (if is_closed file
          then destroy file
          else (if leb 1 (length content) then writes fd ∷ [] else [])
            ++ (if write_fails env content
                then removes tmp ∷ destroy file
                else fsyncs fd
                  ∷ (if env.fsync_fails
                      then removes tmp ∷ destroy file
                      else rename_calls dir_fd file)))

  -- `Get` from the `open` on, of a file with this content: every later return closes it.
  unfoldable pub get_calls : Bytes → ℤ → List SystemCall
  get_calls content fd =
      let file = scoped_fd fd in
      opens (final_path_for id) fd
      ∷ ((if is_closed file || not (leb 1 (length content)) then [] else reads fd ∷ [])
          ++ destroy file)
