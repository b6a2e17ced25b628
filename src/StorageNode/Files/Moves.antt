-- ===== src/StorageNode/Files/Moves.antt =====
-- A file that is written under a temporary name and renamed over a name that is free.
use microsoft.Base.{ℕ, ◌+◌, ◌≡◌, refl, false, none, some, Bytes, arith}
use microsoft.StorageNode.Files.{FilePath, path_eq, Disk, lookup, insert, erase, rename}
use microsoft.StorageNode.Files.Update.{
  lookup-insert, lookup-erase, IsUnique, insert-IsUnique, erase-IsUnique, total, total-insert_new,
  total-insert_light, total-erase_light, path_eq_refl,
}

module _ (tmp final : FilePath) (content : Bytes) (d : Disk) (ne : path_eq final tmp ≡ false)
    (free : lookup final d ≡ none) where
  module _ (there : lookup tmp d ≡ some content) where
    rename_there : rename tmp final d ≡ insert final content (erase tmp d)
    unfolding rename
    rename_there = rw (there, rename) refl

    pub total-rename :
        (weight : FilePath → Bytes → ℕ)
        → ((b : Bytes) → weight tmp b ≡ 0)
        → total weight (rename tmp final d) ≡ total weight d + weight final content
    total-rename weight light =
        let still_free : lookup final (erase tmp d) ≡ none =
          rw (lookup-erase tmp final d, ne) free in
        rw rename_there (
          omega (
            arith,
            total-insert_new weight final content (erase tmp d) still_free,
            total-erase_light weight tmp d light,
          ))

    pub rename-IsUnique : IsUnique d → IsUnique (rename tmp final d)
    rename-IsUnique u = rw rename_there (insert-IsUnique final content _ (erase-IsUnique tmp d u))

module _ (tmp final : FilePath) (content : Bytes) (d : Disk) (ne : path_eq final tmp ≡ false)
    (free : lookup final d ≡ none) where
  written : lookup tmp (insert tmp content d) ≡ some content
  written = rw (lookup-insert tmp tmp content d, path_eq_refl tmp) refl

  still_free : lookup final (insert tmp content d) ≡ none
  still_free = rw (lookup-insert tmp final content d, ne) free

  pub total-renamed :
      (weight : FilePath → Bytes → ℕ)
      → ((b : Bytes) → weight tmp b ≡ 0)
      → total weight (rename tmp final (insert tmp content d))
        ≡ total weight d + weight final content
  total-renamed weight light = omega (
    arith,
    total-rename tmp final content (insert tmp content d) ne still_free written weight light,
    total-insert_light weight tmp content d light,
  )

  pub IsUnique-renamed : IsUnique d → IsUnique (rename tmp final (insert tmp content d))
  IsUnique-renamed u =
      rename-IsUnique tmp final content (insert tmp content d) ne still_free written
        (insert-IsUnique tmp content d u)
