-- ===== src/StorageNode/Files/Update.antt =====
-- What a lookup finds after an update, and how the sum over the files changes.
use microsoft.Base.{
  ℕ, ◌+◌, ◌≡◌, refl, true, none, some, [], ◌∷◌, Bytes, bytes_eq→eq, bytes_eq_refl, arith,
  if◌then◌else◌, ◌↔◌,
}
use microsoft.StorageNode.Files.{FilePath, path_eq, Disk, lookup, insert, erase}

path_eq→eq : (p q : FilePath) → path_eq p q ≡ true → p ≡ q
path_eq→eq [] [] h = refl
path_eq→eq [] (y ∷ q) h = cc
path_eq→eq (x ∷ p) [] h = cc
path_eq→eq (x ∷ p) (y ∷ q) h = ground (arith, bytes_eq→eq x y, path_eq→eq p q)

pub path_eq_refl : (p : FilePath) → path_eq p p ≡ true
path_eq_refl [] = refl
path_eq_refl (x ∷ p) = ground (arith, bytes_eq_refl x, path_eq_refl p)

pub path_eq_iff : (p q : FilePath) → (path_eq p q ≡ true) ↔ (p ≡ q)
path_eq_iff p q = (path_eq→eq p q, λ e. rw e (path_eq_refl q))

pub lookup-insert :
    (p q : FilePath) (content : Bytes) (d : Disk)
    → lookup q (insert p content d) ≡ (if path_eq q p then some content else lookup q d)
unfolding lookup insert
lookup-insert p q content [] = refl
lookup-insert p q content ((r, old) ∷ d) =
    ground (arith, path_eq_iff p r, path_eq_iff q r, path_eq_iff q p, lookup-insert p q content d)

pub lookup-erase :
    (p q : FilePath) (d : Disk) → lookup q (erase p d) ≡ (if path_eq q p then none else lookup q d)
unfolding lookup erase
lookup-erase p q [] = ground arith
lookup-erase p q ((r, old) ∷ d) =
    ground (arith, path_eq_iff p r, path_eq_iff q r, path_eq_iff q p, lookup-erase p q d)

-- No path is listed twice.
abbrev pub IsUnique : Disk → Type 0
IsUnique [] = Unit
IsUnique ((p, content) ∷ d) = (lookup p d ≡ none) × IsUnique d

pub insert-IsUnique :
    (p : FilePath) (content : Bytes) (d : Disk) → IsUnique d → IsUnique (insert p content d)
unfolding insert lookup
insert-IsUnique p content [] u = (refl, tt)
insert-IsUnique p content ((q, old) ∷ d) u = ground (
  arith,
  path_eq_iff p q,
  path_eq_iff q p,
  lookup-insert p q content d,
  insert-IsUnique p content d u.1,
)

pub erase-IsUnique : (p : FilePath) (d : Disk) → IsUnique d → IsUnique (erase p d)
unfolding erase lookup
erase-IsUnique p [] u = tt
erase-IsUnique p ((q, old) ∷ d) u =
    ground (arith, path_eq_iff q p, lookup-erase p q d, erase-IsUnique p d u.1)

erase-none : (p : FilePath) (d : Disk) → lookup p d ≡ none → erase p d ≡ d
unfolding erase lookup
erase-none p [] e = refl
erase-none p ((q, old) ∷ d) e = ground (arith, erase-none p d)

-- A sum over the files.
module _ (weight : FilePath → Bytes → ℕ) where
  unfoldable pub total : Disk → ℕ
  total [] = 0
  total ((p, content) ∷ d) = weight p content + total d

  pub total-insert_new :
      (p : FilePath) (content : Bytes) (d : Disk)
      → lookup p d ≡ none
      → total (insert p content d) ≡ total d + weight p content
  unfolding total insert lookup
  total-insert_new p content [] e = omega arith
  total-insert_new p content ((q, old) ∷ d) e = ground (arith, total-insert_new p content d)

  pub total-insert_light :
      (p : FilePath) (content : Bytes) (d : Disk)
      → ((b : Bytes) → weight p b ≡ 0)
      → total (insert p content d) ≡ total d
  unfolding total insert
  total-insert_light p content [] w = omega (arith, w content)
  total-insert_light p content ((q, old) ∷ d) w =
      ground (arith, path_eq_iff p q, w content, w old, total-insert_light p content d w)

  pub total-erase :
      (p : FilePath) (content : Bytes) (d : Disk)
      → IsUnique d
      → lookup p d ≡ some content
      → total (erase p d) + weight p content ≡ total d
  unfolding total erase lookup
  total-erase p content [] u e = cc
  total-erase p content ((q, old) ∷ d) u e =
      ground (arith, path_eq_iff p q, erase-none p d, total-erase p content d u.1)

  pub total-erase_light :
      (p : FilePath) (d : Disk) → ((b : Bytes) → weight p b ≡ 0) → total (erase p d) ≡ total d
  unfolding total erase
  total-erase_light p [] w = refl
  total-erase_light p ((q, old) ∷ d) w =
      ground (arith, path_eq_iff p q, w old, total-erase_light p d w)
