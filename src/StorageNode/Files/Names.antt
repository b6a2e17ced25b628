-- ===== src/StorageNode/Files/Names.antt =====
-- Extensions of names that end in a known part.
use microsoft.Base.{ℕ, ◌<◌, ◌≡◌, ◌≢◌, refl, none, some, [], ◌∷◌, ◌++◌, Bytes, All, length, arith}
use microsoft.StorageNode.Files.{last_dot, extension}

pub last_dot-append : (xs s : Bytes) {e : Bytes} → last_dot s ≡ some e → last_dot (xs ++ s) ≡ some e
unfolding last_dot
last_dot-append [] s h = h
last_dot-append (x ∷ xs) s h = rw (last_dot-append xs s h) refl

abbrev pub HasNoDot : Bytes → Type 0
HasNoDot = All (λ c. c ≢ b'.')

pub last_dot-HasNoDot : (s : Bytes) → HasNoDot s → last_dot s ≡ none
unfolding last_dot
last_dot-HasNoDot [] h = refl
last_dot-HasNoDot (c ∷ s) h = rw (last_dot-HasNoDot s h.1) (ground arith)

pub last_dot-dot : (s : Bytes) → HasNoDot s → last_dot (b'.' ∷ s) ≡ some (b'.' ∷ s)
unfolding last_dot
last_dot-dot s h = rw (last_dot-HasNoDot s h) refl

-- A name of at least three characters has for its extension the part from its last dot on, unless
-- that is the whole name.
pub extension-last_dot :
    (c : ℕ) (s : Bytes) {e : Bytes}
    → 2 < length (c ∷ s)
    → last_dot s ≡ some e
    → extension (c ∷ s) ≡ e
unfolding extension
extension-last_dot c [] size h = absurd (omega arith)
extension-last_dot c (x ∷ []) size h = absurd (omega arith)
extension-last_dot c (x ∷ y ∷ s) size h = ground arith
