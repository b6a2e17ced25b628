-- ===== src/Common/HashTests.antt =====
-- The theorems about the streaming hash over a small hash function: the length of the text.
use microsoft.Base.{◌≡◌, refl, some, List, [], ◌∷◌, ◌++◌, Bytes, length}
use microsoft.Common.Sha256.Stream.{Evp, Sha256, create}
use microsoft.Common.Sha256.Stream.Calls.{
  IsHashing, HasherCall, update_call, finalize_call, run, reference, run-reference,
}

abbrev toy_hash : Bytes → Bytes
toy_hash bytes = length bytes ∷ []

-- A context is the text so far.
abbrev toy_evp : Evp Bytes
toy_evp = record {
  md_ctx_new = some [];
  digest_init = λ _. some [];
  digest_update = λ bytes c. some (c ++ bytes);
  digest_final = λ c. some (toy_hash c);
}

toy_evp-IsHashing : IsHashing toy_hash (λ c. c) toy_evp
toy_evp-IsHashing = record {
  new_context = ([], [], refl, refl, refl);
  updates = λ bytes c. (c ++ bytes, refl, refl);
  ends = λ c. refl;
}

-- An update after the end, and a second end.
abbrev calls : List HasherCall
calls =
    update_call (1 ∷ 2 ∷ []) ∷ update_call [] ∷ finalize_call ∷ update_call [] ∷ finalize_call ∷ []

run-reference_example :
    (h : Sha256 Bytes) × (create toy_evp ≡ some h)
    × (run toy_evp calls h ≡ reference toy_hash [] calls)
run-reference_example = run-reference toy_hash (λ c. c) toy_evp toy_evp-IsHashing calls

abbrev pieces : List Bytes
pieces = (1 ∷ []) ∷ [] ∷ (2 ∷ 3 ∷ []) ∷ []
