-- ===== src/Common/Sha256/Stream/Calls.antt =====
-- sha256.cpp: what any sequence of calls of a `Sha256` gives.
use microsoft.Base.{
  ◌≡◌, refl, sym, ◌∙◌, ap, true, false, some, List, [], ◌∷◌, ◌++◌, Bytes, suc, length,
}
use mathlib.Core.List.{append-nil, append_assoc}
use microsoft.Common.Result.{ok}
use microsoft.Common.Sha256.Stream.{
  Evp, Exception, logic_error, gives, throws, Sha256, create, update, finalize, hash_bytes,
}

-- What the documentation of the EVP calls promises of contexts for a hash function, when no call
-- fails: a new context has absorbed nothing, an update adds its bytes behind those before, and the
-- end gives the hash of all.
pub record IsHashing {C : Type 0} (hash : Bytes → Bytes) (absorbed : C → Bytes) (evp : Evp C)
    : Type 0 where
  pub new_context :
      (c : C) × (c' : C) × (evp.md_ctx_new ≡ some c)
      × (evp.digest_init c ≡ some c')
      × (absorbed c' ≡ [])
  pub updates :
      (bytes : Bytes) (c : C)
      → (c' : C) × (evp.digest_update bytes c ≡ some c') × (absorbed c' ≡ absorbed c ++ bytes)
  pub ends : (c : C) → evp.digest_final c ≡ some (hash (absorbed c))

-- The calls of one object, in the order of the program.
pub data HasherCall : Type 0 where
  update_call : Bytes → HasherCall
  finalize_call : HasherCall

pub data HasherReply : Type 0 where
  updated : HasherReply
  digested : Bytes → HasherReply
  refused : Exception → HasherReply

module _ {C : Type 0} (evp : Evp C) where
  unfoldable pub answer : HasherCall → Sha256 C → HasherReply × Sha256 C
  answer (update_call bytes) h = elim (update evp bytes h) [
    | gives _ h' ↦ (updated, h')
    | throws e h' ↦ (refused e, h')
  ]
  answer finalize_call h = elim (finalize evp h) [
    | gives digest h' ↦ (digested digest, h')
    | throws e h' ↦ (refused e, h')
  ]

  unfoldable pub run : List HasherCall → Sha256 C → List HasherReply
  run [] h = []
  run (call ∷ calls) h = let (reply, h') = answer call h in reply ∷ run calls h'

-- The calls that hash pieces one after the other.
unfoldable pub in_pieces : List Bytes → List HasherCall
in_pieces [] = finalize_call ∷ []
in_pieces (piece ∷ pieces) = update_call piece ∷ in_pieces pieces

unfoldable pub concat : List Bytes → Bytes
concat [] = []
concat (piece ∷ pieces) = piece ++ concat pieces

-- The calls as they are meant: the bytes so far are kept, and `Finalize` closes the object.
unfoldable pub refuse_all : List HasherCall → List HasherReply
refuse_all [] = []
refuse_all (_ ∷ calls) = refused logic_error ∷ refuse_all calls

unfoldable pub reference : (Bytes → Bytes) → Bytes → List HasherCall → List HasherReply
unfolding refuse_all
reference hash bytes [] = []
reference hash bytes (update_call more ∷ calls) = updated ∷ reference hash (bytes ++ more) calls
reference hash bytes (finalize_call ∷ calls) = digested (hash bytes) ∷ refuse_all calls

module _ {C : Type 0} (hash : Bytes → Bytes) (absorbed : C → Bytes) (evp : Evp C)
    (hashing : IsHashing hash absorbed evp) where
  create-some :
      (h : Sha256 C) × (create evp ≡ some h) × (absorbed h.ctx ≡ []) × (h.finalized ≡ false)
  unfolding create
  create-some =
      let (c, c', new, init, empty) = hashing.new_context in
      (record { ctx = c'; finalized = false }, rw (new, init) refl, empty, refl)

  update_gives :
      (bytes : Bytes) (h : Sha256 C)
      → h.finalized ≡ false
      → (h' : Sha256 C) × (update evp bytes h ≡ gives tt h')
        × (absorbed h'.ctx ≡ absorbed h.ctx ++ bytes)
        × (h'.finalized ≡ false)
  unfolding update
  update_gives [] h e = (h, simp e refl, sym (append-nil (absorbed h.ctx)), e)
  update_gives (b ∷ bytes) h e =
      let (c, done, adds) = hashing.updates (b ∷ bytes) h.ctx in
      (record h { ctx = c }, simp (e, done) refl, adds, e)

  finalize_gives :
      (h : Sha256 C)
      → h.finalized ≡ false
      → finalize evp h ≡ gives (hash (absorbed h.ctx)) (record h { finalized = true })
  unfolding finalize
  finalize_gives h e = simp (e, hashing.ends h.ctx) refl

  update_refused :
      (bytes : Bytes) (h : Sha256 C)
      → h.finalized ≡ true
      → update evp bytes h ≡ throws logic_error h
  unfolding update
  update_refused bytes h e = simp e refl

  finalize_refused : (h : Sha256 C) → h.finalized ≡ true → finalize evp h ≡ throws logic_error h
  unfolding finalize
  finalize_refused h e = simp e refl

  run_closed :
      (calls : List HasherCall) (h : Sha256 C)
      → h.finalized ≡ true
      → run evp calls h ≡ refuse_all calls
  unfolding run refuse_all answer
  run_closed [] h e = refl
  run_closed (update_call bytes ∷ calls) h e =
      rw (run, answer, update_refused bytes h e)
        (ap (λ rest. refused logic_error ∷ rest) (run_closed calls h e))
  run_closed (finalize_call ∷ calls) h e =
      rw (run, answer, finalize_refused h e)
        (ap (λ rest. refused logic_error ∷ rest) (run_closed calls h e))

  run_open :
      (calls : List HasherCall) (h : Sha256 C)
      → h.finalized ≡ false
      → run evp calls h ≡ reference hash (absorbed h.ctx) calls
  unfolding run reference answer
  run_open [] h e = refl
  run_open (update_call bytes ∷ calls) h e =
      let (h', done, adds, still) = update_gives bytes h e in
      rw (run, answer, done, ← adds) (ap (λ rest. updated ∷ rest) (run_open calls h' still))
  run_open (finalize_call ∷ calls) h e =
      rw (run, answer, finalize_gives h e)
        (ap (λ rest. digested (hash (absorbed h.ctx)) ∷ rest)
          (run_closed calls (record h { finalized = true }) refl))

  -- While the calls of libcrypto do what their documentation says, the constructor succeeds, and
  -- every sequence of calls of the object is answered as the reference does: each `Update` succeeds
  -- until the first `Finalize`, which gives the hash of the bytes of all updates in order, and every
  -- later call of either throws a logic error.
  pub run-reference :
      (calls : List HasherCall)
      → (h : Sha256 C) × (create evp ≡ some h) × (run evp calls h ≡ reference hash [] calls)
  run-reference calls =
      let (h, made, empty, still) = create-some in (h, made, rw (← empty) (run_open calls h still))

  -- `HashBytes` never throws then, and gives the hash.
  hash_bytes-hash : (bytes : Bytes) → hash_bytes evp bytes ≡ ok (hash bytes)
  unfolding hash_bytes
  hash_bytes-hash bytes =
      let (h, made, empty, still) = create-some in
      let (h', done, adds, still') = update_gives bytes h still in
      rw (hash_bytes, made, done, finalize_gives h' still', adds, empty) refl

  reference-in_pieces :
      (pieces : List Bytes) (bytes : Bytes)
      → (replies : List HasherReply) × (reference hash bytes (in_pieces pieces)
          ≡ replies ++ digested (hash (bytes ++ concat pieces)) ∷ [])
        × (length replies ≡ length pieces)
  unfolding reference in_pieces concat refuse_all
  reference-in_pieces [] bytes = ([], rw (append-nil bytes) refl, refl)
  reference-in_pieces (piece ∷ pieces) bytes =
      let (replies, e, size) = reference-in_pieces pieces (bytes ++ piece) in
      (updated ∷ replies, rw (e, append_assoc bytes piece (concat pieces)) refl, ap suc size)

  -- While the calls of libcrypto do what their documentation says, hashing a text in pieces, however
  -- it is cut, empty pieces included, ends with the digest that `HashBytes` gives for the whole, and
  -- neither throws.
  in_pieces-hash_bytes :
      (pieces : List Bytes)
      → (h : Sha256 C) × (replies : List HasherReply) × (digest : Bytes) × (create evp ≡ some h)
        × (run evp (in_pieces pieces) h ≡ replies ++ digested digest ∷ [])
        × (length replies ≡ length pieces)
        × (hash_bytes evp (concat pieces) ≡ ok digest)
  in_pieces-hash_bytes pieces =
      let (h, made, e) = run-reference (in_pieces pieces) in
      let (replies, e', size) = reference-in_pieces pieces [] in
      (h, replies, hash (concat pieces), made, e ∙ e', size, hash_bytes-hash (concat pieces))
