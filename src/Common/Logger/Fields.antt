-- ===== src/Common/Logger/Fields.antt =====
-- logger.cpp, `FormatFields` and `FormatOpMessage`: the text of a line determines what was logged.
use mathlib.Core.Bool.{true≢false}
use mathlib.Core.List.{append_assoc, append-nil, append_cancel_right}
use microsoft.Base.{
  ℕ, ◌≡◌, refl, sym, ◌∙◌, Bool, true, false, ◌||◌, List, [], ◌∷◌, ◌++◌, Bytes, All, All-append,
  ◌==◌, codes,
}
use microsoft.Common.Logger.{LogField, append_fields, format_fields, format_op_message}

abbrev pub Lacks : (ℕ → Bool) → Bytes → Type 0
Lacks stop = All (λ c. stop c ≡ false)

-- Two texts, each cut at the first character of a kind.
pub cut_first :
    (stop : ℕ → Bool) (a b x y : Bytes) (s u : ℕ)
    → Lacks stop a
    → Lacks stop b
    → stop s ≡ true
    → stop u ≡ true
    → a ++ s ∷ x ≡ b ++ u ∷ y
    → (a ≡ b) × (s ∷ x ≡ u ∷ y)
cut_first stop [] [] x y s u p q h k e = (refl, e)
cut_first stop [] (c ∷ b) x y s u p (c_plain, q) h k e = absurd (cc)
cut_first stop (d ∷ a) [] x y s u (d_plain, p) q h k e = absurd (cc)
cut_first stop (d ∷ a) (c ∷ b) x y s u (d_plain, p) (c_plain, q) h k e =
    let (same, rest) = cut_first stop a b x y s u p q h k (cc) in (cc, rest)

abbrev pub is_equals : ℕ → Bool
is_equals c = c == b'='

abbrev pub ends_value : ℕ → Bool
ends_value c = c == b',' || c == b'}'

-- No `=` in the key, neither `,` nor `}` in the value.
abbrev pub IsPlain : LogField → Type 0
IsPlain field = Lacks is_equals field.key × Lacks ends_value field.value

-- The fields after the first, and the end.
rest_text : List LogField → Bytes
rest_text [] = b'}' ∷ []
rest_text (field ∷ fields) = b',' ∷ b' ' ∷ (field.key ++ b'=' ∷ (field.value ++ rest_text fields))

append_fields-rest_text :
    (result : Bytes) (fields : List LogField)
    → append_fields false result fields ++ codes "}" ≡ result ++ rest_text fields
unfolding append_fields rest_text
append_fields-rest_text result [] = refl
append_fields-rest_text result (field ∷ fields) =
    append_fields-rest_text (result ++ codes ", " ++ (field.key ++ codes "=" ++ field.value)) fields
    ∙ simp append_assoc refl

format_fields-cons :
    (field : LogField) (fields : List LogField)
    → format_fields (field ∷ fields)
      ≡ b' ' ∷ b'{' ∷ (field.key ++ b'=' ∷ (field.value ++ rest_text fields))
unfolding format_fields append_fields
format_fields-cons field fields =
    append_fields-rest_text (codes " {" ++ (field.key ++ codes "=" ++ field.value)) fields
    ∙ simp append_assoc refl

rest_starts :
    (fields : List LogField)
    → (s : ℕ) × (x : Bytes) × (rest_text fields ≡ s ∷ x) × (ends_value s ≡ true)
unfolding rest_text
rest_starts [] = (_, _, refl, refl)
rest_starts (field ∷ fields) = (_, _, refl, refl)

-- A field in front of others.
field_injective :
    (f g : LogField) (fs gs : List LogField)
    → IsPlain f
    → IsPlain g
    → f.key ++ b'=' ∷ (f.value ++ rest_text fs) ≡ g.key ++ b'=' ∷ (g.value ++ rest_text gs)
    → (f ≡ g) × (rest_text fs ≡ rest_text gs)
field_injective f g fs gs (f_key, f_value) (g_key, g_value) e =
    let (keys, values) =
      cut_first is_equals f.key g.key (f.value ++ rest_text fs) (g.value ++ rest_text gs) b'=' b'='
        f_key g_key refl refl e in
    let (s, x, starts, s_ends) = rest_starts fs in
    let (u, y, starts', u_ends) = rest_starts gs in
    let (same, rests) =
      cut_first ends_value f.value g.value x y s u f_value g_value s_ends u_ends (cc) in
    (cc, cc)

rest_injective :
    (fs gs : List LogField)
    → All IsPlain fs
    → All IsPlain gs
    → rest_text fs ≡ rest_text gs
    → fs ≡ gs
unfolding rest_text
rest_injective [] [] p q e = refl
rest_injective [] (g ∷ gs) p q e = absurd (cc)
rest_injective (f ∷ fs) [] p q e = absurd (cc)
rest_injective (f ∷ fs) (g ∷ gs) (f_plain, p) (g_plain, q) e =
    let (same, rests) = field_injective f g fs gs f_plain g_plain (cc) in
    let more = rest_injective fs gs p q rests in cc

abbrev pub opens_fields : ℕ → Bool
opens_fields c = c == b'{'

abbrev pub closes_id : ℕ → Bool
closes_id c = c == b']'

abbrev pub starts_with_id : Bytes → Bool
starts_with_id [] = false
starts_with_id (c ∷ text) = c == b'['

-- A text that lacks a character has it at no place.
Lacks-middle : (stop : ℕ → Bool) (a x : Bytes) (s : ℕ) → Lacks stop (a ++ s ∷ x) → stop s ≡ true → ⊥
Lacks-middle stop [] x s (s_plain, p) h = cc
Lacks-middle stop (c ∷ a) x s (c_plain, p) h = Lacks-middle stop a x s p h

with_fields :
    (m : Bytes) (f : LogField) (fs : List LogField)
    → (x : Bytes) × (m ++ format_fields (f ∷ fs) ≡ (m ++ b' ' ∷ []) ++ b'{' ∷ x)
      × (x ≡ f.key ++ b'=' ∷ (f.value ++ rest_text fs))
with_fields m f fs = (_, rw (format_fields-cons f fs, append_assoc m (b' ' ∷ [])) refl, refl)

-- A message and the fields behind it.
message_injective :
    (m n : Bytes) (fs gs : List LogField)
    → Lacks opens_fields m
    → Lacks opens_fields n
    → All IsPlain fs
    → All IsPlain gs
    → m ++ format_fields fs ≡ n ++ format_fields gs
    → (m ≡ n) × (fs ≡ gs)
unfolding format_fields
message_injective m n [] [] m_plain n_plain p q e = (rw (append-nil m, append-nil n) at e, refl)
message_injective m n [] (g ∷ gs) m_plain n_plain p q e =
    let (x, there, _) = with_fields n g gs in
    let whole : m ≡ (n ++ b' ' ∷ []) ++ b'{' ∷ x = rw (append-nil m, there) at e in
    absurd (Lacks-middle opens_fields (n ++ b' ' ∷ []) x b'{' (rw whole at m_plain) refl)
message_injective m n (f ∷ fs) [] m_plain n_plain p q e =
    let (x, there, _) = with_fields m f fs in
    let whole : (m ++ b' ' ∷ []) ++ b'{' ∷ x ≡ n = rw (append-nil n, there) at e in
    absurd (Lacks-middle opens_fields (m ++ b' ' ∷ []) x b'{' (rw (← whole) at n_plain) refl)
message_injective m n (f ∷ fs) (g ∷ gs) m_plain n_plain (f_plain, p) (g_plain, q) e =
    let (x, there, x_is) = with_fields m f fs in
    let (y, there', y_is) = with_fields n g gs in
    let (same, rest) =
      cut_first opens_fields (m ++ b' ' ∷ []) (n ++ b' ' ∷ []) x y b'{' b'{'
        (All-append _ m (b' ' ∷ []) m_plain (refl, tt))
        (All-append _ n (b' ' ∷ []) n_plain (refl, tt)) refl refl (sym there ∙ e ∙ there') in
    let (first, rests) = field_injective f g fs gs f_plain g_plain (cc) in
    (append_cancel_right m n (b' ' ∷ []) same, let more = rest_injective fs gs p q rests in cc)

with_id_no_bracket :
    (m : Bytes) (fs : List LogField)
    → starts_with_id m ≡ false
    → starts_with_id (m ++ format_fields fs) ≡ false
unfolding format_fields append_fields
with_id_no_bracket [] [] e = refl
with_id_no_bracket [] (f ∷ fs) e = rw (format_fields-cons f fs) refl
with_id_no_bracket (c ∷ m) fs e = e

-- The id in front, if there is one.
abbrev with_id : Bytes → Bytes → Bytes
with_id [] text = text
with_id (c ∷ id) text = b'[' ∷ ((c ∷ id) ++ b']' ∷ b' ' ∷ text)

format_op_message-with_id :
    (id m : Bytes) (fs : List LogField)
    → format_op_message id m fs ≡ with_id id (m ++ format_fields fs)
unfolding format_op_message
format_op_message-with_id [] m fs = refl
format_op_message-with_id (c ∷ id) m fs = simp append_assoc refl

with_id_injective :
    (a b x y : Bytes)
    → Lacks closes_id a
    → Lacks closes_id b
    → starts_with_id x ≡ false
    → starts_with_id y ≡ false
    → with_id a x ≡ with_id b y
    → (a ≡ b) × (x ≡ y)
with_id_injective [] [] x y p q h k e = (refl, e)
with_id_injective [] (d ∷ b) x y p q h k e = absurd (true≢false (rw e at h))
with_id_injective (c ∷ a) [] x y p q h k e = absurd (true≢false (rw (← e) at k))
with_id_injective (c ∷ a) (d ∷ b) x y p q h k e =
    let (same, rest) =
      cut_first closes_id (c ∷ a) (d ∷ b) (b' ' ∷ x) (b' ' ∷ y) b']' b']' p q refl refl (cc) in
    (same, cc)

-- Two lines for operators with the same text are of the same correlation id, message and fields,
-- as long as no id has a `]`, no message has a `{` or starts with `[`, no key has a `=`, and no value
-- has a `,` or `}`.
pub format_op_message_injective :
    (id id' message message' : Bytes) (fields fields' : List LogField)
    → Lacks closes_id id
    → Lacks closes_id id'
    → Lacks opens_fields message × (starts_with_id message ≡ false)
    → Lacks opens_fields message' × (starts_with_id message' ≡ false)
    → All IsPlain fields
    → All IsPlain fields'
    → format_op_message id message fields ≡ format_op_message id' message' fields'
    → (id ≡ id') × (message ≡ message') × (fields ≡ fields')
format_op_message_injective id id' m m' fs fs' p p' (q, h) (q', h') r r' e =
    let (ids, texts) =
      with_id_injective id id' (m ++ format_fields fs) (m' ++ format_fields fs') p p'
        (with_id_no_bracket m fs h) (with_id_no_bracket m' fs' h')
        (sym (format_op_message-with_id id m fs) ∙ e ∙ format_op_message-with_id id' m' fs') in
    let (messages, fields) = message_injective m m' fs fs' q q' r r' texts in
    (ids, messages, fields)
