-- ===== src/Mail/Attributes.antt =====
-- What ntb_parse_content_type finds in a content type that is written with its attributes in quotes.
use notbit.Common.{
  ℕ, zero, suc, ◌≤◌, ◌<◌, ◌≡◌, refl, ◌∙◌, ap, arith, Bytes, List, [], ◌∷◌, ◌++◌, All, Bool,
  Bool-cases, inl, inr, true, false, ◌||◌, ◌==◌, ==_iff, ◌&&◌, ◌%◌, drop, length, length-append,
  if◌then◌else◌, some, Outcome, ok,
}
use notbit.Mail.ContentType.{
  http_char_table, first_has, is_token, is_lws, is_text, is_char, skip_lws, span_token, token,
  expect, put_byte, quoted, attribute_value, attribute, then_more, attributes, media_type, hand_on,
  parse_content_type,
}

abbrev pub Token : Bytes → Type 0
Token [] = ⊥
Token (c ∷ s) = All (λ b. is_token b ≡ true) (c ∷ s)

abbrev pub Stops : Bytes → Type 0
Stops [] = Unit
Stops (c ∷ s) = is_token c ≡ false

abbrev escape : Bytes → Bytes
escape [] = []
escape (c ∷ s) = let rest = escape s in if c == b'"' || c == 92 then 92 ∷ c ∷ rest else c ∷ rest

-- A list of attributes, as it is written behind a type: each value is in quotes.
abbrev pub written : List (Bytes × Bytes) → Bytes
written [] = []
written ((name, value) ∷ pairs) =
    b';' ∷ 32 ∷ (name ++ b'=' ∷ b'"' ∷ (escape value ++ b'"' ∷ written pairs))

abbrev pub Attribute : Bytes × Bytes → Type 0
Attribute (name, value) = Token name × All (λ b. is_text b ≡ true) value

span_token-append :
    (t rest : Bytes)
    → All (λ b. is_token b ≡ true) t
    → Stops rest
    → span_token (t ++ rest) ≡ (t, rest)
unfolding span_token
span_token-append [] [] h e = refl
span_token-append [] (c ∷ rest) h e = rw e refl
span_token-append (c ∷ t) rest h e = rw h.0 (rw (span_token-append t rest h.1 e) refl)

token-append : (t rest : Bytes) → Token t → Stops rest → token (t ++ rest) ≡ ok (t, rest)
unfolding token
token-append [] rest h e = elim h [ ]
token-append (c ∷ t) rest h e = rw h.0 (rw (span_token-append t rest h.1 e) refl)

quoted-close : (s : Bytes) → quoted (b'"' ∷ s) ≡ ok ([], s)
unfolding quoted
quoted-close [] = refl
quoted-close (d ∷ s) = refl

quoted-escaped :
    (d : ℕ) (s : Bytes) → is_char d ≡ true → quoted (92 ∷ (d ∷ s)) ≡ put_byte d (quoted s)
unfolding quoted
quoted-escaped d s e = rw e refl

quoted-plain :
    (c : ℕ) (s : Bytes)
    → (c == b'"') ≡ false
    → (c == 92) ≡ false
    → is_text c ≡ true
    → quoted (c ∷ s) ≡ put_byte c (quoted s)
unfolding quoted
quoted-plain c [] e f g = rw e refl
quoted-plain c (d ∷ s) e f g = rw e (rw f (rw g refl))

quote-IsChar : is_char b'"' ≡ true
unfolding is_char
quote-IsChar = refl

slash-IsChar : is_char 92 ≡ true
unfolding is_char
slash-IsChar = refl

quoted-escape :
    (value rest : Bytes)
    → All (λ b. is_text b ≡ true) value
    → quoted (escape value ++ b'"' ∷ rest) ≡ ok (value, rest)
quoted-escape [] rest h = quoted-close rest
quoted-escape (c ∷ value) rest h = elim (Bool-cases (c == b'"')) [
  | inl e ↦
      rw ((==_iff c b'"').0 e)
        (quoted-escaped b'"' _ quote-IsChar ∙ ap (put_byte b'"') (quoted-escape value rest h.1))
  | inr e ↦ elim (Bool-cases (c == 92)) [
    | inl f ↦
        rw ((==_iff c 92).0 f)
          (quoted-escaped 92 _ slash-IsChar ∙ ap (put_byte 92) (quoted-escape value rest h.1))
    | inr f ↦
        rw e (rw f (quoted-plain c _ e f h.0 ∙ ap (put_byte c) (quoted-escape value rest h.1)))
  ]
]

-- No entry of the table is both a token's and white space.
abbrev separate : List ℕ → Bool
separate [] = true
separate (entry ∷ entries) =
    let rest = separate entries in
    if first_has 16384 (entry ∷ []) && first_has 512 (entry ∷ []) then false else rest

drop-separate :
    (n : ℕ) (entries : List ℕ)
    → separate entries ≡ true
    → first_has 16384 (drop n entries) ≡ true
    → first_has 512 (drop n entries) ≡ false
drop-separate zero [] h e = refl
drop-separate zero (entry ∷ entries) h e = ground arith
drop-separate (suc n) [] h e = refl
drop-separate (suc n) (entry ∷ entries) h e = drop-separate n entries (ground arith) e

token-lws : (c : ℕ) → is_token c ≡ true → is_lws c ≡ false
unfolding is_token is_lws
token-lws c e = drop-separate (c % 256) http_char_table refl e

skip_lws-Token : (t rest : Bytes) → Token t → skip_lws (t ++ rest) ≡ t ++ rest
unfolding skip_lws
skip_lws-Token [] rest h = elim h [ ]
skip_lws-Token (c ∷ t) rest h = rw (token-lws c h.0) refl

skip-space : (s : Bytes) → skip_lws (32 ∷ s) ≡ skip_lws s
unfolding skip_lws is_lws
skip-space s = refl

equals-Stops : is_token b'=' ≡ false
unfolding is_token
equals-Stops = refl

semicolon-Stops : is_token b';' ≡ false
unfolding is_token
semicolon-Stops = refl

slash-Stops : is_token b'/' ≡ false
unfolding is_token
slash-Stops = refl

attribute-written :
    (name value rest : Bytes)
    → Attribute (name, value)
    → attribute (32 ∷ (name ++ b'=' ∷ b'"' ∷ (escape value ++ b'"' ∷ rest)))
      ≡ ok ((name, value), rest)
unfolding attribute expect attribute_value
attribute-written name value rest h =
    rw (skip-space (name ++ b'=' ∷ b'"' ∷ (escape value ++ b'"' ∷ rest))) (
      rw (skip_lws-Token name (b'=' ∷ b'"' ∷ (escape value ++ b'"' ∷ rest)) h.0) (
        rw (token-append name (b'=' ∷ b'"' ∷ (escape value ++ b'"' ∷ rest)) h.0 equals-Stops)
          (rw (quoted-escape value rest h.1) refl)))

attributes-written :
    (fuel : ℕ) (pairs : List (Bytes × Bytes))
    → All Attribute pairs
    → length pairs < fuel
    → attributes fuel (written pairs) ≡ (pairs, ok tt)
unfolding attributes skip_lws is_lws
attributes-written zero pairs h short = absurd (omega arith)
attributes-written (suc fuel) [] h short = refl
attributes-written (suc fuel) ((name, value) ∷ pairs) h short =
    ap (then_more (attributes fuel)) (attribute-written name value (written pairs) h.0)
    ∙ ap (λ (r : List (Bytes × Bytes) × Outcome (Unit {0})). ((name, value) ∷ r.0, r.1))
        (attributes-written fuel pairs h.1 (omega arith))

written-Stops : (pairs : List (Bytes × Bytes)) → Stops (written pairs)
written-Stops [] = tt
written-Stops ((name, value) ∷ pairs) = semicolon-Stops

length-written : (pairs : List (Bytes × Bytes)) → length pairs ≤ length (written pairs)
length-written [] = omega arith
length-written ((name, value) ∷ pairs) = omega (
  arith,
  length-written pairs,
  length-append name (b'=' ∷ b'"' ∷ (escape value ++ b'"' ∷ written pairs)),
  length-append (escape value) (b'"' ∷ written pairs),
)

media_type-written :
    (type subtype rest : Bytes)
    → Token type
    → Token subtype
    → Stops rest
    → media_type (type ++ b'/' ∷ (subtype ++ rest)) ≡ ok (type ++ b'/' ∷ subtype, rest)
unfolding media_type expect
media_type-written type subtype rest t s e = rw (skip_lws-Token type (b'/' ∷ (subtype ++ rest)) t) (
    rw (token-append type (b'/' ∷ (subtype ++ rest)) t slash-Stops)
      (rw (token-append subtype rest s e) refl))

hand_on-written :
    (type : Bytes) (pairs : List (Bytes × Bytes))
    → All Attribute pairs
    → hand_on (ok (type, written pairs)) ≡ (some type, pairs, ok tt)
unfolding hand_on
hand_on-written type pairs h =
    rw
      (attributes-written (suc (length (written pairs))) pairs h
        (omega (arith, length-written pairs)))
      refl

-- A content type that is written as a type, a subtype and attributes with their values in quotes, where
-- the type, the subtype and the names are tokens and the values are text, is read back: the type and the
-- attributes are handed on in order, and the parser ends well.
pub parse_content_type-written :
    (type subtype : Bytes) (pairs : List (Bytes × Bytes))
    → Token type
    → Token subtype
    → All Attribute pairs
    → parse_content_type (type ++ b'/' ∷ (subtype ++ written pairs))
      ≡ (some (type ++ b'/' ∷ subtype), pairs, ok tt)
unfolding parse_content_type
parse_content_type-written type subtype pairs t s h =
    ap hand_on (media_type-written type subtype (written pairs) t s (written-Stops pairs))
    ∙ hand_on-written (type ++ b'/' ∷ subtype) pairs h
