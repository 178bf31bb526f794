-- ===== src/Mail/ContentType.antt =====
-- src/ntb-parse-content-type.c. A string is its bytes in front of the final zero. The result has what is
-- handed to the two callbacks in order, and whether the parser ends well if they take it.
use notbit.Common.{
  ℕ, zero, suc, ◌/◌, ◌%◌, Bytes, List, [], ◌∷◌, ◌++◌, Bool, false, not, ◌==◌, length, drop,
  if◌then◌else◌, Option, none, some, Outcome, ok, fail, fault, ◌>>=◌,
}

abbrev pub http_char_table : List ℕ
http_char_table =
    0x040a ∷ 0x040a ∷ 0x040a ∷ 0x040a ∷ 0x040a ∷ 0x040a ∷ 0x040a ∷ 0x040a ∷ 0x040a ∷ 0x2e4a ∷ 0x268a
    ∷ 0x040a ∷ 0x040a ∷ 0x260e ∷ 0x040a ∷ 0x040a ∷ 0x040a ∷ 0x040a ∷ 0x040a ∷ 0x040a ∷ 0x040a
    ∷ 0x040a ∷ 0x040a ∷ 0x040a ∷ 0x040a ∷ 0x040a ∷ 0x040a ∷ 0x040a ∷ 0x040a ∷ 0x040a ∷ 0x040a
    ∷ 0x040a ∷ 0x3e02 ∷ 0x6402 ∷ 0x2c02 ∷ 0x6402 ∷ 0x6402 ∷ 0x6402 ∷ 0x6402 ∷ 0x6402 ∷ 0x2c02
    ∷ 0x2c02 ∷ 0x6402 ∷ 0x6402 ∷ 0x2c02 ∷ 0x6402 ∷ 0x6402 ∷ 0x2c02 ∷ 0x6432 ∷ 0x6432 ∷ 0x6432
    ∷ 0x6432 ∷ 0x6432 ∷ 0x6432 ∷ 0x6432 ∷ 0x6432 ∷ 0x6432 ∷ 0x6432 ∷ 0x2c02 ∷ 0x2c02 ∷ 0x2c02
    ∷ 0x2c02 ∷ 0x2c02 ∷ 0x2c02 ∷ 0x2c02 ∷ 0xe523 ∷ 0xe523 ∷ 0xe523 ∷ 0xe523 ∷ 0xe523 ∷ 0xe523
    ∷ 0xe503 ∷ 0xe503 ∷ 0xe503 ∷ 0xe503 ∷ 0xe503 ∷ 0xe503 ∷ 0xe503 ∷ 0xe503 ∷ 0xe503 ∷ 0xe503
    ∷ 0xe503 ∷ 0xe503 ∷ 0xe503 ∷ 0xe503 ∷ 0xe503 ∷ 0xe503 ∷ 0xe503 ∷ 0xe503 ∷ 0xe503 ∷ 0xe503
    ∷ 0x2c02 ∷ 0x2c02 ∷ 0x2c02 ∷ 0x6402 ∷ 0x6402 ∷ 0x6402 ∷ 0x6422 ∷ 0x6422 ∷ 0x6422 ∷ 0x6422
    ∷ 0x6422 ∷ 0x6422 ∷ 0x6402 ∷ 0x6402 ∷ 0x6402 ∷ 0x6402 ∷ 0x6402 ∷ 0x6402 ∷ 0x6402 ∷ 0x6402
    ∷ 0x6402 ∷ 0x6402 ∷ 0x6402 ∷ 0x6402 ∷ 0x6402 ∷ 0x6402 ∷ 0x6402 ∷ 0x6402 ∷ 0x6402 ∷ 0x6402
    ∷ 0x6402 ∷ 0x6402 ∷ 0x2c02 ∷ 0x6402 ∷ 0x2c02 ∷ 0x6402 ∷ 0x040a ∷ 0x2400 ∷ 0x2400 ∷ 0x2400
    ∷ 0x2400 ∷ 0x2400 ∷ 0x2400 ∷ 0x2400 ∷ 0x2400 ∷ 0x2400 ∷ 0x2400 ∷ 0x2400 ∷ 0x2400 ∷ 0x2400
    ∷ 0x2400 ∷ 0x2400 ∷ 0x2400 ∷ 0x2400 ∷ 0x2400 ∷ 0x2400 ∷ 0x2400 ∷ 0x2400 ∷ 0x2400 ∷ 0x2400
    ∷ 0x2400 ∷ 0x2400 ∷ 0x2400 ∷ 0x2400 ∷ 0x2400 ∷ 0x2400 ∷ 0x2400 ∷ 0x2400 ∷ 0x2400 ∷ 0x2400
    ∷ 0x2400 ∷ 0x2400 ∷ 0x2400 ∷ 0x2400 ∷ 0x2400 ∷ 0x2400 ∷ 0x2400 ∷ 0x2400 ∷ 0x2400 ∷ 0x2400
    ∷ 0x2400 ∷ 0x2400 ∷ 0x2400 ∷ 0x2400 ∷ 0x2400 ∷ 0x2400 ∷ 0x2400 ∷ 0x2400 ∷ 0x2400 ∷ 0x2400
    ∷ 0x2400 ∷ 0x2400 ∷ 0x2400 ∷ 0x2400 ∷ 0x2400 ∷ 0x2400 ∷ 0x2400 ∷ 0x2400 ∷ 0x2400 ∷ 0x2400
    ∷ 0x2400 ∷ 0x2400 ∷ 0x2400 ∷ 0x2400 ∷ 0x2400 ∷ 0x2400 ∷ 0x2400 ∷ 0x2400 ∷ 0x2400 ∷ 0x2400
    ∷ 0x2400 ∷ 0x2400 ∷ 0x2400 ∷ 0x2400 ∷ 0x2400 ∷ 0x2400 ∷ 0x2400 ∷ 0x2400 ∷ 0x2400 ∷ 0x2400
    ∷ 0x2400 ∷ 0x2400 ∷ 0x2400 ∷ 0x2400 ∷ 0x2400 ∷ 0x2400 ∷ 0x2400 ∷ 0x2400 ∷ 0x2400 ∷ 0x2400
    ∷ 0x2400 ∷ 0x2400 ∷ 0x2400 ∷ 0x2400 ∷ 0x2400 ∷ 0x2400 ∷ 0x2400 ∷ 0x2400 ∷ 0x2400 ∷ 0x2400
    ∷ 0x2400 ∷ 0x2400 ∷ 0x2400 ∷ 0x2400 ∷ 0x2400 ∷ 0x2400 ∷ 0x2400 ∷ 0x2400 ∷ 0x2400 ∷ 0x2400
    ∷ 0x2400 ∷ 0x2400 ∷ 0x2400 ∷ 0x2400 ∷ 0x2400 ∷ 0x2400 ∷ 0x2400 ∷ 0x2400 ∷ 0x2400 ∷ 0x2400
    ∷ 0x2400 ∷ 0x2400 ∷ 0x2400 ∷ 0x2400 ∷ 0x2400 ∷ []

abbrev pub first_has : ℕ → List ℕ → Bool
first_has type [] = false
first_has type (entry ∷ _) = not (entry / type % 2 == 0)

abbrev pub has_type : ℕ → ℕ → Bool
has_type type ch = first_has type (drop (ch % 256) http_char_table)

unfoldable pub is_token : ℕ → Bool
is_token ch = has_type 16384 ch

unfoldable pub is_lws : ℕ → Bool
is_lws ch = has_type 512 ch

unfoldable pub is_text : ℕ → Bool
is_text ch = has_type 8192 ch

unfoldable pub is_char : ℕ → Bool
is_char ch = has_type 2 ch

unfoldable pub skip_lws : Bytes → Bytes
skip_lws [] = []
skip_lws (c ∷ s) = let rest = skip_lws s in if is_lws c then rest else c ∷ s

-- The tokens' bytes at the beginning, and what is behind them.
unfoldable pub span_token : Bytes → Bytes × Bytes
span_token [] = ([], [])
span_token (c ∷ s) =
    let (token, rest) = span_token s in if is_token c then (c ∷ token, rest) else ([], c ∷ s)

unfoldable pub token : Bytes → Outcome (Bytes × Bytes)
unfolding span_token
token [] = fail
token (c ∷ s) = if is_token c then ok (span_token (c ∷ s)) else fail

-- One byte, which has to be there.
unfoldable pub expect : ℕ → Bytes → Outcome Bytes
expect ch [] = fail
expect ch (c ∷ s) = if c == ch then ok s else fail

-- One more byte in front of a quoted value.
abbrev pub put_byte : ℕ → Outcome (Bytes × Bytes) → Outcome (Bytes × Bytes)
put_byte c r = r >>= λ (value, rest). ok (c ∷ value, rest)

-- A value behind its quote.
unfoldable pub quoted : Bytes → Outcome (Bytes × Bytes)
quoted [] = fail
quoted (c ∷ []) = if c == b'"' then ok ([], []) else fail
quoted (c ∷ (d ∷ s)) =
    let escaped = quoted s in
    let more = quoted (d ∷ s) in
    if c == b'"'
    then ok ([], d ∷ s)
    else if c == 92
    then (if is_char d then put_byte d escaped else fail)
    else if is_text c
    then put_byte c more
    else fail

-- A value: in quotes or a token.
unfoldable pub attribute_value : Bytes → Outcome (Bytes × Bytes)
unfolding quoted token
attribute_value [] = fail
attribute_value (c ∷ s) = if c == b'"' then quoted s else token (c ∷ s)

-- One attribute behind its semicolon, with what is behind it.
unfoldable pub attribute : Bytes → Outcome ((Bytes × Bytes) × Bytes)
attribute s = token (skip_lws s) >>= λ (name, s1).
    expect b'=' s1 >>= λ s2. attribute_value s2 >>= λ (value, s3). ok ((name, value), s3)

-- One attribute, handed on, and what the rest of the loop does.
abbrev pub then_more :
    (Bytes → List (Bytes × Bytes) × Outcome (Unit {0}))
    → Outcome ((Bytes × Bytes) × Bytes)
    → List (Bytes × Bytes) × Outcome (Unit {0})
then_more more (ok (pair, s)) = let (pairs, end) = more s in (pair ∷ pairs, end)
then_more more fail = ([], fail)
then_more more fault = ([], fault)

-- The attributes that are handed on, and how the loop ends.
unfoldable pub attributes : ℕ → Bytes → List (Bytes × Bytes) × Outcome (Unit {0})
attributes zero s = ([], fault)
attributes (suc fuel) s = elim (skip_lws s) [
  | [] ↦ ([], ok tt)
  | c ∷ s1 ↦ if c == b';' then then_more (attributes fuel) (attribute s1) else ([], fail)
]

-- The type with its subtype, and what is behind them.
unfoldable pub media_type : Bytes → Outcome (Bytes × Bytes)
media_type s = token (skip_lws s) >>= λ (type, s1).
    expect b'/' s1 >>= λ s2. token s2 >>= λ (subtype, s3). ok (type ++ b'/' ∷ subtype, s3)

-- The type and the attributes behind it.
unfoldable pub hand_on :
    Outcome (Bytes × Bytes) → Option Bytes × List (Bytes × Bytes) × Outcome (Unit {0})
unfolding attributes
hand_on (ok (type, s)) = let (pairs, end) = attributes (suc (length s)) s in (some type, pairs, end)
hand_on fail = (none, [], fail)
hand_on fault = (none, [], fault)

-- ntb_parse_content_type
unfoldable pub parse_content_type : Bytes → Option Bytes × List (Bytes × Bytes) × Outcome (Unit {0})
unfolding hand_on media_type
parse_content_type header_value = hand_on (media_type header_value)
