-- ===== src/Mail/Ending.antt =====
-- ntb_parse_content_type ends on every string.
use notbit.Common.{
  ℕ, zero, suc, ◌≤◌, ◌<◌, ◌≢◌, arith, Bytes, List, [], ◌∷◌, Bool, true, false, ◌==◌, length,
  if◌then◌else◌, Outcome, Yields, >>=-Yields, if-Yields, ok, fail, fault,
}
use notbit.Mail.ContentType.{
  is_token, is_text, is_char, skip_lws, span_token, token, expect, put_byte, quoted,
  attribute_value, attribute, then_more, attributes, media_type, hand_on, parse_content_type,
}

-- At most n bytes are left.
abbrev Left {ℓ} : {A : Type ℓ} → ℕ → A × Bytes → Type 0
Left n (_, rest) = length rest ≤ n

skip_lws-length : (s : Bytes) → length (skip_lws s) ≤ length s
unfolding skip_lws
skip_lws-length [] = omega arith
skip_lws-length (c ∷ s) = let h = skip_lws-length s in ground arith

span_token-length : (s : Bytes) → length (span_token s).1 ≤ length s
unfolding span_token
span_token-length [] = omega arith
span_token-length (c ∷ s) = let h = span_token-length s in ground arith

token-Left : (n : ℕ) (s : Bytes) → length s ≤ n → Yields (Left n) (token s)
unfolding token
token-Left n [] h = tt
token-Left n (c ∷ s) h =
    if-Yields (Left n) (is_token c) (ok (span_token (c ∷ s))) fail
      (omega (arith, span_token-length (c ∷ s))) tt

expect-Left : (n ch : ℕ) (s : Bytes) → length s ≤ n → Yields (λ rest. length rest ≤ n) (expect ch s)
unfolding expect
expect-Left n ch [] h = tt
expect-Left n ch (c ∷ s) h =
    if-Yields (λ rest. length rest ≤ n) (c == ch) (ok s) fail (omega arith) tt

put_byte-Left :
    (n c : ℕ) (r : Outcome (Bytes × Bytes)) → Yields (Left n) r → Yields (Left n) (put_byte c r)
put_byte-Left n c r h = >>=-Yields (Left n) (Left n) r _ h (λ _ k. k)

quoted-Left : (n : ℕ) (s : Bytes) → length s ≤ n → Yields (Left n) (quoted s)
unfolding quoted
quoted-Left n [] h = tt
quoted-Left n (c ∷ []) h = if-Yields (Left n) (c == b'"') (ok ([], [])) fail (omega arith) tt
quoted-Left n (c ∷ (d ∷ s)) h = if-Yields (Left n) (c == b'"') _ _ (omega arith) (
    if-Yields (Left n) (c == 92) _ _
      (if-Yields (Left n) (is_char d) _ _
        (put_byte-Left n d (quoted s) (quoted-Left n s (omega arith))) tt)
      (if-Yields (Left n) (is_text c) _ _
        (put_byte-Left n c (quoted (d ∷ s)) (quoted-Left n (d ∷ s) (omega arith))) tt))

attribute_value-Left : (n : ℕ) (s : Bytes) → length s ≤ n → Yields (Left n) (attribute_value s)
unfolding attribute_value
attribute_value-Left n [] h = tt
attribute_value-Left n (c ∷ s) h =
    if-Yields (Left n) (c == b'"') _ _ (quoted-Left n s (omega arith)) (token-Left n (c ∷ s) h)

attribute-Left : (n : ℕ) (s : Bytes) → length s ≤ n → Yields (Left n) (attribute s)
unfolding attribute
attribute-Left n s h =
    >>=-Yields (Left n) (Left n) (token (skip_lws s)) _
      (token-Left n (skip_lws s) (omega (arith, skip_lws-length s)))
      λ (name, s1) h1.
        >>=-Yields (λ rest. length rest ≤ n) (Left n) (expect b'=' s1) _ (expect-Left n b'=' s1 h1)
          λ s2 h2.
            >>=-Yields (Left n) (Left n) (attribute_value s2) _ (attribute_value-Left n s2 h2)
              (λ _ k. k)

media_type-Left : (n : ℕ) (s : Bytes) → length s ≤ n → Yields (Left n) (media_type s)
unfolding media_type
media_type-Left n s h =
    >>=-Yields (Left n) (Left n) (token (skip_lws s)) _
      (token-Left n (skip_lws s) (omega (arith, skip_lws-length s)))
      λ (type, s1) h1.
        >>=-Yields (λ rest. length rest ≤ n) (Left n) (expect b'/' s1) _ (expect-Left n b'/' s1 h1)
          λ s2 h2. >>=-Yields (Left n) (Left n) (token s2) _ (token-Left n s2 h2) (λ _ k. k)

then_more-ends :
    (n : ℕ) (more : Bytes → List (Bytes × Bytes) × Outcome (Unit {0}))
    (r : Outcome ((Bytes × Bytes) × Bytes))
    → Yields (Left n) r
    → ((s : Bytes) → length s ≤ n → (more s).1 ≢ fault)
    → (then_more more r).1 ≢ fault
then_more-ends n more (ok (pair, s)) h k = k s h
then_more-ends n more fail h k = λ e. cc
then_more-ends n more fault h k = elim h [ ]

if-ends :
    (test : Bool) (x y : List (Bytes × Bytes) × Outcome (Unit {0}))
    → x.1 ≢ fault
    → y.1 ≢ fault
    → (if test then x else y).1 ≢ fault
if-ends true x y h k = h
if-ends false x y h k = k

attributes-ends : (fuel : ℕ) (s : Bytes) → length s < fuel → (attributes fuel s).1 ≢ fault
unfolding attributes
attributes-ends zero s h = absurd (omega arith)
attributes-ends (suc fuel) s h =
    behind (λ s2 h2. attributes-ends fuel s2 h2) (skip_lws s) (omega (arith, skip_lws-length s))
  where
    behind :
        ((s2 : Bytes) → length s2 < fuel → (attributes fuel s2).1 ≢ fault)
        → (rest : Bytes) → length rest ≤ fuel
        → (elim rest as (λ _. List (Bytes × Bytes) × Outcome (Unit {0})) [
          | [] ↦ ([], ok tt)
          | c ∷ s1 ↦ if c == b';' then then_more (attributes fuel) (attribute s1) else ([], fail)
        ]).1
          ≢ fault
    behind ends [] k = λ e. cc
    behind ends (c ∷ s1) k =
        if-ends (c == b';') _ _
          (then_more-ends (length s1) (attributes fuel) (attribute s1)
            (attribute-Left (length s1) s1 (omega arith)) (λ s2 h2. ends s2 (omega arith)))
          (λ e. cc)

hand_on-ends : (n : ℕ) (r : Outcome (Bytes × Bytes)) → Yields (Left n) r → (hand_on r).2 ≢ fault
unfolding hand_on
hand_on-ends n (ok (type, s)) h = attributes-ends (suc (length s)) s (omega arith)
hand_on-ends n fail h = λ e. cc
hand_on-ends n fault h = elim h [ ]

-- On every string the parser ends, and its loop does not use up its fuel.
pub parse_content_type-ends : (s : Bytes) → (parse_content_type s).2 ≢ fault
unfolding parse_content_type
parse_content_type-ends s =
    hand_on-ends (length s) (media_type s) (media_type-Left (length s) s (omega arith))
