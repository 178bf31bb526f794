-- ===== src/Mail/Accepting.antt =====
-- The parser of mails with the parsers of content types and of lists of addresses.
use notbit.Common.{
  bytes_eq, not, ◌||◌, ◌==◌, ◌≡◌, refl, ◌∙◌, ap, Bytes, List, [], ◌∷◌, ◌++◌, All, map, ◌>>=◌, Bool,
  Bool-cases, inl, inr, true, false, ◌&&◌, if◌then◌else◌, Option, none, some, Outcome, ok, fail,
  fault,
}
use notbit.Address.{Address, Digests}
use notbit.Base58.{BigNum}
use notbit.Mail.Addresses.{parse_addresses}
use notbit.Mail.Addresses.Written.{Entry, listed, parse_addresses-listed}
use notbit.Mail.Attributes.{Attribute, written, parse_content_type-written}
use notbit.Mail.ContentType.{is_token, parse_content_type}
use notbit.Mail.{
  ValueParsers, MailParser, casecmp_equal, all_supported, is_supported, ascii_tolower,
  handle_content_type, handle_from, add_sources,
}
use notbit.Proto.Types.{codes}

abbrev pub is_ok {ℓ} : {A : Type ℓ} → Outcome A → Bool
is_ok (ok _) = true
is_ok fail = false
is_ok fault = false

-- What ntb_parse_content_type hands on and returns.
unfoldable pub content_type_result : Bytes → Option Bytes × List (Bytes × Bytes) × Bool
content_type_result s =
    let (type, attributes, end) = parse_content_type s in (type, attributes, is_ok end)

-- handle_content_type calls ntb_parse_content_type.
abbrev pub with_content_type : ValueParsers → ValueParsers
with_content_type values = record values { parse_content_type = content_type_result }

result-written :
    (pairs : List (Bytes × Bytes))
    → All Attribute pairs
    → content_type_result (codes "text/plain" ++ written pairs)
      ≡ (some (codes "text/plain"), pairs, true)
unfolding content_type_result is_token
result-written pairs h =
    rw
      (parse_content_type-written (codes "text") (codes "plain") pairs
        (refl, (refl, (refl, (refl, tt)))) (refl, (refl, (refl, (refl, (refl, tt))))) h)
      refl

-- What handle_content_type does with the result of the parser.
abbrev decide :
    ValueParsers → MailParser → Option Bytes × List (Bytes × Bytes) × Bool → Outcome MailParser
decide values p (none, attributes, good) = fail
decide values p (some t, attributes, good) =
    if casecmp_equal t (codes "text/plain") && all_supported values attributes && good
    then ok (record p { had_content_type = true; buffer = p.buffer ++ 0 ∷ [] })
    else fail

handle_content_type-decide :
    (values : ValueParsers) (p : MailParser)
    → p.had_content_type ≡ false
    → handle_content_type values p ≡ decide values p (values.parse_content_type p.buffer)
unfolding handle_content_type
handle_content_type-decide values p first = rw first (same (values.parse_content_type p.buffer))
  where
    same :
        (r : Option Bytes × List (Bytes × Bytes) × Bool)
        → (elim r.0 as (λ _. Outcome MailParser) [
          | none ↦ fail
          | some t ↦
              if casecmp_equal t (codes "text/plain") && all_supported values r.1 && r.2
              then ok (record p { had_content_type = true; buffer = p.buffer ++ 0 ∷ [] })
              else fail
        ])
          ≡ decide values p r
    same (none, _, _) = refl
    same (some _, _, _) = refl

decide-good :
    (values : ValueParsers) (p : MailParser) (pairs : List (Bytes × Bytes))
    → decide values p (some (codes "text/plain"), pairs, true) ≡ (
        if all_supported values pairs
        then ok (record p { had_content_type = true; buffer = p.buffer ++ 0 ∷ [] })
        else fail)
unfolding casecmp_equal
decide-good values p pairs = elim (Bool-cases (all_supported values pairs)) [
  | inl f ↦ rw f refl
  | inr f ↦ rw f refl
]

-- Two texts that are the same but for the case of their letters.
abbrev pub same_letters : Bytes → Bytes → Bool
same_letters xs ys = bytes_eq (map ascii_tolower xs) (map ascii_tolower ys)

-- The attribute is no charset, or one of the two that are known.
abbrev pub is_known : Bytes × Bytes → Bool
is_known (attribute, value) =
    not (same_letters attribute (codes "charset"))
    || same_letters value (codes "utf-8")
    || same_letters value (codes "us-ascii")

abbrev pub all_known : List (Bytes × Bytes) → Bool
all_known [] = true
all_known (pair ∷ pairs) = is_known pair && all_known pairs

casecmp_equal_lem : (xs ys : Bytes) → casecmp_equal xs ys ≡ same_letters xs ys
unfolding casecmp_equal bytes_eq
casecmp_equal_lem [] [] = refl
casecmp_equal_lem [] (y ∷ ys) = refl
casecmp_equal_lem (x ∷ xs) [] = refl
casecmp_equal_lem (x ∷ xs) (y ∷ ys) =
    ap (λ b. if ascii_tolower x == ascii_tolower y then b else false) (casecmp_equal_lem xs ys)

all_supported_lem :
    (values : ValueParsers) (pairs : List (Bytes × Bytes))
    → all_supported values pairs ≡ all_known pairs
unfolding all_supported is_supported
all_supported_lem values [] = refl
all_supported_lem values ((attribute, value) ∷ pairs) =
    rw
      (
        casecmp_equal_lem attribute (codes "charset"),
        casecmp_equal_lem value (codes "utf-8"),
        casecmp_equal_lem value (codes "us-ascii"),
        all_supported_lem values pairs,
      )
      refl

-- The first Content-Type of a mail, if it is text/plain and its attributes are written with their values in
-- quotes, is taken exactly if each value of an attribute charset is utf-8 or us-ascii, where names and values
-- are compared without regard to the case of their letters; the header then counts as seen, and a zero is put
-- behind its value.
pub handle_content_type-written :
    (values : ValueParsers) (p : MailParser) (pairs : List (Bytes × Bytes))
    → All Attribute pairs
    → p.had_content_type ≡ false
    → p.buffer ≡ codes "text/plain" ++ written pairs
    → handle_content_type (with_content_type values) p ≡ (
        if all_known pairs
        then ok (record p { had_content_type = true; buffer = p.buffer ++ 0 ∷ [] })
        else fail)
handle_content_type-written values p pairs h first e =
    handle_content_type-decide (with_content_type values) p first
    ∙ ap (decide (with_content_type values) p) (ap content_type_result e ∙ result-written pairs h)
    ∙ decide-good (with_content_type values) p pairs
    ∙ ap
        (λ b.
          if b
          then ok (record p { had_content_type = true; buffer = p.buffer ++ 0 ∷ [] })
          else fail)
        (all_supported_lem (with_content_type values) pairs)

module _ (bn : BigNum) (h : Digests) where
  -- What ntb_parse_addresses hands on, if it ends well, and whether it does. If not, the mail is given up.
  abbrev pub handed_on : Outcome (List Address) → List Address × Bool
  handed_on (ok addresses) = (addresses, true)
  handed_on fail = ([], false)
  handed_on fault = ([], false)

  unfoldable pub addresses_result : Bytes → List Address × Bool
  addresses_result s = handed_on (parse_addresses bn h s)

  -- handle_from, handle_to, handle_cc and handle_bcc call ntb_parse_addresses.
  abbrev pub with_addresses : ValueParsers → ValueParsers
  with_addresses values = record values { parse_addresses = addresses_result }

  -- From has one address.
  abbrev pub taken : MailParser → Bytes × Address → List (Bytes × Address) → Outcome MailParser
  taken p (name, a) [] = ok (record p { had_from = true; sources = p.sources ++ a ∷ [] })
  taken p (name, a) (f ∷ entries) = fail

  addresses_result-listed :
      (e : Bytes × Address) (entries : List (Bytes × Address))
      → All (Entry bn h) (e ∷ entries)
      → addresses_result (listed bn h e entries) ≡ (map (λ x. x.1) (e ∷ entries), true)
  unfolding addresses_result
  addresses_result-listed e entries k = ap handed_on (parse_addresses-listed bn h e entries k)

  -- The addresses of a list as sources.
  sources_lem :
      (values : ValueParsers) (p : MailParser) (e : Bytes × Address)
      (entries : List (Bytes × Address))
      → p.had_from ≡ false
      → (add_sources values (map (λ x. x.1) (e ∷ entries)) p >>= λ p'. if true then ok p' else fail)
        ≡ taken p e entries
  unfolding add_sources
  sources_lem values p e [] first = rw first refl
  sources_lem values p e (f ∷ entries) first = rw first refl

-- The first From of a mail, if it is a list of valid addresses of versions above 0, each in brackets behind a
-- name without a comma, a quote or an opening bracket, gives the source of the mail if the list has one
-- address, and is refused if it has more.
pub handle_from-listed :
    (bn : BigNum) (h : Digests) (values : ValueParsers) (p : MailParser) (e : Bytes × Address)
    (entries : List (Bytes × Address))
    → All (Entry bn h) (e ∷ entries)
    → p.had_from ≡ false
    → p.buffer ≡ listed bn h e entries
    → handle_from (with_addresses bn h values) p ≡ taken bn h p e entries
unfolding handle_from
handle_from-listed bn h values p e entries k first b =
    ap
      (λ (r : List Address × Bool).
        add_sources (with_addresses bn h values) r.0 p >>= λ p'. if r.1 then ok p' else fail)
      (ap (addresses_result bn h) b ∙ addresses_result-listed bn h e entries k)
    ∙ sources_lem bn h (with_addresses bn h values) p e entries first
