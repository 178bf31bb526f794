-- ===== src/Mail.antt =====
-- src/ntb-mail-parser.c: the parser for a mail that comes in pieces. `fail` is the result -1 or false,
-- `fault` an access outside an array, or a loop that has not ended when its fuel is used up. The
-- callbacks of src/ntb-ipc.c take everything that they are given, so that it is gathered here.
pub mod Addresses
pub mod Parsing
pub mod Bytewise
pub mod Headers
pub mod Contents
pub mod Values
pub mod ContentType
pub mod Attributes
pub mod Ending
pub mod Accepting
pub mod Sources
pub mod Rounds
pub mod Stream
mod Tests
use notbit.Address.{Address}
use notbit.Base64
use notbit.Common.{
  ℕ, zero, suc, ◌+◌, ◌-◌, ◌*◌, Bytes, List, [], ◌∷◌, ◌++◌, Bool, true, false, ◌||◌, ◌&&◌, not, ◌==◌,
  ltb, leb, length, take, drop, if◌then◌else◌, Option, none, some, Outcome, ok, fail, fault, ◌>>=◌,
  ◌>>◌, fail_if,
}
use notbit.Proto.Types.{codes}
use notbit.QuotedPrintable

-- The parsers of header values, src/ntb-parse-addresses.c, src/ntb-parse-content-type.c and
-- src/ntb-encoded-words.c: what they hand to their callbacks in order, and whether they end well; the
-- type of a content type is none if they fail in front of it.
pub record ValueParsers : Type 0 where
  pub parse_addresses : Bytes → List Address × Bool
  pub parse_content_type : Bytes → Option Bytes × List (Bytes × Bytes) × Bool
  pub decode_words : Bytes → Bytes

-- enum ntb_mail_parser_state
pub data State : Type 0 where
  header_name header_value_start header_value check_eol check_continuation content : State

-- enum ntb_mail_parser_header
pub data Header : Type 0 where
  skip to cc bcc from subject content_type transfer_encoding : Header

-- enum ntb_mail_parser_encoding
pub data Encoding : Type 0 where
  raw base64 quoted_printable : Encoding

-- struct ntb_mail_parser, with what was handed to the callbacks: the sources, the destinations, the
-- subjects and the content. The two decoders are a union, of which `encoding` tells the member in use.
pub record MailParser : Type 0 where
  pub state : State
  pub current_header : Header
  pub buffer : Bytes
  pub had_from : Bool
  pub had_to : Bool
  pub had_cc : Bool
  pub had_bcc : Bool
  pub had_subject : Bool
  pub had_content_type : Bool
  pub had_transfer_encoding : Bool
  pub encoding : Encoding
  pub base64_data : Base64.State
  pub qp_data : QuotedPrintable.State
  pub sources : List Address
  pub destinations : List Address
  pub subjects : List Bytes
  pub body : Bytes

-- ntb_mail_parser_new
abbrev pub new_parser : MailParser
new_parser = record {
  state = header_name;
  current_header = skip;
  buffer = [];
  had_from = false;
  had_to = false;
  had_cc = false;
  had_bcc = false;
  had_subject = false;
  had_content_type = false;
  had_transfer_encoding = false;
  encoding = raw;
  base64_data = Base64.start;
  qp_data = QuotedPrintable.start 0 false;
  sources = [];
  destinations = [];
  subjects = [];
  body = [];
}

abbrev pub ascii_islwsp : ℕ → Bool
ascii_islwsp ch = ch == 32 || ch == 9

abbrev pub ascii_tolower : ℕ → ℕ
ascii_tolower ch = if leb b'A' ch && leb ch b'Z' then ch - b'A' + b'a' else ch

-- Whether the result of ascii_casecmp is 0.
unfoldable pub casecmp_equal : Bytes → Bytes → Bool
casecmp_equal [] [] = true
casecmp_equal [] (y ∷ ys) = false
casecmp_equal (x ∷ xs) [] = false
casecmp_equal (x ∷ xs) (y ∷ ys) =
    let rest = casecmp_equal xs ys in if ascii_tolower x == ascii_tolower y then rest else false

-- The loop stops at the end of the buffer, wherever it is in the name. A zero in the buffer is the same
-- as the one that ends the literal, and a byte behind it is compared with memory behind the literal.
unfoldable pub is_header : Bytes → Bytes → Outcome Bool
is_header [] name = ok true
is_header (c ∷ []) [] = ok (ascii_tolower c == 0)
is_header (c ∷ (d ∷ buffer)) [] = if ascii_tolower c == 0 then fault else ok false
is_header (c ∷ buffer) (n ∷ name) =
    let rest = is_header buffer name in if ascii_tolower c == n then rest else ok false

-- ntb_mail_parser_headers
abbrev pub headers : List (Bytes × Header)
headers =
    (codes "skip", skip)
    ∷ (codes "to", to)
    ∷ (codes "cc", cc)
    ∷ (codes "bcc", bcc)
    ∷ (codes "from", from)
    ∷ (codes "subject", subject)
    ∷ (codes "content-type", content_type)
    ∷ (codes "content-transfer-encoding", transfer_encoding)
    ∷ []

unfoldable pub find_header : Bytes → List (Bytes × Header) → Outcome Header
unfolding is_header
find_header buffer [] = ok skip
find_header buffer ((name, value) ∷ rest) =
    let later = find_header buffer rest in
    is_header buffer name >>= λ found. if found then ok value else later

unfoldable pub set_header : MailParser → Outcome MailParser
unfolding find_header
set_header p = find_header p.buffer headers >>= λ header. ok (record p { current_header = header })

module _ (values : ValueParsers) where
  unfoldable pub handle_subject : MailParser → Outcome MailParser
  handle_subject p =
      if p.had_subject
      then fail
      else let decoded = values.decode_words p.buffer in
        ok
          (record p { had_subject = true; buffer = decoded; subjects = p.subjects ++ decoded ∷ [] })

  -- The end of handle_to, handle_cc and handle_bcc.
  unfoldable pub add_destinations : MailParser → Outcome MailParser
  add_destinations p =
      let (addresses, good) = values.parse_addresses p.buffer in
      if good then ok (record p { destinations = p.destinations ++ addresses }) else fail

  unfoldable pub handle_to : MailParser → Outcome MailParser
  unfolding add_destinations
  handle_to p = if p.had_to then fail else add_destinations (record p { had_to = true })

  unfoldable pub handle_cc : MailParser → Outcome MailParser
  unfolding add_destinations
  handle_cc p = if p.had_cc then fail else add_destinations (record p { had_cc = true })

  unfoldable pub handle_bcc : MailParser → Outcome MailParser
  unfolding add_destinations
  handle_bcc p = if p.had_bcc then fail else add_destinations (record p { had_bcc = true })

  -- from_address_cb for each address.
  unfoldable pub add_sources : List Address → MailParser → Outcome MailParser
  add_sources [] p = ok p
  add_sources (address ∷ addresses) p =
      if p.had_from
      then fail
      else add_sources addresses (record p { had_from = true; sources = p.sources ++ address ∷ [] })

  unfoldable pub handle_from : MailParser → Outcome MailParser
  unfolding add_sources
  handle_from p =
      let (addresses, good) = values.parse_addresses p.buffer in
      add_sources addresses p >>= λ p'. if good then ok p' else fail

  -- content_type_attribute_cb
  unfoldable pub is_supported : Bytes → Bytes → Bool
  unfolding casecmp_equal
  is_supported attribute value =
      not (casecmp_equal attribute (codes "charset"))
      || casecmp_equal value (codes "utf-8")
      || casecmp_equal value (codes "us-ascii")

  unfoldable pub all_supported : List (Bytes × Bytes) → Bool
  unfolding is_supported
  all_supported [] = true
  all_supported ((attribute, value) ∷ rest) = is_supported attribute value && all_supported rest

  unfoldable pub handle_content_type : MailParser → Outcome MailParser
  unfolding casecmp_equal all_supported
  handle_content_type p =
      let (type, attributes, good) = values.parse_content_type p.buffer in
      if p.had_content_type then fail else elim type [
        | none ↦ fail
        | some t ↦
            if casecmp_equal t (codes "text/plain") && all_supported attributes && good
            then ok (record p { had_content_type = true; buffer = p.buffer ++ 0 ∷ [] })
            else fail
      ]

  unfoldable pub handle_transfer_encoding : MailParser → Outcome MailParser
  unfolding is_header
  handle_transfer_encoding p =
      let seen = record p { had_transfer_encoding = true } in
      if p.had_transfer_encoding
      then fail
      else (is_header p.buffer (codes "base64") >>= λ is_base64.
          if is_base64
          then ok (record seen { encoding = base64 })
          else (is_header p.buffer (codes "quoted-printable") >>= λ is_quoted.
              if is_quoted
              then ok (record seen { encoding = quoted_printable })
              else (is_header p.buffer (codes "7bit") >>= λ is_7bit.
                  (if is_7bit then ok true else is_header p.buffer (codes "8bit")) >>= λ is_raw.
                  if is_raw then ok (record seen { encoding = raw }) else fail)))

  -- One space at the end is taken off.
  unfoldable pub trim_end : Bytes → Bytes
  trim_end [] = []
  trim_end (c ∷ []) = if c == 32 then [] else c ∷ []
  trim_end (c ∷ (d ∷ bytes)) = c ∷ trim_end (d ∷ bytes)

  unfoldable pub handle_value : Header → MailParser → Outcome MailParser
  handle_value to p = handle_to p
  handle_value cc p = handle_cc p
  handle_value bcc p = handle_bcc p
  handle_value from p = handle_from p
  handle_value subject p = handle_subject p
  handle_value content_type p = handle_content_type p
  handle_value transfer_encoding p = handle_transfer_encoding p
  handle_value skip p = ok p

  unfoldable pub handle_header_end : MailParser → Outcome MailParser
  handle_header_end p = handle_value p.current_header (record p { buffer = trim_end p.buffer })
