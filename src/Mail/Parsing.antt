-- ===== src/Mail/Parsing.antt =====
-- src/ntb-mail-parser.c: the handlers of each state, with how many bytes they have processed, and the
-- loop of ntb_mail_parser_parse.
use notbit.Base64
use notbit.Common.{
  ℕ, zero, suc, ◌+◌, ◌*◌, Bytes, List, [], ◌∷◌, ◌++◌, Bool, false, ◌||◌, ◌&&◌, not, ◌==◌, ltb,
  length, take, drop, if◌then◌else◌, none, some, Outcome, ok, fail, fault, ◌>>=◌,
}
use notbit.Mail.{
  ValueParsers, State, header_name, header_value_start, header_value, check_eol, check_continuation,
  content, Encoding, raw, base64, quoted_printable, MailParser, ascii_islwsp, set_header,
  handle_header_end,
}
use notbit.QuotedPrintable

-- ntb_quoted_printable_decode_start leaves the nibble of the decoder as it is.
abbrev pub start_content : Encoding → MailParser → MailParser
start_content raw p = p
start_content base64 p = record p { base64_data = Base64.start }
start_content quoted_printable p = record p {
  qp_data = QuotedPrintable.start p.qp_data.nibble false;
}

unfoldable pub handle_headers_end : MailParser → Outcome MailParser
handle_headers_end p =
    if not p.had_from
    then fail
    else if not p.had_to && not p.had_cc && not p.had_bcc
    then fail
    else ok (start_content p.encoding (record p { state = content }))

-- The bytes in front of the first end of a line or colon, and what is from there on.
abbrev pub name_part : Bytes → Bytes × Bytes
name_part [] = ([], [])
name_part (c ∷ bytes) =
    let (name, rest) = name_part bytes in
    if c == 10 || c == b':' then ([], c ∷ bytes) else (c ∷ name, rest)

-- What the byte that ends a name does.
unfoldable pub end_name : ℕ → MailParser → Outcome MailParser
unfolding handle_headers_end
end_name c p =
    if c == 10
    then (elim p.buffer [ [] ↦ handle_headers_end p | _ ∷ _ ↦ fail ])
    else (set_header p >>= λ p'. ok (record p' { state = header_value_start }))

-- A handler returns how many bytes it has processed; here `name` and, if there is one, a byte behind it.
unfoldable pub after_name : MailParser → Bytes → Bytes → Outcome (ℕ × MailParser)
after_name p name [] = ok (length name, record p { buffer = p.buffer ++ name })
after_name p name (c ∷ rest) =
    end_name c (record p { buffer = p.buffer ++ name }) >>= λ p'. ok (length name + 1, p')

unfoldable pub handle_header_name : MailParser → Bytes → Outcome (ℕ × MailParser)
unfolding after_name
handle_header_name p input = let (name, rest) = name_part input in after_name p name rest

abbrev pub count_lwsp : Bytes → ℕ
count_lwsp [] = 0
count_lwsp (c ∷ bytes) = let n = count_lwsp bytes in if ascii_islwsp c then suc n else 0

unfoldable pub handle_header_value_start : MailParser → Bytes → Outcome (ℕ × MailParser)
handle_header_value_start p input =
    let i = count_lwsp input in
    if ltb i (length input)
    then ok (i, record p { state = header_value; buffer = [] })
    else ok (i, p)

abbrev pub ends_with_space : Bytes → Bool
ends_with_space [] = false
ends_with_space (c ∷ []) = c == 32
ends_with_space (c ∷ (d ∷ bytes)) = ends_with_space (d ∷ bytes)

unfoldable pub add_space : Bytes → Bytes
add_space buffer = if ends_with_space buffer then buffer else buffer ++ 32 ∷ []

-- One more byte in front of those that the rest of a loop has processed.
abbrev pub one_more : Outcome (ℕ × MailParser) → Outcome (ℕ × MailParser)
one_more r = r >>= λ (n, p). ok (suc n, p)

-- The loop of handle_header_value.
unfoldable pub handle_header_value : MailParser → Bytes → Outcome (ℕ × MailParser)
handle_header_value p [] = ok (0, p)
handle_header_value p (c ∷ input) =
    let spaced = handle_header_value (record p { buffer = add_space p.buffer }) input in
    let more = handle_header_value (record p { buffer = p.buffer ++ c ∷ [] }) input in
    if ascii_islwsp c
    then one_more spaced
    else if c == 0
    then fail
    else if c == 13
    then ok (1, record p { state = check_eol })
    else if c == 10
    then ok (1, record p { state = check_continuation })
    else one_more more

unfoldable pub handle_check_eol : ℕ → MailParser → Outcome (ℕ × MailParser)
handle_check_eol c p =
    if not (c == 10) then fail else ok (1, record p { state = check_continuation })

unfoldable pub handle_check_continuation : ValueParsers → ℕ → MailParser → Outcome (ℕ × MailParser)
handle_check_continuation values c p =
    if ascii_islwsp c
    then ok (0, record p { state = header_value })
    else (handle_header_end values p >>= λ p'.
        ok (0, record p' { buffer = []; state = header_name }))

-- data_cb
abbrev pub add_content : Bytes → MailParser → MailParser
add_content bytes p = record p { body = p.body ++ bytes }

-- `uint8_t buf[512]`, and NTB_BASE64_MAX_INPUT_FOR_SIZE of it.
abbrev pub buf_size : ℕ
buf_size = 512

abbrev pub base64_chunk : ℕ
base64_chunk = 682

-- The loops over chunks; base64_data may have letters of a chunk before.
unfoldable pub handle_content_base64 : ℕ → MailParser → Bytes → Outcome MailParser
handle_content_base64 fuel p [] = ok p
handle_content_base64 zero p (c ∷ input) = fault
handle_content_base64 (suc fuel) p (c ∷ input) =
    elim (Base64.decode p.base64_data (take base64_chunk (c ∷ input))) [
      | none ↦ fail
      | some (got, d) ↦
          let more =
            handle_content_base64 fuel (add_content got (record p { base64_data = d }))
              (drop base64_chunk (c ∷ input)) in
          if ltb buf_size (length got) then fault else more
    ]

unfoldable pub handle_content_quoted_printable : ℕ → MailParser → Bytes → Outcome MailParser
handle_content_quoted_printable fuel p [] = ok p
handle_content_quoted_printable zero p (c ∷ input) = fault
handle_content_quoted_printable (suc fuel) p (c ∷ input) =
    elim (QuotedPrintable.decode p.qp_data (take buf_size (c ∷ input))) [
      | none ↦ fault
      | some none ↦ fail
      | some (some (got, d)) ↦
          let more =
            handle_content_quoted_printable fuel (add_content got (record p { qp_data = d }))
              (drop buf_size (c ∷ input)) in
          if ltb buf_size (length got) then fault else more
    ]

unfoldable pub handle_content : Encoding → MailParser → Bytes → Outcome MailParser
unfolding handle_content_base64 handle_content_quoted_printable
handle_content raw p input = ok (add_content input p)
handle_content base64 p input = handle_content_base64 (length input) p input
handle_content quoted_printable p input = handle_content_quoted_printable (length input) p input

-- `switch (parser->state)`, on an input that is not empty.
unfoldable pub handle_state :
    ValueParsers → State → MailParser → ℕ → Bytes → Outcome (ℕ × MailParser)
handle_state values header_name p c input = handle_header_name p (c ∷ input)
handle_state values header_value_start p c input = handle_header_value_start p (c ∷ input)
handle_state values header_value p c input = handle_header_value p (c ∷ input)
handle_state values check_eol p c input = handle_check_eol c p
handle_state values check_continuation p c input = handle_check_continuation values c p
handle_state values content p c input =
    handle_content p.encoding p (c ∷ input) >>= λ p'. ok (length (c ∷ input), p')

unfoldable pub parse_loop : ValueParsers → ℕ → MailParser → Bytes → Outcome MailParser
parse_loop values fuel p [] = ok p
parse_loop values zero p (c ∷ input) = fault
parse_loop values (suc fuel) p (c ∷ input) =
    handle_state values p.state p c input >>= λ (processed, p').
    parse_loop values fuel p' (drop processed (c ∷ input))

-- ntb_mail_parser_parse: two rounds take a byte at least.
unfoldable pub parse : ValueParsers → MailParser → Bytes → Outcome MailParser
unfolding parse_loop
parse values p input = parse_loop values (2 * length input) p input

-- A mail that comes in pieces, as email_source_cb of src/ntb-ipc.c reads it.
unfoldable pub feed : ValueParsers → MailParser → List Bytes → Outcome MailParser
feed values p [] = ok p
feed values p (piece ∷ pieces) = parse values p piece >>= λ q. feed values q pieces

abbrev pub concat : List Bytes → Bytes
concat [] = []
concat (piece ∷ pieces) = piece ++ concat pieces

-- ntb_mail_parser_end
unfoldable pub end : MailParser → Outcome MailParser
end p = elim p.state [
  | content ↦ elim p.encoding [
    | raw ↦ ok p
    | base64 ↦ elim (Base64.decode_end p.base64_data) [
      | none ↦ fail
      | some got ↦ ok (add_content got p)
    ]
    | quoted_printable ↦ if QuotedPrintable.decode_end p.qp_data then ok p else fail
  ]
  | _ ↦ fail
]
