-- ===== src/Mail/Bytewise.antt =====
-- The parser for a mail, described as an automaton that takes one byte at a time.
use notbit.Base64
use notbit.Common.{
  ℕ, Bytes, [], ◌∷◌, ◌++◌, ◌==◌, ◌||◌, not, if◌then◌else◌, none, some, Outcome, ok, fail, ◌>>=◌,
}
use notbit.Mail.Parsing.{add_content, add_space, end_name}
use notbit.Mail.{
  ValueParsers, State, header_name, header_value_start, header_value, check_eol, check_continuation,
  content, Encoding, raw, base64, quoted_printable, MailParser, ascii_islwsp, handle_header_end,
}
use notbit.QuotedPrintable.Automaton

unfoldable pub step_name : MailParser → ℕ → Outcome MailParser
step_name p c =
    if c == 10 || c == b':' then end_name c p else ok (record p { buffer = p.buffer ++ c ∷ [] })

unfoldable pub step_value : MailParser → ℕ → Outcome MailParser
step_value p c =
    if ascii_islwsp c
    then ok (record p { buffer = add_space p.buffer })
    else if c == 0
    then fail
    else if c == 13
    then ok (record p { state = check_eol })
    else if c == 10
    then ok (record p { state = check_continuation })
    else ok (record p { buffer = p.buffer ++ c ∷ [] })

unfoldable pub step_content : Encoding → MailParser → ℕ → Outcome MailParser
step_content raw p c = ok (add_content (c ∷ []) p)
step_content base64 p c = elim (Base64.decode p.base64_data (c ∷ [])) [
  | none ↦ fail
  | some (got, d) ↦ ok (add_content got (record p { base64_data = d }))
]
step_content quoted_printable p c = elim (Automaton.step p.qp_data.mode p.qp_data c) [
  | none ↦ fail
  | some (got, d) ↦ ok (add_content got (record p { qp_data = d }))
]

unfoldable pub step : ValueParsers → State → MailParser → ℕ → Outcome MailParser
step values header_name p c = step_name p c
step values header_value_start p c =
    if ascii_islwsp c then ok p else step_value (record p { state = header_value; buffer = [] }) c
step values header_value p c = step_value p c
step values check_eol p c =
    if not (c == 10) then fail else ok (record p { state = check_continuation })
step values check_continuation p c =
    if ascii_islwsp c
    then step_value (record p { state = header_value }) c
    else (handle_header_end values p >>= λ p'.
        step_name (record p' { buffer = []; state = header_name }) c)
step values content p c = step_content p.encoding p c

unfoldable pub run : ValueParsers → MailParser → Bytes → Outcome MailParser
run values p [] = ok p
run values p (c ∷ input) = step values p.state p c >>= λ p'. run values p' input
