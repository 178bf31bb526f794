-- ===== src/Mail/Rounds.antt =====
-- What a handler of src/ntb-mail-parser.c takes in one round, and how many letters it leaves in the decoder.
use notbit.Base64
use notbit.Base64.Sizes.{length-decode}
use notbit.Common.{
  ◌∙◌, >>=-Ensures, >>=-eq-ok, ok-injective, ℕ, suc, ◌+◌, ◌*◌, ◌≤◌, ◌≡◌, refl, ap, arith, Bytes, [],
  ◌∷◌, ◌++◌, Bool-cases, inl, inr, true, false, ◌||◌, ◌==◌, ltb, length, drop, length-drop, Option,
  none, some, Outcome, ok, fail, fault, ◌>>=◌, Ensures, if-Ensures, ok-Ensures, not, ◌&&◌,
}
use notbit.QuotedPrintable
use notbit.QuotedPrintable.Automaton
use notbit.Mail.Contents.{deliver_base64, deliver_qp, whole_base64, whole_qp}
use notbit.Mail.Headers.{name_ends, name_goes_on, start_shift, start_other}
use notbit.Mail.Parsing.{
  start_content, handle_headers_end, end_name, after_name, count_lwsp, handle_header_name,
  handle_header_value_start, one_more, handle_header_value, buf_size, handle_content,
}
use notbit.Mail.{
  find_header, headers, ValueParsers, State, header_name, header_value_start, header_value,
  check_eol, check_continuation, content, Encoding, raw, base64, quoted_printable, MailParser,
  ascii_islwsp, set_header,
}

-- The lemmas on the handlers that do not look at header values, for any parsers of these.
abbrev new_values : ValueParsers
new_values = record {
  parse_addresses = λ bytes. ([], true);
  parse_content_type = λ bytes. (none, [], false);
  decode_words = λ bytes. bytes;
}

-- A round that takes no byte comes from one of two states, and leads to another one.
abbrev pub slack : State → ℕ
slack header_value_start = 0
slack check_continuation = 0
slack _ = 1

-- At most 3 letters wait in the decoder.
abbrev pub Few : MailParser → Type 0
Few p = p.base64_data.n_chars ≤ 3

abbrev pub Advances : MailParser → Bytes → ℕ × MailParser → Type 0
Advances p input (k, q) =
    Few q × (2 * length (drop k input) + 1 + slack p.state ≤ 2 * length input + slack q.state)

abbrev Left : ℕ × MailParser → Type 0
Left (k, q) = Few q

-- A byte at least was taken.
abbrev pub Took : ℕ × MailParser → Type 0
Took (k, q) = Few q × (1 ≤ k)

pub slack_le : (state : State) → slack state ≤ 1
slack_le header_value_start = omega arith
slack_le check_continuation = omega arith
slack_le header_name = omega arith
slack_le header_value = omega arith
slack_le check_eol = omega arith
slack_le content = omega arith

pub Took-Advances :
    (p : MailParser) (c : ℕ) (input : Bytes) (r : Outcome (ℕ × MailParser))
    → Ensures Took r
    → Ensures (Advances p (c ∷ input)) r
Took-Advances p c input r took (k, q) e =
    let (few, some_byte) = took (k, q) e in
    (few, omega (arith, slack_le p.state, length-drop k (c ∷ input)))

one_more-Took : (r : Outcome (ℕ × MailParser)) → Ensures Left r → Ensures Took (one_more r)
one_more-Took (ok (k, q)) h = ok-Ensures Took (suc k, q) (h (k, q) refl, omega arith)
one_more-Took fail h = λ x e. absurd (cc e)
one_more-Took fault h = λ x e. absurd (cc e)

Took-Left : (r : Outcome (ℕ × MailParser)) → Ensures Took r → Ensures Left r
Took-Left r h x e = (h x e).0

then_one : (r : Outcome MailParser) → Ensures Few r → Ensures Took (r >>= λ q. ok (1, q))
then_one (ok q) h = ok-Ensures Took (1, q) (h q refl, omega arith)
then_one fail h = λ x e. absurd (cc e)
then_one fault h = λ x e. absurd (cc e)

start_content-Few : (k : Encoding) (p : MailParser) → Few p → Few (start_content k p)
start_content-Few raw p few = few
start_content-Few base64 p few = omega arith
start_content-Few quoted_printable p few = few

headers_end-Few : (p : MailParser) → Few p → Ensures Few (handle_headers_end p)
unfolding handle_headers_end
headers_end-Few p few =
    if-Ensures Few (not p.had_from) _ _ (λ _ q e. absurd (cc e))
      λ _.
        if-Ensures Few (not p.had_to && not p.had_cc && not p.had_bcc) _ _ (λ _ q e. absurd (cc e))
          λ _. ok-Ensures Few _ (start_content-Few p.encoding (record p { state = content }) few)

newline-Few :
    (buffer : Bytes) (p : MailParser)
    → Few p
    → Ensures Few (elim buffer [ [] ↦ handle_headers_end p | _ ∷ _ ↦ fail ])
newline-Few [] p few = headers_end-Few p few
newline-Few (b ∷ buffer) p few = λ q e. absurd (cc e)

end_name-Few : (c : ℕ) (p : MailParser) → Few p → Ensures Few (end_name c p)
unfolding end_name set_header
end_name-Few c p few =
    if-Ensures Few (c == 10) _ _ (λ _. newline-Few p.buffer p few)
      λ _. >>=-Ensures Few (set_header p) _ λ p' e q f.
        let (header, _, g) = >>=-eq-ok (find_header p.buffer headers) _ e in
        ok-Ensures Few _ few q (
          ap (λ (r : MailParser). ok (record r { state = header_value_start })) (ok-injective g)
          ∙ f)

pub name_cons :
    (c : ℕ) (input : Bytes)
    → ((q : MailParser) → Few q → Ensures Left (handle_header_name q input))
    → (p : MailParser) → Few p
    → Ensures Took (handle_header_name p (c ∷ input))
name_cons c input later p few = elim (Bool-cases (c == 10 || c == b':')) [
  | inl f ↦ rw (name_ends new_values p c input f) (then_one (end_name c p) (end_name-Few c p few))
  | inr f ↦
      let q = record p { buffer = p.buffer ++ c ∷ [] } in
      rw (name_goes_on new_values p c input f)
        (one_more-Took (handle_header_name q input) (later q few))
]

pub name-Left : (input : Bytes) (p : MailParser) → Few p → Ensures Left (handle_header_name p input)
name-Left [] p few = unfold handle_header_name after_name in ok-Ensures Left _ few
name-Left (c ∷ input) p few = Took-Left _ (name_cons c input (name-Left input) p few)

pub value_cons :
    (c : ℕ) (input : Bytes)
    → ((q : MailParser) → Few q → Ensures Left (handle_header_value q input))
    → (p : MailParser) → Few p
    → Ensures Took (handle_header_value p (c ∷ input))
unfolding handle_header_value
value_cons c input later p few =
    if-Ensures Took (ascii_islwsp c) _ _ (λ _. one_more-Took _ (later _ few))
      λ _.
        if-Ensures Took (c == 0) _ _ (λ _ q e. absurd (cc e))
          λ _.
            if-Ensures Took (c == 13) _ _ (λ _. ok-Ensures Took _ (few, omega arith))
              λ _.
                if-Ensures Took (c == 10) _ _ (λ _. ok-Ensures Took _ (few, omega arith))
                  λ _. one_more-Took _ (later _ few)

pub value-Left :
    (input : Bytes) (p : MailParser) → Few p → Ensures Left (handle_header_value p input)
value-Left [] p few = unfold handle_header_value in ok-Ensures Left (0, p) few
value-Left (c ∷ input) p few = Took-Left _ (value_cons c input (value-Left input) p few)

start-Left :
    (input : Bytes) (p : MailParser) → Few p → Ensures Left (handle_header_value_start p input)
unfolding handle_header_value_start
start-Left input p few =
    if-Ensures Left (ltb (count_lwsp input) (length input)) _ _ (λ _. ok-Ensures Left _ few)
      λ _. ok-Ensures Left _ few

pub start-Advances :
    (c : ℕ) (input : Bytes) (p : MailParser)
    → p.state ≡ header_value_start
    → Few p
    → Ensures (Advances p (c ∷ input)) (handle_header_value_start p (c ∷ input))
start-Advances c input p e few = elim (Bool-cases (ascii_islwsp c)) [
  | inl f ↦ rw (start_shift new_values p c input f) (
      Took-Advances p c input _
        (one_more-Took (handle_header_value_start p input) (start-Left input p few)))
  | inr f ↦
      rw (start_other new_values p c input f)
        (ok-Ensures (Advances p (c ∷ input)) _ (few, omega (arith, ap slack e)))
]

content_base64-Few :
    (p : MailParser) (c : ℕ) (input : Bytes)
    → length (c ∷ input) ≤ buf_size
    → Few p
    → (r : Option (Bytes × Base64.State)) → Base64.decode p.base64_data (c ∷ input) ≡ r
    → Ensures Few (deliver_base64 p r)
content_base64-Few p c input short few none e = λ q f. absurd (cc f)
content_base64-Few p c input short few (some (got, d)) e =
    ok-Ensures Few _ (length-decode p.base64_data d (c ∷ input) got few e).1

content_qp-Few :
    (p : MailParser)
    → Few p
    → (r : Option (Bytes × QuotedPrintable.State)) → Ensures Few (deliver_qp p r)
content_qp-Few p few none = λ q f. absurd (cc f)
content_qp-Few p few (some (got, d)) = ok-Ensures Few _ few

pub content-Few :
    (k : Encoding) (p : MailParser) (c : ℕ) (input : Bytes)
    → length (c ∷ input) ≤ buf_size
    → Few p
    → Ensures Few (handle_content k p (c ∷ input))
unfolding handle_content
content-Few raw p c input short few = ok-Ensures Few _ few
content-Few base64 p c input short few =
    rw (whole_base64 new_values p c input short few)
      (content_base64-Few p c input short few (Base64.decode p.base64_data (c ∷ input)) refl)
content-Few quoted_printable p c input short few =
    rw (whole_qp new_values p c input short)
      (content_qp-Few p few (Automaton.run p.qp_data (c ∷ input)))

pub then_all :
    (n : ℕ) (r : Outcome MailParser) → 1 ≤ n → Ensures Few r → Ensures Took (r >>= λ q. ok (n, q))
then_all n (ok q) pos h = ok-Ensures Took (n, q) (h q refl, pos)
then_all n fail pos h = λ x e. absurd (cc e)
then_all n fault pos h = λ x e. absurd (cc e)
