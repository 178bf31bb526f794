-- ===== src/Mail/Sources.antt =====
-- A mail that src/ntb-mail-parser.c accepts has one source.
use notbit.Address.{Address}
use notbit.Common.{
  >>=-Ensures, ok-injective, ℕ, ◌≤◌, ◌≡◌, refl, sym, ◌∙◌, ap, arith, Bytes, List, [], ◌∷◌, All,
  length, length-append, true, not, ◌&&◌, ◌||◌, ◌==◌, if◌then◌else◌, ok, fail, Ensures, >>=-eq-ok,
  if-Ensures, ok-Ensures,
}
use notbit.Mail.Bytewise.{step_name, step_value, step_content, step, run}
use notbit.Mail.Parsing.{start_content, handle_headers_end, end_name, buf_size, feed, concat, end}
use notbit.Mail.Stream.{feed_whole}
use notbit.Mail.{
  find_header, headers, ValueParsers, State, header_name, header_value_start, header_value,
  check_eol, check_continuation, content, Header, skip, to, cc, bcc, from, subject, content_type,
  transfer_encoding, Encoding, raw, base64, quoted_printable, MailParser, new_parser, ascii_islwsp,
  set_header, handle_subject, add_destinations, handle_to, handle_cc, handle_bcc, add_sources,
  handle_from, handle_content_type, handle_transfer_encoding, handle_value, handle_header_end,
  trim_end,
}

no_ok {ℓ} : {P : Type ℓ} {q : MailParser} → fail ≡ ok q → P
no_ok e = ground arith

-- The sources are counted by the flag.
abbrev One : MailParser → Type 0
One p = length p.sources ≡ (if p.had_from then 1 else 0)

module _ (values : ValueParsers) where
  add_sources-One :
      (addresses : List Address) (p : MailParser)
      → One p
      → Ensures One (add_sources values addresses p)
  unfolding add_sources
  add_sources-One [] p one = ok-Ensures One p one
  add_sources-One (address ∷ addresses) p one =
      if-Ensures One p.had_from _ _ (λ _ q e. no_ok e)
        λ f.
          add_sources-One addresses _
            (omega (arith, length-append p.sources (address ∷ []), rw f at one))

  handle_from-One : (p : MailParser) → One p → Ensures One (handle_from values p)
  unfolding handle_from
  handle_from-One p one q e =
      let parsed = values.parse_addresses p.buffer in
      let (p', f, g) = >>=-eq-ok (add_sources values parsed.0 p) _ e in
      ground (arith, add_sources-One parsed.0 p one p' f)

  handle_value-One : (k : Header) (p : MailParser) → One p → Ensures One (handle_value values k p)
  unfolding handle_value
  handle_value-One skip p one q e = ground arith
  handle_value-One to p one q e = unfold handle_to add_destinations in ground arith
  handle_value-One cc p one q e = unfold handle_cc add_destinations in ground arith
  handle_value-One bcc p one q e = unfold handle_bcc add_destinations in ground arith
  handle_value-One from p one q e = handle_from-One p one q e
  handle_value-One subject p one q e = unfold handle_subject in ground arith
  handle_value-One content_type p one q e = unfold handle_content_type in ground arith
  handle_value-One transfer_encoding p one q e = unfold handle_transfer_encoding in ground arith

-- The content begins only with a source.
abbrev Sourced : MailParser → Type 0
Sourced p = One p × (p.state ≡ content → p.had_from ≡ true)

start_content-Sourced :
    (k : Encoding) (p : MailParser) → One p → p.had_from ≡ true → Sourced (start_content k p)
start_content-Sourced raw p one h = (one, λ _. h)
start_content-Sourced base64 p one h = (one, λ _. h)
start_content-Sourced quoted_printable p one h = (one, λ _. h)

headers_end-Sourced : (p : MailParser) → Sourced p → Ensures Sourced (handle_headers_end p)
unfolding handle_headers_end
headers_end-Sourced p s =
    if-Ensures Sourced (not p.had_from) _ _ (λ _ q e. no_ok e)
      λ f.
        if-Ensures Sourced (not p.had_to && not p.had_cc && not p.had_bcc) _ _ (λ _ q e. no_ok e)
          λ _.
            ok-Ensures Sourced _
              (start_content-Sourced p.encoding (record p { state = content }) s.0 (ground arith))

end_name-Sourced :
    (c : ℕ) (p : MailParser) → p.state ≡ header_name → Sourced p → Ensures Sourced (end_name c p)
unfolding end_name set_header
end_name-Sourced c p f s =
    if-Ensures Sourced (c == 10) _ _ (λ _. ended p.buffer)
      (λ _. >>=-Ensures Sourced (set_header p) _ λ p' e q f.
        let (header, _, g) = >>=-eq-ok (find_header p.buffer headers) _ e in
        ok-Ensures Sourced _ (s.0, λ e. ground arith) q
          (ap (λ (r : MailParser). ok (record r { state = header_value_start })) (ok-injective g)
            ∙ f))
  where
    ended : (b : Bytes) → Ensures Sourced (elim b [ [] ↦ handle_headers_end p | _ ∷ _ ↦ fail ])
    ended [] q e = headers_end-Sourced p s q e
    ended (_ ∷ _) q e = no_ok e

step_name-Sourced :
    (p : MailParser) (c : ℕ) → p.state ≡ header_name → Sourced p → Ensures Sourced (step_name p c)
unfolding step_name
step_name-Sourced p c f s =
    if-Ensures Sourced (c == 10 || c == b':') _ _ (λ _. end_name-Sourced c p f s)
      (λ _. ok-Ensures Sourced _ s)

step_value-Sourced : (p : MailParser) (c : ℕ) → Sourced p → Ensures Sourced (step_value p c)
unfolding step_value
step_value-Sourced p c s q e = ground arith

step_content-Sourced :
    (k : Encoding) (p : MailParser) (c : ℕ) → Sourced p → Ensures Sourced (step_content k p c)
unfolding step_content
step_content-Sourced raw p c s q e = ground arith
step_content-Sourced base64 p c s q e = ground arith
step_content-Sourced quoted_printable p c s q e = ground arith

module _ (values : ValueParsers) where
  continuation-Sourced :
      (p : MailParser) (c : ℕ) → Sourced p → Ensures Sourced (step values check_continuation p c)
  unfolding step handle_header_end
  continuation-Sourced p c s =
      if-Ensures Sourced (ascii_islwsp c) _ _
        (λ _. step_value-Sourced (record p { state = header_value }) c (s.0, λ e. ground arith))
        (λ _ q e.
          let (p', f, g) = >>=-eq-ok (handle_header_end values p) _ e in
          step_name-Sourced (record p' { buffer = []; state = header_name }) c refl
            (
              handle_value-One values p.current_header
                  (record p { buffer = trim_end values p.buffer }) s.0 p' f,
              λ e'. ground arith,
            )
            q g)

  step-Sourced :
      (k : State) (p : MailParser) (c : ℕ)
      → p.state ≡ k
      → Sourced p
      → Ensures Sourced (step values k p c)
  unfolding step
  step-Sourced header_name p c f s q e = step_name-Sourced p c f s q e
  step-Sourced header_value_start p c f s q e =
      if-Ensures Sourced (ascii_islwsp c) _ _ (λ _. ok-Ensures Sourced p s)
        (λ _.
          step_value-Sourced (record p { state = header_value; buffer = [] }) c
            (s.0, λ e. ground arith))
        q e
  step-Sourced header_value p c f s q e = step_value-Sourced p c s q e
  step-Sourced check_eol p c f s q e = ground arith
  step-Sourced check_continuation p c f s q e = continuation-Sourced p c s q e
  step-Sourced content p c f s q e = step_content-Sourced p.encoding p c s q e

  run-Sourced : (p : MailParser) (input : Bytes) → Sourced p → Ensures Sourced (run values p input)
  unfolding run
  run-Sourced p [] s q e = ok-Ensures Sourced p s q e
  run-Sourced p (c ∷ input) s q e =
      let (p', f, g) = >>=-eq-ok (step values p.state p c) _ e in
      run-Sourced p' input (step-Sourced p.state p c refl s p' f) q g

-- A mail is accepted only in its content; the end hands on no source.
end-content : (p q : MailParser) → end p ≡ ok q → (p.state ≡ content) × (q.sources ≡ p.sources)
unfolding end
end-content p q e = ground arith

-- A mail that is accepted, in whatever pieces of at most 512 bytes it comes, has exactly one source.
pub one_source :
    (values : ValueParsers) (pieces : List Bytes) (p q : MailParser)
    → All (λ piece. length piece ≤ buf_size) pieces
    → feed values new_parser pieces ≡ ok p
    → end p ≡ ok q
    → length q.sources ≡ 1
one_source values pieces p q short e f =
    let s =
      run-Sourced values new_parser (concat pieces) (refl, λ g. ground arith) p
        (sym (feed_whole values pieces short) ∙ e) in
    let (g, same) = end-content p q f in ap length same ∙ (s.0 ∙ rw (s.1 g) refl)
