-- ===== src/Mail/Contents.antt =====
-- The content of a mail, in a piece of at most 512 bytes, is decoded as the automaton does.
use notbit.Base64
use notbit.Base64.Pieces.{decode_nothing, decode_first_none, decode_rest_none, decode_both}
use notbit.Base64.Sizes.{length-decode}
use notbit.Common.{
  ℕ, zero, suc, ◌≤◌, ◌≡◌, refl, sym, ◌∙◌, ap, arith, Bytes, [], ◌∷◌, append_assoc, append-nil, inl,
  inr, false, ltb, le→ltb, length, take, drop, Option, none, some, Option-cases, Outcome, ok, fail,
  ◌>>=◌,
}
use notbit.Mail.Bytewise.{step_content, step, run}
use notbit.Mail.Headers.{run_at}
use notbit.Mail.Parsing.{
  add_content, buf_size, base64_chunk, handle_content_base64, handle_content_quoted_printable,
  handle_content,
}
use notbit.Mail.{ValueParsers, content, Encoding, raw, base64, quoted_printable, MailParser}
use notbit.QuotedPrintable
use notbit.QuotedPrintable.Automaton
use notbit.QuotedPrintable.Refinement.{decode-run}

-- The parser behind what its decoder gives.
abbrev pub deliver_base64 : MailParser → Option (Bytes × Base64.State) → Outcome MailParser
deliver_base64 p none = fail
deliver_base64 p (some (got, d)) = ok (add_content got (record p { base64_data = d }))

abbrev pub deliver_qp : MailParser → Option (Bytes × QuotedPrintable.State) → Outcome MailParser
deliver_qp p none = fail
deliver_qp p (some (got, d)) = ok (add_content got (record p { qp_data = d }))

take_all : (n : ℕ) (bytes : Bytes) → length bytes ≤ n → take n bytes ≡ bytes
take_all zero [] h = refl
take_all zero (c ∷ bytes) h = absurd (omega arith)
take_all (suc n) [] h = refl
take_all (suc n) (c ∷ bytes) h = ap (λ b. c ∷ b) (take_all n bytes (omega arith))

pub drop_all : (n : ℕ) (bytes : Bytes) → length bytes ≤ n → drop n bytes ≡ []
drop_all zero [] h = refl
drop_all zero (c ∷ bytes) h = absurd (omega arith)
drop_all (suc n) [] h = refl
drop_all (suc n) (c ∷ bytes) h = drop_all n bytes (omega arith)

base64_more :
    (p : MailParser) (got : Bytes) (d : Base64.State) (c : ℕ) (input : Bytes)
    → Base64.decode p.base64_data (c ∷ []) ≡ some (got, d)
    → deliver_base64 (add_content got (record p { base64_data = d })) (Base64.decode d input)
      ≡ deliver_base64 p (Base64.decode p.base64_data (c ∷ input))
base64_more p got d c input e = elim (Option-cases (Base64.decode d input)) [
  | inl f ↦ rw (f, decode_rest_none c input p.base64_data d got e f) refl
  | inr ((more, end), f) ↦
      rw (f, decode_both c input p.base64_data d end got more e f)
        (ap (λ b. ok (record p { body = b; base64_data = end })) (append_assoc p.body got more))
]

qp_more :
    (p : MailParser) (got : Bytes) (d : QuotedPrintable.State) (c : ℕ) (input : Bytes)
    → Automaton.step p.qp_data.mode p.qp_data c ≡ some (got, d)
    → deliver_qp (add_content got (record p { qp_data = d })) (Automaton.run d input)
      ≡ deliver_qp p (Automaton.run p.qp_data (c ∷ input))
qp_more p got d c input e = elim (Option-cases (Automaton.run d input)) [
  | inl f ↦ rw (f, Automaton.run_rest_none c input p.qp_data d got e f) refl
  | inr ((more, end), f) ↦
      rw (f, Automaton.run_both c input p.qp_data d end got more e f)
        (ap (λ b. ok (record p { body = b; qp_data = end })) (append_assoc p.body got more))
]

module _ (values : ValueParsers) where
  step_base64 :
      (p : MailParser) (c : ℕ)
      → p.encoding ≡ base64
      → step values content p c ≡ deliver_base64 p (Base64.decode p.base64_data (c ∷ []))
  unfolding step step_content
  step_base64 p c f =
      ap (λ k. step_content k p c) f ∙ elim (Option-cases (Base64.decode p.base64_data (c ∷ []))) [
        | inl e ↦ rw (e, step_content) refl
        | inr ((got, d), e) ↦ rw (e, step_content) refl
      ]

  step_qp :
      (p : MailParser) (c : ℕ)
      → p.encoding ≡ quoted_printable
      → step values content p c ≡ deliver_qp p (Automaton.step p.qp_data.mode p.qp_data c)
  unfolding step step_content
  step_qp p c f =
      ap (λ k. step_content k p c) f
      ∙ elim (Option-cases (Automaton.step p.qp_data.mode p.qp_data c)) [
        | inl e ↦ rw (e, step_content) refl
        | inr ((got, d), e) ↦ rw (e, step_content) refl
      ]

  pub run_base64 :
      (input : Bytes) (p : MailParser)
      → p.state ≡ content
      → p.encoding ≡ base64
      → run values p input ≡ deliver_base64 p (Base64.decode p.base64_data input)
  run_base64 [] p e f =
      unfold run in
      rw (decode_nothing p.base64_data)
        (ap (λ b. ok (record p { body = b })) (sym (append-nil p.body)))
  run_base64 (c ∷ input) p e f =
      run_at values p content c input e
      ∙ ap (λ r. r >>= λ p'. run values p' input) (step_base64 p c f)
      ∙ elim (Option-cases (Base64.decode p.base64_data (c ∷ []))) [
        | inl g ↦ rw (g, decode_first_none c input p.base64_data g) refl
        | inr ((got, d), g) ↦ rw g (
            run_base64 input (add_content got (record p { base64_data = d })) e f
            ∙ base64_more p got d c input g)
      ]

  run_qp :
      (input : Bytes) (p : MailParser)
      → p.state ≡ content
      → p.encoding ≡ quoted_printable
      → run values p input ≡ deliver_qp p (Automaton.run p.qp_data input)
  run_qp [] p e f =
      unfold run Automaton.run in ap (λ b. ok (record p { body = b })) (sym (append-nil p.body))
  run_qp (c ∷ input) p e f =
      run_at values p content c input e
      ∙ ap (λ r. r >>= λ p'. run values p' input) (step_qp p c f)
      ∙ elim (Option-cases (Automaton.step p.qp_data.mode p.qp_data c)) [
        | inl g ↦ rw (g, Automaton.run_first_none c input p.qp_data g) refl
        | inr ((got, d), g) ↦ rw g (
            run_qp input (add_content got (record p { qp_data = d })) e f
            ∙ qp_more p got d c input g)
      ]

  run_raw :
      (input : Bytes) (p : MailParser)
      → p.state ≡ content
      → p.encoding ≡ raw
      → run values p input ≡ ok (add_content input p)
  unfolding step step_content
  run_raw [] p e f = unfold run in ap (λ b. ok (record p { body = b })) (sym (append-nil p.body))
  run_raw (c ∷ input) p e f =
      run_at values p content c input e
      ∙ ap (λ k. step_content k p c >>= λ p'. run values p' input) f
      ∙ run_raw input (add_content (c ∷ []) p) e f
      ∙ ap (λ b. ok (record p { body = b })) (append_assoc p.body (c ∷ []) input)

  pub whole_base64 :
      (p : MailParser) (c : ℕ) (input : Bytes)
      → length (c ∷ input) ≤ buf_size
      → p.base64_data.n_chars ≤ 3
      → handle_content_base64 (length (c ∷ input)) p (c ∷ input)
        ≡ deliver_base64 p (Base64.decode p.base64_data (c ∷ input))
  unfolding handle_content_base64
  whole_base64 p c input short few =
      let bytes = c ∷ input in
      let taken = take_all base64_chunk bytes (omega arith) in
      let dropped = drop_all base64_chunk bytes (omega arith) in
      elim (Option-cases (Base64.decode p.base64_data bytes)) [
        | inl e ↦ rw (ap (Base64.decode p.base64_data) taken ∙ e, e, handle_content_base64) refl
        | inr ((got, d), e) ↦
            let fits = (length-decode p.base64_data d bytes got few e).0 in
            let within : ltb buf_size (length got) ≡ false =
              le→ltb buf_size (length got) (omega arith) in
            rw
              (
                ap (Base64.decode p.base64_data) taken ∙ e,
                e,
                handle_content_base64,
                dropped,
                within,
              )
              refl
      ]

  pub whole_qp :
      (p : MailParser) (c : ℕ) (input : Bytes)
      → length (c ∷ input) ≤ buf_size
      → handle_content_quoted_printable (length (c ∷ input)) p (c ∷ input)
        ≡ deliver_qp p (Automaton.run p.qp_data (c ∷ input))
  unfolding handle_content_quoted_printable
  whole_qp p c input short =
      let bytes = c ∷ input in
      let taken = take_all buf_size bytes short in
      let dropped = drop_all buf_size bytes short in
      elim (Option-cases (Automaton.run p.qp_data bytes)) [
        | inl e ↦
            rw
              (
                ap (QuotedPrintable.decode p.qp_data) taken
                    ∙ decode-run p.qp_data bytes
                    ∙ ap some e,
                e,
                handle_content_quoted_printable,
              )
              refl
        | inr ((got, d), e) ↦
            let fits = Automaton.length-run bytes p.qp_data d got e in
            let within : ltb buf_size (length got) ≡ false =
              le→ltb buf_size (length got) (omega arith) in
            rw
              (
                ap (QuotedPrintable.decode p.qp_data) taken
                    ∙ decode-run p.qp_data bytes
                    ∙ ap some e,
                e,
                handle_content_quoted_printable,
                dropped,
                within,
              )
              refl
      ]

  pub handle_content-run :
      (k : Encoding) (p : MailParser) (c : ℕ) (input : Bytes)
      → p.encoding ≡ k
      → p.state ≡ content
      → length (c ∷ input) ≤ buf_size
      → p.base64_data.n_chars ≤ 3
      → handle_content k p (c ∷ input) ≡ run values p (c ∷ input)
  unfolding handle_content
  handle_content-run raw p c input f e short few = sym (run_raw (c ∷ input) p e f)
  handle_content-run base64 p c input f e short few =
      whole_base64 p c input short few ∙ sym (run_base64 (c ∷ input) p e f)
  handle_content-run quoted_printable p c input f e short few =
      whole_qp p c input short ∙ sym (run_qp (c ∷ input) p e f)
