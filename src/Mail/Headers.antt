-- ===== src/Mail/Headers.antt =====
-- The handlers of the headers of a mail do what the automaton does, byte by byte.
use notbit.Common.{
  ℕ, suc, ◌+◌, ◌≡◌, refl, sym, ◌∙◌, ap, arith, Bytes, [], ◌∷◌, ◌++◌, append_assoc, append-nil,
  Bool-cases, inl, inr, true, false, ◌||◌, ◌==◌, ltb, length, drop, if◌then◌else◌, Outcome, ok,
  fail, fault, ◌>>=◌, Outcome-cases,
}
use notbit.Mail.Bytewise.{step_name, step_value, step, run}
use notbit.Mail.Parsing.{
  name_part, end_name, after_name, handle_header_name, count_lwsp, handle_header_value_start,
  add_space, one_more, handle_header_value, handle_check_eol, handle_check_continuation,
}
use notbit.Mail.{
  ValueParsers, State, header_name, header_value_start, header_value, check_eol, check_continuation,
  MailParser, ascii_islwsp, handle_header_end,
}

lt_suc : (a b : ℕ) → ltb (suc a) (suc b) ≡ ltb a b
lt_suc a b = ground arith

lt_zero : (b : ℕ) → ltb 0 (suc b) ≡ true
lt_zero b = ground arith

module _ (values : ValueParsers) where
  -- What the automaton does behind the bytes that a handler has processed.
  abbrev pub behind : Bytes → Outcome (ℕ × MailParser) → Outcome MailParser
  behind input r = r >>= λ (n, p). run values p (drop n input)

  behind_one_more :
      (c : ℕ) (input : Bytes) (r : Outcome (ℕ × MailParser))
      → behind (c ∷ input) (one_more r) ≡ behind input r
  behind_one_more c input (ok (n, p)) = refl
  behind_one_more c input fail = refl
  behind_one_more c input fault = refl

  pub run_at :
      (p : MailParser) (state : State) (c : ℕ) (input : Bytes)
      → p.state ≡ state
      → run values p (c ∷ input) ≡ (step values state p c >>= λ p'. run values p' input)
  unfolding run
  run_at p state c input e = ap (λ st. step values st p c >>= λ p'. run values p' input) e

  value_byte :
      (p : MailParser) (c : ℕ) (input : Bytes)
      → ((q : MailParser)
          → q.state ≡ header_value
          → run values q input ≡ behind input (handle_header_value q input))
      → p.state ≡ header_value
      → (step values header_value p c >>= λ p'. run values p' input)
        ≡ behind (c ∷ input) (handle_header_value p (c ∷ input))
  unfolding handle_header_value step step_value
  value_byte p c input later e = elim (Bool-cases (ascii_islwsp c)) [
    | inl f ↦
        let q = record p { buffer = add_space p.buffer } in
        rw (step, step_value, f)
          (sym (behind_one_more c input (handle_header_value q input) ∙ sym (later q e)))
    | inr f ↦ elim (Bool-cases (c == 0)) [
      | inl g ↦ rw (step, step_value, f, g) refl
      | inr g ↦ elim (Bool-cases (c == 13)) [
        | inl h ↦ rw (step, step_value, f, g, h) refl
        | inr h ↦ elim (Bool-cases (c == 10)) [
          | inl i ↦ rw (step, step_value, f, g, h, i) refl
          | inr i ↦
              let q = record p { buffer = p.buffer ++ c ∷ [] } in
              rw (step, step_value, f, g, h, i)
                (sym (behind_one_more c input (handle_header_value q input) ∙ sym (later q e)))
        ]
      ]
    ]
  ]

  pub handle_header_value-run :
      (p : MailParser) (input : Bytes)
      → p.state ≡ header_value
      → run values p input ≡ behind input (handle_header_value p input)
  handle_header_value-run p [] e = unfold handle_header_value run in refl
  handle_header_value-run p (c ∷ input) e =
      run_at p header_value c input e
      ∙ value_byte p c input (λ q f. handle_header_value-run q input f) e

  pub start_shift :
      (p : MailParser) (c : ℕ) (input : Bytes)
      → ascii_islwsp c ≡ true
      → handle_header_value_start p (c ∷ input) ≡ one_more (handle_header_value_start p input)
  unfolding handle_header_value_start
  start_shift p c input f = rw f (elim (Bool-cases (ltb (count_lwsp input) (length input))) [
    | inl g ↦ rw (g, lt_suc (count_lwsp input) (length input), g) refl
    | inr g ↦ rw (g, lt_suc (count_lwsp input) (length input), g) refl
  ])

  pub start_other :
      (p : MailParser) (c : ℕ) (input : Bytes)
      → ascii_islwsp c ≡ false
      → handle_header_value_start p (c ∷ input)
        ≡ ok (0, record p { state = header_value; buffer = [] })
  unfolding handle_header_value_start
  start_other p c input f = rw (f, lt_zero (length input)) refl

  step_start :
      (p : MailParser) (c : ℕ)
      → step values header_value_start p c ≡ (
          if ascii_islwsp c
          then ok p
          else step values header_value (record p { state = header_value; buffer = [] }) c)
  unfolding step
  step_start p c = refl

  pub handle_header_value_start-run :
      (p : MailParser) (input : Bytes)
      → p.state ≡ header_value_start
      → run values p input ≡ behind input (handle_header_value_start p input)
  handle_header_value_start-run p [] e = unfold handle_header_value_start run in refl
  handle_header_value_start-run p (c ∷ input) e =
      run_at p header_value_start c input e ∙ elim (Bool-cases (ascii_islwsp c)) [
        | inl f ↦
            rw (step_start p c, f, start_shift p c input f)
              (handle_header_value_start-run p input e
                ∙ sym (behind_one_more c input (handle_header_value_start p input)))
        | inr f ↦
            let q = record p { state = header_value; buffer = [] } in
            rw (step_start p c, f, start_other p c input f)
              (sym (run_at q header_value c input refl))
      ]

  end_behind :
      (c : ℕ) (input : Bytes) (r : Outcome MailParser)
      → behind (c ∷ input) (r >>= λ p. ok (1, p)) ≡ (r >>= λ p. run values p input)
  end_behind c input (ok p) = refl
  end_behind c input fail = refl
  end_behind c input fault = refl

  two_more :
      (n : ℕ) (r : Outcome MailParser)
      → (r >>= λ p. ok (suc n + 1, p)) ≡ one_more (r >>= λ p. ok (n + 1, p))
  two_more n (ok p) = ap (λ k. ok (k, p)) (omega arith)
  two_more n fail = refl
  two_more n fault = refl

  after_name_shift :
      (p : MailParser) (c : ℕ) (name rest : Bytes)
      → after_name p (c ∷ name) rest
        ≡ one_more (after_name (record p { buffer = p.buffer ++ c ∷ [] }) name rest)
  unfolding after_name
  after_name_shift p c name [] =
      ap (λ b. ok (suc (length name), record p { buffer = b }))
        (sym (append_assoc p.buffer (c ∷ []) name))
  after_name_shift p c name (d ∷ rest) =
      two_more (length name) (end_name d (record p { buffer = p.buffer ++ (c ∷ name) }))
      ∙ ap (λ b. one_more (end_name d (record p { buffer = b }) >>= λ q. ok (length name + 1, q)))
          (sym (append_assoc p.buffer (c ∷ []) name))

  pub name_goes_on :
      (p : MailParser) (c : ℕ) (input : Bytes)
      → (c == 10 || c == b':') ≡ false
      → handle_header_name p (c ∷ input)
        ≡ one_more (handle_header_name (record p { buffer = p.buffer ++ c ∷ [] }) input)
  unfolding handle_header_name
  name_goes_on p c input f = rw f (after_name_shift p c (name_part input).0 (name_part input).1)

  pub name_ends :
      (p : MailParser) (c : ℕ) (input : Bytes)
      → (c == 10 || c == b':') ≡ true
      → handle_header_name p (c ∷ input) ≡ (end_name c p >>= λ q. ok (1, q))
  unfolding handle_header_name after_name
  name_ends p c input f =
      rw f (ap (λ b. end_name c (record p { buffer = b }) >>= λ q. ok (1, q)) (append-nil p.buffer))

  step_header_name :
      (p : MailParser) (c : ℕ)
      → step values header_name p c ≡ (
          if c == 10 || c == b':'
          then end_name c p
          else ok (record p { buffer = p.buffer ++ c ∷ [] }))
  unfolding step step_name
  step_header_name p c = refl

  pub handle_header_name-run :
      (p : MailParser) (input : Bytes)
      → p.state ≡ header_name
      → run values p input ≡ behind input (handle_header_name p input)
  handle_header_name-run p [] e =
      unfold handle_header_name after_name run in
      ap (λ b. ok (record p { buffer = b })) (sym (append-nil p.buffer))
  handle_header_name-run p (c ∷ input) e =
      run_at p header_name c input e ∙ elim (Bool-cases (c == 10 || c == b':')) [
        | inl f ↦
            rw (step_header_name p c, f, name_ends p c input f)
              (sym (end_behind c input (end_name c p)))
        | inr f ↦
            let q = record p { buffer = p.buffer ++ c ∷ [] } in
            rw (step_header_name p c, f, name_goes_on p c input f)
              (handle_header_name-run q input e
                ∙ sym (behind_one_more c input (handle_header_name q input)))
      ]

  pub handle_check_eol-run :
      (p : MailParser) (c : ℕ) (input : Bytes)
      → p.state ≡ check_eol
      → run values p (c ∷ input) ≡ behind (c ∷ input) (handle_check_eol c p)
  unfolding run step handle_check_eol
  handle_check_eol-run p c input e = elim (Bool-cases (c == 10)) [
    | inl f ↦ rw (e, step, f) refl
    | inr f ↦ rw (e, step, f) refl
  ]

  pub handle_check_continuation-run :
      (p : MailParser) (c : ℕ) (input : Bytes)
      → p.state ≡ check_continuation
      → run values p (c ∷ input) ≡ behind (c ∷ input) (handle_check_continuation values c p)
  unfolding run step handle_check_continuation
  handle_check_continuation-run p c input e = elim (Bool-cases (ascii_islwsp c)) [
    | inl f ↦ rw (e, step, f) refl
    | inr f ↦
        elim (Outcome-cases (handle_header_end values (record p { state = check_continuation }))) [
          | inl (q, g) ↦ rw (e, step, f, g) refl
          | inr (inl g) ↦ rw (e, step, f, g) refl
          | inr (inr g) ↦ rw (e, step, f, g) refl
        ]
  ]
