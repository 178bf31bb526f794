-- ===== src/Mail/Stream.antt =====
-- The loop of ntb_mail_parser_parse does what the automaton does, and so it does not matter how a mail
-- is cut into pieces.
use notbit.Base64
use notbit.Common.{
  ℕ, zero, suc, ◌+◌, ◌*◌, ◌≤◌, ◌≡◌, refl, sym, ◌∙◌, ap, arith, Bytes, List, [], ◌∷◌, ◌++◌, All, inl,
  inr, ◌==◌, length, drop, length-drop, Outcome, ok, fail, fault, ◌>>=◌, Outcome-cases, Ensures,
  >>=-Ensures, if-Ensures, ok-Ensures, not,
}
use notbit.Mail.Bytewise.{step, run}
use notbit.Mail.Contents.{drop_all, handle_content-run}
use notbit.Mail.Headers.{
  behind, handle_header_name-run, handle_header_value_start-run, handle_header_value-run,
  handle_check_eol-run, handle_check_continuation-run,
}
use notbit.Mail.Parsing.{
  handle_check_eol, handle_check_continuation, buf_size, handle_content, handle_state, parse_loop,
  parse, feed, concat,
}
use notbit.Mail.Values.{handle_header_end-SameDecoder}
use notbit.Mail.{
  ValueParsers, State, header_name, header_value_start, header_value, check_eol, check_continuation,
  content, MailParser, ascii_islwsp, handle_header_end, new_parser,
}
use notbit.Mail.Rounds.{
  slack, Few, Advances, Took, slack_le, Took-Advances, name_cons, name-Left, value_cons, value-Left,
  start-Advances, content-Few, then_all,
}

module _ (values : ValueParsers) where
  whole_behind :
      (r : Outcome MailParser) (input : Bytes)
      → behind values input (r >>= λ p'. ok (length input, p')) ≡ r
  whole_behind (ok p) input =
      ap (run values p) (drop_all (length input) input (omega arith)) ∙ unfold run in refl
  whole_behind fail input = refl
  whole_behind fault input = refl

  handle-run :
      (p : MailParser) (state : State) (c : ℕ) (input : Bytes)
      → p.state ≡ state
      → Few p
      → length (c ∷ input) ≤ buf_size
      → run values p (c ∷ input) ≡ behind values (c ∷ input) (handle_state values state p c input)
  unfolding handle_state
  handle-run p header_name c input e few short = handle_header_name-run values p (c ∷ input) e
  handle-run p header_value_start c input e few short =
      handle_header_value_start-run values p (c ∷ input) e
  handle-run p header_value c input e few short = handle_header_value-run values p (c ∷ input) e
  handle-run p check_eol c input e few short = handle_check_eol-run values p c input e
  handle-run p check_continuation c input e few short =
      handle_check_continuation-run values p c input e
  handle-run p content c input e few short = sym (
      whole_behind (handle_content p.encoding p (c ∷ input)) (c ∷ input)
      ∙ handle_content-run values p.encoding p c input refl e short few)

  continuation-Advances :
      (c : ℕ) (input : Bytes) (p : MailParser)
      → p.state ≡ check_continuation
      → Few p
      → Ensures (Advances p (c ∷ input)) (handle_check_continuation values c p)
  unfolding handle_check_continuation
  continuation-Advances c input p e few =
      if-Ensures (Advances p (c ∷ input)) (ascii_islwsp c) _ _
        (λ _. ok-Ensures (Advances p (c ∷ input)) _ (few, omega (arith, ap slack e)))
        λ _. >>=-Ensures (Advances p (c ∷ input)) (handle_header_end values p) _ λ q f.
          let same = handle_header_end-SameDecoder values p q f in
          ok-Ensures (Advances p (c ∷ input)) _
            (omega (arith, ap Base64.State.n_chars same), omega (arith, ap slack e))

  handle-Advances :
      (p : MailParser) (state : State) (c : ℕ) (input : Bytes)
      → p.state ≡ state
      → Few p
      → length (c ∷ input) ≤ buf_size
      → Ensures (Advances p (c ∷ input)) (handle_state values state p c input)
  unfolding handle_state
  handle-Advances p header_name c input e few short =
      Took-Advances p c input _ (name_cons c input (name-Left input) p few)
  handle-Advances p header_value_start c input e few short = start-Advances c input p e few
  handle-Advances p header_value c input e few short =
      Took-Advances p c input _ (value_cons c input (value-Left input) p few)
  handle-Advances p check_eol c input e few short = Took-Advances p c input _ (
      unfold handle_check_eol in
      if-Ensures Took (not (c == 10)) _ _ (λ _ q f. absurd (cc f))
        λ _. ok-Ensures Took _ (few, omega arith))
  handle-Advances p check_continuation c input e few short = continuation-Advances c input p e few
  handle-Advances p content c input e few short = Took-Advances p c input _ (
      then_all (length (c ∷ input)) (handle_content p.encoding p (c ∷ input)) (omega arith)
        (content-Few p.encoding p c input short few))

  parse_loop-run :
      (fuel : ℕ) (p : MailParser) (input : Bytes)
      → Few p
      → length input ≤ buf_size
      → 2 * length input ≤ fuel + slack p.state
      → (parse_loop values fuel p input ≡ run values p input)
        × Ensures Few (parse_loop values fuel p input)
  unfolding parse_loop
  parse_loop-run fuel p [] few short enough = (unfold run in refl, ok-Ensures Few p few)
  parse_loop-run zero p (c ∷ input) few short enough = absurd (omega (arith, slack_le p.state))
  parse_loop-run (suc fuel) p (c ∷ input) few short enough =
      let xs = c ∷ input in
      let r = handle_state values p.state p c input in
      let seen = handle-run p p.state c input refl few short in
      elim (Outcome-cases r) [
        | inl ((k, q), e) ↦
            let (few', further) = handle-Advances p p.state c input refl few short (k, q) e in
            let (same, kept) =
              parse_loop-run fuel q (drop k xs) few' (omega (arith, length-drop k xs))
                (omega arith) in
            rw e (same ∙ sym (seen ∙ ap (behind values xs) e), kept)
        | inr (inl e) ↦ rw e (sym (seen ∙ ap (behind values xs) e), λ q f. absurd (cc f))
        | inr (inr e) ↦ rw e (sym (seen ∙ ap (behind values xs) e), λ q f. absurd (cc f))
      ]

  pub parse-run :
      (p : MailParser) (input : Bytes)
      → Few p
      → length input ≤ buf_size
      → (parse values p input ≡ run values p input) × Ensures Few (parse values p input)
  unfolding parse
  parse-run p input few short =
      parse_loop-run (2 * length input) p input few short (omega (arith, slack_le p.state))

  run-append :
      (p : MailParser) (xs ys : Bytes)
      → run values p (xs ++ ys) ≡ (run values p xs >>= λ q. run values q ys)
  unfolding run
  run-append p [] ys = refl
  run-append p (c ∷ xs) ys = elim (Outcome-cases (step values p.state p c)) [
    | inl (q, e) ↦ rw e (run-append q xs ys)
    | inr (inl e) ↦ rw e refl
    | inr (inr e) ↦ rw e refl
  ]

  run_first :
      (p : MailParser) (piece : Bytes) (pieces : List Bytes) (r : Outcome MailParser)
      → r ≡ run values p piece
      → ((q : MailParser) → r ≡ ok q → feed values q pieces ≡ run values q (concat pieces))
      → (r >>= λ q. feed values q pieces)
        ≡ (run values p piece >>= λ q. run values q (concat pieces))
  run_first p piece pieces (ok q) same k =
      k q refl ∙ ap (λ t. t >>= λ q'. run values q' (concat pieces)) same
  run_first p piece pieces fail same k = ap (λ t. t >>= λ q'. run values q' (concat pieces)) same
  run_first p piece pieces fault same k = ap (λ t. t >>= λ q'. run values q' (concat pieces)) same

  feed-run :
      (p : MailParser) (pieces : List Bytes)
      → Few p
      → All (λ piece. length piece ≤ buf_size) pieces
      → feed values p pieces ≡ run values p (concat pieces)
  unfolding feed
  feed-run p [] few short = unfold run in refl
  feed-run p (piece ∷ pieces) few short =
      let (same, kept) = parse-run p piece few short.0 in
      run_first p piece pieces (parse values p piece) same
        (λ q e. feed-run q pieces (kept q e) short.1)
      ∙ sym (run-append p piece (concat pieces))

-- However a mail is cut into pieces of at most 512 bytes, which is what src/ntb-ipc.c reads at once, the
-- parser ends, writes nothing behind its arrays, and does what the automaton does on the whole mail; both end
-- with a fault where the name of a header has a zero in the place of the end of a name it is compared with,
-- and goes on behind it.
pub feed_whole :
    (values : ValueParsers) (pieces : List Bytes)
    → All (λ piece. length piece ≤ buf_size) pieces
    → feed values new_parser pieces ≡ run values new_parser (concat pieces)
feed_whole values pieces short = feed-run values new_parser pieces (omega arith) short
