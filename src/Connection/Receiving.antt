-- ===== src/Connection/Receiving.antt =====
-- process_commands on any received bytes.
use notbit.Common.{
  ◌⊎◌, sym, ℕ, zero, suc, ◌+◌, ◌-◌, ◌≤◌, ◌<◌, ◌≡◌, refl, ◌∙◌, ap, arith, Bytes, [], ◌∷◌, ◌++◌, Bool,
  true, false, not, Bool-cases, inl, inr, ltb, ltb→le, take, drop, length, length-append,
  length-drop, Option, some, Outcome, ok, fail, fault, bytes_eq,
}
use notbit.Proto.Types.{header_size, magic, check_command_string}
use notbit.Proto.Read.{get_32}
use notbit.Connection.{Connection, Listener, set_error_state}
use notbit.Connection.Commands.{
  process_command, process_loop, process_commands, max_message_size, c_string,
}
use notbit.Connection.Effects.{Keeps, Handled, if-Handled, dispatch-Handled, refuse-Handled}
use notbit.Connection.Ordered.{KeepsOrder, set_error_state-WellQueued}
use mathlib.Core.Path.{subst}

get_32_ok : (mem : Bytes) → 4 ≤ length mem → (n : ℕ) × (get_32 mem ≡ ok n)
unfolding get_32
get_32_ok [] h = absurd (omega arith)
get_32_ok (a ∷ []) h = absurd (omega arith)
get_32_ok (a ∷ (b ∷ [])) h = absurd (omega arith)
get_32_ok (a ∷ (b ∷ (c ∷ []))) h = absurd (omega arith)
get_32_ok (a ∷ (b ∷ (c ∷ (d ∷ mem)))) h = (_, refl)

-- What follows the handler of a command: the loop goes on if the handler says so.
abbrev pub after :
    Outcome (Bool × Connection)
    → (Connection → Option (Outcome Connection))
    → Option (Outcome Connection)
after fail k = some fail
after fault k = some fault
after (ok (false, d)) k = some (ok d)
after (ok (true, d)) k = k d

module _ (sha512 : Bytes → Bytes) (junk : Bytes) (listener : Listener) where
  process_command-Handled :
      (B : Type 0)
      → KeepsOrder listener
      → (conn : Connection) (mem : Bytes) (n : ℕ) → (B → header_size + n < length mem)
      → Handled B conn (process_command sha512 junk listener conn mem n)
  unfolding process_command
  process_command-Handled B keeps conn mem n h =
      let refused = refuse-Handled B listener keeps conn in
      if-Handled B conn (not (bytes_eq (take 4 mem) magic)) _ _ refused (
        if-Handled B conn (not (check_command_string (drop 4 mem))) _ _ refused (
          if-Handled B conn
            (not
              (bytes_eq (take 4 (sha512 (take n (drop header_size mem)))) (take 4 (drop 20 mem))))
            _ _ refused
            (dispatch-Handled B sha512 junk listener keeps (c_string (drop 4 mem)) conn
              (record { mem = drop header_size mem; len = n })
              (λ b. rw length-drop (omega (arith, h b))))))

  -- One round of the loop that processes a command.
  module _ (fuel : ℕ) (conn : Connection) (mem : Bytes) (len n : ℕ)
      (known : get_32 (drop 16 mem) ≡ ok n) (whole : ltb len header_size ≡ false) where
    round_too_long :
        ltb max_message_size n ≡ true
        → process_loop sha512 junk listener (suc fuel) conn mem len
          ≡ some (ok (set_error_state listener conn))
    unfolding process_loop
    round_too_long e = rw (whole, known, e, process_loop) refl

    round_waits :
        ltb max_message_size n ≡ false
        → ltb len (header_size + n) ≡ true
        → process_loop sha512 junk listener (suc fuel) conn mem len
          ≡ some (ok (record conn { in_buf = take len mem }))
    unfolding process_loop
    round_waits e f = rw (whole, known, e, f, process_loop) refl

    -- The command is there as a whole: what its handler answers tells how the loop goes on.
    pub round_processes :
        ltb max_message_size n ≡ false
        → ltb len (header_size + n) ≡ false
        → process_loop sha512 junk listener (suc fuel) conn mem len
          ≡ after (process_command sha512 junk listener conn mem n) λ d.
            process_loop sha512 junk listener fuel d
              (drop (n + header_size) mem)
              (len - (n + header_size))
    unfolding process_loop
    round_processes e f = go (process_command sha512 junk listener conn mem n) refl
      where
        go :
            (r : Outcome (Bool × Connection))
            → process_command sha512 junk listener conn mem n ≡ r
            → process_loop sha512 junk listener (suc fuel) conn mem len
              ≡ after r λ d.
                process_loop sha512 junk listener fuel d
                  (drop (n + header_size) mem)
                  (len - (n + header_size))
        go fail g = rw (whole, known, e, f, g, process_loop) refl
        go fault g = rw (whole, known, e, f, g, process_loop) refl
        go (ok (false, d)) g = rw (whole, known, e, f, g, process_loop) refl
        go (ok (true, d)) g = rw (whole, known, e, f, g, process_loop) refl

  pub round_short :
      (fuel : ℕ) (conn : Connection) (mem : Bytes) (len : ℕ)
      → ltb len header_size ≡ true
      → process_loop sha512 junk listener (suc fuel) conn mem len
        ≡ some (ok (record conn { in_buf = take len mem }))
  unfolding process_loop
  round_short fuel conn mem len e = rw (e, process_loop) refl

  -- process_commands comes to an end with the queues in order, or reads what is not backed.
  abbrev pub Finishes : Type 0 → Connection → Option (Outcome Connection) → Type 0
  Finishes B conn r =
      ((r ≡ some fault) × (B → ⊥)) ⊎ ((d : Connection) × (r ≡ some (ok d)) × Keeps conn d)

  command-Finishes :
      (B : Type 0) (fuel : ℕ) (conn : Connection) (mem : Bytes) (len n : ℕ)
      → get_32 (drop 16 mem) ≡ ok n
      → ltb len header_size ≡ false
      → ltb max_message_size n ≡ false
      → ltb len (header_size + n) ≡ false
      → Handled B conn (process_command sha512 junk listener conn mem n)
      → ((d : Connection)
          → Finishes B d (
              process_loop sha512 junk listener fuel d
                (drop (n + header_size) mem)
                (len - (n + header_size))))
      → Finishes B conn (process_loop sha512 junk listener (suc fuel) conn mem len)
  command-Finishes B fuel conn mem len n known e g h handled rest = go handled
    where
      next : Connection → Option (Outcome Connection)
      next d =
          process_loop sha512 junk listener fuel d (drop (n + header_size) mem)
            (len - (n + header_size))

      after_it :
          (r : Outcome (Bool × Connection))
          → process_command sha512 junk listener conn mem n ≡ r
          → process_loop sha512 junk listener (suc fuel) conn mem len ≡ after r next
      after_it r same =
          round_processes fuel conn mem len n known e g h ∙ ap (λ r. after r next) same

      then : (d : Connection) → Keeps conn d → Finishes B d (next d) → Finishes B conn (next d)
      then d u (inl f) = inl f
      then d u (inr (r, done, v)) = inr (r, done, λ w. v (u w))

      go :
          Handled B conn (process_command sha512 junk listener conn mem n)
          → Finishes B conn (process_loop sha512 junk listener (suc fuel) conn mem len)
      go (inl (same, not_b)) = inl (after_it fault same, not_b)
      go (inr ((false, d), same, u)) = inr (d, after_it (ok (false, d)) same, u)
      go (inr ((true, d), same, u)) =
          subst (Finishes B conn) (sym (after_it (ok (true, d)) same)) (then d u (rest d))

  stays-Finishes :
      (B : Type 0) (conn : Connection) (left : Bytes) (r : Option (Outcome Connection))
      → r ≡ some (ok (record conn { in_buf = left }))
      → Finishes B conn r
  stays-Finishes B conn left r e = inr (
    record conn { in_buf = left },
    e,
    λ w. record { idle = w.idle; busy = w.busy; polls = w.polls },
  )

  module _ (keeps : KeepsOrder listener) where
    loop-Finishes :
        (B : Type 0) (fuel : ℕ) (conn : Connection) (mem : Bytes) (len : ℕ)
        → len < fuel
        → len ≤ length mem
        → (B → len < length mem)
        → Finishes B conn (process_loop sha512 junk listener fuel conn mem len)
    loop-Finishes B zero conn mem len f l b = absurd (omega arith)
    loop-Finishes B (suc fuel) conn mem len f l b = elim (Bool-cases (ltb len header_size)) [
      | inl e ↦ stays-Finishes B conn (take len mem) _ (round_short fuel conn mem len e)
      | inr e ↦
          let (n, known) =
            get_32_ok (drop 16 mem) (rw length-drop (omega (arith, ltb→le len header_size e))) in
          elim (Bool-cases (ltb max_message_size n)) [
            | inl g ↦ inr (
              set_error_state listener conn,
              round_too_long fuel conn mem len n known e g,
              λ w. set_error_state-WellQueued listener keeps conn w,
            )
            | inr g ↦ elim (Bool-cases (ltb len (header_size + n))) [
              | inl h ↦
                  stays-Finishes B conn (take len mem) _
                    (round_waits fuel conn mem len n known e g h)
              | inr h ↦
                  let enough : header_size + n ≤ len = ltb→le len (header_size + n) h in
                  command-Finishes B fuel conn mem len n known e g h
                    (process_command-Handled B keeps conn mem n (λ k. omega (arith, b k)))
                    λ d.
                      loop-Finishes B fuel d (drop (n + header_size) mem) (len - (n + header_size))
                        (omega arith) (rw length-drop (omega arith))
                        (λ k. rw length-drop (omega (arith, b k)))
            ]
          ]
    ]

    pub process_commands-Finishes :
        (conn : Connection) (behind : Bytes)
        → Finishes (1 ≤ length behind) conn (process_commands sha512 junk listener behind conn)
    unfolding process_commands
    process_commands-Finishes conn behind =
        loop-Finishes (1 ≤ length behind) (suc (length conn.in_buf)) conn (conn.in_buf ++ behind)
          (length conn.in_buf) (omega arith) (rw length-append (omega arith))
          (λ h. rw length-append (omega (arith, h)))
