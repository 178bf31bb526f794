-- ===== src/Connection/Greeting.antt =====
-- The greeting: the version that send_version of src/ntb-connection.c writes, as its peer reads it.
use notbit.Common.{
  ℕ, ◌%◌, ◌^◌, ◌≤◌, ◌<◌, ◌≡◌, ◌≢◌, refl, sym, ◌∙◌, ap, arith, Bytes, [], ◌∷◌, ◌++◌, All, length,
  length-append, length-take, append-nil, some, ok,
}
use notbit.Proto.Types.{NetAddress, codes}
use notbit.Proto.Write.{
  add_item, add_items, add_var_int, add_8, add_16, add_32, add_64, add_timestamp, add_netaddress,
  add_var_str, be_bytes,
}
use notbit.Proto.RoundTrip.{Fits}
use notbit.Proto.Frame.{add_command-frame}
use notbit.Connection.{Connection, Listener, Event, emit_event, update_poll_flags}
use notbit.Connection.Commands.{process_commands}
use notbit.Connection.Sending.{send_version, version_items}
use notbit.Connection.Frames.{IsCommand, handle_all, process_commands-stream}
use notbit.Connection.Names.{framed}
use notbit.Connection.Version.{front_items, greeting, last_answer, dispatch-version}

module _ (remote : NetAddress) (now nonce local_port : ℕ) (user_agent : Bytes)
    (time_fits : now < 2 ^ 32) (whole_host : length remote.host ≡ 16)
    (port_fits : remote.port < 2 ^ 16) (local_fits : local_port < 2 ^ 16)
    (nonce_fits : nonce < 2 ^ 64) (agent_fits : length user_agent < 253) where
  front_Fits : All (Fits now) (front_items remote now nonce local_port user_agent)
  front_Fits = (
    omega arith,
    (
      omega arith,
      (
        time_fits,
        (
          omega arith,
          (
            (whole_host, port_fits),
            (omega arith, ((refl, local_fits), (nonce_fits, (agent_fits, tt)))),
          ),
        ),
      ),
    ),
  )

  short_payload : length (add_items now [] (version_items remote nonce local_port user_agent)) < 400
  unfolding add_items add_item add_64 add_32 add_netaddress add_16 add_timestamp add_var_str
      add_var_int be_bytes add_8
  short_payload =
      simp length-append (omega (arith, length-take (length user_agent % 256) user_agent))

  abbrev greeting_payload : Bytes
  greeting_payload = add_items now [] (version_items remote nonce local_port user_agent)

  module _ (sha512 : Bytes → Bytes) (hashed : (bytes : Bytes) → 4 ≤ length (sha512 bytes)) where
    greeting_IsCommand : IsCommand sha512 (codes "version", greeting_payload)
    greeting_IsCommand =
        ((good, omega arith), (hashed greeting_payload, omega (arith, short_payload)))
      where
        good : All (λ b. b ≢ 0) (codes "version")
        good = (
          (λ e. omega arith),
          (
            (λ e. omega arith),
            (
              (λ e. omega arith),
              (
                (λ e. omega arith),
                ((λ e. omega arith), ((λ e. omega arith), ((λ e. omega arith), tt))),
              ),
            ),
          ),
        )

    send_version-framed :
        (junk : Bytes) (conn : Connection)
        → conn.remote_address ≡ remote
        → length junk ≡ 8
        → send_version sha512 now junk user_agent conn nonce local_port
          ≡ ok (
              update_poll_flags (record conn {
                out_buf = conn.out_buf ++ framed sha512 (codes "version") greeting_payload;
              }))
    unfolding send_version
    send_version-framed junk conn e f =
        rw
          (
            e,
            add_command-frame sha512 now junk conn.out_buf (codes "version")
                (version_items remote nonce local_port user_agent) f (omega arith)
                (omega (arith, short_payload)) (hashed greeting_payload),
          )
          refl

    process_commands-greeting :
        (junk behind : Bytes) (listener : Listener) (peer : Connection)
        → (d : Connection) × (process_commands sha512 junk listener behind
              (record peer { in_buf = framed sha512 (codes "version") greeting_payload })
            ≡ some (ok d))
          × (d.events
              ≡ peer.events
                ++ Event.version (greeting remote now nonce local_port user_agent behind) ∷ [])
    unfolding emit_event
    process_commands-greeting junk behind listener peer =
        let w = framed sha512 (codes "version") greeting_payload in
        let start : Connection = record peer { in_buf = w } in
        let command : Bytes × Bytes = (codes "version", greeting_payload) in
        let alone : (w ++ []) ++ [] ≡ w = append-nil (w ++ []) ∙ append-nil w in
        let r =
          emit_event listener
            (Event.version (greeting remote now nonce local_port user_agent behind)) start in
        let (d, ends, told) = last_answer r.0 r.1 in
        (
          d,
          ap (λ t. process_commands sha512 junk listener behind (record peer { in_buf = t }))
                (sym alone)
              ∙ process_commands-stream sha512 junk listener (command ∷ []) [] behind peer
                  (greeting_IsCommand, tt) (omega arith)
              ∙ ap
                  (λ t. some (
                    handle_all sha512 junk listener (command ∷ []) [] behind
                      (record peer { in_buf = t })))
                  alone
              ∙ ap some (
                  rw
                    (dispatch-version remote now nonce local_port user_agent front_Fits behind
                      (omega (arith, short_payload)) sha512 junk listener start)
                    refl
                  ∙ ends),
          told,
        )

  -- What a connection writes to greet its peer, process_commands of the peer's connection takes as a
  -- version: its listener is given one version event, with the address of the peer, the port, the nonce
  -- and the user agent that were written. The clock is below 2 ^ 32, the address has 16 bytes, the
  -- user agent at most 252, the ports 16 bits and the nonce 64, and the result of SHA512 4 bytes at least.
  pub send_version-process_commands :
      (sha512 : Bytes → Bytes) (junk junk' behind : Bytes) (listener : Listener)
      (conn peer : Connection)
      → conn.remote_address ≡ remote
      → length junk ≡ 8
      → ((bytes : Bytes) → 4 ≤ length (sha512 bytes))
      → (w : Bytes) × (send_version sha512 now junk user_agent conn nonce local_port
          ≡ ok (update_poll_flags (record conn { out_buf = conn.out_buf ++ w })))
        × (d : Connection) × (process_commands sha512 junk' listener behind
              (record peer { in_buf = w })
            ≡ some (ok d))
        × (d.events
            ≡ peer.events
              ++ Event.version (greeting remote now nonce local_port user_agent behind) ∷ [])
  send_version-process_commands sha512 junk junk' behind listener conn peer e f hashed =
      let (d, done, told) = process_commands-greeting sha512 hashed junk' behind listener peer in
      (
        framed sha512 (codes "version") greeting_payload,
        send_version-framed sha512 hashed junk conn e f,
        d,
        done,
        told,
      )
