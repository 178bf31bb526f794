-- ===== src/Connection/Hashes.antt =====
-- The lists of hashes that inv_command_handler and getdata_command_handler of src/ntb-connection.c
-- take.
use notbit.Common.{
  ℕ, ◌*◌, ◌%◌, ◌^◌, ◌≤◌, ◌<◌, ◌≡◌, refl, arith, Bytes, [], ◌⊎◌, inl, inr, Bool-cases, ltb, ltb→lt,
  ltb→le, length, ok,
}
use notbit.Proto.Read.{Cursor, get_var_int}
use notbit.Proto.Write.{add_var_int, be_bytes}
use notbit.Proto.Integers.{get_var_int-add_var_int}
use notbit.Proto.RoundTrip.{cursor}
use notbit.Connection.{Connection, Listener, Event, HashesEvent, emit_event, refuse}
use notbit.Connection.Handlers.{hash_length, inv_command_handler, getdata_command_handler}

module _ (listener : Listener) (conn : Connection) (c c' : Cursor) (n : ℕ)
    (counted : get_var_int c ≡ ok (n, c')) where
  -- With fewer than 2 ^ 59 hashes announced, both handlers tell the listener of the hashes if all of
  -- them belong to the message, and refuse the message if not.
  pub handlers-whole_hashes :
      n < 2 ^ 59
      → let hashes : HashesEvent = record { n_hashes = n; hashes = c'.mem } in
        ((n * hash_length ≤ c'.len)
          × (inv_command_handler listener conn c ≡ ok (emit_event listener (Event.inv hashes) conn))
          × (getdata_command_handler listener conn c
              ≡ ok (emit_event listener (Event.getdata hashes) conn)))
        ⊎ ((c'.len < n * hash_length)
            × (inv_command_handler listener conn c ≡ refuse listener conn)
            × (getdata_command_handler listener conn c ≡ refuse listener conn))
  unfolding inv_command_handler getdata_command_handler
  handlers-whole_hashes small =
      let exact : n * hash_length % 2 ^ 64 ≡ n * hash_length = omega arith in
      elim (Bool-cases (ltb c'.len (n * hash_length))) [
        | inl e ↦ inr (
          ltb→lt c'.len (n * hash_length) e,
          rw (counted, exact, e) refl,
          rw (counted, exact, e) refl,
        )
        | inr e ↦ inl (
          ltb→le c'.len (n * hash_length) e,
          rw (counted, exact, e) refl,
          rw (counted, exact, e) refl,
        )
      ]

length-add_var_int : (v : ℕ) → length (add_var_int [] v) ≤ 9
unfolding add_var_int be_bytes
length-add_var_int v = ground arith

-- An announcement of a multiple of 2 ^ 59 hashes with none behind it is taken by both handlers: the
-- listener is told that there are so many hashes, where the message has none.
pub handlers-overflow :
    (listener : Listener) (conn : Connection) (rest : Bytes) (k : ℕ)
    → k < 32
    → let n = 2 ^ 59 * k in
      let c = cursor (add_var_int [] n) rest 0 in
      let hashes : HashesEvent = record { n_hashes = n; hashes = rest } in
      (inv_command_handler listener conn c ≡ ok (emit_event listener (Event.inv hashes) conn))
      × (getdata_command_handler listener conn c
          ≡ ok (emit_event listener (Event.getdata hashes) conn))
unfolding inv_command_handler getdata_command_handler
handlers-overflow listener conn rest k h =
    let n = 2 ^ 59 * k in
    let read =
      get_var_int-add_var_int n 0 rest (omega arith) (omega (arith, length-add_var_int n)) in
    let wraps : n * hash_length % 2 ^ 64 ≡ 0 = omega arith in
    (rw (read, wraps) refl, rw (read, wraps) refl)
