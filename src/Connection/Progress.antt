-- ===== src/Connection/Progress.antt =====
-- The life of a connection of src/ntb-connection.c as steps: what its user asks of it and what the main
-- loop and the store call.
use notbit.Common.{
  ◌⊎◌, inl, inr, fault, ℕ, ◌+◌, ◌-◌, ◌/◌, ◌≤◌, ◌≡◌, refl, ap, Bytes, ◌++◌, Bool, true, false, ◌&&◌,
  not, leb, length, if◌then◌else◌, Option, some, Outcome, ok,
}
use notbit.Connection.{
  Connection, Listener, set_error_state, update_poll_flags, connection_is_ready_to_write,
}
use notbit.Connection.Objects.{add_ready_objects}
use notbit.Connection.Handlers.{send_pong}
use notbit.Connection.Polling.{
  ReadResult, WriteResult, handle_read, after_write, handle_write, connection_poll_cb,
  pong_check_cb, timeout, pong_interval,
}
use notbit.Connection.Effects.{Keeps, send_pong-Gives}
use notbit.Connection.Receiving.{process_commands-Finishes}
use notbit.Connection.Queues.{add_ready_loop-Gives}
use notbit.Connection.Ordered.{WellQueued, KeepsOrder, Gives, set_error_state-WellQueued}

-- A callback that comes to an end with the queues in order, or reads what is not backed.
abbrev pub Returns : Type 0 → Option (Outcome Connection) → Type 0
Returns B r = ((r ≡ some fault) × (B → ⊥)) ⊎ ((d : Connection) × (r ≡ some (ok d)) × WellQueued d)

connected-WellQueued :
    (b : Bool) (c : Connection)
    → WellQueued c
    → WellQueued (if b then record c { connect_succeeded = true } else c)
connected-WellQueued true c w = record { idle = w.idle; busy = w.busy; polls = w.polls }
connected-WellQueued false c w = w

if-Gives :
    (test : Bool) (k l : Outcome Connection)
    → Gives WellQueued k
    → Gives WellQueued l
    → Gives WellQueued (if test then k else l)
if-Gives true k l p q = p
if-Gives false k l p q = q

module _ (sha512 : Bytes → Bytes) (junk : Bytes) (listener : Listener) (clock : ℕ)
    (keeps : KeepsOrder listener) where
  failed-WellQueued : (c : Connection) → WellQueued c → WellQueued (set_error_state listener c)
  failed-WellQueued c w = set_error_state-WellQueued listener keeps c w

  handle_read-Returns :
      (behind : Bytes) (result : ReadResult) (c : Connection)
      → WellQueued c
      → Returns (1 ≤ length behind) (handle_read sha512 junk listener clock behind result c)
  unfolding handle_read
  handle_read-Returns behind (ReadResult.got bytes) c w =
      let read : Connection = record c {
        last_read_time = clock;
        in_buf = c.in_buf ++ bytes;
        n_bytes_recieved = c.n_bytes_recieved + length bytes;
      } in
      ends (process_commands-Finishes sha512 junk listener keeps read behind)
        (record { idle = w.idle; busy = w.busy; polls = w.polls })
    where
      ends :
          {B : Type 0} {d : Connection} {r : Option (Outcome Connection)}
          → ((r ≡ some fault) × (B → ⊥)) ⊎ ((e : Connection) × (r ≡ some (ok e)) × Keeps d e)
          → WellQueued d
          → Returns B r
      ends (inl h) w = inl h
      ends (inr (e, done, u)) w = inr (e, done, u w)
  handle_read-Returns behind ReadResult.closed c w = inr (_, refl, failed-WellQueued c w)
  handle_read-Returns behind ReadResult.would_block c w = inr (c, refl, w)
  handle_read-Returns behind ReadResult.broken c w = inr (_, refl, failed-WellQueued c w)

  after_write-WellQueued :
      (result : WriteResult) (c : Connection)
      → WellQueued c
      → WellQueued (after_write sha512 junk listener clock result c)
  unfolding after_write update_poll_flags
  after_write-WellQueued (WriteResult.wrote n) c w = record {
    idle = w.idle;
    busy = w.busy;
    polls = λ h. refl;
  }
  after_write-WellQueued WriteResult.would_block c w = w
  after_write-WellQueued WriteResult.broken c w = failed-WellQueued c w

  handle_write-Gives :
      (result : WriteResult) (c : Connection)
      → WellQueued c
      → Gives WellQueued (handle_write sha512 junk listener clock result c)
  unfolding handle_write add_ready_objects
  handle_write-Gives result c w =
      let (filled, done, w') = add_ready_loop-Gives sha512 junk c.ready_objects c refl w in
      (
        after_write sha512 junk listener clock result filled,
        rw done refl,
        after_write-WellQueued result filled w',
      )

  -- Whatever flags the main loop gives, and whatever the system calls give, connection_poll_cb comes to
  -- an end and keeps the queues in order, unless it reads behind a buffer that has no room left.
  pub connection_poll_cb-finishes :
      (error readable writable : Bool) (behind : Bytes) (r : ReadResult) (w : WriteResult)
      (c : Connection)
      → WellQueued c
      → Returns
          (1 ≤ length behind)
          (connection_poll_cb sha512 junk listener clock error readable writable behind r w c)
  unfolding connection_poll_cb
  connection_poll_cb-finishes true readable writable behind r w c good = inr (
    _,
    refl,
    failed-WellQueued _
        (connected-WellQueued (writable && (false && not c.connect_succeeded)) c good),
  )
  connection_poll_cb-finishes false true writable behind r w c good =
      handle_read-Returns behind r _
        (connected-WellQueued (writable && not c.connect_succeeded) c good)
  connection_poll_cb-finishes false false true behind r w c good =
      let (d, done, good') =
        handle_write-Gives w _ (connected-WellQueued (not c.connect_succeeded) c good) in
      inr (d, ap some done, good')
  connection_poll_cb-finishes false false false behind r w c good = inr (c, refl, good)

  -- The timer's callback sends a pong, closes the connection or does nothing, and keeps the queues in
  -- order.
  pub pong_check_cb-finishes :
      (c : Connection)
      → WellQueued c
      → Gives WellQueued (pong_check_cb sha512 junk listener clock c)
  unfolding pong_check_cb
  pong_check_cb-finishes c good =
      if-Gives (leb timeout ((clock - c.last_read_time) / 1000000)) _ _
        (_, refl, failed-WellQueued c good)
        (if-Gives
          (leb pong_interval ((clock - c.last_write_time) / 1000000)
            && not (connection_is_ready_to_write c))
          _ _ sent (c, refl, good))
    where
      sent : Gives WellQueued (send_pong sha512 junk c)
      sent = let (d, e, u) = send_pong-Gives sha512 junk c in (d, e, u good)
