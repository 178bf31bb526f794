-- ===== src/Connection/Polling.antt =====
-- What src/ntb-connection.c does when the main loop calls it: reading, writing and the check of the
-- timer. The results of the system calls are arguments.
use notbit.Common.{
  ℕ, ◌+◌, ◌-◌, ◌*◌, ◌/◌, Bytes, ◌++◌, Bool, true, ◌&&◌, not, leb, drop, length, if◌then◌else◌,
  Option, some, Outcome, ok, ◌>>=◌,
}
use notbit.Connection.{
  Connection, Listener, set_error_state, update_poll_flags, connection_is_ready_to_write,
}
use notbit.Connection.Handlers.{send_pong}
use notbit.Connection.Commands.{process_commands}
use notbit.Connection.Objects.{add_ready_objects}

-- What `read` gives, repeated while it is interrupted: some bytes, the end of the stream, that it
-- would block, or another error.
pub data ReadResult : Type 0 where
  got : Bytes → ReadResult
  closed would_block broken : ReadResult

-- What `write` gives: how many bytes it took, that it would block, or another error.
pub data WriteResult : Type 0 where
  wrote : ℕ → WriteResult
  would_block broken : WriteResult

-- NTB_CONNECTION_PONG_INTERVAL, NTB_CONNECTION_TIMEOUT and NTB_CONNECTION_PONG_CHECK_INTERVAL in
-- seconds
abbrev pub pong_interval : ℕ
pong_interval = 5 * 60

abbrev pub timeout : ℕ
timeout = 10 * 60

abbrev pub check_interval : ℕ
check_interval = 3 * 60

-- `clock` is the monotonic clock in microseconds.
module _ (sha512 : Bytes → Bytes) (junk : Bytes) (listener : Listener) (clock : ℕ) where
  unfoldable pub handle_read : Bytes → ReadResult → Connection → Option (Outcome Connection)
  unfolding process_commands set_error_state
  handle_read behind (ReadResult.got bytes) conn =
      process_commands sha512 junk listener behind (record conn {
        last_read_time = clock;
        in_buf = conn.in_buf ++ bytes;
        n_bytes_recieved = conn.n_bytes_recieved + length bytes;
      })
  handle_read behind ReadResult.closed conn = some (ok (set_error_state listener conn))
  handle_read behind ReadResult.would_block conn = some (ok conn)
  handle_read behind ReadResult.broken conn = some (ok (set_error_state listener conn))

  -- What is done behind the call of `write`.
  unfoldable pub after_write : WriteResult → Connection → Connection
  unfolding set_error_state update_poll_flags
  after_write (WriteResult.wrote n) conn = update_poll_flags (record conn {
    out_buf = drop n conn.out_buf;
    n_bytes_send = conn.n_bytes_send + n;
    last_write_time = clock;
  })
  after_write WriteResult.would_block conn = conn
  after_write WriteResult.broken conn = set_error_state listener conn

  unfoldable pub handle_write : WriteResult → Connection → Outcome Connection
  unfolding add_ready_objects after_write
  handle_write result conn = do
    filled ← add_ready_objects sha512 junk conn
    ok (after_write result filled)

  -- `error`, `readable` and `writable` are the flags of the main loop; the results are those of the
  -- calls that are made.
  unfoldable pub connection_poll_cb :
      Bool
      → Bool
      → Bool
      → Bytes
      → ReadResult
      → WriteResult
      → Connection
      → Option (Outcome Connection)
  unfolding handle_read handle_write set_error_state
  connection_poll_cb error readable writable behind read_result write_result conn =
      let conn' =
        if writable && (not error && not conn.connect_succeeded)
        then record conn { connect_succeeded = true }
        else conn in
      if error
      then some (ok (set_error_state listener conn'))
      else if readable
      then handle_read behind read_result conn'
      else if writable
      then some (handle_write write_result conn')
      else some (ok conn')

  unfoldable pub pong_check_cb : Connection → Outcome Connection
  unfolding set_error_state
  pong_check_cb conn =
      if leb timeout ((clock - conn.last_read_time) / 1000000)
      then ok (set_error_state listener conn)
      else if leb pong_interval ((clock - conn.last_write_time) / 1000000)
          && not (connection_is_ready_to_write conn)
      then send_pong sha512 junk conn
      else ok conn
