-- ===== src/Connection/Commands.antt =====
-- How src/ntb-connection.c takes commands from what it has received.
use notbit.Common.{
  ℕ, zero, suc, ◌+◌, ◌-◌, ◌*◌, Bytes, [], ◌∷◌, ◌++◌, Bool, true, false, not, Option, none, some,
  ◌==◌, ltb, take, drop, length, if◌then◌else◌, bytes_eq, Outcome, ok, fail, fault,
}
use notbit.Proto.Types.{magic, header_size, check_command_string}
use notbit.Proto.Read.{get_32}
use notbit.Connection.{Connection, Listener, set_error_state, refuse}
use notbit.Connection.Handlers.{dispatch}

-- NTB_CONNECTION_MAX_MESSAGE_SIZE
abbrev pub max_message_size : ℕ
max_message_size = 128 * 1024 * 1024

-- The bytes in front of the first zero.
unfoldable pub c_string : Bytes → Bytes
c_string [] = []
c_string (b ∷ bytes) = let rest = c_string bytes in if b == 0 then [] else b ∷ rest

-- The junk of Handlers, and the listener.
module _ (sha512 : Bytes → Bytes) (junk : Bytes) (listener : Listener) where
  -- `mem` is the memory from the start of the command on; the header and `command_length` bytes
  -- behind it are received.
  unfoldable pub process_command : Connection → Bytes → ℕ → Outcome (Bool × Connection)
  unfolding dispatch c_string bytes_eq check_command_string set_error_state
  process_command conn mem command_length =
      let hash = sha512 (take command_length (drop header_size mem)) in
      if not (bytes_eq (take 4 mem) magic)
      then refuse listener conn
      else if not (check_command_string (drop 4 mem))
      then refuse listener conn
      else if not (bytes_eq (take 4 hash) (take 4 (drop 20 mem)))
      then refuse listener conn
      else dispatch sha512 junk listener (c_string (drop 4 mem)) conn
          (record { mem = drop header_size mem; len = command_length })

  -- The loop of process_commands; none if the fuel is used up. At the end what is left of the
  -- received bytes is moved to the front.
  unfoldable pub process_loop : ℕ → Connection → Bytes → ℕ → Option (Outcome Connection)
  process_loop zero conn mem len = none
  process_loop (suc fuel) conn mem len =
      if ltb len header_size
      then some (ok (record conn { in_buf = take len mem }))
      else elim (get_32 (drop 16 mem)) [
        | fail ↦ some fail
        | fault ↦ some fault
        | ok n ↦
            if ltb max_message_size n
            then some (ok (set_error_state listener conn))
            else if ltb len (header_size + n)
            then some (ok (record conn { in_buf = take len mem }))
            else elim (process_command conn mem n) [
              | fail ↦ some fail
              | fault ↦ some fault
              | ok (false, conn') ↦ some (ok conn')
              | ok (true, conn') ↦
                  process_loop fuel conn' (drop (n + header_size) mem) (len - (n + header_size))
            ]
      ]

  -- `behind` is the part of the buffer's allocation behind the received bytes. Each round takes 24
  -- bytes at least.
  unfoldable pub process_commands : Bytes → Connection → Option (Outcome Connection)
  process_commands behind conn =
      process_loop (suc (length conn.in_buf)) conn (conn.in_buf ++ behind) (length conn.in_buf)
