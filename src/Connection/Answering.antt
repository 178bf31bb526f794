-- ===== src/Connection/Answering.antt =====
-- The calls by which the network changes a connection of src/ntb-connection.c, and its listener, which makes
-- such calls while commands are processed.
use notbit.Common.{ℕ, ◌≤◌, ◌≡◌, Bytes, List, inl, inr, length, Option, some, ok, ◌>>=◌}
use notbit.Connection.{AddrEvent, Connection, Blob, Listener}
use notbit.Connection.Objects.{send_blob}
use notbit.Connection.Sending.{
  send_verack, send_version, begin_hash_command, end_hash_command, begin_addr, end_addr,
}
use notbit.Connection.Packing.{add_all}
use notbit.Connection.Queues.{send_blob-WellQueued}
use notbit.Connection.Ordered.{WellQueued, KeepsOrder}
use notbit.Connection.Asking.{
  send_verack-WellQueued, send_version-WellQueued, listed-WellQueued, add_adverts,
  adverts-WellQueued,
}
use notbit.Connection.{Event}
use notbit.Connection.Commands.{process_commands}
use notbit.Connection.Receiving.{Finishes, process_commands-Finishes}

module _ (sha512 : Bytes → Bytes) (junk : Bytes) where
  -- An object, the greeting, a list of hashes or a list of addresses is sent.
  pub data Call : Connection → Connection → Type 0 where
    asked : (c : Connection) (hash : Bytes) (blob : Option Blob) → Call c (send_blob hash blob c)
    greeted :
        (c d : Connection) (user_agent : Bytes) (now nonce local_port : ℕ)
        → send_version sha512 now junk user_agent c nonce local_port ≡ ok d
        → Call c d
    acknowledged : (c d : Connection) (now : ℕ) → send_verack sha512 now junk c ≡ ok d → Call c d
    listed :
        (c d : Connection) (blank : ℕ) (command : Bytes) (hashes : List Bytes)
        → (begin_hash_command sha512 junk blank command c
            >>= add_all sha512 junk blank command hashes)
          ≡ ok d
        → Call c (end_hash_command sha512 junk blank d)
    advertised :
        (c d : Connection) (blank : ℕ) (adverts : List AddrEvent)
        → (begin_addr sha512 junk blank c >>= add_adverts sha512 junk blank adverts) ≡ ok d
        → Call c (end_addr sha512 junk blank d)

  -- Any number of such calls.
  pub data Calls (start : Connection) : Connection → Type 0 where
    quiet : Calls start start
    more : {c d : Connection} → Calls start c → Call c d → Calls start d

  pub Call-WellQueued : {c d : Connection} → Call c d → WellQueued c → WellQueued d
  Call-WellQueued (asked c hash blob) w = send_blob-WellQueued hash blob c w
  Call-WellQueued (greeted c d user_agent now nonce local_port e) w =
      send_version-WellQueued sha512 junk now user_agent nonce local_port c d e w
  Call-WellQueued (acknowledged c d now e) w = send_verack-WellQueued sha512 junk now c d e w
  Call-WellQueued (listed c d blank command hashes e) w =
      listed-WellQueued sha512 junk blank command hashes c d e w
  Call-WellQueued (advertised c d blank adverts e) w =
      adverts-WellQueued sha512 junk blank adverts c d e w

  Calls-WellQueued : {c d : Connection} → Calls c d → WellQueued c → WellQueued d
  Calls-WellQueued quiet w = w
  Calls-WellQueued (more calls call) w = Call-WellQueued call (Calls-WellQueued calls w)

  -- The listener changes the connection by such calls alone.
  abbrev pub IsCalling : Listener → Type 0
  IsCalling listener = (events : List Event) (c : Connection) → Calls c (listener events c).1

  pub IsCalling-KeepsOrder : (listener : Listener) → IsCalling listener → KeepsOrder listener
  IsCalling-KeepsOrder listener calls events c w = Calls-WellQueued (calls events c) w

  -- Whatever bytes have come in, whatever the listener answers, and whatever calls to send something it makes:
  -- process_commands comes to an end, never reads outside the buffer, and keeps the queues in order. At least
  -- one byte of the buffer's allocation stands behind what has come in. The queues are in order if something is
  -- being loaded when an object waits and none is ready, what is being loaded waits, and the main loop of a
  -- watched socket waits for room exactly when there is something to write.
  pub process_commands-WellQueued :
      (listener : Listener) (conn : Connection) (behind : Bytes)
      → IsCalling listener
      → 1 ≤ length behind
      → WellQueued conn
      → (d : Connection) × (process_commands sha512 junk listener behind conn ≡ some (ok d))
        × WellQueued d
  process_commands-WellQueued listener conn behind calls h w = backed (
      process_commands-Finishes sha512 junk listener (IsCalling-KeepsOrder listener calls) conn
        behind)
    where
      backed :
          Finishes sha512 junk listener
            (1 ≤ length behind)
            conn
            (process_commands sha512 junk listener behind conn)
          → (d : Connection) × (process_commands sha512 junk listener behind conn ≡ some (ok d))
            × WellQueued d
      backed (inl (_, not_backed)) = absurd (not_backed h)
      backed (inr (d, done, u)) = (d, done, u w)
