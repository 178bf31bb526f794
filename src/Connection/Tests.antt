-- ===== src/Connection/Tests.antt =====
-- The theorems on src/ntb-connection.c at concrete values.
use notbit.Common.{
  ◌*◌, ◌^◌, ◌≡◌, ◌⊎◌, refl, arith, Bytes, List, [], ◌∷◌, ◌++◌, All, true, replicate, none, some, ok,
  ◌>>=◌,
}
use notbit.Proto.Types.{NetAddress, InvType, codes}
use notbit.Proto.Write.{add_var_int}
use notbit.Proto.RoundTrip.{cursor}
use notbit.Connection.{
  Connection, Blob, Listener, Event, HashesEvent, new_for_socket, emit_event, update_poll_flags,
}
use notbit.Connection.Handlers.{inv_command_handler, getdata_command_handler}
use notbit.Connection.Commands.{process_commands}
use notbit.Connection.Objects.{load_cb, send_blob, maybe_queue_load}
use notbit.Connection.Sending.{send_version, begin_hash_command, end_hash_command}
use notbit.Connection.Answering.{Call, Calls, IsCalling, process_commands-WellQueued}
use notbit.Connection.Frames.{stream, handle_all, process_commands-stream}
use notbit.Connection.Names.{framed}
use notbit.Connection.Version.{greeting}
use notbit.Connection.Greeting.{send_version-process_commands}
use notbit.Connection.Hashes.{handlers-overflow}
use notbit.Connection.Packing.{add_all, join, packed, IsGroup, hash_commands-join}
use notbit.Connection.Ordered.{WellQueued}
use notbit.Connection.Life.{Step, Reach, Reach-WellQueued, Reach-load_cb, Reach-goes_on}

-- Stands for SHA512.
abbrev some_hash : Bytes → Bytes
some_hash bytes = replicate 64 7

abbrev eight : Bytes
eight = replicate 8 0

abbrev content : Listener
content events c = (true, c)

-- A listener that asks for an object at each event.
abbrev serving : Listener
serving events c = (true, send_blob (replicate 32 3) none c)

serving_calls : IsCalling some_hash eight serving
serving_calls events c = Calls.more Calls.quiet (Call.asked c (replicate 32 3) none)

abbrev home : NetAddress
home = record { host = replicate 16 1; port = 8444 }

abbrev fresh : Connection
fresh = new_for_socket home 0 0 0

abbrev pinged : Connection
pinged = record fresh { in_buf = framed some_hash (codes "ping") [] }

pinged-WellQueued : WellQueued pinged
pinged-WellQueued = record { idle = λ e f. refl; busy = λ e. cc; polls = λ h. refl }

process_commands-WellQueued_example :
    (d : Connection) × (process_commands some_hash eight serving (0 ∷ []) pinged ≡ some (ok d))
    × WellQueued d
process_commands-WellQueued_example =
    process_commands-WellQueued some_hash eight serving pinged (0 ∷ []) serving_calls (omega arith)
      pinged-WellQueued

abbrev two_commands : List (Bytes × Bytes)
two_commands = (codes "ping", []) ∷ ((codes "verack", []) ∷ [])

abbrev busy_line : Connection
busy_line = record fresh { in_buf = stream some_hash two_commands ++ (233 ∷ []) }

process_commands-stream_example :
    process_commands some_hash eight content (0 ∷ []) busy_line
    ≡ some (handle_all some_hash eight content two_commands (233 ∷ []) (0 ∷ []) busy_line)
process_commands-stream_example =
    process_commands-stream some_hash eight content two_commands (233 ∷ []) (0 ∷ []) fresh
      (
        (
          (((λ e. cc), ((λ e. cc), ((λ e. cc), ((λ e. cc), tt)))), omega arith),
          (omega arith, omega arith),
        ),
        (
          (
            (
              ((λ e. cc), ((λ e. cc), ((λ e. cc), ((λ e. cc), ((λ e. cc), ((λ e. cc), tt)))))),
              omega arith,
            ),
            (omega arith, omega arith),
          ),
          tt,
        ),
      )
      (omega arith)

abbrev agent : Bytes
agent = codes "/notbit:0.1/"

send_version-process_commands_example :
    (w : Bytes) × (send_version some_hash 1700000000 eight agent fresh 77 8444
      ≡ ok (update_poll_flags (record fresh { out_buf = fresh.out_buf ++ w })))
    × (d : Connection) × (process_commands some_hash eight content
          (0 ∷ [])
          (record fresh { in_buf = w })
        ≡ some (ok d))
    × (d.events
        ≡ fresh.events ++ Event.version (greeting home 1700000000 77 8444 agent (0 ∷ [])) ∷ [])
send_version-process_commands_example =
    send_version-process_commands home 1700000000 77 8444 agent (omega arith) refl (omega arith)
      (omega arith) (omega arith) (omega arith) some_hash eight eight (0 ∷ []) content fresh fresh
      refl refl λ bytes. omega arith

abbrev one_hash : Bytes
one_hash = replicate 32 5

handlers-overflow_example :
    let n = 2 ^ 59 * 1 in
    let c = cursor (add_var_int [] n) (0 ∷ []) 0 in
    let hashes : HashesEvent = record { n_hashes = n; hashes = 0 ∷ [] } in
    (inv_command_handler content fresh c ≡ ok (emit_event content (Event.inv hashes) fresh))
    × (getdata_command_handler content fresh c
        ≡ ok (emit_event content (Event.getdata hashes) fresh))
handlers-overflow_example = handlers-overflow content fresh (0 ∷ []) 1 (omega arith)

hash_commands-join_example :
    (d : Connection) × (groups : List (List Bytes)) × ((begin_hash_command some_hash eight 0
          (codes "inv")
          fresh
        >>= add_all some_hash eight 0 (codes "inv") (one_hash ∷ (one_hash ∷ [])))
      ≡ ok d)
    × ((end_hash_command some_hash eight 0 d).out_buf ≡ packed some_hash (codes "inv") groups)
    × (join groups ≡ one_hash ∷ (one_hash ∷ []))
    × All IsGroup groups
hash_commands-join_example =
    hash_commands-join some_hash eight 0 (codes "inv") (omega arith) refl (λ bytes. omega arith)
      (one_hash ∷ (one_hash ∷ [])) fresh (refl, (refl, tt))

-- An object that is not in memory was asked for.
abbrev asked_for : Connection
asked_for = send_blob one_hash none fresh

abbrev asking : Reach some_hash eight serving serving_calls fresh asked_for
asking = Reach.next Reach.here (Step.called fresh asked_for (Call.asked fresh one_hash none))

Reach-WellQueued_example : WellQueued asked_for
Reach-WellQueued_example =
    Reach-WellQueued some_hash eight serving serving_calls home 0 0 0 asked_for asking

abbrev an_object : Blob
an_object = record { type = InvType.msg; contents = 1 ∷ [] }

Reach-load_cb_example :
    (hash : Bytes) × (rest : List Bytes) × (d : Connection) × (asked_for.objects_to_load
      ≡ hash ∷ rest)
    × (load_cb (some an_object) asked_for ≡ ok d)
    × (d.objects_to_load ≡ rest)
    × (d.ready_objects ≡ asked_for.ready_objects ++ an_object ∷ [])
unfolding send_blob maybe_queue_load
Reach-load_cb_example =
    Reach-load_cb some_hash eight serving serving_calls home 0 0 0 asked_for an_object asking refl

Reach-goes_on_example : (asked_for.is_loading ≡ true) ⊎ (asked_for.poll_out ≡ true)
unfolding send_blob maybe_queue_load
Reach-goes_on_example =
    Reach-goes_on some_hash eight serving serving_calls home 0 0 0 asked_for asking refl
      (omega arith)
