-- ===== src/Connection/Objects.antt =====
-- The queues of objects of src/ntb-connection.c: those that wait for the store, one of which is loaded
-- at a time, and those that can be written.
use notbit.Common.{
  Bytes, List, [], ◌∷◌, ◌++◌, true, false, ltb, length, if◌then◌else◌, Option, none, some, Outcome,
  ok, fault, ◌>>=◌,
}
use notbit.Proto.Types.{get_command_name_for_type}
use notbit.Proto.Write.{begin_command, end_command}
use notbit.Connection.{Connection, Blob, update_poll_flags, is_empty}

-- A load is asked of the store if none is under way, nothing is ready, and something waits.
unfoldable pub maybe_queue_load : Connection → Connection
maybe_queue_load conn =
    if conn.is_loading
    then conn
    else if is_empty conn.ready_objects
    then (if is_empty conn.objects_to_load then conn else record conn { is_loading = true })
    else conn

-- What the store has loaded for the first entry of the queue. Its assertion that there is an entry
-- may fail, and the reference to a blob that could not be loaded is counted at a null pointer.
unfoldable pub load_cb : Option Blob → Connection → Outcome Connection
unfolding update_poll_flags
load_cb none conn = fault
load_cb (some blob) conn = elim conn.objects_to_load [
  | [] ↦ fault
  | _ ∷ rest ↦ ok (
      update_poll_flags (record conn {
        objects_to_load = rest;
        ready_objects = conn.ready_objects ++ blob ∷ [];
        is_loading = false;
      }))
]

-- An object that is asked for; its blob, if it is in memory.
unfoldable pub send_blob : Bytes → Option Blob → Connection → Connection
unfolding maybe_queue_load update_poll_flags
send_blob hash (some blob) conn =
    update_poll_flags (record conn { ready_objects = conn.ready_objects ++ blob ∷ [] })
send_blob hash none conn =
    maybe_queue_load (record conn { objects_to_load = conn.objects_to_load ++ hash ∷ [] })

module _ (sha512 : Bytes → Bytes) (junk : Bytes) where
  -- The body of the loop of add_ready_objects, on the first entry.
  unfoldable pub add_ready_object : Blob → List Blob → Connection → Outcome Connection
  add_ready_object blob rest conn = do
    begun ← begin_command junk conn.out_buf (get_command_name_for_type blob.type)
    ok (
        maybe_queue_load (record conn {
          out_buf = end_command sha512 (begun ++ blob.contents) (length conn.out_buf);
          ready_objects = rest;
        }))

  -- `ready` is the queue of the connection.
  unfoldable pub add_ready_loop : List Blob → Connection → Outcome Connection
  add_ready_loop [] conn = ok conn
  add_ready_loop (blob ∷ rest) conn = elim (ltb (length conn.out_buf) 1024) [
    | false ↦ ok conn
    | true ↦ add_ready_object blob rest conn >>= add_ready_loop rest
  ]

  unfoldable pub add_ready_objects : Connection → Outcome Connection
  unfolding add_ready_loop
  add_ready_objects conn = add_ready_loop conn.ready_objects conn
