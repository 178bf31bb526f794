-- ===== src/Connection.antt =====
-- src/ntb-connection.c: a connection to a peer. What the socket, the clock, the store and the
-- listener of the connection's signal do enters as arguments.
pub mod Handlers
pub mod Commands
pub mod Sending
pub mod Objects
pub mod Polling
pub mod Ordered
pub mod Effects
pub mod Receiving
pub mod Names
pub mod Frames
pub mod Version
pub mod Greeting
pub mod Hashes
pub mod Opened
pub mod Packing
pub mod Queues
pub mod Progress
pub mod Asking
pub mod Answering
pub mod Life
mod Tests
use notbit.Common.{
  ℕ, ◌+◌, Bytes, List, [], ◌∷◌, ◌++◌, Bool, true, false, ◌||◌, not, ltb, length, if◌then◌else◌,
  Outcome, ok, fail, fault,
}
use notbit.Proto.Types.{InvType, VarStr, VarIntList, NetAddress}

-- struct ntb_connection_version_event
pub record VersionEvent : Type 0 where
  pub version : ℕ
  pub services : ℕ
  pub timestamp : ℕ
  pub addr_recv : NetAddress
  pub addr_from : NetAddress
  pub nonce : ℕ
  pub user_agent : VarStr
  pub stream_numbers : VarIntList

-- struct ntb_connection_object_event; `object_data` is the bytes that the pointer and the length span.
pub record ObjectEvent : Type 0 where
  pub type : InvType
  pub nonce : ℕ
  pub timestamp : ℕ
  pub stream_number : ℕ
  pub object_data : Bytes
  pub object_data_length : ℕ

-- struct ntb_connection_inv_event and struct ntb_connection_getdata_event: `hashes` is the memory
-- from the pointer on.
pub record HashesEvent : Type 0 where
  pub n_hashes : ℕ
  pub hashes : Bytes

-- struct ntb_connection_addr_event
pub record AddrEvent : Type 0 where
  pub timestamp : ℕ
  pub stream : ℕ
  pub services : ℕ
  pub address : NetAddress

-- enum ntb_connection_event_type, with the structure that goes with each.
pub data Event : Type 0 where
  connect_failed error verack : Event
  version : VersionEvent → Event
  inv getdata : HashesEvent → Event
  addr : AddrEvent → Event
  object : ObjectEvent → Event

-- struct ntb_blob, without its reference count.
pub record Blob : Type 0 where
  pub type : InvType
  pub contents : Bytes

-- struct ntb_connection. The two queues hold what their entries do: a blob, or a hash whose blob is
-- not loaded. `has_sources` tells that the socket and the timer are watched, `poll_out` that the
-- main loop waits for room to write, and `is_loading` that there is a load cookie. `events` is what
-- was emitted so far; the two byte counts stand in the statistics of the network.
pub record Connection : Type 0 where
  pub remote_address : NetAddress
  pub has_sources : Bool
  pub poll_out : Bool
  pub in_buf : Bytes
  pub out_buf : Bytes
  pub connect_succeeded : Bool
  pub command_start : ℕ
  pub is_loading : Bool
  pub ready_objects : List Blob
  pub objects_to_load : List Bytes
  pub last_write_time : ℕ
  pub last_read_time : ℕ
  pub n_bytes_send : ℕ
  pub n_bytes_recieved : ℕ
  pub events : List Event

-- ntb_connection_new_for_socket, at a time of the monotonic clock. The byte counts go on from those
-- of the network.
abbrev pub new_for_socket : NetAddress → ℕ → ℕ → ℕ → Connection
new_for_socket address clock sent received = record {
  remote_address = address;
  has_sources = true;
  poll_out = false;
  in_buf = [];
  out_buf = [];
  connect_succeeded = false;
  command_start = 0;
  is_loading = false;
  ready_objects = [];
  objects_to_load = [];
  last_write_time = clock;
  last_read_time = clock;
  n_bytes_send = sent;
  n_bytes_recieved = received;
  events = [];
}

-- The listener of the connection's signal when the last of these events is emitted: what it answers, where
-- false says that the connection must not be used any more, and the connection as it leaves it, since it
-- may call back into it, as connection_event_cb of src/ntb-network.c does. Nothing that it calls emits an
-- event.
abbrev pub Listener : Type 0
Listener = List Event → Connection → Bool × Connection

unfoldable pub emit_event : Listener → Event → Connection → Bool × Connection
emit_event listener event conn =
    let events = conn.events ++ event ∷ [] in
    let (answer, conn') = listener events (record conn { events = events }) in
    (answer, record conn' { events = events })

abbrev pub remove_sources : Connection → Connection
remove_sources conn = record conn { has_sources = false; poll_out = false }

unfoldable pub set_error_state : Listener → Connection → Connection
unfolding emit_event
set_error_state listener conn =
    (emit_event listener (if conn.connect_succeeded then error else connect_failed)
      (remove_sources conn)).1

abbrev pub is_empty {ℓ} : {A : Type ℓ} → List A → Bool
is_empty [] = true
is_empty (x ∷ xs) = false

abbrev pub connection_is_ready_to_write : Connection → Bool
connection_is_ready_to_write conn = ltb 0 (length conn.out_buf) || not (is_empty conn.ready_objects)

-- While the socket is not watched, the source passes on a source that is NULL; here nothing depends on the
-- flag then.
unfoldable pub update_poll_flags : Connection → Connection
update_poll_flags conn = record conn { poll_out = connection_is_ready_to_write conn }

-- `set_error_state(conn); return false;`
abbrev pub refuse : Listener → Connection → Outcome (Bool × Connection)
refuse listener conn = ok (false, set_error_state listener conn)

-- What is done when a reader of the message fails.
abbrev pub catch : {A B : Type 0} → Outcome A → Outcome B → (A → Outcome B) → Outcome B
catch (ok a) handler k = k a
catch fail handler k = handler
catch fault handler k = fault
