-- ===== src/Connection/Handlers.antt =====
-- The handlers of src/ntb-connection.c for the commands of a peer, and their table.
use notbit.Common.{
  ℕ, zero, suc, ◌*◌, ◌%◌, ◌^◌, Bytes, List, [], ◌∷◌, Bool, true, false, ltb, take, if◌then◌else◌,
  bytes_eq, Outcome, ok, ◌>>=◌,
}
use notbit.Proto.Types.{
  Argument, uint32, uint64, timestamp, netaddress, var_int, var_str, var_int_list, InvType, codes,
}
use notbit.Proto.Read.{Cursor, get_var_int, get_command}
use notbit.Proto.Write.{add_command}
use notbit.Connection.{
  Event, Connection, Listener, emit_event, set_error_state, update_poll_flags, refuse, catch,
}

-- NTB_PROTO_HASH_LENGTH
abbrev pub hash_length : ℕ
hash_length = 32

abbrev pub addr_arguments : List Argument
addr_arguments = timestamp ∷ (uint32 ∷ (uint64 ∷ (netaddress ∷ [])))

abbrev pub version_arguments : List Argument
version_arguments =
    uint32
    ∷ (uint64
        ∷ (timestamp
            ∷ (uint64
                ∷ (netaddress
                    ∷ (uint64 ∷ (netaddress ∷ (uint64 ∷ (var_str ∷ (var_int_list ∷ [])))))))))

abbrev pub object_arguments : List Argument
object_arguments = uint64 ∷ (timestamp ∷ (var_int ∷ (var_int ∷ [])))

abbrev pub msg_arguments : List Argument
msg_arguments = uint64 ∷ (timestamp ∷ (var_int ∷ []))

module _ (listener : Listener) where
  abbrev emit : Event → Connection → Outcome (Bool × Connection)
  emit event conn = ok (emit_event listener event conn)

  -- `while (n_addresses--)`
  unfoldable pub addr_loop : ℕ → Connection → Cursor → Outcome (Bool × Connection)
  unfolding get_command emit_event set_error_state
  addr_loop zero conn c = ok (true, conn)
  addr_loop (suc n) conn c =
      catch (get_command addr_arguments c) (refuse listener conn)
        λ ((time, (stream, (services, (address, _)))), c').
          let event = Event.addr (record {
            timestamp = time;
            stream = stream;
            services = services;
            address = address;
          }) in
          let answer = emit_event listener event conn in
          elim answer.0 [ false ↦ ok answer | true ↦ addr_loop n answer.1 c' ]

  unfoldable pub addr_command_handler : Connection → Cursor → Outcome (Bool × Connection)
  unfolding addr_loop get_var_int set_error_state
  addr_command_handler conn c =
      catch (get_var_int c) (refuse listener conn) λ (n, c'). addr_loop n conn c'

  -- The product of the number of hashes and their length is taken modulo 2 ^ 64.
  unfoldable pub getdata_command_handler : Connection → Cursor → Outcome (Bool × Connection)
  unfolding get_var_int emit_event set_error_state
  getdata_command_handler conn c = catch (get_var_int c) (refuse listener conn) λ (n, c').
      if ltb c'.len (n * hash_length % 2 ^ 64)
      then refuse listener conn
      else emit (Event.getdata (record { n_hashes = n; hashes = c'.mem })) conn

  unfoldable pub version_command_handler : Connection → Cursor → Outcome (Bool × Connection)
  unfolding get_command emit_event set_error_state
  version_command_handler conn c =
      catch (get_command version_arguments c) (refuse listener conn)
        λ (
          (version, (services, (time, (_, (recv, (_, (from, (nonce, (agent, (streams, _)))))))))),
          _,
        ).
          emit
            (Event.version (record {
              version = version;
              services = services;
              timestamp = time;
              addr_recv = recv;
              addr_from = from;
              nonce = nonce;
              user_agent = agent;
              stream_numbers = streams;
            }))
            conn

  unfoldable pub verack_command_handler : Connection → Cursor → Outcome (Bool × Connection)
  unfolding emit_event
  verack_command_handler conn c = emit Event.verack conn

  -- What the handlers of getpubkey, pubkey and broadcast share.
  unfoldable pub versioned_object_handler :
      InvType → Connection → Cursor → Outcome (Bool × Connection)
  unfolding get_command emit_event set_error_state
  versioned_object_handler type conn c =
      catch (get_command object_arguments c) (refuse listener conn)
        λ ((nonce, (time, (_, (stream, _)))), _).
          emit
            (Event.object (record {
              type = type;
              nonce = nonce;
              timestamp = time;
              stream_number = stream;
              object_data = take c.len c.mem;
              object_data_length = c.len;
            }))
            conn

  abbrev pub getpubkey_command_handler : Connection → Cursor → Outcome (Bool × Connection)
  getpubkey_command_handler = versioned_object_handler InvType.getpubkey

  abbrev pub pubkey_command_handler : Connection → Cursor → Outcome (Bool × Connection)
  pubkey_command_handler = versioned_object_handler InvType.pubkey

  abbrev pub broadcast_command_handler : Connection → Cursor → Outcome (Bool × Connection)
  broadcast_command_handler = versioned_object_handler InvType.broadcast

  unfoldable pub msg_command_handler : Connection → Cursor → Outcome (Bool × Connection)
  unfolding get_command emit_event set_error_state
  msg_command_handler conn c =
      catch (get_command msg_arguments c) (refuse listener conn)
        λ ((nonce, (time, (stream, _))), _).
          emit
            (Event.object (record {
              type = InvType.msg;
              nonce = nonce;
              timestamp = time;
              stream_number = stream;
              object_data = take c.len c.mem;
              object_data_length = c.len;
            }))
            conn

  unfoldable pub inv_command_handler : Connection → Cursor → Outcome (Bool × Connection)
  unfolding get_var_int emit_event set_error_state
  inv_command_handler conn c = catch (get_var_int c) (refuse listener conn) λ (n, c').
      if ltb c'.len (n * hash_length % 2 ^ 64)
      then refuse listener conn
      else emit (Event.inv (record { n_hashes = n; hashes = c'.mem })) conn

-- SHA512, and what the 8 bytes for the length and the checksum hold before they are written.
module _ (sha512 : Bytes → Bytes) (junk : Bytes) where
  unfoldable pub send_pong : Connection → Outcome Connection
  unfolding update_poll_flags
  send_pong conn = do
    sent ← add_command sha512 0 junk conn.out_buf (codes "pong") []
    ok (update_poll_flags (record conn { out_buf = sent }))

  unfoldable pub ping_command_handler : Connection → Cursor → Outcome (Bool × Connection)
  unfolding send_pong
  ping_command_handler conn c = do conn' ← send_pong conn; ok (true, conn')

module _ (sha512 : Bytes → Bytes) (junk : Bytes) (listener : Listener) where
  -- `command_handlers`, looked up by the name of a command; true, for one that is ignored.
  unfoldable pub dispatch : Bytes → Connection → Cursor → Outcome (Bool × Connection)
  unfolding versioned_object_handler msg_command_handler inv_command_handler version_command_handler
      addr_command_handler getdata_command_handler verack_command_handler ping_command_handler
      bytes_eq
  dispatch name conn c =
      if bytes_eq name (codes "getpubkey")
      then getpubkey_command_handler listener conn c
      else if bytes_eq name (codes "pubkey")
      then pubkey_command_handler listener conn c
      else if bytes_eq name (codes "msg")
      then msg_command_handler listener conn c
      else if bytes_eq name (codes "broadcast")
      then broadcast_command_handler listener conn c
      else if bytes_eq name (codes "inv")
      then inv_command_handler listener conn c
      else if bytes_eq name (codes "version")
      then version_command_handler listener conn c
      else if bytes_eq name (codes "addr")
      then addr_command_handler listener conn c
      else if bytes_eq name (codes "getdata")
      then getdata_command_handler listener conn c
      else if bytes_eq name (codes "verack")
      then verack_command_handler listener conn c
      else if bytes_eq name (codes "ping")
      then ping_command_handler sha512 junk conn c
      else ok (true, conn)
