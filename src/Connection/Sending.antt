-- ===== src/Connection/Sending.antt =====
-- What src/ntb-connection.c sends: single commands, and lists of hashes or addresses that are split
-- into commands on the fly.
use notbit.Common.{
  ℕ, ◌+◌, ◌-◌, ◌/◌, ◌%◌, Bytes, List, [], ◌∷◌, ◌++◌, ◌==◌, leb, take, length, replicate,
  if◌then◌else◌, Outcome, ok, ◌>>=◌,
}
use notbit.Proto.Types.{NetAddress, codes, header_size}
use notbit.Proto.Write.{
  Item, add_64, add_32, add_netaddress, write_at, begin_command, end_command, add_command,
}
use notbit.Connection.{Connection, update_poll_flags}
use notbit.Connection.Handlers.{hash_length}

-- NTB_PROTO_VERSION is 2, NTB_PROTO_SERVICES 1.
abbrev pub version_items : NetAddress → ℕ → ℕ → Bytes → List Item
version_items remote nonce local_port user_agent =
    Item.uint32 2
    ∷ (Item.uint64 1
        ∷ (Item.timestamp
            ∷ (Item.uint64 1
                ∷ (Item.netaddress remote
                    ∷ (Item.uint64 1
                        ∷ (Item.netaddress (record { host = replicate 16 0; port = local_port })
                            ∷ (Item.uint64 nonce
                                ∷ (Item.var_str user_agent
                                    ∷ (Item.var_int 1 ∷ (Item.var_int 1 ∷ []))))))))))

-- SHA512, the time, and what the 8 bytes for the length and the checksum of a command hold before
-- they are written.
module _ (sha512 : Bytes → Bytes) (now : ℕ) (junk : Bytes) where
  unfoldable pub send_verack : Connection → Outcome Connection
  unfolding update_poll_flags
  send_verack conn = do
    sent ← add_command sha512 now junk conn.out_buf (codes "verack") []
    ok (update_poll_flags (record conn { out_buf = sent }))

  -- `user_agent` is "/notbit:" VERSION "/", where the build sets VERSION.
  unfoldable pub send_version : Bytes → Connection → ℕ → ℕ → Outcome Connection
  unfolding update_poll_flags
  send_version user_agent conn nonce local_port = do
    sent ←
        add_command sha512 now junk conn.out_buf (codes "version")
          (version_items conn.remote_address nonce local_port user_agent)
    ok (update_poll_flags (record conn { out_buf = sent }))

-- The whole entries of `size` bytes behind the header and the byte for their number.
abbrev pub n_entries : ℕ → Connection → ℕ
n_entries size conn = (length conn.out_buf - conn.command_start - 1 - header_size) / size

-- `blank` is what the byte for the number of entries holds before it is written.
module _ (sha512 : Bytes → Bytes) (junk : Bytes) (blank : ℕ) where
  unfoldable pub begin_list : Bytes → Connection → Outcome Connection
  unfolding begin_command
  begin_list command conn = do
    begun ← begin_command junk conn.out_buf command
    ok (record conn { command_start = length conn.out_buf; out_buf = begun ++ (blank ∷ []) })

  -- The number of entries is stored in a byte.
  unfoldable pub end_list : ℕ → Connection → Connection
  unfolding end_command update_poll_flags
  end_list size conn =
      let n = n_entries size conn in
      update_poll_flags (
        if n == 0
        then record conn { out_buf = take conn.command_start conn.out_buf }
        else record conn {
          out_buf =
              end_command sha512
                (write_at conn.out_buf (conn.command_start + header_size) ((n % 256) ∷ []))
                conn.command_start;
        })

  -- An entry behind the others; if there are 0xfc already, another command is begun for it.
  unfoldable pub add_entry : Bytes → ℕ → Bytes → Connection → Outcome Connection
  add_entry command size entry conn = do
    room ←
        if leb 0xfc (n_entries size conn) then begin_list command (end_list size conn) else ok conn
    ok (record room { out_buf = room.out_buf ++ entry })

  abbrev pub begin_hash_command : Bytes → Connection → Outcome Connection
  begin_hash_command = begin_list

  abbrev pub end_hash_command : Connection → Connection
  end_hash_command = end_list hash_length

  abbrev pub add_hash_for_command : Bytes → Bytes → Connection → Outcome Connection
  add_hash_for_command command hash = add_entry command hash_length (take hash_length hash)

  -- A timestamp, a stream, the services and an address.
  abbrev pub addr_length : ℕ
  addr_length = 8 + 4 + 8 + 16 + 2

  abbrev pub begin_addr : Connection → Outcome Connection
  begin_addr = begin_list (codes "addr")

  abbrev pub end_addr : Connection → Connection
  end_addr = end_list addr_length

  unfoldable pub addr_entry : ℕ → ℕ → ℕ → NetAddress → Bytes
  unfolding add_64 add_32 add_netaddress
  addr_entry timestamp stream services address =
      add_netaddress (add_64 (add_32 (add_64 [] timestamp) stream) services) address

  unfoldable pub add_addr_address : ℕ → ℕ → ℕ → NetAddress → Connection → Outcome Connection
  unfolding add_entry addr_entry
  add_addr_address timestamp stream services address =
      add_entry (codes "addr") addr_length (addr_entry timestamp stream services address)
