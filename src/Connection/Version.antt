-- ===== src/Connection/Version.antt =====
-- The version command of src/ntb-connection.c, as version_command_handler reads what send_version wrote.
use notbit.Common.{
  ℕ, ◌+◌, ◌^◌, ◌<◌, ◌≡◌, refl, ◌∙◌, ap, arith, Bytes, List, [], ◌∷◌, ◌++◌, All, Bool, true, false,
  length, length-append, append_assoc, if◌then◌else◌, map, replicate, ok, ◌>>=◌, bytes_eq,
}
use notbit.Proto.Types.{Argument, Values, NetAddress, codes}
use notbit.Proto.Read.{
  Cursor, get_argument, get_command, get_var_int, get_var_int_list, get_8, skip_var_ints,
}
use notbit.Proto.Write.{Item, add_item, add_items, add_var_int}
use notbit.Proto.RoundTrip.{
  argument_of, value_of, Fits, cursor, at_rest, get_argument-add_item, add_items-append,
}
use notbit.Connection.{Connection, Listener, Event, VersionEvent, emit_event}
use notbit.Connection.Handlers.{dispatch, version_arguments, version_command_handler}
use notbit.Connection.Sending.{version_items}

module _ (now : ℕ) (more : List Argument) where
  abbrev with_more : (items : List Item) → Values more → Values (map argument_of items ++ more)
  with_more [] vs = vs
  with_more (item ∷ items) vs = (value_of now item, with_more items vs)

  -- The items that were written are read, and the arguments behind them from what stands behind.
  get_command-front :
      (items : List Item) (tail rest : Bytes) (n : ℕ) (vs : Values more) (end : Cursor)
      → All (Fits now) items
      → length (add_items now [] items ++ tail) + n < 2 ^ 31
      → get_command more (cursor tail rest n) ≡ ok (vs, end)
      → get_command (map argument_of items ++ more) (cursor (add_items now [] items ++ tail) rest n)
        ≡ ok (with_more items vs, end)
  unfolding get_command add_items
  get_command-front [] tail rest n vs end h k e = e
  get_command-front (item ∷ items) tail rest n vs end h k e =
      let first = add_item now [] item in
      let others = add_items now [] items ++ tail in
      let same : add_items now first items ++ tail ≡ first ++ others =
        ap (λ t. t ++ tail) (add_items-append now items first) ∙ append_assoc first _ tail in
      let size : length (add_items now first items ++ tail) ≡ length first + length others =
        ap length same ∙ length-append first others in
      let split : (add_items now first items ++ tail) ++ rest ≡ first ++ (others ++ rest) =
        ap (λ t. t ++ rest) same ∙ append_assoc first others rest in
      let start : cursor (add_items now first items ++ tail) rest n
          ≡ cursor first (others ++ rest) (length others + n) =
        ground (arith, size, split) in
      rw
        (
          start,
          get_argument-add_item now item (length others + n) (others ++ rest) h.0 (omega arith),
          ◌>>=◌,
          get_command-front items tail rest n vs end h.1 (omega arith) e,
        )
        refl

-- How the loop ends after the last command.
pub last_answer :
    (go_on : Bool) (conn : Connection)
    → (d : Connection) × ((if go_on then ok (record conn { in_buf = [] }) else ok conn) ≡ ok d)
      × (d.events ≡ conn.events)
last_answer true conn = (record conn { in_buf = [] }, refl, refl)
last_answer false conn = (conn, refl, refl)

-- The one stream number, 1, with its count in front.
abbrev one_stream : Bytes
one_stream = 1 ∷ (1 ∷ [])

get_streams :
    (rest : Bytes) (n : ℕ)
    → 2 + n < 2 ^ 31
    → get_command (Argument.var_int_list ∷ []) (cursor one_stream rest n)
      ≡ ok ((record { n_ints = 1; values = 1 ∷ rest }, tt), at_rest rest n)
unfolding get_command get_argument get_var_int_list get_var_int get_8 skip_var_ints
get_streams rest n h = ground arith

module _ (remote : NetAddress) (now nonce local_port : ℕ) (user_agent : Bytes) where
  -- What stands in front of the stream numbers.
  abbrev pub front_items : List Item
  front_items =
      Item.uint32 2
      ∷ (Item.uint64 1
          ∷ (Item.timestamp
              ∷ (Item.uint64 1
                  ∷ (Item.netaddress remote
                      ∷ (Item.uint64 1
                          ∷ (Item.netaddress (record { host = replicate 16 0; port = local_port })
                              ∷ (Item.uint64 nonce ∷ (Item.var_str user_agent ∷ []))))))))

  version_payload :
      add_items now [] (version_items remote nonce local_port user_agent)
      ≡ add_items now [] front_items ++ one_stream
  unfolding add_items add_item add_var_int
  version_payload = simp append_assoc

  -- The event that the peer's listener is given; `rest` is what stands in memory behind the command.
  abbrev pub greeting : Bytes → VersionEvent
  greeting rest = record {
    version = 2;
    services = 1;
    timestamp = now;
    addr_recv = remote;
    addr_from = record { host = replicate 16 0; port = local_port };
    nonce = nonce;
    user_agent = record { size = length user_agent; bytes = user_agent };
    stream_numbers = record { n_ints = 1; values = 1 ∷ rest };
  }

  module _ (fits : All (Fits now) front_items) (rest : Bytes)
      (short : length (add_items now [] (version_items remote nonce local_port user_agent))
        < 2 ^ 31) where
    abbrev payload : Bytes
    payload = add_items now [] (version_items remote nonce local_port user_agent)

    abbrev read_values : Values version_arguments
    read_values =
        with_more now (Argument.var_int_list ∷ []) front_items
          (record { n_ints = 1; values = 1 ∷ rest }, tt)

    get_version :
        get_command version_arguments (record { mem = payload ++ rest; len = length payload })
        ≡ ok (read_values, at_rest rest 0)
    get_version =
        let h : length (add_items now [] front_items ++ one_stream) < 2 ^ 31 =
          omega (arith, ap length version_payload) in
        let written = add_items now [] front_items ++ one_stream in
        let whole : length written ≡ length written + 0 = omega arith in
        ap (λ t. get_command version_arguments (record { mem = t ++ rest; len = length t }))
          version_payload
        ∙ ap (λ n. get_command version_arguments (record { mem = written ++ rest; len = n })) whole
        ∙ get_command-front now (Argument.var_int_list ∷ []) front_items one_stream rest 0 _
            (at_rest rest 0) fits (omega arith) (get_streams rest 0 (omega arith))

    pub dispatch-version :
        (sha512 : Bytes → Bytes) (junk : Bytes) (listener : Listener) (conn : Connection)
        → dispatch sha512 junk listener
            (codes "version")
            conn
            (record { mem = payload ++ rest; len = length payload })
          ≡ ok (emit_event listener (Event.version (greeting rest)) conn)
    unfolding dispatch version_command_handler bytes_eq
    dispatch-version sha512 junk listener conn = rw (get_version, version_command_handler) refl
