-- ===== src/Network/Peers.antt =====
-- The peers of src/ntb-network.c: connections are opened, accepted, greeted and given up.
use notbit.Common.{
  ℕ, suc, ◌+◌, ◌-◌, ◌*◌, ◌/◌, Bytes, List, [], ◌∷◌, Bool, true, false, ◌||◌, not, ◌==◌, ltb, leb,
  bytes_eq, map, if◌then◌else◌, Option, none, some, Outcome, ok, fail, fault, ◌>>=◌,
}
use notbit.Proto.Types.{NetAddress, get_max_age_for_type}
use notbit.Proto.Read.{get_var_int}
use notbit.Connection.{VersionEvent, AddrEvent}
use notbit.Network.{
  PeerState, Direction, Addr, Message, Peer, ListenSocket, Inventory, Network, num_outgoing_peers,
  max_incoming_peers, max_addr_age, update_addr, update_peer, send,
}
use notbit.Network.Addrs.{
  can_connect_to_addr, maybe_queue_connect, remove_connect_queue_source, advert, add_addr,
}

-- No listening socket is watched while there are enough incoming peers.
unfoldable pub update_all_listen_socket_sources : Network → Network
update_all_listen_socket_sources nw =
    let room = not (leb max_incoming_peers nw.n_incoming_peers) in
    record nw {
      listen_sockets = map (λ (s : ListenSocket). record s { source = room }) nw.listen_sockets;
    }

-- The port of the first listening socket, or NTB_PROTO_DEFAULT_PORT.
unfoldable pub local_port : Network → ℕ
local_port nw = elim nw.listen_sockets [ [] ↦ 8444 | socket ∷ _ ↦ socket.address.port ]

-- `peer` is the new peer as add_peer and its caller fill it in.
unfoldable pub add_peer : Peer → Network → Network
add_peer peer nw =
    update_all_listen_socket_sources
      (record nw { peers = peer ∷ nw.peers; next_id = suc nw.next_id })

-- Whether the connection could be made is an argument.
unfoldable pub connect_to_addr : ℕ → Bool → Addr → Network → Bool × Network
unfolding add_peer local_port
connect_to_addr clock connects addr nw =
    let tried = record nw {
      addrs = update_addr addr.id (λ a. record a { last_connect_time = clock }) nw.addrs;
    } in
    let peer : Peer = record {
      id = nw.next_id;
      remote_address = addr.address;
      addr = some addr.id;
      requested_inventories = [];
      state = PeerState.awaiting_verack_out;
      direction = Direction.outgoing;
      sent = Message.version nw.nonce (local_port nw) ∷ [];
    } in
    if connects
    then (true, record (add_peer peer tried) { n_outgoing_peers = suc nw.n_outgoing_peers })
    else (false, tried)

-- The two loops of connect_queue_cb: how many addresses can be connected to, and the one behind
-- `addr_num` others of them.
unfoldable pub count_connectable : ℕ → Network → List Addr → ℕ
unfolding can_connect_to_addr
count_connectable clock nw [] = 0
count_connectable clock nw (addr ∷ addrs) =
    let rest = count_connectable clock nw addrs in
    if can_connect_to_addr clock nw addr then suc rest else rest

unfoldable pub pick_addr : ℕ → Network → ℕ → List Addr → Option Addr
unfolding can_connect_to_addr
pick_addr clock nw addr_num [] = none
pick_addr clock nw addr_num (addr ∷ addrs) =
    let skipped = pick_addr clock nw addr_num addrs in
    let passed = pick_addr clock nw (addr_num - 1) addrs in
    if can_connect_to_addr clock nw addr
    then (if addr_num == 0 then some addr else passed)
    else skipped

abbrev pub occupy : Addr → Network → Network
occupy addr nw = record nw {
  addrs = update_addr addr.id (λ a. record a { connected = true }) nw.addrs;
  n_unconnected_addrs = nw.n_unconnected_addrs - 1;
}

-- `random` is what `rand` gives, at most `rand_max`. If no address is picked, the head of the list is
-- taken for one.
unfoldable pub connect_queue_cb : (clock random rand_max : ℕ) → Bool → Network → Outcome Network
connect_queue_cb clock random rand_max connects nw =
    let n_addrs = count_connectable clock nw nw.addrs in
    if leb num_outgoing_peers nw.n_outgoing_peers || (nw.n_unconnected_addrs == 0)
    then ok (remove_connect_queue_source nw)
    else if n_addrs == 0
    then ok (maybe_queue_connect false nw)
    else elim (pick_addr clock nw (random * n_addrs / rand_max) nw.addrs) [
      | none ↦ fault
      | some addr ↦
          let tried = connect_to_addr clock connects addr nw in
          ok (if tried.0 then occupy addr tried.1 else tried.1)
    ]

-- listen_socket_source_cb, when a connection is accepted.
unfoldable pub accept_peer : NetAddress → Network → Network
unfolding add_peer
accept_peer remote_address nw =
    let peer : Peer = record {
      id = nw.next_id;
      remote_address = remote_address;
      addr = none;
      requested_inventories = [];
      state = PeerState.awaiting_version_in;
      direction = Direction.incoming;
      sent = [];
    } in
    record (add_peer peer nw) { n_incoming_peers = suc nw.n_incoming_peers }

abbrev pub without : Bytes → List Bytes → List Bytes
without hash [] = []
without hash (h ∷ hashes) =
    let rest = without hash hashes in if bytes_eq hash h then rest else h ∷ rest

abbrev pub without_peer : ℕ → List Peer → List Peer
without_peer id [] = []
without_peer id (p ∷ peers) =
    let rest = without_peer id peers in if p.id == id then rest else p ∷ rest

-- The stubs that a peer was asked for are forgotten.
abbrev pub forget_requested : List (Bytes × ℕ) → List Bytes → List Bytes
forget_requested [] hashes = hashes
forget_requested ((hash, time) ∷ requested) hashes =
    forget_requested requested (without hash hashes)

abbrev pub release : Option ℕ → Network → Network
release none nw = nw
release (some id) nw = record nw {
  n_unconnected_addrs = suc nw.n_unconnected_addrs;
  addrs = update_addr id (λ a. record a { connected = false }) nw.addrs;
}

abbrev pub count_out : Direction → Network → Network
count_out Direction.outgoing nw = record nw { n_outgoing_peers = nw.n_outgoing_peers - 1 }
count_out Direction.incoming nw = record nw { n_incoming_peers = nw.n_incoming_peers - 1 }

unfoldable pub remove_peer : Peer → Network → Network
unfolding bytes_eq
remove_peer peer nw =
    let forgotten = record nw {
      inventory_hash = forget_requested peer.requested_inventories nw.inventory_hash;
    } in
    let counted = count_out peer.direction (release peer.addr forgotten) in
    update_all_listen_socket_sources
      (maybe_queue_connect true (record counted { peers = without_peer peer.id counted.peers }))

-- The adverts that send_addresses adds: those of at most 2 hours.
abbrev pub adverts : ℕ → List Addr → List AddrEvent
adverts now [] = []
adverts now (addr ∷ addrs) =
    let rest = adverts now addrs in
    if ltb (addr.advertise_time + max_addr_age) now then rest else advert addr ∷ rest

-- The hashes that send_inventory adds.
abbrev pub advertised : ℕ → List Inventory → List Bytes
advertised now [] = []
advertised now (inventory ∷ inventories) =
    let rest = advertised now inventories in
    if leb (inventory.timestamp + get_max_age_for_type inventory.type) now
    then rest
    else inventory.hash ∷ rest

abbrev pub set_state : ℕ → PeerState → Network → Network
set_state id state nw = record nw {
  peers = update_peer id (λ p. record p { state = state }) nw.peers;
}

unfoldable pub connection_established : ℕ → Peer → Network → Network
unfolding get_max_age_for_type
connection_established now peer nw =
    send peer.id (Message.inv (advertised now nw.accepted_inventories)) (
      send peer.id (Message.addr (adverts now nw.addrs)) (set_state peer.id PeerState.connected nw))

-- The first stream number of a version, or 1.
unfoldable pub first_stream : VersionEvent → Outcome ℕ
unfolding get_var_int
first_stream event =
    if event.stream_numbers.n_ints == 0
    then ok 1
    else elim (get_var_int (record { mem = event.stream_numbers.values; len = 16 })) [
      | ok (stream, _) ↦ ok stream
      | fail ↦ ok 1
      | fault ↦ fault
    ]

-- The address that a version was sent from becomes that of the peer if it has none.
unfoldable pub adopt_addr : Peer → Option Addr → Network → Network
adopt_addr peer none nw = nw
adopt_addr peer (some addr) nw = elim peer.addr [
  | some _ ↦ nw
  | none ↦
      if addr.connected
      then nw
      else occupy addr (record nw {
        peers = update_peer peer.id (λ p. record p { addr = some addr.id }) nw.peers;
      })
]

-- What handle_version does last, by the state of the peer.
unfoldable pub after_version : ℕ → Peer → Network → Network
after_version now peer nw = elim peer.state [
  | PeerState.awaiting_version_out ↦ connection_established now peer nw
  | PeerState.awaiting_version_in ↦
      set_state peer.id PeerState.awaiting_verack_in
        (send peer.id (Message.version nw.nonce (local_port nw)) nw)
  | _ ↦ nw
]

-- NTB_PROTO_VERSION is 2. The user agent is only logged.
unfoldable pub handle_version : ℕ → VersionEvent → Peer → Network → Outcome (Bool × Network)
handle_version now event peer nw =
    if event.nonce == nw.nonce
    then ok (false, remove_peer peer nw)
    else if not (event.version == 2)
    then ok (false, remove_peer peer nw)
    else (first_stream event >>= λ stream.
        let remote_address : NetAddress = record {
          host = peer.remote_address.host;
          port = event.addr_from.port;
        } in
        let found = add_addr now event.timestamp stream event.services remote_address nw in
        ok (
          true,
          after_version now peer (send peer.id Message.verack (adopt_addr peer found.0 found.1)),
        ))

unfoldable pub handle_verack : ℕ → Peer → Network → Bool × Network
handle_verack now peer nw = elim peer.state [
  | PeerState.awaiting_verack_out ↦ (true, set_state peer.id PeerState.awaiting_version_out nw)
  | PeerState.awaiting_verack_in ↦ (true, connection_established now peer nw)
  | _ ↦ (true, nw)
]

-- Whether the address is one that is allowed is an argument.
unfoldable pub handle_addr : ℕ → (NetAddress → Bool) → AddrEvent → Network → Bool × Network
handle_addr now is_allowed event nw =
    if is_allowed event.address
    then (true, (add_addr now event.timestamp event.stream event.services event.address nw).1)
    else (true, nw)
