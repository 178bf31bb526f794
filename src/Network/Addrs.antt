-- ===== src/Network/Addrs.antt =====
-- The addresses of src/ntb-network.c: which are known, advertised and connected to.
use notbit.Common.{
  ℕ, suc, ◌+◌, ◌-◌, ◌*◌, List, [], ◌∷◌, ◌++◌, Bool, true, false, ◌&&◌, not, ◌==◌, ltb, leb,
  bytes_eq, map, if◌then◌else◌, Option, none, some,
}
use notbit.Proto.Types.{NetAddress}
use notbit.Connection.{AddrEvent}
use notbit.Network.{
  AddrType, Addr, Message, Network, num_outgoing_peers, max_addr_age, min_reconnect_time,
  update_addr, is_connected,
}

abbrev is_explicit : AddrType → Bool
is_explicit AddrType.explicitly_added = true
is_explicit _ = false

abbrev is_discovered : AddrType → Bool
is_discovered AddrType.discovered = true
is_discovered _ = false

-- `clock` is the monotonic clock in microseconds, which is not before the time of an attempt that was noted.
unfoldable pub can_connect_to_addr : ℕ → Network → Addr → Bool
can_connect_to_addr clock nw addr =
    if addr.connected
    then false
    else if ltb (clock - addr.last_connect_time) (min_reconnect_time * 1000000)
    then false
    else if nw.only_use_explicit_addresses && not (is_explicit addr.type)
    then false
    else true

unfoldable pub maybe_queue_connect : Bool → Network → Network
maybe_queue_connect use_idle nw =
    if leb num_outgoing_peers nw.n_outgoing_peers
    then nw
    else if nw.n_unconnected_addrs == 0
    then nw
    else record nw { connect_queue_source = some use_idle }

unfoldable pub remove_connect_queue_source : Network → Network
remove_connect_queue_source nw = record nw { connect_queue_source = none }

-- The entry of an addr command for an address.
abbrev pub advert : Addr → AddrEvent
advert addr = record {
  timestamp = addr.advertise_time;
  stream = addr.stream;
  services = addr.services;
  address = addr.address;
}

unfoldable pub broadcast_addr : Addr → Network → Network
broadcast_addr addr nw = record nw {
  peers =
      map
        (λ p.
          if is_connected p.state
          then record p { sent = p.sent ++ Message.addr (advert addr ∷ []) ∷ [] }
          else p)
        nw.peers;
}

abbrev pub queue_save_addr_list : Network → Network
queue_save_addr_list nw = record nw { save_addr_list_source = true }

-- The loop of find_address over the addresses.
unfoldable pub find_addr : NetAddress → List Addr → Option Addr
unfolding bytes_eq
find_addr address [] = none
find_addr address (addr ∷ addrs) =
    let rest = find_addr address addrs in
    if bytes_eq addr.address.host address.host && (addr.address.port == address.port)
    then some addr
    else rest

abbrev pub find_address : Network → NetAddress → Option Addr
find_address nw address = find_addr address nw.addrs

-- What new_addr and add_addr write to a new address.
abbrev pub discovered_addr : ℕ → ℕ → ℕ → ℕ → NetAddress → Addr
discovered_addr id timestamp stream services address = record {
  id = id;
  address = address;
  advertise_time = timestamp;
  stream = stream;
  services = services;
  last_connect_time = 0;
  connected = false;
  type = AddrType.discovered;
}

unfoldable pub new_addr : Addr → Network → Network
new_addr addr nw = record nw {
  addrs = addr ∷ nw.addrs;
  next_id = suc nw.next_id;
  n_unconnected_addrs = suc nw.n_unconnected_addrs;
}

-- An address that is known already is advertised again if it was seen later than before.
unfoldable pub refresh_addr : ℕ → Addr → Network → Network
unfolding broadcast_addr
refresh_addr timestamp addr nw =
    if ltb addr.advertise_time timestamp
    then broadcast_addr (record addr { advertise_time = timestamp })
        (queue_save_addr_list (record nw {
          addrs = update_addr addr.id (λ a. record a { advertise_time = timestamp }) nw.addrs;
        }))
    else nw

-- `now` is the wall clock. The result is the address, if it is not too old.
unfoldable pub add_addr : ℕ → ℕ → ℕ → ℕ → NetAddress → Network → Option Addr × Network
add_addr now timestamp stream services address nw =
    let time = if ltb now timestamp then now else timestamp in
    if leb (timestamp + max_addr_age) now then (none, nw) else elim (find_address nw address) [
      | some addr ↦ (some addr, refresh_addr time addr nw)
      | none ↦
          let addr = discovered_addr nw.next_id time stream services address in
          (
            some addr,
            maybe_queue_connect true
                (broadcast_addr addr (queue_save_addr_list (new_addr addr nw))),
          )
    ]

unfoldable pub is_expired : ℕ → Addr → Bool
is_expired now addr =
    leb (addr.advertise_time + max_addr_age) now && (is_discovered addr.type && not addr.connected)

-- The loop of gc_addrs, with remove_addr: the addresses that stay, and how many go.
unfoldable pub keep_addrs : ℕ → List Addr → List Addr × ℕ
keep_addrs now [] = ([], 0)
keep_addrs now (addr ∷ addrs) =
    let rest = keep_addrs now addrs in
    if is_expired now addr then (rest.0, suc rest.1) else (addr ∷ rest.0, rest.1)

unfoldable pub gc_addrs : ℕ → Network → Network
gc_addrs now nw =
    let kept = keep_addrs now nw.addrs in
    record nw { addrs = kept.0; n_unconnected_addrs = nw.n_unconnected_addrs - kept.1 }
