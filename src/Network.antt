-- ===== src/Network.antt =====
-- src/ntb-network.c: the peers and the addresses that a node knows. A pointer to a peer or an address is
-- the number it got when it was allocated; times are seconds or microseconds from 0 on.
pub mod Addrs
pub mod Peers
pub mod Starting
pub mod Picking
pub mod Roster
pub mod Limits
pub mod Counting
pub mod Keeping
pub mod Loading
pub mod Steps
pub mod Judging
pub mod Items
mod Tests
use notbit.Common.{
  ℕ, ◌+◌, ◌-◌, ◌*◌, Bytes, List, [], ◌∷◌, ◌++◌, Bool, true, false, ◌&&◌, ◌==◌, map, if◌then◌else◌,
  Option, none, some,
}
use notbit.Proto.Types.{NetAddress, InvType}
use notbit.Connection.{AddrEvent}

-- enum ntb_network_peer_state
pub data PeerState : Type 0 where
  awaiting_verack_out awaiting_version_out awaiting_version_in awaiting_verack_in connected :
      PeerState

-- enum ntb_network_direction
pub data Direction : Type 0 where
  outgoing incoming : Direction

-- enum ntb_network_addr_type
pub data AddrType : Type 0 where
  default explicitly_added discovered : AddrType

-- struct ntb_network_addr
pub record Addr : Type 0 where
  pub id : ℕ
  pub address : NetAddress
  pub advertise_time : ℕ
  pub stream : ℕ
  pub services : ℕ
  pub last_connect_time : ℕ
  pub connected : Bool
  pub type : AddrType

-- What the network asks the connection of a peer to send. A list without entries sends nothing.
pub data Message : Type 0 where
  version : (nonce local_port : ℕ) → Message
  verack : Message
  addr : List AddrEvent → Message
  inv getdata : List Bytes → Message

-- struct ntb_network_peer. `requested_inventories` has the hashes of the stubs with the times of their
-- requests, and `sent` what was sent to the peer so far.
pub record Peer : Type 0 where
  pub id : ℕ
  pub remote_address : NetAddress
  pub addr : Option ℕ
  pub requested_inventories : List (Bytes × ℕ)
  pub state : PeerState
  pub direction : Direction
  pub sent : List Message

-- struct ntb_network_listen_socket; `source` tells that the main loop watches it.
pub record ListenSocket : Type 0 where
  pub address : NetAddress
  pub source : Bool

-- An accepted struct ntb_network_inventory.
pub record Inventory : Type 0 where
  pub hash : Bytes
  pub type : InvType
  pub timestamp : ℕ

-- struct ntb_network. `connect_queue_source` tells whether it is idle, if it is there, and
-- `inventory_hash` the hashes that the table has an entry for.
pub record Network : Type 0 where
  pub listen_sockets : List ListenSocket
  pub peers : List Peer
  pub addrs : List Addr
  pub next_id : ℕ
  pub n_outgoing_peers : ℕ
  pub n_incoming_peers : ℕ
  pub n_unconnected_addrs : ℕ
  pub only_use_explicit_addresses : Bool
  pub connect_queue_source : Option Bool
  pub nonce : ℕ
  pub inventory_hash : List Bytes
  pub accepted_inventories : List Inventory
  pub save_addr_list_source : Bool

-- NTB_NETWORK_NUM_OUTGOING_PEERS, NTB_NETWORK_MAX_INCOMING_PEERS, NTB_NETWORK_MAX_ADDR_AGE and
-- NTB_NETWORK_MIN_RECONNECT_TIME
abbrev pub num_outgoing_peers : ℕ
num_outgoing_peers = 8

abbrev pub max_incoming_peers : ℕ
max_incoming_peers = 8

abbrev pub max_addr_age : ℕ
max_addr_age = 2 * 60 * 60

abbrev pub min_reconnect_time : ℕ
min_reconnect_time = 60

-- A write through the pointer to an address or to a peer.
abbrev pub update_addr : ℕ → (Addr → Addr) → List Addr → List Addr
update_addr id f = map λ a. if a.id == id then f a else a

abbrev pub update_peer : ℕ → (Peer → Peer) → List Peer → List Peer
update_peer id f = map λ p. if p.id == id then f p else p

-- A command for the connection of a peer.
abbrev pub send : ℕ → Message → Network → Network
send id message nw = record nw {
  peers = update_peer id (λ p. record p { sent = p.sent ++ message ∷ [] }) nw.peers;
}

abbrev pub is_connected : PeerState → Bool
is_connected PeerState.connected = true
is_connected _ = false
