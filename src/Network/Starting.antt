-- ===== src/Network/Starting.antt =====
-- What a node of src/ntb-network.c starts with.
use notbit.Common.{
  ℕ, List, [], ◌∷◌, Bool, true, false, not, ◌||◌, leb, Option, none, some, Bytes, bytes_eq,
  if◌then◌else◌,
}
use notbit.Connection.{AddrEvent}
use notbit.Proto.Types.{NetAddress}
use notbit.Network.{AddrType, Inventory, Network, max_incoming_peers}
use notbit.Network.Addrs.{maybe_queue_connect, new_addr, add_addr, find_addr, find_address}

-- An address that was given to the node, as new_addr and add_addr_string fill it in, with its type.
abbrev pub given_addr : AddrType → NetAddress → Network → Network
given_addr type address nw =
    new_addr
      (record {
        id = nw.next_id;
        address = address;
        advertise_time = 0;
        stream = 1;
        services = 1;
        last_connect_time = 0;
        connected = false;
        type = type;
      })
      nw

-- ntb_network_new, before it has addresses.
abbrev pub empty_network : ℕ → Network
empty_network nonce = record {
  listen_sockets = [];
  peers = [];
  addrs = [];
  next_id = 0;
  n_outgoing_peers = 0;
  n_incoming_peers = 0;
  n_unconnected_addrs = 0;
  only_use_explicit_addresses = false;
  connect_queue_source = none;
  nonce = nonce;
  inventory_hash = [];
  accepted_inventories = [];
  save_addr_list_source = false;
}

unfoldable pub add_default_addrs : List NetAddress → Network → Network
unfolding new_addr
add_default_addrs [] nw = nw
add_default_addrs (address ∷ addresses) nw =
    add_default_addrs addresses (given_addr AddrType.default address nw)

-- ntb_network_new; `default_addrs` are its addresses as ntb_netaddress_from_string reads them.
unfoldable pub new_network : List NetAddress → ℕ → Network
unfolding add_default_addrs
new_network default_addrs nonce =
    maybe_queue_connect true (add_default_addrs default_addrs (empty_network nonce))

-- ntb_network_add_listen_address, when the socket could be opened.
unfoldable pub add_listen_socket : NetAddress → Network → Network
add_listen_socket address nw = record nw {
  listen_sockets =
      record { address = address; source = not (leb max_incoming_peers nw.n_incoming_peers) }
      ∷ nw.listen_sockets;
}

-- ntb_network_add_peer_address, when the address can be read.
unfoldable pub add_peer_address : NetAddress → Network → Network
unfolding new_addr
add_peer_address address nw = given_addr AddrType.explicitly_added address nw

unfoldable pub set_only_use_explicit_addresses : Bool → Network → Network
unfolding maybe_queue_connect
set_only_use_explicit_addresses value nw =
    maybe_queue_connect true (record nw { only_use_explicit_addresses = value })

abbrev pub is_found {ℓ} : {A : Type ℓ} → Option A → Bool
is_found none = false
is_found (some _) = true

abbrev pub is_listed : Bytes → List Bytes → Bool
is_listed hash [] = false
is_listed hash (h ∷ hashes) = bytes_eq h hash || is_listed hash hashes

-- store_for_each_blob_cb for each object of the store.
unfoldable pub load_blobs : List Inventory → Network → Network
unfolding bytes_eq
load_blobs [] nw = nw
load_blobs (inventory ∷ inventories) nw = load_blobs inventories (
    if is_listed inventory.hash nw.inventory_hash then nw else record nw {
      inventory_hash = inventory.hash ∷ nw.inventory_hash;
      accepted_inventories = inventory ∷ nw.accepted_inventories;
    })

-- store_for_each_addr_cb for each address of the store.
unfoldable pub load_addrs : ℕ → List AddrEvent → Network → Network
unfolding add_addr
load_addrs now [] nw = nw
load_addrs now (addr ∷ addrs) nw =
    load_addrs now addrs (add_addr now addr.timestamp addr.stream addr.services addr.address nw).1

-- dns_bootstrap_cb for each address that is found.
unfoldable pub bootstrap : (NetAddress → Bool) → List NetAddress → Network → Network
unfolding find_addr new_addr
bootstrap is_allowed [] nw = nw
bootstrap is_allowed (address ∷ addresses) nw = bootstrap is_allowed addresses (
    if not (is_allowed address) || is_found (find_address nw address)
    then nw
    else given_addr AddrType.default address nw)

-- ntb_network_load_store; what is in the store and what the name servers give are arguments.
unfoldable pub load_store :
    (now : ℕ)
    → List Inventory
    → List AddrEvent
    → (NetAddress → Bool)
    → List NetAddress
    → Network
    → Network
unfolding maybe_queue_connect load_blobs load_addrs bootstrap
load_store now inventories addrs is_allowed found nw =
    maybe_queue_connect true
      (bootstrap is_allowed found (load_addrs now addrs (load_blobs inventories nw)))
