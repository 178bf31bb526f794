-- ===== src/Network/Loading.antt =====
-- What a node of src/ntb-network.c starts with and is given keeps the number of its peers.
use notbit.Common.{
  ℕ, suc, ◌≤◌, ◌≡◌, refl, arith, List, [], ◌∷◌, ◌++◌, Bool, true, false, not, ◌||◌, leb,
  if◌then◌else◌, some,
}
use notbit.Connection.{AddrEvent}
use notbit.Network.{AddrType, Inventory, ListenSocket, Network, max_incoming_peers}
use notbit.Network.Addrs.{new_addr, find_address}
use notbit.Network.Counting.{same-Limited}
use notbit.Network.Keeping.{add_addr-Limited}
use notbit.Network.Limits.{is_watched, Bounded, Limited, not-leb, maybe_queue_connect-Limited}
use notbit.Network.Roster.{roster, same-Listed}
use notbit.Network.Starting.{
  given_addr, add_default_addrs, add_listen_socket, add_peer_address,
  set_only_use_explicit_addresses, is_found, is_listed, load_blobs, load_addrs, bootstrap,
  load_store,
}
use notbit.Proto.Types.{NetAddress}

pub add_listen_socket-Limited :
    (address : NetAddress) (nw : Network) → Limited nw → Limited (add_listen_socket address nw)
unfolding add_listen_socket
add_listen_socket-Limited address nw h = record {
  bounded = record {
    outgoing = h.bounded.outgoing;
    incoming = h.bounded.incoming;
    listening = λ w. go (not (leb max_incoming_peers nw.n_incoming_peers)) refl w;
    listed = h.bounded.listed;
  };
  seeks = h.seeks;
}
  where
    go :
        (room : Bool)
        → not (leb max_incoming_peers nw.n_incoming_peers) ≡ room
        → (room || is_watched nw.listen_sockets) ≡ true
        → nw.n_incoming_peers ≤ max_incoming_peers
    go true e w = omega (arith, not-leb max_incoming_peers nw.n_incoming_peers e)
    go false e w = h.bounded.listening w

is_watched-without :
    (before behind : List ListenSocket) (s : ListenSocket)
    → is_watched (before ++ behind) ≡ true
    → is_watched (before ++ s ∷ behind) ≡ true
is_watched-without [] behind s h = rw h (or_true s.source)
  where
    or_true : (b : Bool) → (b || true) ≡ true
    or_true b = ground arith
is_watched-without (t ∷ before) behind s h = pick t.source h (is_watched-without before behind s)
  where
    pick : (b : Bool) {x y : Bool} → (b || x) ≡ true → (x ≡ true → y ≡ true) → (b || y) ≡ true
    pick true h k = refl
    pick false h k = k h

-- A listening socket is given up.
pub closed-Limited :
    (before behind : List ListenSocket) (s : ListenSocket) (nw : Network)
    → nw.listen_sockets ≡ before ++ s ∷ behind
    → Limited nw
    → Limited (record nw { listen_sockets = before ++ behind })
closed-Limited before behind s nw e h = record {
  bounded = record {
    outgoing = h.bounded.outgoing;
    incoming = h.bounded.incoming;
    listening = λ w. h.bounded.listening (rw e (is_watched-without before behind s w));
    listed = h.bounded.listed;
  };
  seeks = h.seeks;
}

given_addr-Bounded :
    (type : AddrType) (address : NetAddress) (nw : Network)
    → Bounded nw
    → Bounded (given_addr type address nw)
unfolding new_addr
given_addr-Bounded type address nw h = record {
  outgoing = h.outgoing;
  incoming = h.incoming;
  listening = h.listening;
  listed =
      same-Listed (roster nw.peers) (roster nw.peers) nw.next_id (suc nw.next_id) _ _ _ _ refl
        (omega arith) refl refl h.listed;
}

pub add_default_addrs-Bounded :
    (addresses : List NetAddress) (nw : Network)
    → Bounded nw
    → Bounded (add_default_addrs addresses nw)
unfolding add_default_addrs
add_default_addrs-Bounded [] nw h = h
add_default_addrs-Bounded (address ∷ addresses) nw h =
    add_default_addrs-Bounded addresses _ (given_addr-Bounded AddrType.default address nw h)

-- An address is given while an attempt to connect is queued.
pub add_peer_address-Limited :
    (address : NetAddress) (nw : Network) (idle : Bool)
    → nw.connect_queue_source ≡ some idle
    → Limited nw
    → Limited (add_peer_address address nw)
unfolding add_peer_address new_addr
add_peer_address-Limited address nw idle e h = record {
  bounded = given_addr-Bounded AddrType.explicitly_added address nw h.bounded;
  seeks = λ room some_left. (idle, e);
}

pub set_only-Limited :
    (value : Bool) (nw : Network) → Limited nw → Limited (set_only_use_explicit_addresses value nw)
unfolding set_only_use_explicit_addresses
set_only-Limited value nw h = maybe_queue_connect-Limited true _ (record {
  outgoing = h.bounded.outgoing;
  incoming = h.bounded.incoming;
  listening = h.bounded.listening;
  listed = h.bounded.listed;
})

load_blobs-Limited :
    (inventories : List Inventory) (nw : Network) → Limited nw → Limited (load_blobs inventories nw)
unfolding load_blobs
load_blobs-Limited [] nw h = h
load_blobs-Limited (inventory ∷ inventories) nw h =
    load_blobs-Limited inventories _ (go (is_listed inventory.hash nw.inventory_hash))
  where
    go :
        (known : Bool)
        → Limited (
            if known then nw else record nw {
              inventory_hash = inventory.hash ∷ nw.inventory_hash;
              accepted_inventories = inventory ∷ nw.accepted_inventories;
            })
    go true = h
    go false = same-Limited nw _ refl refl (omega arith) refl refl refl (omega arith) h

load_addrs-Limited :
    (now : ℕ) (addrs : List AddrEvent) (nw : Network)
    → Limited nw
    → Limited (load_addrs now addrs nw)
unfolding load_addrs
load_addrs-Limited now [] nw h = h
load_addrs-Limited now (addr ∷ addrs) nw h =
    load_addrs-Limited now addrs _
      (add_addr-Limited now addr.timestamp addr.stream addr.services addr.address nw h)

bootstrap-Bounded :
    (is_allowed : NetAddress → Bool) (addresses : List NetAddress) (nw : Network)
    → Bounded nw
    → Bounded (bootstrap is_allowed addresses nw)
unfolding bootstrap
bootstrap-Bounded is_allowed [] nw h = h
bootstrap-Bounded is_allowed (address ∷ addresses) nw h =
    bootstrap-Bounded is_allowed addresses _
      (go (not (is_allowed address) || is_found (find_address nw address)))
  where
    go : (skipped : Bool) → Bounded (if skipped then nw else given_addr AddrType.default address nw)
    go true = h
    go false = given_addr-Bounded AddrType.default address nw h

pub load_store-Limited :
    (now : ℕ) (inventories : List Inventory) (addrs : List AddrEvent)
    (is_allowed : NetAddress → Bool) (found : List NetAddress) (nw : Network)
    → Limited nw
    → Limited (load_store now inventories addrs is_allowed found nw)
unfolding load_store
load_store-Limited now inventories addrs is_allowed found nw h =
    let loaded =
      load_addrs-Limited now addrs (load_blobs inventories nw)
        (load_blobs-Limited inventories nw h) in
    maybe_queue_connect-Limited true _ (bootstrap-Bounded is_allowed found _ loaded.bounded)
