-- ===== src/Network/Steps.antt =====
-- What can happen to the network of src/ntb-network.c, and what holds afterwards.
use notbit.Common.{sym, ◌++◌, ℕ, suc, ◌≤◌, ◌<◌, ◌≡◌, refl, arith, List, ◌∷◌, Bool, true, some, ok}
use notbit.Proto.Types.{NetAddress}
use notbit.Connection.{VersionEvent, AddrEvent}
use notbit.Network.{ListenSocket, Inventory, Peer, Network, num_outgoing_peers, max_incoming_peers}
use notbit.Network.Addrs.{gc_addrs}
use notbit.Network.Peers.{
  connect_queue_cb, accept_peer, remove_peer, handle_version, handle_verack, handle_addr,
}
use notbit.Network.Starting.{
  new_network, empty_network, add_listen_socket, add_peer_address, set_only_use_explicit_addresses,
  load_store,
}
use notbit.Network.Limits.{is_watched, Limited, maybe_queue_connect-Limited, accept_peer-Limited}
use notbit.Network.Keeping.{
  gc_addrs-Limited, handle_verack-Limited, handle_version-Limited, handle_addr-Limited,
  connect_queue_cb-Limited,
}
use notbit.Network.Roster.{IsPeer, n_outgoing, n_incoming}
use notbit.Network.Loading.{
  add_listen_socket-Limited, closed-Limited, add_default_addrs-Bounded, add_peer_address-Limited,
  set_only-Limited, load_store-Limited,
}
use notbit.Network.Counting.{remove_peer-Limited}

-- The node listens on an address, or gives up a listening socket; it loads its store, is given an address
-- while an attempt to connect is queued, or is told to use such addresses alone; the queue of connections is
-- run; a connection is accepted from a watched socket; a peer of the list is given up, or its version, verack
-- or addr is handled; old addresses are collected.
pub data Step : Network → Network → Type 0 where
  listens : (nw : Network) (address : NetAddress) → Step nw (add_listen_socket address nw)
  closes :
      (nw : Network) (before behind : List ListenSocket) (s : ListenSocket)
      → nw.listen_sockets ≡ before ++ s ∷ behind
      → Step nw (record nw { listen_sockets = before ++ behind })
  loads :
      (nw : Network) (now : ℕ) (inventories : List Inventory) (addrs : List AddrEvent)
      (is_allowed : NetAddress → Bool) (found : List NetAddress)
      → Step nw (load_store now inventories addrs is_allowed found nw)
  given :
      (nw : Network) (address : NetAddress) (idle : Bool)
      → nw.connect_queue_source ≡ some idle
      → Step nw (add_peer_address address nw)
  restricts : (nw : Network) (value : Bool) → Step nw (set_only_use_explicit_addresses value nw)
  connects :
      (nw d : Network) (clock random rand_max : ℕ) (connects : Bool)
      → connect_queue_cb clock random rand_max connects nw ≡ ok d
      → Step nw d
  accepts :
      (nw : Network) (address : NetAddress)
      → is_watched nw.listen_sockets ≡ true
      → Step nw (accept_peer address nw)
  loses : (nw : Network) (peer : Peer) → IsPeer peer nw.peers → Step nw (remove_peer peer nw)
  versioned :
      (nw d : Network) (now : ℕ) (event : VersionEvent) (peer : Peer) (go_on : Bool)
      → IsPeer peer nw.peers
      → handle_version now event peer nw ≡ ok (go_on, d)
      → Step nw d
  acknowledged :
      (nw : Network) (now : ℕ) (peer : Peer)
      → IsPeer peer nw.peers
      → Step nw (handle_verack now peer nw).1
  told :
      (nw : Network) (now : ℕ) (is_allowed : NetAddress → Bool) (event : AddrEvent)
      → Step nw (handle_addr now is_allowed event nw).1
  collects : (nw : Network) (now : ℕ) → Step nw (gc_addrs now nw)

pub data Reach (start : Network) : Network → Type 0 where
  here : Reach start start
  next : {nw d : Network} → Reach start nw → Step nw d → Reach start d

Step-Limited : {nw d : Network} → Step nw d → Limited nw → Limited d
Step-Limited (listens nw address) h = add_listen_socket-Limited address nw h
Step-Limited (closes nw before behind s e) h = closed-Limited before behind s nw e h
Step-Limited (loads nw now inventories addrs is_allowed found) h =
    load_store-Limited now inventories addrs is_allowed found nw h
Step-Limited (given nw address idle e) h = add_peer_address-Limited address nw idle e h
Step-Limited (restricts nw value) h = set_only-Limited value nw h
Step-Limited (connects nw d clock random rand_max c e) h =
    connect_queue_cb-Limited clock random rand_max c nw h d e
Step-Limited (accepts nw address w) h = accept_peer-Limited address nw w h
Step-Limited (loses nw peer i) h = remove_peer-Limited peer nw i h
Step-Limited (versioned nw d now event peer go_on i e) h =
    handle_version-Limited now event peer nw i h (go_on, d) e
Step-Limited (acknowledged nw now peer i) h = handle_verack-Limited now peer nw h
Step-Limited (told nw now is_allowed event) h = handle_addr-Limited now is_allowed event nw h
Step-Limited (collects nw now) h = gc_addrs-Limited now nw h

module _ (default_addrs : List NetAddress) (nonce : ℕ) where
  new_network-Limited : Limited (new_network default_addrs nonce)
  unfolding new_network
  new_network-Limited = maybe_queue_connect-Limited true _ (
      add_default_addrs-Bounded default_addrs (empty_network nonce) (record {
        outgoing = omega arith;
        incoming = omega arith;
        listening = λ w. omega arith;
        listed = record { outgoing = refl; incoming = refl; fresh = tt; distinct = tt };
      }))

  Reach-Limited : (nw : Network) → Reach (new_network default_addrs nonce) nw → Limited nw
  Reach-Limited nw here = new_network-Limited
  Reach-Limited d (next {nw} r s) = Step-Limited s (Reach-Limited nw r)

  -- From a new network on, by the steps of Step, there are at most 8 outgoing peers in the list of peers and at
  -- most 9 incoming ones, at most 8 of these while a listening socket is watched, and the two counters tell
  -- how many there are.
  pub Reach-Bounded :
      (nw : Network)
      → Reach (new_network default_addrs nonce) nw
      → (n_outgoing nw.peers ≤ num_outgoing_peers)
        × (n_incoming nw.peers ≤ suc max_incoming_peers)
        × (is_watched nw.listen_sockets ≡ true → n_incoming nw.peers ≤ max_incoming_peers)
        × (nw.n_outgoing_peers ≡ n_outgoing nw.peers)
        × (nw.n_incoming_peers ≡ n_incoming nw.peers)
  Reach-Bounded nw r =
      let b = (Reach-Limited nw r).bounded in
      let outs = b.listed.outgoing in
      let ins = b.listed.incoming in
      (
        omega (arith, b.outgoing, outs),
        omega (arith, b.incoming, ins),
        λ w. omega (arith, b.listening w, ins),
        sym outs,
        sym ins,
      )

  -- From a new network on, by the steps of Step, in which an address is only given while an attempt to connect
  -- is queued: while there are fewer than 8 outgoing peers in the list of peers and the counter has an address
  -- without a connection, the next attempt to connect is queued.
  pub Reach-Seeks :
      (nw : Network)
      → Reach (new_network default_addrs nonce) nw
      → n_outgoing nw.peers < num_outgoing_peers
      → 1 ≤ nw.n_unconnected_addrs
      → (idle : Bool) × (nw.connect_queue_source ≡ some idle)
  Reach-Seeks nw r few =
      let l = Reach-Limited nw r in l.seeks (omega (arith, few, l.bounded.listed.outgoing))
