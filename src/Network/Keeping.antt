-- ===== src/Network/Keeping.antt =====
-- What the handlers and the queue of src/ntb-network.c leave true of the number of peers.
use notbit.Common.{
  ℕ, ◌+◌, ◌*◌, ◌≤◌, ◌<◌, ◌≡◌, refl, arith, Bool, true, false, ◌||◌, not, ◌==◌, leb, if◌then◌else◌,
  Option, none, some, ok, fault, ◌/◌, Ensures, if-Ensures, ok-Ensures, >>=-Ensures,
}
use notbit.Proto.Types.{NetAddress}
use notbit.Connection.{VersionEvent, AddrEvent}
use notbit.Network.{
  PeerState, Addr, Message, Peer, Network, send, num_outgoing_peers, max_incoming_peers,
  max_addr_age,
}
use notbit.Network.Addrs.{remove_connect_queue_source, find_address, add_addr, gc_addrs}
use notbit.Network.Peers.{
  update_all_listen_socket_sources, add_peer, connect_to_addr, connect_queue_cb, count_connectable,
  pick_addr, occupy, remove_peer, connection_established, first_stream, adopt_addr, after_version,
  handle_version, handle_verack, handle_addr, set_state,
}
use notbit.Network.Roster.{roster, IsPeer, out-Listed, roster-update_peer}
use notbit.Network.Limits.{Limited, is_watched-map, not-leb, maybe_queue_connect-Limited}
use notbit.Network.Counting.{remove_peer-Limited, same-Limited, refresh_addr-Limited, new-Limited}

pub add_addr-Limited :
    (now time stream services : ℕ) (address : NetAddress) (nw : Network)
    → Limited nw
    → Limited (add_addr now time stream services address nw).1
unfolding add_addr
add_addr-Limited now time stream services address nw h =
    go (leb (time + max_addr_age) now) (find_address nw address) refl refl
  where
    go :
        (old : Bool) (found : Option Addr)
        → leb (time + max_addr_age) now ≡ old
        → find_address nw address ≡ found
        → Limited (add_addr now time stream services address nw).1
    go true found e f = rw (e, add_addr) h
    go false (some addr) e f = rw (e, f, add_addr) (refresh_addr-Limited _ addr nw h)
    go false none e f = rw (e, f, add_addr) (new-Limited _ nw h)

adopt_addr-Limited :
    (peer : Peer) (addr : Option Addr) (nw : Network)
    → Limited nw
    → Limited (adopt_addr peer addr nw)
unfolding adopt_addr
adopt_addr-Limited peer none nw h = h
adopt_addr-Limited peer (some addr) nw h = go peer.addr addr.connected refl refl
  where
    go :
        (own : Option ℕ) (taken : Bool)
        → peer.addr ≡ own
        → addr.connected ≡ taken
        → Limited (adopt_addr peer (some addr) nw)
    go (some _) taken e f = rw (e, adopt_addr) h
    go none true e f = rw (e, f, adopt_addr) h
    go none false e f =
        rw (e, f, adopt_addr)
          (same-Limited nw _ refl refl (omega arith) refl refl
            (roster-update_peer peer.id _ (λ p. refl) nw.peers) (omega arith) h)

-- A command for a peer, and another state of one.
send-Limited :
    (id : ℕ) (message : Message) (nw : Network) → Limited nw → Limited (send id message nw)
send-Limited id message nw h =
    same-Limited nw _ refl refl (omega arith) refl refl
      (roster-update_peer id _ (λ p. refl) nw.peers) (omega arith) h

set_state-Limited :
    (id : ℕ) (state : PeerState) (nw : Network) → Limited nw → Limited (set_state id state nw)
set_state-Limited id state nw h =
    same-Limited nw _ refl refl (omega arith) refl refl
      (roster-update_peer id _ (λ p. refl) nw.peers) (omega arith) h

established-Limited :
    (now : ℕ) (peer : Peer) (nw : Network)
    → Limited nw
    → Limited (connection_established now peer nw)
unfolding connection_established
established-Limited now peer nw h =
    send-Limited peer.id _ _
      (send-Limited peer.id _ _ (set_state-Limited peer.id PeerState.connected nw h))

after_version-Limited :
    (now : ℕ) (peer : Peer) (nw : Network) → Limited nw → Limited (after_version now peer nw)
unfolding after_version
after_version-Limited now peer nw h = go peer.state refl
  where
    go : (state : PeerState) → peer.state ≡ state → Limited (after_version now peer nw)
    go PeerState.awaiting_verack_out e = rw (e, after_version) h
    go PeerState.awaiting_version_out e = rw (e, after_version) (established-Limited now peer nw h)
    go PeerState.awaiting_version_in e =
        rw (e, after_version)
          (set_state-Limited peer.id PeerState.awaiting_verack_in _ (send-Limited peer.id _ nw h))
    go PeerState.awaiting_verack_in e = rw (e, after_version) h
    go PeerState.connected e = rw (e, after_version) h

pub gc_addrs-Limited : (now : ℕ) (nw : Network) → Limited nw → Limited (gc_addrs now nw)
unfolding gc_addrs
gc_addrs-Limited now nw h = same-Limited nw _ refl refl (omega arith) refl refl refl (omega arith) h

pub handle_verack-Limited :
    (now : ℕ) (peer : Peer) (nw : Network) → Limited nw → Limited (handle_verack now peer nw).1
unfolding handle_verack
handle_verack-Limited now peer nw h = go peer.state refl
  where
    go : (state : PeerState) → peer.state ≡ state → Limited (handle_verack now peer nw).1
    go PeerState.awaiting_verack_out e =
        rw (e, handle_verack) (set_state-Limited peer.id PeerState.awaiting_version_out nw h)
    go PeerState.awaiting_version_out e = rw (e, handle_verack) h
    go PeerState.awaiting_version_in e = rw (e, handle_verack) h
    go PeerState.awaiting_verack_in e = rw (e, handle_verack) (established-Limited now peer nw h)
    go PeerState.connected e = rw (e, handle_verack) h

pub handle_version-Limited :
    (now : ℕ) (event : VersionEvent) (peer : Peer) (nw : Network)
    → IsPeer peer nw.peers
    → Limited nw
    → Ensures (λ r. Limited r.1) (handle_version now event peer nw)
unfolding handle_version
handle_version-Limited now event peer nw i h =
    let P : Bool × Network → Type 0 = λ r. Limited r.1 in
    let removed = ok-Ensures P (false, remove_peer peer nw) (remove_peer-Limited peer nw i h) in
    if-Ensures P (event.nonce == nw.nonce) _ _ (λ _. removed)
      λ _.
        if-Ensures P (not (event.version == 2)) _ _ (λ _. removed)
          λ _. >>=-Ensures P (first_stream event) _ λ stream _.
            let address : NetAddress = record {
              host = peer.remote_address.host;
              port = event.addr_from.port;
            } in
            let found = add_addr now event.timestamp stream event.services address nw in
            let adopted =
              adopt_addr-Limited peer found.0 found.1
                (add_addr-Limited now event.timestamp stream event.services address nw h) in
            ok-Ensures P _
              (after_version-Limited now peer _ (send-Limited peer.id Message.verack _ adopted))

pub handle_addr-Limited :
    (now : ℕ) (is_allowed : NetAddress → Bool) (event : AddrEvent) (nw : Network)
    → Limited nw
    → Limited (handle_addr now is_allowed event nw).1
unfolding handle_addr
handle_addr-Limited now is_allowed event nw h = go (is_allowed event.address) refl
  where
    go : (b : Bool) → is_allowed event.address ≡ b → Limited (handle_addr now is_allowed event nw).1
    go true e =
        rw (e, handle_addr)
          (add_addr-Limited now event.timestamp event.stream event.services event.address nw h)
    go false e = rw (e, handle_addr) h

no_room :
    (n k : ℕ) → (leb num_outgoing_peers n || (k == 0)) ≡ true → n < num_outgoing_peers → 1 ≤ k → ⊥
no_room n k e room some_left = ground arith

has_room : (n k : ℕ) → (leb num_outgoing_peers n || (k == 0)) ≡ false → n < num_outgoing_peers
has_room n k e = ground arith

connected-Limited :
    (clock : ℕ) (connects : Bool) (addr : Addr) (nw : Network)
    → nw.n_outgoing_peers < num_outgoing_peers
    → Limited nw
    → let tried = connect_to_addr clock connects addr nw in
      Limited (if tried.0 then occupy addr tried.1 else tried.1)
unfolding connect_to_addr add_peer update_all_listen_socket_sources
connected-Limited clock false addr nw room h =
    same-Limited nw _ refl refl (omega arith) refl refl refl (omega arith) h
connected-Limited clock true addr nw room h = record {
  bounded = record {
    outgoing = omega arith;
    incoming = h.bounded.incoming;
    listening = λ v.
        let few =
          not-leb max_incoming_peers nw.n_incoming_peers (is_watched-map _ nw.listen_sockets v) in
        omega (arith, few);
    listed =
        out-Listed (roster nw.peers) nw.next_id nw.n_outgoing_peers nw.n_incoming_peers
          h.bounded.listed;
  };
  seeks = λ more some_left. h.seeks room (omega arith);
}

pub connect_queue_cb-Limited :
    (clock random rand_max : ℕ) (connects : Bool) (nw : Network)
    → Limited nw
    → Ensures Limited (connect_queue_cb clock random rand_max connects nw)
unfolding connect_queue_cb remove_connect_queue_source
connect_queue_cb-Limited clock random rand_max connects nw h =
    let n = count_connectable clock nw nw.addrs in
    if-Ensures Limited (leb num_outgoing_peers nw.n_outgoing_peers || (nw.n_unconnected_addrs == 0))
      _ _
      (λ e. ok-Ensures Limited _ (record {
        bounded = record {
          outgoing = h.bounded.outgoing;
          incoming = h.bounded.incoming;
          listening = h.bounded.listening;
          listed = h.bounded.listed;
        };
        seeks = λ room some_left.
            absurd (no_room nw.n_outgoing_peers nw.n_unconnected_addrs e room some_left);
      }))
      λ e.
        if-Ensures Limited (n == 0) _ _
          (λ _. ok-Ensures Limited _ (maybe_queue_connect-Limited false nw h.bounded))
          λ _.
            picked (has_room nw.n_outgoing_peers nw.n_unconnected_addrs e)
              (pick_addr clock nw (random * n / rand_max) nw.addrs)
  where
    picked :
        nw.n_outgoing_peers < num_outgoing_peers
        → (p : Option Addr)
        → Ensures Limited (elim p [
          | none ↦ fault
          | some addr ↦
              let tried = connect_to_addr clock connects addr nw in
              ok (if tried.0 then occupy addr tried.1 else tried.1)
        ])
    picked room none = λ a e. cc
    picked room (some addr) = ok-Ensures Limited _ (connected-Limited clock connects addr nw room h)
