-- ===== src/Network/Limits.antt =====
-- How many peers a node of src/ntb-network.c has, and that it goes on looking for more.
use notbit.Common.{
  ℕ, suc, ◌≤◌, ◌<◌, ◌≡◌, refl, arith, List, [], ◌∷◌, map, Bool, true, false, ◌||◌, not, ◌==◌, leb,
  if◌then◌else◌, some,
}
use notbit.Proto.Types.{NetAddress}
use notbit.Network.{ListenSocket, Network, num_outgoing_peers, max_incoming_peers}
use notbit.Network.Addrs.{maybe_queue_connect}
use notbit.Network.Roster.{roster, Listed, in-Listed}
use notbit.Network.Peers.{update_all_listen_socket_sources, add_peer, accept_peer}

-- Some listening socket is watched.
abbrev pub is_watched : List ListenSocket → Bool
is_watched [] = false
is_watched (s ∷ sockets) = s.source || is_watched sockets

-- At most 8 outgoing peers and 9 incoming ones, and 8 of these while another connection would be
-- accepted; these are the numbers of the peers in the list.
pub record Bounded (nw : Network) : Type 0 where
  pub outgoing : nw.n_outgoing_peers ≤ num_outgoing_peers
  pub incoming : nw.n_incoming_peers ≤ suc max_incoming_peers
  pub listening : is_watched nw.listen_sockets ≡ true → nw.n_incoming_peers ≤ max_incoming_peers
  pub listed : Listed (roster nw.peers) nw.next_id nw.n_outgoing_peers nw.n_incoming_peers

-- While there are fewer than 8 outgoing peers and an address without a connection, the next attempt to
-- connect is queued.
abbrev pub Seeks : Network → Type 0
Seeks nw =
    nw.n_outgoing_peers < num_outgoing_peers
    → 1 ≤ nw.n_unconnected_addrs
    → (idle : Bool) × (nw.connect_queue_source ≡ some idle)

pub record Limited (nw : Network) : Type 0 where
  pub bounded : Bounded nw
  pub seeks : Seeks nw

pub is_watched-map :
    (room : Bool) (sockets : List ListenSocket)
    → is_watched (map (λ (s : ListenSocket). record s { source = room }) sockets) ≡ true
    → room ≡ true
is_watched-map true sockets h = refl
is_watched-map false [] h = h
is_watched-map false (s ∷ sockets) h = is_watched-map false sockets h

pub not-leb : (a b : ℕ) → not (leb a b) ≡ true → b < a
not-leb a b h = ground arith

pub maybe_queue_connect-Limited :
    (b : Bool) (nw : Network) → Bounded nw → Limited (maybe_queue_connect b nw)
unfolding maybe_queue_connect
maybe_queue_connect-Limited b nw h =
    go (leb num_outgoing_peers nw.n_outgoing_peers) (nw.n_unconnected_addrs == 0) refl refl
  where
    go :
        (full none_left : Bool)
        → leb num_outgoing_peers nw.n_outgoing_peers ≡ full
        → (nw.n_unconnected_addrs == 0) ≡ none_left
        → Limited (
            if full
            then nw
            else if none_left
            then nw
            else record nw { connect_queue_source = some b })
    go true n e f = record { bounded = h; seeks = λ room _. absurd (ground arith) }
    go false true e f = record { bounded = h; seeks = λ _ some_left. absurd (ground arith) }
    go false false e f = record {
      bounded = record {
        outgoing = h.outgoing;
        incoming = h.incoming;
        listening = h.listening;
        listed = h.listed;
      };
      seeks = λ _ _. (b, refl);
    }

-- The sources are set anew: no bound on the incoming peers but 9 has to be known.
pub update_sources-Limited :
    (nw : Network)
    → nw.n_outgoing_peers ≤ num_outgoing_peers
    → nw.n_incoming_peers ≤ suc max_incoming_peers
    → Listed (roster nw.peers) nw.next_id nw.n_outgoing_peers nw.n_incoming_peers
    → Seeks nw
    → Limited (update_all_listen_socket_sources nw)
unfolding update_all_listen_socket_sources
update_sources-Limited nw h k l s = record {
  bounded = record {
    outgoing = h;
    incoming = k;
    listening = λ w.
        let few =
          not-leb max_incoming_peers nw.n_incoming_peers (is_watched-map _ nw.listen_sockets w) in
        omega (arith, few);
    listed = l;
  };
  seeks = s;
}

pub accept_peer-Limited :
    (address : NetAddress) (nw : Network)
    → is_watched nw.listen_sockets ≡ true
    → Limited nw
    → Limited (accept_peer address nw)
unfolding accept_peer add_peer update_all_listen_socket_sources
accept_peer-Limited address nw w h = record {
  bounded = record {
    outgoing = h.bounded.outgoing;
    incoming = omega (arith, h.bounded.listening w);
    listening = λ v.
        let few =
          not-leb max_incoming_peers nw.n_incoming_peers (is_watched-map _ nw.listen_sockets v) in
        omega (arith, few);
    listed =
        in-Listed (roster nw.peers) nw.next_id nw.n_outgoing_peers nw.n_incoming_peers
          h.bounded.listed;
  };
  seeks = h.seeks;
}
