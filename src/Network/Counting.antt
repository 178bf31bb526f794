-- ===== src/Network/Counting.antt =====
-- What the addresses and the counts of src/ntb-network.c leave true of the number of peers.
use notbit.Common.{
  suc, sym, map, List, [], ◌∷◌, ◌++◌, ℕ, ◌≤◌, ◌≡◌, refl, ◌∙◌, arith, Bool, true, false, ltb,
  if◌then◌else◌, Option, none, some,
}
use notbit.Network.{Direction, Addr, Message, Peer, Network, update_addr, is_connected}
use notbit.Network.Addrs.{
  advert, maybe_queue_connect, broadcast_addr, refresh_addr, new_addr, queue_save_addr_list,
}
use notbit.Network.Peers.{release, count_out, forget_requested, without_peer, remove_peer}
use notbit.Network.Roster.{
  roster, entry, In, IsPeer, IsPeer-In, drop-Listed, same-Listed, roster-map, if-entry,
}
use mathlib.Core.Path.{subst}
use notbit.Connection.{AddrEvent}
use notbit.Network.Limits.{Bounded, Limited, maybe_queue_connect-Limited, update_sources-Limited}

release-peers : (addr : Option ℕ) (nw : Network) → (release addr nw).peers ≡ nw.peers
release-peers none nw = refl
release-peers (some id) nw = refl

release-Bounded : (addr : Option ℕ) (nw : Network) → Bounded nw → Bounded (release addr nw)
release-Bounded none nw h = h
release-Bounded (some id) nw h = record {
  outgoing = h.outgoing;
  incoming = h.incoming;
  listening = h.listening;
  listed = h.listed;
}

-- A peer of the list goes and is not counted any more.
removed-Bounded :
    (id : ℕ) (d : Direction) (nw : Network)
    → In (id, d) (roster nw.peers)
    → Bounded nw
    → Bounded (record (count_out d nw) { peers = without_peer id (count_out d nw).peers })
removed-Bounded id Direction.outgoing nw i h = record {
  outgoing = omega (arith, h.outgoing);
  incoming = h.incoming;
  listening = h.listening;
  listed =
      drop-Listed id Direction.outgoing nw.peers nw.next_id _ _ _ _ i (omega arith) (omega arith)
        h.listed;
}
removed-Bounded id Direction.incoming nw i h = record {
  outgoing = h.outgoing;
  incoming = omega (arith, h.incoming);
  listening = λ w. omega (arith, h.listening w);
  listed =
      drop-Listed id Direction.incoming nw.peers nw.next_id _ _ _ _ i (omega arith) (omega arith)
        h.listed;
}

pub remove_peer-Limited :
    (peer : Peer) (nw : Network) → IsPeer peer nw.peers → Limited nw → Limited (remove_peer peer nw)
unfolding remove_peer
remove_peer-Limited peer nw i h =
    let forgotten = record nw {
      inventory_hash = forget_requested peer.requested_inventories nw.inventory_hash;
    } in
    let released = release-Bounded peer.addr forgotten (record {
      outgoing = h.bounded.outgoing;
      incoming = h.bounded.incoming;
      listening = h.bounded.listening;
      listed = h.bounded.listed;
    }) in
    let there =
      subst (λ peers. In (entry peer) (roster peers)) (sym (release-peers peer.addr forgotten))
        (IsPeer-In peer nw.peers i) in
    let q =
      maybe_queue_connect-Limited true _
        (removed-Bounded peer.id peer.direction (release peer.addr forgotten) there released) in
    update_sources-Limited _ q.bounded.outgoing q.bounded.incoming q.bounded.listed q.seeks

-- An operation that leaves the counts, the sockets and the queue alone.
pub same-Limited :
    (nw d : Network)
    → d.n_outgoing_peers ≡ nw.n_outgoing_peers
    → d.n_incoming_peers ≡ nw.n_incoming_peers
    → d.n_unconnected_addrs ≤ nw.n_unconnected_addrs
    → d.listen_sockets ≡ nw.listen_sockets
    → d.connect_queue_source ≡ nw.connect_queue_source
    → roster d.peers ≡ roster nw.peers
    → nw.next_id ≤ d.next_id
    → Limited nw
    → Limited d
same-Limited nw d e f g k q r n h = record {
  bounded = record {
    outgoing = rw e h.bounded.outgoing;
    incoming = rw f h.bounded.incoming;
    listening = λ w. rw f (h.bounded.listening (rw k at w));
    listed =
        same-Listed (roster nw.peers) (roster d.peers) nw.next_id d.next_id _ _ _ _ r n e f
          h.bounded.listed;
  };
  seeks = λ room some_left. let (b, s) = h.seeks (rw e at room) (omega arith) in (b, q ∙ s);
}

-- An addr command for all that are connected.
roster-told :
    (told : AddrEvent) (peers : List Peer)
    → roster (
        map
          (λ (p : Peer).
            if is_connected p.state
            then record p { sent = p.sent ++ Message.addr (told ∷ []) ∷ [] }
            else p)
          peers)
      ≡ roster peers
roster-told told = roster-map _ λ p. if-entry (is_connected p.state) p _ refl

pub refresh_addr-Limited :
    (time : ℕ) (addr : Addr) (nw : Network) → Limited nw → Limited (refresh_addr time addr nw)
unfolding refresh_addr broadcast_addr
refresh_addr-Limited time addr nw h = go (ltb addr.advertise_time time)
  where
    go :
        (newer : Bool)
        → Limited (
            if newer
            then broadcast_addr
                (record addr { advertise_time = time })
                (queue_save_addr_list (record nw {
                  addrs = update_addr addr.id (λ a. record a { advertise_time = time }) nw.addrs;
                }))
            else nw)
    go true =
        same-Limited nw _ refl refl (omega arith) refl refl
          (roster-told (advert (record addr { advertise_time = time })) nw.peers) (omega arith) h
    go false = h

pub new-Limited :
    (addr : Addr) (nw : Network)
    → Limited nw
    → Limited
        (maybe_queue_connect true (broadcast_addr addr (queue_save_addr_list (new_addr addr nw))))
unfolding new_addr broadcast_addr
new-Limited addr nw h = maybe_queue_connect-Limited true _ (record {
  outgoing = h.bounded.outgoing;
  incoming = h.bounded.incoming;
  listening = h.bounded.listening;
  listed =
      same-Listed (roster nw.peers) _ nw.next_id (suc nw.next_id) _ _ _ _
        (roster-told (advert addr) nw.peers) (omega arith) refl refl h.bounded.listed;
})
