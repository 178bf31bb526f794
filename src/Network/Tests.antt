-- ===== src/Network/Tests.antt =====
-- The theorems on src/ntb-network.c at concrete values.
use notbit.Common.{
  false, ℕ, suc, ◌*◌, ◌≤◌, ◌≡◌, refl, arith, List, [], ◌∷◌, ◌++◌, Bool, true, replicate, some, ok,
  Bytes,
}
use notbit.Proto.Types.{NetAddress, InvType, get_max_age_for_type}
use notbit.Proto.Read.{get_64, read_be}
use notbit.Proto.Write.{be_bytes}
use notbit.Pow.{find_nonce, try_nonces, pow_value, cookie_target, cookie_hash, calculate_target}
use notbit.Network.Judging.{should_reject, should_reject-find_nonce}
use notbit.Network.{AddrType, Addr, Network, num_outgoing_peers, max_incoming_peers}
use notbit.Network.Addrs.{can_connect_to_addr, maybe_queue_connect, new_addr}
use notbit.Network.Peers.{count_connectable, pick_addr, connect_queue_cb, occupy, connect_to_addr}
use notbit.Network.Starting.{new_network, add_default_addrs, add_listen_socket}
use notbit.Network.Limits.{is_watched}
use notbit.Network.Roster.{n_outgoing, n_incoming}
use notbit.Network.Picking.{Tried, connect_queue_cb-Picked}
use notbit.Network.Steps.{Step, Reach, Reach-Bounded, Reach-Seeks}

abbrev home : NetAddress
home = record { host = replicate 16 1; port = 8444 }

abbrev started : Network
started = new_network (home ∷ []) 5

abbrev clock : ℕ
clock = 100 * 1000000

connect_queue_cb-Picked_example :
    (addr : Addr) × (before : List Addr) × (behind : List Addr) × (d : Network) × (started.addrs
      ≡ before ++ addr ∷ behind)
    × (can_connect_to_addr clock started addr ≡ true)
    × (connect_queue_cb clock 3 10 true started ≡ ok d)
    × Tried clock started true addr d
unfolding new_network maybe_queue_connect add_default_addrs new_addr count_connectable
    can_connect_to_addr
connect_queue_cb-Picked_example =
    connect_queue_cb-Picked clock started 3 10 true (omega arith) (omega arith) (omega arith)
      (omega arith)

abbrev listening : Network
listening = add_listen_socket home started

abbrev listens : Reach started listening
listens = Reach.next Reach.here (Step.listens started home)

-- The address that the node starts with, and the node that has connected to it.
abbrev first : Addr
first = record {
  id = 0;
  address = home;
  advertise_time = 0;
  stream = 1;
  services = 1;
  last_connect_time = 0;
  connected = false;
  type = AddrType.default;
}

abbrev joined : Network
joined = occupy first (connect_to_addr clock true first started).1

joins : Reach started joined
unfolding new_network maybe_queue_connect add_default_addrs new_addr count_connectable pick_addr
    can_connect_to_addr connect_queue_cb connect_to_addr
joins = Reach.next Reach.here (Step.connects started joined clock 3 10 true refl)

Reach-Bounded_example :
    (n_outgoing joined.peers ≤ num_outgoing_peers)
    × (n_incoming joined.peers ≤ suc max_incoming_peers)
    × (is_watched joined.listen_sockets ≡ true → n_incoming joined.peers ≤ max_incoming_peers)
    × (joined.n_outgoing_peers ≡ n_outgoing joined.peers)
    × (joined.n_incoming_peers ≡ n_incoming joined.peers)
Reach-Bounded_example = Reach-Bounded (home ∷ []) 5 joined joins

Reach-Seeks_example : (idle : Bool) × (listening.connect_queue_source ≡ some idle)
unfolding new_network maybe_queue_connect add_default_addrs new_addr add_listen_socket
Reach-Seeks_example = Reach-Seeks (home ∷ []) 5 listening listens (omega arith) (omega arith)

abbrev callers : List NetAddress
callers = replicate 12 home

-- Stands for SHA512.
abbrev some_hash : Bytes → Bytes
some_hash bytes = replicate 64 0

abbrev two_bytes : Bytes
two_bytes = 1 ∷ (2 ∷ [])

should_reject-find_nonce_example :
    should_reject some_hash 1700000000 1699999000 InvType.msg (be_bytes 8 3 ++ two_bytes) ≡ ok false
unfolding find_nonce try_nonces pow_value get_64 read_be cookie_target cookie_hash calculate_target
    get_max_age_for_type
should_reject-find_nonce_example =
    should_reject-find_nonce some_hash 1700000000 1699999000 4 3 3 InvType.msg two_bytes
      (false ∷ []) (omega arith) (omega arith) (omega arith) refl
