-- ===== src/Connection/Asking.antt =====
-- What is sent at the wish of the network leaves the queues of src/ntb-connection.c in order.
use notbit.Common.{
  Outcome, ℕ, ◌≡◌, refl, sym, ◌∙◌, Bytes, List, [], ◌∷◌, Bool, true, false, leb, ◌==◌, ok-injective,
  take, if◌then◌else◌, some, ok, ◌>>=◌, >>=-eq-ok,
}
use notbit.Proto.Types.{codes}
use notbit.Proto.Write.{begin_command, add_command}
use mathlib.Core.Path.{subst}
use notbit.Connection.{AddrEvent, Connection, update_poll_flags}
use notbit.Connection.Sending.{
  send_verack, send_version, begin_list, end_list, add_entry, n_entries, begin_hash_command,
  end_hash_command, add_hash_for_command, version_items, addr_length, addr_entry, begin_addr,
  end_addr, add_addr_address,
}
use notbit.Connection.Handlers.{hash_length}
use notbit.Connection.Packing.{add_all}
use notbit.Connection.Ordered.{WellQueued}

pub some-injective : {A : Type 0} {a b : A} → some a ≡ some b → a ≡ b
some-injective e = cc

-- The queues are the same.
record Keeps (c d : Connection) : Type 0 where
  ready : d.ready_objects ≡ c.ready_objects
  waiting : d.objects_to_load ≡ c.objects_to_load
  loading : d.is_loading ≡ c.is_loading

Keeps-trans : {c d e : Connection} → Keeps c d → Keeps d e → Keeps c e
Keeps-trans p q = record {
  ready = q.ready ∙ p.ready;
  waiting = q.waiting ∙ p.waiting;
  loading = q.loading ∙ p.loading;
}

-- A step behind which the poll flags are set anew.
updated-WellQueued :
    (c d : Connection) → Keeps c d → WellQueued c → WellQueued (update_poll_flags d)
unfolding update_poll_flags
updated-WellQueued c d k w = record {
  idle = λ e f. k.waiting ∙ w.idle (sym k.loading ∙ e) (sym k.ready ∙ f);
  busy = λ e. rw k.waiting (w.busy (sym k.loading ∙ e));
  polls = λ h. refl;
}

update_poll_flags-Keeps : (c d : Connection) → Keeps c d → Keeps c (update_poll_flags d)
unfolding update_poll_flags
update_poll_flags-Keeps c d k = record { ready = k.ready; waiting = k.waiting; loading = k.loading }

if-Keeps :
    (test : Bool) (c k l : Connection) → Keeps c k → Keeps c l → Keeps c (if test then k else l)
if-Keeps true c k l p q = p
if-Keeps false c k l p q = q

returned-Keeps : {c d e : Connection} → Keeps c d → ok d ≡ ok e → Keeps c e
returned-Keeps {c} k e = subst (Keeps c) (ok-injective e) k

module _ (sha512 : Bytes → Bytes) (junk : Bytes) (blank : ℕ) where
  end_list-Keeps : (size : ℕ) (c : Connection) → Keeps c (end_list sha512 junk blank size c)
  unfolding end_list
  end_list-Keeps size c = update_poll_flags-Keeps c _ (
      if-Keeps (n_entries size c == 0) c _ _
        (record { ready = refl; waiting = refl; loading = refl })
        (record { ready = refl; waiting = refl; loading = refl }))

  module _ (command : Bytes) where
    begin_list-Keeps :
        (c d : Connection) → begin_list sha512 junk blank command c ≡ ok d → Keeps c d
    unfolding begin_list
    begin_list-Keeps c d e =
        let (begun, _, good) = >>=-eq-ok (begin_command junk c.out_buf command) _ e in
        returned-Keeps (record { ready = refl; waiting = refl; loading = refl }) good

    make_room-Keeps :
        (full : Bool) (size : ℕ) (c d : Connection)
        → (if full
            then begin_list sha512 junk blank command (end_list sha512 junk blank size c)
            else ok c)
          ≡ ok d
        → Keeps c d
    make_room-Keeps true size c d e =
        Keeps-trans (end_list-Keeps size c)
          (begin_list-Keeps (end_list sha512 junk blank size c) d e)
    make_room-Keeps false size c d e =
        returned-Keeps (record { ready = refl; waiting = refl; loading = refl }) e

    add_entry-Keeps :
        (size : ℕ) (entry : Bytes) (c d : Connection)
        → add_entry sha512 junk blank command size entry c ≡ ok d
        → Keeps c d
    unfolding add_entry
    add_entry-Keeps size entry c d e =
        let (room, made, good) =
          >>=-eq-ok
            (if leb 0xfc (n_entries size c)
              then begin_list sha512 junk blank command (end_list sha512 junk blank size c)
              else ok c)
            _ e in
        let k = make_room-Keeps (leb 0xfc (n_entries size c)) size c room made in
        returned-Keeps (record { ready = k.ready; waiting = k.waiting; loading = k.loading }) good

    add_all-Keeps :
        (hashes : List Bytes) (c d : Connection)
        → add_all sha512 junk blank command hashes c ≡ ok d
        → Keeps c d
    add_all-Keeps [] c d e =
        returned-Keeps (record { ready = refl; waiting = refl; loading = refl }) e
    add_all-Keeps (hash ∷ hashes) c d e =
        let (x, added, rest) =
          >>=-eq-ok (add_hash_for_command sha512 junk blank command hash c) _ e in
        Keeps-trans (add_entry-Keeps hash_length (take hash_length hash) c x added)
          (add_all-Keeps hashes x d rest)

    pub listed-WellQueued :
        (hashes : List Bytes) (c d : Connection)
        → (begin_hash_command sha512 junk blank command c
            >>= add_all sha512 junk blank command hashes)
          ≡ ok d
        → WellQueued c
        → WellQueued (end_hash_command sha512 junk blank d)
    unfolding end_list
    listed-WellQueued hashes c d e w =
        let (begun, good, rest) = >>=-eq-ok (begin_hash_command sha512 junk blank command c) _ e in
        let k = Keeps-trans (begin_list-Keeps c begun good) (add_all-Keeps hashes begun d rest) in
        updated-WellQueued c _
          (if-Keeps (n_entries hash_length d == 0) c _ _
            (record { ready = k.ready; waiting = k.waiting; loading = k.loading })
            (record { ready = k.ready; waiting = k.waiting; loading = k.loading }))
          w

  -- add_addr_address for each of the addresses.
  abbrev pub add_adverts : List AddrEvent → Connection → Outcome Connection
  add_adverts [] conn = ok conn
  add_adverts (a ∷ adverts) conn =
      add_addr_address sha512 junk blank a.timestamp a.stream a.services a.address conn
      >>= add_adverts adverts

  add_adverts-Keeps :
      (adverts : List AddrEvent) (c d : Connection) → add_adverts adverts c ≡ ok d → Keeps c d
  unfolding add_addr_address
  add_adverts-Keeps [] c d e =
      returned-Keeps (record { ready = refl; waiting = refl; loading = refl }) e
  add_adverts-Keeps (a ∷ adverts) c d e =
      let (x, added, rest) =
        >>=-eq-ok (add_addr_address sha512 junk blank a.timestamp a.stream a.services a.address c) _
          e in
      Keeps-trans
        (add_entry-Keeps (codes "addr") (addr_length sha512 junk blank)
          (addr_entry sha512 junk blank a.timestamp a.stream a.services a.address) c x added)
        (add_adverts-Keeps adverts x d rest)

  pub adverts-WellQueued :
      (adverts : List AddrEvent) (c d : Connection)
      → (begin_addr sha512 junk blank c >>= add_adverts adverts) ≡ ok d
      → WellQueued c
      → WellQueued (end_addr sha512 junk blank d)
  unfolding end_list
  adverts-WellQueued adverts c d e w =
      let (begun, good, rest) = >>=-eq-ok (begin_addr sha512 junk blank c) _ e in
      let k =
        Keeps-trans (begin_list-Keeps (codes "addr") c begun good)
          (add_adverts-Keeps adverts begun d rest) in
      updated-WellQueued c _
        (if-Keeps (n_entries (addr_length sha512 junk blank) d == 0) c _ _
          (record { ready = k.ready; waiting = k.waiting; loading = k.loading })
          (record { ready = k.ready; waiting = k.waiting; loading = k.loading }))
        w

module _ (sha512 : Bytes → Bytes) (junk : Bytes) (now : ℕ) where
  pub send_verack-WellQueued :
      (c d : Connection) → send_verack sha512 now junk c ≡ ok d → WellQueued c → WellQueued d
  unfolding send_verack
  send_verack-WellQueued c d e w =
      let (sent, _, good) =
        >>=-eq-ok (add_command sha512 now junk c.out_buf (codes "verack") []) _ e in
      subst WellQueued (ok-injective good) (
        updated-WellQueued c (record c { out_buf = sent })
          (record { ready = refl; waiting = refl; loading = refl }) w)

  pub send_version-WellQueued :
      (user_agent : Bytes) (nonce local_port : ℕ) (c d : Connection)
      → send_version sha512 now junk user_agent c nonce local_port ≡ ok d
      → WellQueued c
      → WellQueued d
  unfolding send_version
  send_version-WellQueued user_agent nonce local_port c d e w =
      let (sent, _, good) =
        >>=-eq-ok
          (add_command sha512 now junk c.out_buf (codes "version")
            (version_items c.remote_address nonce local_port user_agent))
          _ e in
      subst WellQueued (ok-injective good) (
        updated-WellQueued c (record c { out_buf = sent })
          (record { ready = refl; waiting = refl; loading = refl }) w)
