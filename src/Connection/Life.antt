-- ===== src/Connection/Life.antt =====
-- The states that a connection of src/ntb-connection.c can get into, from ntb_connection_new_for_socket on.
use notbit.Common.{
  ℕ, ◌+◌, ◌≤◌, ◌≡◌, ◌⊎◌, refl, sym, ◌∙◌, ap, arith, Bytes, List, [], ◌∷◌, ◌++◌, Bool, true,
  Bool-cases, inl, inr, ltb, ok-injective, ◌||◌, not, lt→ltb, length, some, ok, fault,
}
use notbit.Proto.Types.{NetAddress}
use mathlib.Core.Path.{subst}
use notbit.Connection.{Connection, Blob, Listener, is_empty, new_for_socket}
use notbit.Connection.Objects.{load_cb}
use notbit.Connection.Polling.{ReadResult, WriteResult, connection_poll_cb, pong_check_cb}
use notbit.Connection.Queues.{load_cb-Loads}
use notbit.Connection.Ordered.{WellQueued}
use notbit.Connection.Answering.{Call, IsCalling, Call-WellQueued, IsCalling-KeepsOrder}
use notbit.Connection.Progress.{Returns, connection_poll_cb-finishes, pong_check_cb-finishes}
use notbit.Connection.Asking.{some-injective}

no_ok : {d : Connection} → fault ≡ ok d → ⊥
no_ok e = cc

something :
    (out : Bytes) (ready : List Blob) (waiting : List Bytes)
    → (ready ≡ [] → waiting ≡ [])
    → 1 ≤ length waiting + length ready + length out
    → (ltb 0 (length out) || not (is_empty ready)) ≡ true
something (b ∷ out) ready waiting idle some_of = rw (lt→ltb 0 (length (b ∷ out)) (omega arith)) refl
something [] (x ∷ ready) waiting idle some_of = refl
something [] [] waiting idle some_of = absurd (omega (arith, ap length (idle refl)))

goes_on :
    (c : Connection)
    → WellQueued c
    → c.has_sources ≡ true
    → 1 ≤ length c.objects_to_load + length c.ready_objects + length c.out_buf
    → (c.is_loading ≡ true) ⊎ (c.poll_out ≡ true)
goes_on c w watched some_of = elim (Bool-cases c.is_loading) [
  | inl e ↦ inl e
  | inr e ↦
      inr
        (w.polls watched ∙ something c.out_buf c.ready_objects c.objects_to_load (w.idle e) some_of)
]

module _ (sha512 : Bytes → Bytes) (junk : Bytes) (listener : Listener)
    (calls : IsCalling sha512 junk listener) where
  -- What can happen to a connection: the network calls it to send something; the store has loaded what it was
  -- asked for; the main loop calls back for the socket or for the timer, and the callback ends without an access
  -- outside a buffer.
  pub data Step : Connection → Connection → Type 0 where
    called : (c d : Connection) → Call sha512 junk c d → Step c d
    loaded :
        (c d : Connection) (blob : Blob)
        → c.is_loading ≡ true
        → load_cb (some blob) c ≡ ok d
        → Step c d
    polled :
        (c d : Connection) (clock : ℕ) (error readable writable : Bool) (behind : Bytes)
        (r : ReadResult) (w : WriteResult)
        → connection_poll_cb sha512 junk listener clock error readable writable behind r w c
          ≡ some (ok d)
        → Step c d
    timed :
        (c d : Connection) (clock : ℕ)
        → pong_check_cb sha512 junk listener clock c ≡ ok d
        → Step c d

  pub data Reach (start : Connection) : Connection → Type 0 where
    here : Reach start start
    next : {c d : Connection} → Reach start c → Step c d → Reach start d

  Step-WellQueued : {c d : Connection} → Step c d → WellQueued c → WellQueued d
  Step-WellQueued (called c d call) w = Call-WellQueued sha512 junk call w
  Step-WellQueued (loaded c d blob l e) w =
      let (hash, rest, d', _, e', _, _, w') = load_cb-Loads blob c w l in
      subst WellQueued (ok-injective (sym e' ∙ e)) w'
  Step-WellQueued (polled c d clock error readable writable behind r w e) good = ended (
      connection_poll_cb-finishes sha512 junk listener clock
        (IsCalling-KeepsOrder sha512 junk listener calls) error readable writable behind r w c good)
    where
      ended :
          Returns
            (1 ≤ length behind)
            (connection_poll_cb sha512 junk listener clock error readable writable behind r w c)
          → WellQueued d
      ended (inl (e', _)) = absurd (no_ok (some-injective (sym e' ∙ e)))
      ended (inr (d', e', w')) = subst WellQueued (ok-injective (some-injective (sym e' ∙ e))) w'
  Step-WellQueued (timed c d clock e) w =
      let (d', e', w') =
        pong_check_cb-finishes sha512 junk listener clock
          (IsCalling-KeepsOrder sha512 junk listener calls) c w in
      subst WellQueued (ok-injective (sym e' ∙ e)) w'

  -- From a new connection on, by the steps of Step, with a listener that changes the connection by
  -- calls to send something alone: something is being loaded if an object waits and none is ready; what is being loaded waits; and while
  -- the socket is watched, the main loop waits for room to write exactly if there is something to write.
  pub Reach-WellQueued :
      (address : NetAddress) (clock sent received : ℕ) (c : Connection)
      → Reach (new_for_socket address clock sent received) c
      → WellQueued c
  Reach-WellQueued address clock sent received c here = record {
    idle = λ e f. refl;
    busy = λ e. cc;
    polls = λ h. refl;
  }
  Reach-WellQueued address clock sent received d (next {c} r s) =
      Step-WellQueued s (Reach-WellQueued address clock sent received c r)

  -- From a new connection on, by the steps of Step, with a listener that changes the connection by
  -- calls to send something alone: when the store has loaded a blob that was asked for, the assertion of load_cb holds: the first object that waits becomes the last one that is ready.
  pub Reach-load_cb :
      (address : NetAddress) (clock sent received : ℕ) (c : Connection) (blob : Blob)
      → Reach (new_for_socket address clock sent received) c
      → c.is_loading ≡ true
      → (hash : Bytes) × (rest : List Bytes) × (d : Connection) × (c.objects_to_load ≡ hash ∷ rest)
        × (load_cb (some blob) c ≡ ok d)
        × (d.objects_to_load ≡ rest)
        × (d.ready_objects ≡ c.ready_objects ++ blob ∷ [])
  Reach-load_cb address clock sent received c blob r e =
      let (hash, rest, d, split, done, waits, ready, _) =
        load_cb-Loads blob c (Reach-WellQueued address clock sent received c r) e in
      (hash, rest, d, split, done, waits, ready)

  -- From a new connection on, by the steps of Step, with a listener that changes the connection by
  -- calls to send something alone: while its socket is watched and an object waits or is ready or bytes are not written, it is going to
  -- go on: a blob is being loaded, or the main loop waits for
  -- room to write.
  pub Reach-goes_on :
      (address : NetAddress) (clock sent received : ℕ) (c : Connection)
      → Reach (new_for_socket address clock sent received) c
      → c.has_sources ≡ true
      → 1 ≤ length c.objects_to_load + length c.ready_objects + length c.out_buf
      → (c.is_loading ≡ true) ⊎ (c.poll_out ≡ true)
  Reach-goes_on address clock sent received c r watched some_of =
      let w = Reach-WellQueued address clock sent received c r in goes_on c w watched some_of
