-- ===== src/Connection/Effects.antt =====
-- What the handlers of src/ntb-connection.c for commands leave true, and that they come to an end.
use notbit.Common.{
  ◌⊎◌, inl, inr, ℕ, zero, suc, ◌≡◌, ◌≢◌, refl, Bytes, Bool, true, false, if◌then◌else◌, Outcome, ok,
  fail, fault,
}
use notbit.Proto.Types.{InvType}
use notbit.Proto.Read.{Cursor, get_var_int, get_command}
use notbit.Proto.Write.{add_command}
use notbit.Proto.Bounds.{get_command-Moves, get_var_int-Moves}
use notbit.Proto.Memory.{IsBacked, Moves-IsBacked, get_command-ne-fault, get_var_int-ne-fault}
use notbit.Connection.{
  Connection, Listener, Event, catch, refuse, emit_event, set_error_state, update_poll_flags,
}
use notbit.Connection.Ordered.{
  WellQueued, KeepsOrder, Gives, emit_event-WellQueued, set_error_state-WellQueued,
}
use notbit.Connection.Handlers.{
  addr_arguments, version_arguments, object_arguments, msg_arguments, addr_loop,
  addr_command_handler, getdata_command_handler, version_command_handler, verack_command_handler,
  versioned_object_handler, msg_command_handler, inv_command_handler, send_pong,
  ping_command_handler, dispatch,
}

-- What is kept over a call; a call faults only if the bytes it reads are not backed, which `B` says.
abbrev pub Keeps : Connection → Connection → Type 0
Keeps c d = WellQueued c → WellQueued d

abbrev pub Handled : Type 0 → Connection → Outcome (Bool × Connection) → Type 0
Handled B conn r = ((r ≡ fault) × (B → ⊥)) ⊎ Gives (λ r. Keeps conn r.1) r

pub catch-Handled :
    {A : Type 0} (B : Type 0) (conn : Connection) (m : Outcome A) (h : Outcome (Bool × Connection))
    (k : A → Outcome (Bool × Connection))
    → (B → m ≢ fault)
    → Handled B conn h
    → ((a : A) → m ≡ ok a → Handled B conn (k a))
    → Handled B conn (catch m h k)
catch-Handled B conn (ok a) h k safe p q = q a refl
catch-Handled B conn fail h k safe p q = p
catch-Handled B conn fault h k safe p q = inl (refl, λ b. safe b refl)

pub if-Handled :
    (B : Type 0) (conn : Connection) (test : Bool) (k l : Outcome (Bool × Connection))
    → Handled B conn k
    → Handled B conn l
    → Handled B conn (if test then k else l)
if-Handled B conn true k l p q = p
if-Handled B conn false k l p q = q

module _ (B : Type 0) (listener : Listener) (keeps : KeepsOrder listener) (conn : Connection) where
  pub refuse-Handled : Handled B conn (refuse listener conn)
  refuse-Handled = inr (
    (false, set_error_state listener conn),
    refl,
    λ w. set_error_state-WellQueued listener keeps conn w,
  )

  emit-Handled : (event : Event) → Handled B conn (ok (emit_event listener event conn))
  emit-Handled event =
      inr (
        emit_event listener event conn,
        refl,
        λ w. emit_event-WellQueued listener keeps conn w event,
      )

-- After an event the loop goes on if the listener says so.
answered-Handled :
    (B : Type 0) (conn : Connection) (answer : Bool × Connection)
    (k : Connection → Outcome (Bool × Connection))
    → Keeps conn answer.1
    → Handled B answer.1 (k answer.1)
    → Handled B conn (elim answer.0 [ false ↦ ok answer | true ↦ k answer.1 ])
answered-Handled B conn (false, d) k u h = inr ((false, d), refl, u)
answered-Handled B conn (true, d) k u (inl h) = inl h
answered-Handled B conn (true, d) k u (inr (r, e, v)) = inr (r, e, λ w. v (u w))

addr_loop-Handled :
    (B : Type 0) (listener : Listener)
    → KeepsOrder listener
    → (n : ℕ) (conn : Connection) (c : Cursor) → (B → IsBacked c)
    → Handled B conn (addr_loop listener n conn c)
unfolding addr_loop
addr_loop-Handled B listener keeps zero conn c b = inr ((true, conn), refl, λ w. w)
addr_loop-Handled B listener keeps (suc n) conn c b =
    catch-Handled B conn (get_command addr_arguments c) _ _
      (λ h. get_command-ne-fault addr_arguments c (b h)) (refuse-Handled B listener keeps conn)
      λ (vs, c') e.
        let event = Event.addr (record {
          timestamp = vs.0;
          stream = vs.1.0;
          services = vs.1.1.0;
          address = vs.1.1.1.0;
        }) in
        let answer = emit_event listener event conn in
        answered-Handled B conn answer (λ d. addr_loop listener n d c')
          (λ w. emit_event-WellQueued listener keeps conn w event)
          (addr_loop-Handled B listener keeps n answer.1 c'
            (λ h. Moves-IsBacked (get_command-Moves addr_arguments c c' vs e) (b h)))

module _ (B : Type 0) (listener : Listener) (keeps : KeepsOrder listener) (conn : Connection)
    (c : Cursor) (b : B → IsBacked c) where
  addr-Handled : Handled B conn (addr_command_handler listener conn c)
  unfolding addr_command_handler
  addr-Handled =
      catch-Handled B conn (get_var_int c) _ _ (λ h. get_var_int-ne-fault c (b h))
        (refuse-Handled B listener keeps conn)
        λ (n, c') e.
          addr_loop-Handled B listener keeps n conn c'
            (λ h. Moves-IsBacked (get_var_int-Moves c c' n e) (b h))

  getdata-Handled : Handled B conn (getdata_command_handler listener conn c)
  unfolding getdata_command_handler
  getdata-Handled =
      catch-Handled B conn (get_var_int c) _ _ (λ h. get_var_int-ne-fault c (b h))
        (refuse-Handled B listener keeps conn)
        λ (n, c') e.
          if-Handled B conn _ _ _ (refuse-Handled B listener keeps conn)
            (emit-Handled B listener keeps conn _)

  inv-Handled : Handled B conn (inv_command_handler listener conn c)
  unfolding inv_command_handler
  inv-Handled =
      catch-Handled B conn (get_var_int c) _ _ (λ h. get_var_int-ne-fault c (b h))
        (refuse-Handled B listener keeps conn)
        λ (n, c') e.
          if-Handled B conn _ _ _ (refuse-Handled B listener keeps conn)
            (emit-Handled B listener keeps conn _)

  version-Handled : Handled B conn (version_command_handler listener conn c)
  unfolding version_command_handler
  version-Handled =
      catch-Handled B conn (get_command version_arguments c) _ _
        (λ h. get_command-ne-fault version_arguments c (b h)) (refuse-Handled B listener keeps conn)
        λ r e. emit-Handled B listener keeps conn _

  versioned_object-Handled :
      (type : InvType) → Handled B conn (versioned_object_handler listener type conn c)
  unfolding versioned_object_handler
  versioned_object-Handled type =
      catch-Handled B conn (get_command object_arguments c) _ _
        (λ h. get_command-ne-fault object_arguments c (b h)) (refuse-Handled B listener keeps conn)
        λ r e. emit-Handled B listener keeps conn _

  msg-Handled : Handled B conn (msg_command_handler listener conn c)
  unfolding msg_command_handler
  msg-Handled =
      catch-Handled B conn (get_command msg_arguments c) _ _
        (λ h. get_command-ne-fault msg_arguments c (b h)) (refuse-Handled B listener keeps conn)
        λ r e. emit-Handled B listener keeps conn _

  verack-Handled : Handled B conn (verack_command_handler listener conn c)
  unfolding verack_command_handler
  verack-Handled = emit-Handled B listener keeps conn Event.verack

pub send_pong-Gives :
    (sha512 : Bytes → Bytes) (junk : Bytes) (conn : Connection)
    → Gives (Keeps conn) (send_pong sha512 junk conn)
unfolding send_pong add_command update_poll_flags
send_pong-Gives sha512 junk conn =
    (_, refl, λ w. record { idle = w.idle; busy = w.busy; polls = λ h. refl })

ping-Handled :
    (B : Type 0) (sha512 : Bytes → Bytes) (junk : Bytes) (conn : Connection) (c : Cursor)
    → Handled B conn (ping_command_handler sha512 junk conn c)
unfolding ping_command_handler
ping-Handled B sha512 junk conn c =
    let (d, e, u) = send_pong-Gives sha512 junk conn in inr ((true, d), rw e refl, u)

-- Whatever the name of the command, its handler ends, leaves its memory only if the bytes are not backed,
-- and keeps the queues in order.
pub dispatch-Handled :
    (B : Type 0) (sha512 : Bytes → Bytes) (junk : Bytes) (listener : Listener)
    → KeepsOrder listener
    → (name : Bytes) (conn : Connection) (c : Cursor) → (B → IsBacked c)
    → Handled B conn (dispatch sha512 junk listener name conn c)
unfolding dispatch
dispatch-Handled B sha512 junk listener keeps name conn c b =
    pick _ _ _ (versioned_object-Handled B listener keeps conn c b InvType.getpubkey) (
      pick _ _ _ (versioned_object-Handled B listener keeps conn c b InvType.pubkey) (
        pick _ _ _ (msg-Handled B listener keeps conn c b) (
          pick _ _ _ (versioned_object-Handled B listener keeps conn c b InvType.broadcast) (
            pick _ _ _ (inv-Handled B listener keeps conn c b) (
              pick _ _ _ (version-Handled B listener keeps conn c b) (
                pick _ _ _ (addr-Handled B listener keeps conn c b) (
                  pick _ _ _ (getdata-Handled B listener keeps conn c b) (
                    pick _ _ _ (verack-Handled B listener keeps conn c b) (
                      pick _ _ _ (ping-Handled B sha512 junk conn c)
                        (inr ((true, conn), refl, λ w. w)))))))))))
  where
    pick :
        (test : Bool) (k l : Outcome (Bool × Connection))
        → Handled B conn k
        → Handled B conn l
        → Handled B conn (if test then k else l)
    pick = if-Handled B conn
