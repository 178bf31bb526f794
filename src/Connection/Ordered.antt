-- ===== src/Connection/Ordered.antt =====
-- What holds of the queues of src/ntb-connection.c between the calls, and of what its listener does.
use notbit.Common.{◌≤◌, ◌≡◌, List, [], ◌++◌, ◌∷◌, true, false, length, Outcome, ok, if◌then◌else◌}
use notbit.Connection.{
  Connection, Event, Listener, emit_event, set_error_state, connection_is_ready_to_write,
}

-- While the socket is watched, the main loop waits for room to write exactly if there is something to
-- write.
abbrev pub PollsToWrite : Connection → Type 0
PollsToWrite c = c.has_sources ≡ true → c.poll_out ≡ connection_is_ready_to_write c

-- Something is loaded unless an object is ready or none waits; what is loaded waits; and the main
-- loop waits for room exactly if there is something to write.
pub record WellQueued (c : Connection) : Type 0 where
  pub idle : c.is_loading ≡ false → c.ready_objects ≡ [] → c.objects_to_load ≡ []
  pub busy : c.is_loading ≡ true → 1 ≤ length c.objects_to_load
  pub polls : PollsToWrite c

-- What the listener does to the connection leaves the queues in order if they were.
abbrev pub KeepsOrder : Listener → Type 0
KeepsOrder listener =
    (events : List Event) (c : Connection) → WellQueued c → WellQueued (listener events c).1

-- A result that is there, with what holds of it.
abbrev pub Gives {ℓ κ} : {A : Type ℓ} → (A → Type κ) → Outcome A → Type (ℓ ⊔ κ)
Gives {A} P r = (a : A) × (r ≡ ok a) × P a

module _ (listener : Listener) (keeps : KeepsOrder listener) (c : Connection)
    (w : WellQueued c) where
  pub emit_event-WellQueued : (event : Event) → WellQueued (emit_event listener event c).1
  unfolding emit_event
  emit_event-WellQueued event =
      let events = c.events ++ event ∷ [] in
      let v =
        keeps events (record c { events = events })
          (record { idle = w.idle; busy = w.busy; polls = w.polls }) in
      record { idle = v.idle; busy = v.busy; polls = v.polls }

  pub set_error_state-WellQueued : WellQueued (set_error_state listener c)
  unfolding set_error_state
  set_error_state-WellQueued =
      let events =
        c.events ++ (if c.connect_succeeded then Event.error else Event.connect_failed) ∷ [] in
      let v =
        keeps events (record c { has_sources = false; poll_out = false; events = events })
          (record { idle = w.idle; busy = w.busy; polls = λ h. cc }) in
      record { idle = v.idle; busy = v.busy; polls = v.polls }
