-- ===== src/Bridge/Coordinator/Tick.antt =====
-- src/bridge.rs, `coordinate_with_control`: what a tick of the timer, or ready input, brings.
use niri_bridge.Prelude.{
  ltb, leb, ◌==◌, if◌then◌else◌, length, Result, ℕ, ◌-◌, Bool, false, ◌&&◌, Option, none, some,
  List, [], ◌∷◌,
}
use niri_bridge.Prelude.Action.{
  Action, ◌>>=◌, ◌>>◌, pure, done, lift, get, modify, when, finally, each,
}
use niri_bridge.Float.{Float}
use niri_bridge.Protocol.Event.{InputEvent}
use niri_bridge.Protocol.Message.{Message}
use niri_bridge.Control.Layout as Layout
use niri_bridge.Control.Layout.{prepared, abort}
use niri_bridge.Receiver as Receiver
use niri_bridge.Receiver.{InputSink, Receiver, poll, end, physical_activity}
use niri_bridge.Bridge.Role.{Role, local, sending, receiving, session_of}
use niri_bridge.Bridge.Coordinator.{
  failure, World, PendingLayout, Coordinator, wrapping_next, is_receiving_role, in_world,
  with_world, change_world, with_receiver, set_role, edge_at, send, rearm, stop_capture, place,
  send_end, send_input, forward,
}

-- `pings.pop_first()` on more than 16.
abbrev pub keep_16 : List (ℕ × ℕ) → List (ℕ × ℕ)
keep_16 [] = []
keep_16 (p ∷ pings) = if ltb 15 (length pings) then pings else p ∷ pings

abbrev pub insert_ping : List (ℕ × ℕ) → ℕ → ℕ → List (ℕ × ℕ)
insert_ping [] nonce t = (nonce, t) ∷ []
insert_ping ((n, u) ∷ pings) nonce t =
    let rest = insert_ping pings nonce t in
    if ltb nonce n
    then (nonce, t) ∷ (n, u) ∷ pings
    else if nonce == n
    then (nonce, t) ∷ pings
    else (n, u) ∷ rest

module _ {F S W P : Type 0} ⦃fl : Float F⦄ (sk : InputSink F S) (w : World F W P) where
  -- A pending layout that nobody confirmed in time.
  unfoldable pub expire : PendingLayout P → Action (Coordinator F S W P) (Unit {0})
  expire p = do
    modify (λ c. record c { pending_layout = none })
    finally
        (do
          send sk w (Message.layout (Layout.abort p.id))
          when p.replies (change_world (w.reply (failure "layout_unconfirmed"))))
        (λ c. record c { world = w.drop_prepared p.prepared c.world })

  unfoldable pub check_deadline : Option (PendingLayout P) → Action (Coordinator F S W P) (Unit {0})
  check_deadline none = done
  check_deadline (some p) = do t ← with_world w.now; when (leb p.deadline t) (expire p)

  unfoldable pub sample_ready : Action (Coordinator F S W P) Bool
  sample_ready = do c ← get; if c.local_ready && c.peer_ready then in_world w.sample else pure false

  -- Physical input takes back local control.
  unfoldable pub take_over : Action (Coordinator F S W P) (Unit {0})
  take_over = do
    with_receiver (Receiver.physical_activity sk)
    c ← get
    send_end sk w (session_of c.role)
    set_role local
    stop_capture sk w
    rearm sk w

  -- The emergency chord was pressed.
  unfoldable pub stop_sending : Role F → Action (Coordinator F S W P) (Unit {0})
  stop_sending local = done
  stop_sending (receiving session) = done
  stop_sending (sending session sequence edge fraction) = do
    send sk w (Message.end session none)
    stop_capture sk w
    selected ← edge_at edge
    place sk w selected fraction

  unfoldable pub emergency_stop : Action (Coordinator F S W P) (Unit {0})
  emergency_stop = do
    c ← get
    stop_sending c.role
    set_role local
    modify (λ c. record c { source_keys = [] })
    rearm sk w

  -- The loop over the keyboard events, which the chord ends.
  unfoldable pub forward_all : List (InputEvent F) → Action (Coordinator F S W P) (Unit {0})
  forward_all [] = done
  forward_all (event ∷ events) = do
    chord ← forward sk w event
    if chord then emergency_stop else forward_all events

  -- The end of a sending session whose capture worker is gone.
  unfoldable pub end_sending : Role F → Action (Coordinator F S W P) (Unit {0})
  end_sending local = done
  end_sending (receiving session) = done
  end_sending (sending session sequence edge fraction) = do
    send sk w (Message.end session none)
    set_role local

  unfoldable pub collect_task : Action (Coordinator F S W P) (Unit {0})
  collect_task = do
    c ← get
    when (c.capture && w.task_finished c.world && w.channel_empty c.world)
        (do stop_capture sk w; end_sending c.role; rearm sk w)

  unfoldable pub send_ping : Action (Coordinator F S W P) (Unit {0})
  send_ping = do
    t ← with_world w.now
    modify (λ c. record c { pings = keep_16 (insert_ping c.pings c.heartbeat t) })
    c ← get
    send sk w (Message.ping c.heartbeat)
    u ← with_world w.now
    modify (λ c. record c { heartbeat = wrapping_next c.heartbeat; last_heartbeat = u })

  unfoldable pub beat : Action (Coordinator F S W P) (Unit {0})
  beat = do t ← with_world w.now; c ← get; when (leb 200 (t - c.last_heartbeat)) send_ping

  unfoldable pub on_tick : Result (Unit {0}) → Action (Coordinator F S W P) (Unit {0})
  on_tick ready = do
    lift ready
    with_receiver (Receiver.poll sk)
    c ← get
    check_deadline c.pending_layout
    physical ← sample_ready
    keys ← with_world w.take_keyboard_events
    touches ← with_world w.take_touchpad_events
    c ← get
    when (physical && is_receiving_role c.role) take_over
    forward_all keys
    each (send_input sk w) touches
    collect_task
    beat
