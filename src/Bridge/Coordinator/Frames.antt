-- ===== src/Bridge/Coordinator/Frames.antt =====
-- src/bridge.rs, `coordinate_with_control`: the messages of the peer.
use niri_bridge.Prelude.{
  ltb, ◌==◌, if◌then◌else◌, length, context, ℕ, ◌+◌, String, Bool, true, false, ◌&&◌, not, Option,
  none, some, List, [], ◌∷◌,
}
use niri_bridge.Prelude.Action.{
  Action, ◌>>=◌, ◌>>◌, pure, done, fail, lift, get, modify, when, check,
}
use niri_bridge.Prelude.Sets.{contains}
use niri_bridge.Prelude.Text.{◌==ₛ◌}
use niri_bridge.Float.{Float}
use niri_bridge.Protocol.Event.{InputEvent}
use niri_bridge.Protocol.Message.{EdgePosition, Message}
use niri_bridge.Touchpad.Descriptor.{Descriptor}
use niri_bridge.Control.Layout.{Desktop}
use niri_bridge.Receiver as Receiver
use niri_bridge.Receiver.{
  InputSink, Receiver, configure_touchpads, begin, input, end, peer_lock, physical_activity,
}
use niri_bridge.Bridge.Edges.{EdgeConfig}
use niri_bridge.Bridge.Role.{Role, local, sending, receiving, session_of}
use niri_bridge.Bridge.Coordinator.{
  World, Coordinator, wrapping_next, is_local_role, is_receiving_role, is_some, in_world,
  change_world, with_receiver, set_role, edge_at, send, rearm, stop_capture, place, send_end,
}
use niri_bridge.Bridge.Coordinator.Layouts.{on_layout}

-- `pings.remove(&nonce)`
abbrev pub drop_ping : List (ℕ × ℕ) → ℕ → List (ℕ × ℕ)
drop_ping [] nonce = []
drop_ping ((n, t) ∷ pings) nonce =
    let rest = drop_ping pings nonce in if n == nonce then pings else (n, t) ∷ rest

module _ {F : Type 0} where
  -- The first edge with an identifier that is active.
  abbrev pub entry_edge : List (EdgeConfig F) → ℕ → String → List ℕ → Option (EdgeConfig F)
  entry_edge [] index id available = none
  entry_edge (e ∷ edges) index id available =
      let rest = entry_edge edges (index + 1) id available in
      if e.id ==ₛ id && contains available index then some e else rest

  -- The first edge with an identifier, and its index.
  abbrev pub named_edge : List (EdgeConfig F) → ℕ → String → Option (ℕ × EdgeConfig F)
  named_edge [] index id = none
  named_edge (e ∷ edges) index id =
      let rest = named_edge edges (index + 1) id in if e.id ==ₛ id then some (index, e) else rest

module _ {F S W P : Type 0} ⦃fl : Float F⦄ (sk : InputSink F S) (w : World F W P) where
  unfoldable pub on_desktop : Desktop F → Action (Coordinator F S W P) (Unit {0})
  on_desktop info =
      modify
        (λ c. record c { desktop_epoch = wrapping_next c.desktop_epoch; peer_desktop = some info })

  unfoldable pub on_touchpads : List Descriptor → Action (Coordinator F S W P) (Unit {0})
  on_touchpads devices = do
    c ← get
    check (not c.peer_touchpads_configured) "Touchpad negotiation was repeated"
    with_receiver (Receiver.configure_touchpads sk devices)
    modify (λ c. record c { peer_touchpads_configured = true })

  -- The pointer of a sender comes back where its own session is unlocked.
  unfoldable pub return_locked : Role F → Action (Coordinator F S W P) (Unit {0})
  return_locked local = done
  return_locked (receiving session) = done
  return_locked (sending session sequence edge fraction) = do
    stop_capture sk w
    c ← get
    when c.local_ready (do selected ← edge_at edge; place sk w selected fraction)

  unfoldable pub on_locked : Action (Coordinator F S W P) (Unit {0})
  on_locked = do
    change_world w.suspend
    c ← get
    send_end sk w (session_of c.role)
    return_locked c.role
    set_role local
    stop_capture sk w

  unfoldable pub on_lock_state : Bool → Action (Coordinator F S W P) (Unit {0})
  on_lock_state peer_locked = do
    c ← get
    check c.peer_touchpads_configured "Touchpad negotiation is incomplete"
    modify (λ c. record c { peer_ready = not peer_locked })
    with_receiver (Receiver.peer_lock sk peer_locked)
    when peer_locked on_locked

  -- The conditions of a begin before the activity is sampled.
  abbrev pub can_receive : List ℕ → Coordinator F S W P → Bool
  can_receive available c =
      is_local_role c.role
      && c.local_ready
      && c.peer_ready
      && not (length available == 0)
      && not (is_some c.pending_layout)

  unfoldable pub is_idle : Bool → Action (Coordinator F S W P) Bool
  is_idle true = do physical ← in_world w.sample; pure (not physical)
  is_idle false = pure false

  unfoldable pub refuse : ℕ → Action (Coordinator F S W P) (Unit {0})
  refuse session = do
    c ← get
    check (not (is_receiving_role c.role)) "Unexpected overlapping input session"
    send sk w (Message.end session none)

  unfoldable pub enter : ℕ → EdgeConfig F → F → Action (Coordinator F S W P) (Unit {0})
  enter session edge fraction = do
    started ← with_receiver (Receiver.begin sk session)
    check started "Receiver is busy"
    place sk w edge fraction
    set_role (receiving session)

  unfoldable pub enter_if : Bool → ℕ → EdgeConfig F → F → Action (Coordinator F S W P) (Unit {0})
  enter_if true session edge fraction = enter session edge fraction
  enter_if false session edge fraction = refuse session

  unfoldable pub enter_at :
      ℕ → Option (EdgeConfig F) → F → List ℕ → Action (Coordinator F S W P) (Unit {0})
  enter_at session none fraction available = refuse session
  enter_at session (some edge) fraction available = do
    c ← get
    idle ← is_idle (can_receive available c)
    enter_if idle session edge fraction

  unfoldable pub on_begin : ℕ → EdgePosition F → List ℕ → Action (Coordinator F S W P) (Unit {0})
  on_begin session entry available = do
    c ← get
    enter_at session (entry_edge c.config.edges 0 entry.edge_id available) entry.fraction available

  abbrev pub is_receiving_session : Role F → ℕ → Bool
  is_receiving_session (receiving current) session = current == session
  is_receiving_session _ session = false

  unfoldable pub accept : Bool → ℕ → ℕ → InputEvent F → Action (Coordinator F S W P) (Unit {0})
  accept true session sequence event = do
    with_receiver (Receiver.physical_activity sk)
    send sk w (Message.end session none)
    set_role local
    stop_capture sk w
  accept false session sequence event =
      with_receiver (Receiver.input sk session sequence event) >> done

  -- `age`: the milliseconds since the message was received.
  unfoldable pub on_input :
      (age session sequence : ℕ) → InputEvent F → Action (Coordinator F S W P) (Unit {0})
  on_input age session sequence event = do
    check (ltb age 200) "Received input was delayed; restoring local control"
    c ← get
    when (is_receiving_session c.role session)
        (do physical ← in_world w.sample; accept physical session sequence event)

  -- Where the pointer of a sender comes back.
  unfoldable pub return_place :
      ℕ → F → Option (EdgePosition F) → List ℕ → Action (Coordinator F S W P) (EdgeConfig F × F)
  return_place edge fraction none available = do selected ← edge_at edge; pure (selected, fraction)
  return_place edge fraction (some exit) available = do
    c ← get
    found ← lift (context (named_edge c.config.edges 0 exit.edge_id) "Unknown return edge")
    check (contains available found.0) "Return edge is unavailable"
    pure (found.1, exit.fraction)

  unfoldable pub return_pointer :
      Role F → Option (EdgePosition F) → List ℕ → Action (Coordinator F S W P) (Unit {0})
  return_pointer local exit available = done
  return_pointer (receiving session) exit available = done
  return_pointer (sending session sequence edge fraction) exit available = do
    target ← return_place edge fraction exit available
    place sk w target.0 target.1

  abbrev pub is_current : Option ℕ → ℕ → Bool
  is_current none session = false
  is_current (some current) session = current == session

  unfoldable pub on_end :
      ℕ → Option (EdgePosition F) → List ℕ → Action (Coordinator F S W P) (Unit {0})
  on_end session exit available = do
    c ← get
    when (is_current (session_of c.role) session) (do
      with_receiver (Receiver.end sk session)
      stop_capture sk w
      when c.local_ready (return_pointer c.role exit available)
      set_role local
      rearm sk w)

  -- What a message does that does not end the coordinator.
  unfoldable pub handle : ℕ → List ℕ → Message F → Action (Coordinator F S W P) (Unit {0})
  handle age available (Message.desktop info) = on_desktop info
  handle age available (Message.layout message) = done
  handle age available (Message.touchpads devices) = on_touchpads devices
  handle age available (Message.hello version) = fail "Unexpected repeated protocol handshake"
  handle age available (Message.ping nonce) = send sk w (Message.pong nonce)
  handle age available (Message.pong nonce) =
      modify (λ c. record c { pings = drop_ping c.pings nonce })
  handle age available (Message.lock_state peer_locked) = on_lock_state peer_locked
  handle age available (Message.begin session entry) = on_begin session entry available
  handle age available (Message.input session sequence event) = on_input age session sequence event
  handle age available (Message.end session exit) = on_end session exit available

  unfoldable pub on_frame : ℕ → List ℕ → Message F → Action (Coordinator F S W P) (Option Bool)
  on_frame age available (Message.layout message) = on_layout sk w message
  on_frame age available message = handle age available message >> pure none
