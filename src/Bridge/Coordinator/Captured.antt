-- ===== src/Bridge/Coordinator/Captured.antt =====
-- src/bridge.rs, `coordinate_with_control`: the events of the capture worker.
use niri_bridge.Prelude.{
  ltb, ◌==◌, if◌then◌else◌, get_elem?, context, ℕ, String, Bool, true, false, ◌&&◌, not, Option,
  none, some, List, [],
}
use niri_bridge.Prelude.Action.{
  Action, ◌>>=◌, ◌>>◌, pure, done, lift, get, modify, when, check, each,
}
use niri_bridge.Prelude.Sets.{contains}
use niri_bridge.Prelude.Text.{◌==ₛ◌}
use niri_bridge.Float.{Float}
use niri_bridge.Protocol.Event.{InputEvent, key}
use niri_bridge.Protocol.Message.{Message}
use niri_bridge.Input.Keys.{emergency_modifiers}
use niri_bridge.Receiver as Receiver
use niri_bridge.Receiver.{InputSink, Receiver, checked_next, begin, end, position}
use niri_bridge.Bridge.Edges.{EdgeConfig}
use niri_bridge.Bridge.Role.{Role, local, sending, receiving, session_of}
use niri_bridge.Bridge.Coordinator.{
  World, Coordinator, is_sending_role, in_world, with_world, with_receiver, set_role, edge_at, send,
  rearm, stop_capture, place, place_back, leave, send_input, forward,
}

-- `capture_probe::Event`
pub data CaptureEvent (F : Type 0) : Type 0 where
  armed : CaptureEvent F
  started : (edge : ℕ) (fraction : F) → CaptureEvent F
  ready : CaptureEvent F
  input : (event : InputEvent F) → CaptureEvent F
  finished : (reason : String) → CaptureEvent F

abbrev pub is_key : {F : Type 0} → InputEvent F → Bool
is_key (key code pressed) = true
is_key _ = false

-- Whether the emergency chord is held when a crossing starts.
abbrev pub is_emergency : List ℕ → Bool
is_emergency keys = contains keys 1 && emergency_modifiers keys

abbrev pub or_no_keys : Option (List ℕ) → List ℕ
or_no_keys none = []
or_no_keys (some keys) = keys

module _ {F S W P : Type 0} ⦃fl : Float F⦄ (sk : InputSink F S) (w : World F W P) where
  -- `next_session = next_session.checked_add(1)?`; the session is the number before.
  unfoldable pub take_session : Action (Coordinator F S W P) ℕ
  take_session = do
    c ← get
    next ← lift (context (checked_next c.next_session) "Session identifiers exhausted")
    modify (λ c. record c { next_session = next })
    pure c.next_session

  -- Keys that are down when the session starts are pressed at the peer.
  unfoldable pub forward_initial : List ℕ → Action (Coordinator F S W P) (Unit {0})
  forward_initial codes = each (λ code. forward sk w (key code true) >> done) codes

  unfoldable pub begin_sending :
      ℕ → EdgeConfig F → F → List ℕ → Action (Coordinator F S W P) (Unit {0})
  begin_sending edge selected fraction keys = do
    session ← take_session
    send sk w (Message.begin session (record { edge_id = selected.id; fraction = fraction }))
    set_role (sending session 0 edge fraction)
    modify (λ c. record c { source_keys = [] })
    forward_initial keys

  unfoldable pub begin_unless :
      Bool → ℕ → EdgeConfig F → F → List ℕ → Action (Coordinator F S W P) (Unit {0})
  begin_unless true edge selected fraction keys = do stop_capture sk w; rearm sk w
  begin_unless false edge selected fraction keys = begin_sending edge selected fraction keys

  -- The pointer crossed an edge of this desktop.
  unfoldable pub cross_out : ℕ → EdgeConfig F → F → Action (Coordinator F S W P) (Unit {0})
  cross_out edge selected fraction = do
    in_world w.sample
    c ← get
    let keys = or_no_keys (w.keyboard_state c.world)
    with_world w.take_keyboard_events
    begin_unless (is_emergency keys) edge selected fraction keys

  -- The pointer of the paired computer crossed back.
  unfoldable pub cross_back : ℕ → EdgeConfig F → F → Action (Coordinator F S W P) (Unit {0})
  cross_back session selected fraction = do
    with_receiver (Receiver.end sk session)
    send sk w (Message.end session (some (record { edge_id = selected.id; fraction = fraction })))
    set_role local
    stop_capture sk w
    place sk w selected fraction
    rearm sk w

  unfoldable pub cross : Role F → ℕ → EdgeConfig F → F → Action (Coordinator F S W P) (Unit {0})
  cross local edge selected fraction = do
    c ← get
    if c.local_ready && c.peer_ready then cross_out edge selected fraction else stop_capture sk w
  cross (receiving session) edge selected fraction = cross_back session selected fraction
  cross (sending session sequence origin position) edge selected fraction = stop_capture sk w

  unfoldable pub on_started : ℕ → F → List ℕ → Action (Coordinator F S W P) (Unit {0})
  on_started index fraction available = do
    c ← get
    edge ← lift (context (get_elem? c.capture_edges index) "Capture selected an unknown edge")
    check (contains available edge) "Capture edge is no longer available"
    selected ← edge_at edge
    cross c.role edge selected fraction

  -- `age`: the milliseconds since the event was captured.
  unfoldable pub on_captured_input : ℕ → InputEvent F → Action (Coordinator F S W P) (Unit {0})
  on_captured_input age event = do
    c ← get
    when (not (c.physical_keyboard && is_key event) && is_sending_role c.role) (do
      check (ltb age 200) "Input queue became too delayed; restoring local control"
      send_input sk w event)

  unfoldable pub on_finished : String → Action (Coordinator F S W P) (Unit {0})
  on_finished reason = do
    c ← get
    leave sk w (session_of c.role)
    set_role local
    stop_capture sk w
    when (c.local_ready && reason ==ₛ "escape") (place_back sk w c.role)
    rearm sk w

  unfoldable pub captured : ℕ → List ℕ → CaptureEvent F → Action (Coordinator F S W P) (Unit {0})
  captured age available (started edge fraction) = on_started edge fraction available
  captured age available (input event) = on_captured_input age event
  captured age available (finished reason) = on_finished reason
  captured age available armed = modify (λ c. record c { capture_armed = true })
  captured age available ready = done

  -- An event of an earlier capture is dropped.
  unfoldable pub on_captured :
      (generation age : ℕ) → List ℕ → CaptureEvent F → Action (Coordinator F S W P) (Unit {0})
  on_captured generation age available event = do
    c ← get
    when (generation == c.generation && c.capture) (captured age available event)
