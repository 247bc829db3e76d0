-- ===== src/Bridge/Coordinator.antt =====
-- src/bridge.rs: the state of `coordinate_with_control`, what surrounds it, and its common steps.
pub mod Round
pub mod Commands
pub mod Tick
pub mod Captured
pub mod Layouts
pub mod Frames
pub mod Run
pub mod View
pub mod Steps
pub mod Sending
pub mod Keeps
pub mod Ending
pub mod Safety
pub mod Emergency
pub mod Entry
pub mod Fresh
pub mod Pings
use niri_bridge.Prelude.{
  if◌then◌else◌, get_elem?, Result, ok, context, ℕ, ◌+◌, ◌%◌, String, Bool, true, false, Option,
  none, some, List, [], ◌∷◌,
}
use niri_bridge.Prelude.Action.{Action, ◌>>=◌, ◌>>◌, pure, done, fail, lift, get, modify, when}
use niri_bridge.Prelude.Text.{◌==ₛ◌}
use niri_bridge.Float.{Float}
use niri_bridge.Geometry.{Rect}
use niri_bridge.Geometry.Point.{point_at}
use niri_bridge.Protocol.Event.{InputEvent, absolute}
use niri_bridge.Protocol.Message.{Message}
use niri_bridge.Touchpad.Descriptor.{Descriptor}
use niri_bridge.Control.Layout.{LogicalOutput, Desktop}
use niri_bridge.Receiver as Receiver
use niri_bridge.Receiver.{InputSink, Receiver, checked_next, input, end, position_on}
use niri_bridge.Bridge.Edges.{EdgeConfig}
use niri_bridge.Bridge.Role.{Role, local, sending, receiving, forward_keyboard}

-- What a command is answered: success, or a code of failure.
pub data Reply : Type 0 where
  success : Reply
  failure : (code : String) → Reply

-- What the coordinator calls: the connection, the clock, the activity source, the capture worker,
-- the desktop and the configuration's editor, over states `W`. `P` is a prepared edit.
pub record World (F W P : Type 0) : Type 0 where
  pub send : Message F → W → Result (Unit {0}) × W
  -- `Instant::now`, in milliseconds.
  pub now : W → ℕ × W
  pub sample : W → Result Bool × W
  pub suspend : W → W
  pub keyboard_state : W → Option (List ℕ)
  pub take_keyboard_events : W → List (InputEvent F) × W
  pub take_touchpad_events : W → List (InputEvent F) × W
  pub prepare_touchpads : W → Result (List Descriptor) × W
  pub route_touchpads : Bool → W → Result (List (InputEvent F)) × W
  -- `CaptureTask::start`, `stop` and `finished`, and whether its channel is empty.
  pub start_task : List (EdgeConfig F) → ℕ → W → W
  pub stop_task : W → Result (Unit {0}) × W
  pub task_finished : W → Bool
  pub channel_empty : W → Bool
  -- `desktop::outputs`, by name; a disabled output has no logical one.
  pub outputs : W → Result (List (String × Option (LogicalOutput F))) × W
  -- `control::Desktop::read`
  pub read_desktop : W → Result (Desktop F) × W
  pub prepare_edges : String → String → List (EdgeConfig F) → W → Result P × W
  pub commit : P → W → Result (Unit {0}) × P × W
  pub finish : P → W → W
  pub drop_prepared : P → W → W
  pub after_revision : P → String
  pub transaction_id : W → Result String × W
  pub error_code : String → String
  pub reply : Reply → W → W

-- The fields of `Config` that the coordinator reads.
pub record Config (F : Type 0) : Type 0 where
  pub edges : List (EdgeConfig F)
  pub source_path : Option String

-- `replies`: the sender of a local command's reply is held.
pub record PendingLayout (P : Type 0) : Type 0 where
  pub id : String
  pub prepared : P
  pub replies : Bool
  pub deadline : ℕ

pub record Coordinator (F S W P : Type 0) : Type 0 where
  pub config : Config F
  pub desktop : Desktop F
  pub peer_desktop : Option (Desktop F)
  pub pending_layout : Option (PendingLayout P)
  pub pings : List (ℕ × ℕ)
  pub receiver : Receiver S
  pub physical_keyboard : Bool
  pub source_keys : List ℕ
  -- Whether there is a capture task.
  pub capture : Bool
  pub capture_armed : Bool
  pub capture_edges : List ℕ
  pub desktop_epoch : ℕ
  pub capture_epoch : ℕ
  pub generation : ℕ
  pub next_session : ℕ
  pub role : Role F
  pub local_ready : Bool
  pub peer_ready : Bool
  pub peer_touchpads_configured : Bool
  pub last_heartbeat : ℕ
  pub heartbeat : ℕ
  pub rearm_at : ℕ
  pub world : W

-- `wrapping_add(1)` on `u64`
abbrev pub wrapping_next : ℕ → ℕ
wrapping_next n = (n + 1) % 18446744073709551616

abbrev pub is_local_role : {F : Type 0} → Role F → Bool
is_local_role local = true
is_local_role _ = false

abbrev pub is_sending_role : {F : Type 0} → Role F → Bool
is_sending_role (sending session sequence edge fraction) = true
is_sending_role _ = false

abbrev pub is_receiving_role : {F : Type 0} → Role F → Bool
is_receiving_role (receiving session) = true
is_receiving_role _ = false

abbrev pub is_some {ℓ} : {A : Type ℓ} → Option A → Bool
is_some none = false
is_some (some a) = true

-- `outputs.remove(name)`
abbrev pub find_output :
    {F : Type 0}
    → List (String × Option (LogicalOutput F))
    → String
    → Option (Option (LogicalOutput F))
find_output [] name = none
find_output ((n, o) ∷ outputs) name = if name ==ₛ n then some o else find_output outputs name

module _ {F S W P : Type 0} where
  -- A call of what surrounds the coordinator.
  unfoldable pub in_world : {A : Type 0} → (W → Result A × W) → Action (Coordinator F S W P) A
  in_world f c = let (r, w) = f c.world in (r, record c { world = w })

  unfoldable pub with_world : {A : Type 0} → (W → A × W) → Action (Coordinator F S W P) A
  with_world f c = let (a, w) = f c.world in (ok a, record c { world = w })

  unfoldable pub change_world : (W → W) → Action (Coordinator F S W P) (Unit {0})
  change_world f c = (ok tt, record c { world = f c.world })

  unfoldable pub with_receiver :
      {A : Type 0} → (Receiver S → Result A × Receiver S) → Action (Coordinator F S W P) A
  with_receiver f c = let (r, receiver) = f c.receiver in (r, record c { receiver = receiver })

  unfoldable pub set_role : Role F → Action (Coordinator F S W P) (Unit {0})
  set_role role c = (ok tt, record c { role = role })

  -- `config.edges[index]`; the panic on an index out of range is an error.
  unfoldable pub edge_at : ℕ → Action (Coordinator F S W P) (EdgeConfig F)
  edge_at index c = (context (get_elem? c.config.edges index) "index out of bounds", c)

  unfoldable pub edges_at : List ℕ → Action (Coordinator F S W P) (List (EdgeConfig F))
  edges_at [] = pure []
  edges_at (index ∷ indices) = do
    edge ← edge_at index
    edges ← edges_at indices
    pure (edge ∷ edges)

module _ {F S W P : Type 0} ⦃fl : Float F⦄ (sk : InputSink F S) (w : World F W P) where
  unfoldable pub send : Message F → Action (Coordinator F S W P) (Unit {0})
  send message = in_world (w.send message)

  -- `rearm_at = Instant::now() + Duration::from_millis(150)`
  unfoldable pub rearm : Action (Coordinator F S W P) (Unit {0})
  rearm = do t ← with_world w.now; modify (λ c. record c { rearm_at = t + 150 })

  unfoldable pub drop_task : Action (Coordinator F S W P) (Unit {0})
  drop_task = modify (λ c. record c { capture = false })

  -- `stop_capture`: the task is taken first.
  unfoldable pub stop_capture : Action (Coordinator F S W P) (Unit {0})
  stop_capture = do c ← get; when c.capture (drop_task >> in_world w.stop_task)

  abbrev pub screen_of : LogicalOutput F → Rect F
  screen_of o = record {
    x = fl.of_ℕ 0;
    y = fl.of_ℕ 0;
    width = fl.of_ℕ o.width;
    height = fl.of_ℕ o.height;
  }

  unfoldable pub placement : EdgeConfig F → F → Action (Coordinator F S W P) (InputEvent F)
  placement edge fraction = do
    outputs ← in_world w.outputs
    output ← lift (context (find_output outputs edge.output) "Boundary output disappeared")
    logical ← lift (context output "Boundary output is disabled")
    point ← lift (point_at edge.boundary (screen_of logical) fraction (fl.of_ℕ 4))
    pure (absolute (fl.to_u32 point.0) (fl.to_u32 point.1) logical.width logical.height)

  unfoldable pub place : EdgeConfig F → F → Action (Coordinator F S W P) (Unit {0})
  place edge fraction = do
    event ← placement edge fraction
    with_receiver (Receiver.position_on sk edge.output event)

  -- `if let Role::Sending { edge, fraction, .. } = role { place(...)? }`
  unfoldable pub place_back : Role F → Action (Coordinator F S W P) (Unit {0})
  place_back local = done
  place_back (sending session sequence edge fraction) = do
    selected ← edge_at edge
    place selected fraction
  place_back (receiving session) = done

  -- `if let Some(session) = role.session() { send(End) }`
  unfoldable pub send_end : Option ℕ → Action (Coordinator F S W P) (Unit {0})
  send_end none = done
  send_end (some session) = send (Message.end session none)

  -- The same, after the receiver has left the session.
  unfoldable pub leave : Option ℕ → Action (Coordinator F S W P) (Unit {0})
  leave none = done
  leave (some session) = do with_receiver (Receiver.end sk session); send (Message.end session none)

  -- `*sequence = sequence.checked_add(1).context(...)?` in a sending role.
  unfoldable pub next_sequence : Option ℕ → ℕ → ℕ → F → Action (Coordinator F S W P) (Unit {0})
  next_sequence none session edge fraction = fail "Input sequence exhausted"
  next_sequence (some next) session edge fraction = set_role (sending session next edge fraction)

  -- `if let Role::Sending { .. } = &mut role { send(Input)?; ... }`
  unfoldable pub send_as : Role F → InputEvent F → Action (Coordinator F S W P) (Unit {0})
  send_as local event = done
  send_as (receiving session) event = done
  send_as (sending session sequence edge fraction) event = do
    send (Message.input session sequence event)
    next_sequence (checked_next sequence) session edge fraction

  unfoldable pub send_input : InputEvent F → Action (Coordinator F S W P) (Unit {0})
  send_input event = do c ← get; send_as c.role event

  -- `forward_keyboard` on the coordinator's role, keys and connection.
  unfoldable pub forward : InputEvent F → Action (Coordinator F S W P) Bool
  forward event c =
      let (r, s) =
        forward_keyboard w.send event
          (record { role = c.role; held = c.source_keys; writer = c.world }) in
      (r, record c { role = s.role; source_keys = s.held; world = s.writer })
