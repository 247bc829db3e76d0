-- ===== src/Bridge/Coordinator/Run.antt =====
-- src/bridge.rs, `coordinate_with_control`: the loop, what comes before it, and what comes after it
-- however it ends.
use niri_bridge.Prelude.{
  Result, ok, ℕ, String, Bool, true, false, not, Option, none, some, List, [], ◌∷◌,
}
use niri_bridge.Prelude.Action.{Action, ◌>>=◌, ◌>>◌, pure, fail, lift, get, attempt, finally}
use niri_bridge.Float.{Float}
use niri_bridge.Protocol.Message.{Message}
use niri_bridge.Touchpad.Descriptor.{Descriptor}
use niri_bridge.Control.Layout.{LogicalOutput, Desktop}
use niri_bridge.Input.Control.{disconnected}
use niri_bridge.Receiver as Receiver
use niri_bridge.Receiver.{InputSink, Receiver, new, stop, local_lock}
use niri_bridge.Bridge.Edges.{validate_edges}
use niri_bridge.Bridge.Role.{local}
use niri_bridge.Bridge.Coordinator.{
  World, Config, PendingLayout, Coordinator, is_some, change_world, with_receiver, send,
  stop_capture,
}
use niri_bridge.Bridge.Coordinator.Round.{begin_round}
use niri_bridge.Bridge.Coordinator.Tick.{on_tick}
use niri_bridge.Bridge.Coordinator.Commands.{Request, on_outputs, on_command, on_status}
use niri_bridge.Bridge.Coordinator.Captured.{CaptureEvent, on_captured}
use niri_bridge.Bridge.Coordinator.Frames.{on_frame}

-- What `select!` yields in a round: one of its branches, with the branch's value.
pub data Event (F : Type 0) : Type 0 where
  exit_signal : Event F
  outputs : Option (List (String × LogicalOutput F)) → Event F
  command : Option (Request F) → Event F
  changed : Result Bool → Event F
  tick : Result (Unit {0}) → Event F
  capture_event : (generation age : ℕ) → CaptureEvent F → Event F
  capture_closed : Event F
  frame : (age : ℕ) → Message F → Event F
  closed : Event F

module _ {F S W P : Type 0} ⦃fl : Float F⦄ (sk : InputSink F S) (w : World F W P) where
  unfoldable pub handle_event : List ℕ → Event F → Action (Coordinator F S W P) (Option Bool)
  handle_event available exit_signal = pure (some true)
  handle_event available (outputs none) = pure none
  handle_event available (outputs (some names)) = on_outputs sk w names >> pure none
  handle_event available (command none) = pure none
  handle_event available (command (some request)) = on_command sk w request >> pure none
  handle_event available (changed unlocked) = on_status sk w unlocked >> pure none
  handle_event available (tick waited) = on_tick sk w waited >> pure none
  handle_event available (capture_event generation age event) =
      on_captured sk w generation age available event >> pure none
  handle_event available capture_closed = fail "Capture event channel closed"
  handle_event available (frame age message) = on_frame sk w age available message
  handle_event available closed = fail "Paired connection closed or timed out"

  -- A round of the loop: `some again` where it returns `Ok(again)`.
  unfoldable pub round : Event F → Action (Coordinator F S W P) (Option Bool)
  round event = do available ← begin_round sk w; handle_event available event

  -- After a round: the return value, or the rest of the rounds.
  unfoldable pub go_on :
      Action (Coordinator F S W P) (Option Bool)
      → Option Bool
      → Action (Coordinator F S W P) (Option Bool)
  go_on rest (some again) = pure (some again)
  go_on rest none = rest

  -- The loop over the events of its rounds; `none` where it still runs after them.
  unfoldable pub loop : List (Event F) → Action (Coordinator F S W P) (Option Bool)
  loop [] = pure none
  loop (event ∷ events) = do again ← round event; go_on (loop events) again

  -- What comes before the loop: the peer is told of this side.
  unfoldable pub greet : List Descriptor → Action (Coordinator F S W P) (Unit {0})
  greet devices = do
    c ← get
    with_receiver (Receiver.local_lock sk (not c.local_ready))
    send sk w (Message.desktop c.desktop)
    send sk w (Message.touchpads devices)
    send sk w (Message.lock_state (not c.local_ready))

  -- What comes after the loop, with its outcome: the capture's error comes first, then the
  -- receiver's. A transaction that is still pending is dropped.
  unfoldable pub drop_pending : Option (PendingLayout P) → W → W
  drop_pending none s = s
  drop_pending (some p) s = w.drop_prepared p.prepared s

  unfoldable pub after_loop : Result (Option Bool) → Action (Coordinator F S W P) (Option Bool)
  after_loop outcome =
      finally
        (do
          released ← attempt (with_receiver (Receiver.stop sk disconnected))
          change_world w.suspend
          stopped ← attempt (stop_capture sk w)
          lift stopped
          lift released
          lift outcome)
        (λ c. record c { world = drop_pending c.pending_layout c.world })

  -- The initial state, over what is read before it.
  unfoldable pub start :
      Config F → Desktop F → Bool → Bool → (t u : ℕ) → S → W → Coordinator F S W P
  start config screens physical_keyboard local_ready t u sink world = record {
    config = config;
    desktop = screens;
    peer_desktop = none;
    pending_layout = none;
    pings = [];
    receiver = Receiver.new sink;
    physical_keyboard = physical_keyboard;
    source_keys = [];
    capture = false;
    capture_armed = false;
    capture_edges = [];
    desktop_epoch = 0;
    capture_epoch = 0;
    generation = 0;
    next_session = 1;
    role = local;
    local_ready = local_ready;
    peer_ready = false;
    peer_touchpads_configured = false;
    last_heartbeat = t;
    heartbeat = 0;
    rearm_at = u;
    world = world;
  }

  -- `coordinate_with_control` from the first message on: an error before the loop returns at once.
  unfoldable pub run : List Descriptor → List (Event F) → Action (Coordinator F S W P) (Option Bool)
  run devices events = do greet devices; outcome ← attempt (loop events); after_loop outcome

  -- What is read at the start, before any message.
  unfoldable pub open_session :
      Config F → Bool → S → W → Result (Coordinator F S W P × List Descriptor) × W
  open_session config local_ready sink = do
    lift (validate_edges config.edges)
    screens ← w.read_desktop
    devices ← w.prepare_touchpads
    s ← get
    t ← (λ s. let (t, s') = w.now s in (ok t, s'))
    u ← (λ s. let (t, s') = w.now s in (ok t, s'))
    world ← get
    pure (start config screens (is_some (w.keyboard_state s)) local_ready t u sink world, devices)
