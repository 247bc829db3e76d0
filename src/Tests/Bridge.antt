-- ===== src/Tests/Bridge.antt =====
-- Runs of the coordinator, over a connection that keeps what is sent and a clock that stands.
use niri_bridge.Prelude.{
  Result, ok, ℕ, String, ◌≡◌, refl, Bool, true, false, Option, none, some, List, [], ◌∷◌, ◌++◌,
}
use niri_bridge.Prelude.Action as Action
use niri_bridge.Prelude.Action.{
  Action, ◌>>=◌, ◌>>◌, pure, done, lift, get, modify, when, check, attempt, finally, each,
}
use niri_bridge.Prelude.Sets.{contains}
use niri_bridge.Prelude.Int.{pos}
use niri_bridge.Prelude.Triple.{After}
use niri_bridge.Protocol.Event as Event
use niri_bridge.Protocol.Event.{key, held_transition, is_absolute}
use niri_bridge.Protocol.Message.{Message}
use niri_bridge.Geometry as Geometry
use niri_bridge.Geometry.Point as Point
use niri_bridge.Input.Control as Control
use niri_bridge.Control.Layout.{normal, LogicalOutput, Desktop}
use niri_bridge.Bridge.Edges.{EdgeConfig}
use niri_bridge.Bridge.Role as Role
use niri_bridge.Bridge.Active as Active
use niri_bridge.Receiver as Receiver
use niri_bridge.Receiver.{
  InputSink, default_sink, Receiver, new, checked_next, release, configure_touchpads,
}
use niri_bridge.Receiver.Safe.{IsHonest}
use niri_bridge.Bridge.Coordinator as Coordinator
use niri_bridge.Bridge.Coordinator.{
  World, Config, Coordinator, in_world, with_world, change_world, with_receiver, set_role, edge_at,
  edges_at, send, drop_task, stop_capture, placement, place,
}
use niri_bridge.Bridge.Coordinator.Run as Run
use niri_bridge.Bridge.Coordinator.Round as Round
use niri_bridge.Bridge.Coordinator.Frames as Frames
use niri_bridge.Bridge.Coordinator.View.{Safe, Sound}
use niri_bridge.Bridge.Coordinator.Safety.{loop-Sound, run_ends, run_clean}
use niri_bridge.Tests.Backend.{whole_numbers, Board, is_down, board, board-IsHonest}

abbrev logical : LogicalOutput ℕ
logical = record {
  x = pos 0;
  y = pos 0;
  width = 1920;
  height = 1080;
  scale = 1;
  transform = normal;
}

abbrev edge : EdgeConfig ℕ
edge = record {
  id = "desk";
  output = "DP-1";
  boundary = record { edge = Geometry.right; start = 0; end = 1 };
}

abbrev desk : Desktop ℕ
desk = record { edges = edge ∷ []; revision = "r"; outputs = ("DP-1", logical) ∷ [] }

-- What is sent, from the last message to the first.
abbrev Sent : Type 0
Sent = List (Message ℕ)

abbrev calm : World ℕ Sent String
calm = record {
  send = λ m s. (ok tt, m ∷ s);
  now = λ s. (1000, s);
  sample = λ s. (ok false, s);
  suspend = λ s. s;
  keyboard_state = λ s. none;
  take_keyboard_events = λ s. ([], s);
  take_touchpad_events = λ s. ([], s);
  prepare_touchpads = λ s. (ok [], s);
  route_touchpads = λ b s. (ok [], s);
  start_task = λ edges generation s. s;
  stop_task = λ s. (ok tt, s);
  task_finished = λ s. false;
  channel_empty = λ s. true;
  outputs = λ s. (ok (("DP-1", some logical) ∷ []), s);
  read_desktop = λ s. (ok desk, s);
  prepare_edges = λ path revision edges s. (ok revision, s);
  commit = λ p s. (ok tt, p, s);
  finish = λ p s. s;
  drop_prepared = λ p s. s;
  after_revision = λ p. p;
  transaction_id = λ s. (ok "id", s);
  error_code = λ e. e;
  reply = λ r s. s;
}

-- The peer presents itself, is unlocked, begins a session and presses two keys.
abbrev shared : List (Run.Event ℕ)
shared =
    Run.frame 0 (Message.touchpads [])
    ∷ Run.frame 0 (Message.desktop desk)
    ∷ Run.frame 0 (Message.lock_state false)
    ∷ Run.frame 0 (Message.begin 7 (record { edge_id = "desk"; fraction = 0 }))
    ∷ Run.frame 0 (Message.input 7 0 (key 30 true))
    ∷ Run.frame 0 (Message.input 7 1 (key 31 true))
    ∷ []

-- The backend of the other tests, on which an output can be selected.
abbrev screens : InputSink ℕ Board
screens = record board { select_output = λ output b. (ok tt, b) }

screens-IsHonest : IsHonest screens is_down
screens-IsHonest = record {
  emit_presses = board-IsHonest.emit_presses;
  emit_releases = board-IsHonest.emit_releases;
  poll_keeps = board-IsHonest.poll_keeps;
  select_keeps = λ output b c h. h;
  configure_keeps = board-IsHonest.configure_keeps;
  reset_keeps = board-IsHonest.reset_keeps;
}

abbrev config : Config ℕ
config = record { edges = edge ∷ []; source_path = none }

abbrev begins : ℕ → Coordinator ℕ Board Sent String
begins left =
    Run.start screens calm config desk false true 1000 1000 (record { left = left; codes = [] }) []

abbrev shared_run : Result (Option Bool) × Coordinator ℕ Board Sent String
shared_run = Run.run screens calm [] (shared ++ Run.exit_signal ∷ []) (begins 9)

loop-Sound_example :
    After
      (Safe is_down)
      (λ _. Sound is_down)
      ((Run.greet screens calm [] >> Run.loop screens calm shared) (begins 9))
loop-Sound_example =
    loop-Sound screens is_down screens-IsHonest calm config desk false true 1000 1000
      (record { left = 9; codes = [] }) [] (λ c. refl) [] shared

run_ends_example :
    let r = (Run.run screens calm [] shared (begins 2)).1.receiver in
    (r.session ≡ none) × (is_down r.sink 30 ≡ true → contains r.pending_releases 30 ≡ true)
run_ends_example =
    run_ends screens is_down screens-IsHonest calm config desk false true 1000 1000
      (record { left = 2; codes = [] }) [] (λ c. refl) [] shared 30

run_clean_example : is_down shared_run.1.receiver.sink 30 ≡ false
unfolding Run.run Run.greet Run.loop Run.go_on Run.round Run.handle_event Run.after_loop Run.start
    Run.drop_pending Round.begin_round Round.try_capture Round.start_capture Round.end_outdated
    Frames.on_frame Frames.handle Frames.on_touchpads Frames.on_desktop Frames.on_lock_state
    Frames.on_begin Frames.enter_at Frames.is_idle Frames.enter_if Frames.enter Frames.on_input
    Frames.accept Coordinator.in_world Coordinator.with_world Coordinator.change_world
    Coordinator.with_receiver Coordinator.set_role Coordinator.edge_at Coordinator.edges_at
    Coordinator.send Coordinator.drop_task Coordinator.stop_capture Coordinator.placement
    Coordinator.place ◌>>=◌ ◌>>◌ Action.pure Action.done Action.lift Action.get Action.modify
    Action.when Action.check Action.attempt Action.finally Action.each Receiver.new Receiver.begin
    Receiver.input Receiver.stop Receiver.local_lock Receiver.peer_lock Receiver.position_on
    Receiver.configure_touchpads Receiver.default_sink Control.initial Control.start Control.stop
    Control.press Control.local_lock_changed Control.peer_lock_changed Event.validate
    Event.held_transition Event.release Point.point_at Geometry.validate Geometry.validate_rect
    Role.session_of Active.active_edges Event.is_absolute Receiver.checked_next
run_clean_example =
    run_clean screens is_down screens-IsHonest calm config desk false true 1000 1000
      (record { left = 9; codes = [] }) [] (λ c. refl) [] (shared ++ Run.exit_signal ∷ [])
      (some true) 30 refl

-- Within a sending session, with Ctrl, Shift and Alt down.
abbrev typing : Coordinator ℕ Board Sent String
typing = record (begins 9) {
  role = Role.sending 7 4 0 1;
  source_keys = 29 ∷ 42 ∷ 56 ∷ [];
  peer_ready = true;
  pings = (0, 900) ∷ [];
}
