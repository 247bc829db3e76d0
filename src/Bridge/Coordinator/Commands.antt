-- ===== src/Bridge/Coordinator/Commands.antt =====
-- src/bridge.rs, `coordinate_with_control`: new outputs, commands, and the state of the session.
use niri_bridge.Prelude.{Result, ok, err, context, ◌+◌, String, Bool, true, ◌&&◌, not, some, List}
use niri_bridge.Prelude.Action.{
  Action, ◌>>=◌, ◌>>◌, done, lift, get, modify, when, check, attempt, on_error,
}
use niri_bridge.Prelude.Text.{◌==ₛ◌}
use niri_bridge.Float.{Float}
use niri_bridge.Protocol.Message.{Message}
use niri_bridge.Control.Layout as Layout
use niri_bridge.Control.Layout.{LogicalOutput, LayoutRequest, prepare, prepared, validate_request}
use niri_bridge.Receiver as Receiver
use niri_bridge.Receiver.{InputSink, Receiver, local_lock}
use niri_bridge.Bridge.Edges.{EdgeConfig}
use niri_bridge.Bridge.Role.{local, session_of}
use niri_bridge.Bridge.Coordinator.{
  success, failure, World, Coordinator, wrapping_next, is_some, in_world, with_world, change_world,
  with_receiver, set_role, send, rearm, stop_capture, place_back, send_end, leave,
}

-- The requests that reach the coordinator.
pub data Request (F : Type 0) : Type 0 where
  status : Request F
  release : Request F
  apply_layout : LayoutRequest F → Request F

module _ {F S W P : Type 0} ⦃fl : Float F⦄ (sk : InputSink F S) (w : World F W P) where
  unfoldable pub on_outputs :
      List (String × LogicalOutput F) → Action (Coordinator F S W P) (Unit {0})
  on_outputs outputs = do
    modify (λ c. record c {
      desktop_epoch = wrapping_next c.desktop_epoch;
      desktop = record c.desktop { outputs = outputs };
    })
    c ← get
    send sk w (Message.desktop c.desktop)

  unfoldable pub on_release : Action (Coordinator F S W P) (Unit {0})
  on_release = do
    c ← get
    leave sk w (session_of c.role)
    stop_capture sk w
    place_back sk w c.role
    set_role local
    rearm sk w
    change_world (w.reply success)

  -- The checks of both sides before an edit of the edges is prepared.
  unfoldable pub check_idle : Action (Coordinator F S W P) (Unit {0})
  check_idle = do
    c ← get
    check (not (is_some c.pending_layout)) "settings_busy"
    check (c.local_ready && c.peer_ready) "session_locked"

  unfoldable pub open_edit : String → List (EdgeConfig F) → Action (Coordinator F S W P) P
  open_edit revision edges = do
    c ← get
    path ← lift (context c.config.source_path "config_invalid")
    in_world (w.prepare_edges path revision edges)

  -- The closure of `ApplyLayout`.
  unfoldable pub prepare_request : LayoutRequest F → Action (Coordinator F S W P) P
  prepare_request request = do
    check_idle
    lift (Layout.validate_request request)
    c ← get
    peer ← lift (context c.peer_desktop "peer_offline")
    check (peer.revision ==ₛ request.peer_revision) "settings_conflict"
    open_edit request.local_revision request.local_edges

  -- Input and capture end before a layout changes.
  unfoldable pub go_local : Action (Coordinator F S W P) (Unit {0})
  go_local = do c ← get; leave sk w (session_of c.role); stop_capture sk w; set_role local

  unfoldable pub drop_edit : P → Coordinator F S W P → Coordinator F S W P
  drop_edit edit c = record c { world = w.drop_prepared edit c.world }

  unfoldable pub set_pending : String → P → Bool → Action (Coordinator F S W P) (Unit {0})
  set_pending id edit replies = do
    t ← with_world w.now
    modify (λ c. record c {
      pending_layout =
          some (record { id = id; prepared = edit; replies = replies; deadline = t + 6000 });
    })

  unfoldable pub begin_edit : P → Action (Coordinator F S W P) String
  begin_edit edit = on_error (go_local >> in_world w.transaction_id) (drop_edit edit)

  unfoldable pub apply_prepared :
      LayoutRequest F → Result P → Action (Coordinator F S W P) (Unit {0})
  apply_prepared request (err e) = change_world (w.reply (failure (w.error_code e)))
  apply_prepared request (ok edit) = do
    id ← begin_edit edit
    set_pending id edit true
    send sk w (Message.layout (Layout.prepare id request.peer_edges request.peer_revision))

  unfoldable pub on_command : Request F → Action (Coordinator F S W P) (Unit {0})
  on_command status = done
  on_command release = on_release
  on_command (apply_layout request) = do
    edit ← attempt (prepare_request request)
    apply_prepared request edit

  unfoldable pub locked_out : Action (Coordinator F S W P) (Unit {0})
  locked_out = do
    change_world w.suspend
    c ← get
    send_end sk w (session_of c.role)
    set_role local
    stop_capture sk w

  -- The local session was unlocked, or not.
  unfoldable pub changed_to : Bool → Action (Coordinator F S W P) (Unit {0})
  changed_to ready = do
    modify (λ c. record c { local_ready = ready })
    with_receiver (Receiver.local_lock sk (not ready))
    send sk w (Message.lock_state (not ready))
    when (not ready) locked_out

  unfoldable pub on_status : Result Bool → Action (Coordinator F S W P) (Unit {0})
  on_status unlocked = do ready ← lift unlocked; changed_to ready
