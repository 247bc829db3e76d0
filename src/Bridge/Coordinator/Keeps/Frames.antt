-- ===== src/Bridge/Coordinator/Keeps/Frames.antt =====
-- src/bridge.rs, `coordinate_with_control`: the messages of the peer keep the invariant.
use niri_bridge.Prelude.{ℕ, Bool, none, List}
use niri_bridge.Prelude.Action.{◌>>◌, pure}
use niri_bridge.Float.{Float}
use niri_bridge.Protocol.Message.{Message}
use niri_bridge.Touchpad.Descriptor.{Descriptor}
use niri_bridge.Receiver as Receiver
use niri_bridge.Receiver.{InputSink, Receiver, configure_touchpads, begin, input, end}
use niri_bridge.Bridge.Coordinator.{World}
use niri_bridge.Receiver.Safe.{IsHonest}
use niri_bridge.Prelude.Triple.{Leads, seq, returns, skips}
use niri_bridge.Bridge.Coordinator.View.{
  Safe, Sound, IsQuiet, bind-IsQuiet, seq-IsQuiet, fail-IsQuiet, get-IsQuiet, check-IsQuiet,
  with_receiver-IsQuiet, modify-IsQuiet,
}
use niri_bridge.Bridge.Coordinator.Steps.{from_Sound, Sound-quietly, send-IsQuiet}
use niri_bridge.Receiver.Held.{configure_touchpads-IsSafe}
use niri_bridge.Receiver.Leaves.{configure_touchpads-session}
use niri_bridge.Bridge.Coordinator.Frames.{on_desktop, on_touchpads, handle, on_frame}
use niri_bridge.Bridge.Coordinator.Keeps.Locks.{on_lock_state_lem}
use niri_bridge.Bridge.Coordinator.Keeps.Begins.{on_begin_lem}
use niri_bridge.Bridge.Coordinator.Keeps.Inputs.{on_input_lem}
use niri_bridge.Bridge.Coordinator.Keeps.Ends.{on_end_lem}
use niri_bridge.Bridge.Coordinator.Keeps.Layouts.{on_layout_lem}

module _ {F S W P : Type 0} ⦃fl : Float F⦄ (sk : InputSink F S) (down : S → ℕ → Bool)
    (honest : IsHonest sk down) (w : World F W P) where
  on_touchpads-IsQuiet :
      (devices : List Descriptor) → IsQuiet {W = W} {P = P} down (on_touchpads sk w devices)
  unfolding on_touchpads
  on_touchpads-IsQuiet devices = bind-IsQuiet down (get-IsQuiet down) (λ c.
      seq-IsQuiet down (check-IsQuiet down _ "Touchpad negotiation was repeated") (
        seq-IsQuiet down
          (with_receiver-IsQuiet down (Receiver.configure_touchpads sk devices)
            (λ r. configure_touchpads-IsSafe sk down honest devices r)
            (λ r. configure_touchpads-session sk r devices))
          (modify-IsQuiet down _ (λ v d h. record { safe = h.safe; sees = h.sees }))))

  handle_lem :
      (age : ℕ) (available : List ℕ) (message : Message F)
      → Leads (Safe down) (Sound down) (handle sk w age available message) (λ _. Sound down)
  unfolding handle on_desktop
  handle_lem age available (Message.desktop info) =
      Sound-quietly down (modify-IsQuiet down _ (λ v d h. record { safe = h.safe; sees = h.sees }))
  handle_lem age available (Message.layout message) = skips (λ c h. h)
  handle_lem age available (Message.touchpads devices) =
      Sound-quietly down (on_touchpads-IsQuiet devices)
  handle_lem age available (Message.hello version) = Sound-quietly down (fail-IsQuiet down _)
  handle_lem age available (Message.ping nonce) =
      Sound-quietly down (send-IsQuiet down sk honest w _)
  handle_lem age available (Message.pong nonce) =
      Sound-quietly down (modify-IsQuiet down _ (λ v d h. record { safe = h.safe; sees = h.sees }))
  handle_lem age available (Message.lock_state locks) =
      from_Sound down (λ v valid. on_lock_state_lem sk down honest w locks v valid)
  handle_lem age available (Message.begin session entry) =
      on_begin_lem sk down honest w session entry available
  handle_lem age available (Message.input session sequence event) =
      on_input_lem sk down honest w age session sequence event
  handle_lem age available (Message.end session exit) =
      on_end_lem sk down honest w session exit available

  others_lem :
      {B : Type 0} (b : B) (age : ℕ) (available : List ℕ) (message : Message F)
      → Leads
          (Safe down)
          (Sound down)
          (handle sk w age available message >> pure b)
          (λ _. Sound down)
  others_lem b age available message =
      seq (Safe down) (handle_lem age available message) (returns b (λ c h. h))

  pub on_frame_lem :
      (age : ℕ) (available : List ℕ) (message : Message F)
      → Leads (Safe down) (Sound down) (on_frame sk w age available message) (λ _. Sound down)
  unfolding on_frame
  on_frame_lem age available (Message.layout message) = on_layout_lem sk down honest w message
  on_frame_lem age available (Message.desktop info) = others_lem none age available _
  on_frame_lem age available (Message.touchpads devices) = others_lem none age available _
  on_frame_lem age available (Message.hello version) = others_lem none age available _
  on_frame_lem age available (Message.ping nonce) = others_lem none age available _
  on_frame_lem age available (Message.pong nonce) = others_lem none age available _
  on_frame_lem age available (Message.lock_state locks) = others_lem none age available _
  on_frame_lem age available (Message.begin session entry) = others_lem none age available _
  on_frame_lem age available (Message.input session sequence event) =
      others_lem none age available _
  on_frame_lem age available (Message.end session exit) = others_lem none age available _
