-- ===== src/Bridge/Coordinator/Fresh.antt =====
-- src/bridge.rs, `coordinate_with_control`: input that is late or of another session.
use niri_bridge.Prelude.{ltb, Bool-cases, ensure, ℕ, ◌≡◌, refl, inl, inr, false, ◌&&◌, arith}
use niri_bridge.Prelude.Action.{◌>>=◌, ◌>>◌, done, lift, get, when, check}
use niri_bridge.Float.{Float}
use niri_bridge.Protocol.Event.{InputEvent}
use niri_bridge.Receiver.{InputSink}
use niri_bridge.Bridge.Coordinator.{World, Coordinator}
use niri_bridge.Bridge.Coordinator.Frames.{is_receiving_session, on_input}

module _ {F S W P : Type 0} ⦃fl : Float F⦄ (sk : InputSink F S) (w : World F W P) where
  -- Input of the peer that is 200 milliseconds old, or not of the session being received, changes
  -- nothing and reaches no one; the old one is an error, which ends the loop, and the other is not.
  pub on_input_ignored :
      (age session sequence : ℕ) (event : InputEvent F) (c : Coordinator F S W P)
      → (ltb age 200 && is_receiving_session sk w c.role session) ≡ false
      → on_input sk w age session sequence event c
        ≡ (ensure (ltb age 200) "Received input was delayed; restoring local control", c)
  unfolding on_input check lift get when done ◌>>=◌ ◌>>◌
  on_input_ignored age session sequence event c h = elim (Bool-cases (ltb age 200)) [
    | inr late ↦ rw late refl
    | inl fresh ↦ elim (Bool-cases (is_receiving_session sk w c.role session)) [
      | inr other ↦ rw (fresh, other) refl
      | inl here ↦ absurd (ground arith)
    ]
  ]
