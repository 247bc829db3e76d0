-- ===== src/Bridge/Coordinator/Emergency.antt =====
-- src/bridge.rs, `coordinate_with_control`: the emergency chord.
use niri_bridge.Prelude.{ℕ, ◌≡◌, Bool, false, none}
use niri_bridge.Prelude.Action.{Action}
use niri_bridge.Float.{Float}
use niri_bridge.Receiver.{InputSink}
use niri_bridge.Bridge.Role.{local}
use niri_bridge.Bridge.Coordinator.{World, Coordinator}
use niri_bridge.Receiver.Safe.{IsHonest}
use niri_bridge.Bridge.Coordinator.View.{View, Safe}

module _ {F S W P : Type 0} ⦃fl : Float F⦄ (sk : InputSink F S) (down : S → ℕ → Bool)
    (honest : IsHonest sk down) (w : World F W P) where
  -- At home: in no session, without a capture.
  abbrev AtHome : Coordinator F S W P → Type 0
  AtHome c = (c.role ≡ local) × (c.receiver.session ≡ none) × (c.capture ≡ false)
