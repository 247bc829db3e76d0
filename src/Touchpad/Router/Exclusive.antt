-- ===== src/Touchpad/Router/Exclusive.antt =====
-- src/touchpad.rs, `Router::sample`: a frame goes to the peer or to the local mirror, never to both.
use niri_bridge.Prelude.{List, [], ◌∷◌, map}
use niri_bridge.Prelude.All.{All}
use niri_bridge.Touchpad.Physical.{Evdev}
use niri_bridge.Touchpad.Virtual.{Uinput, VirtualTouchpad}
use niri_bridge.Touchpad.Capture.{PhysicalTouchpad}
use niri_bridge.Touchpad.Router.{Router}

module _ {W R D : Type 0} (kernel : Evdev W R) (uinput : Uinput W D) where
  abbrev pub mirrors : List (PhysicalTouchpad R D) → List (VirtualTouchpad D)
  mirrors pads = map (λ (p : PhysicalTouchpad R D). p.mirror) pads

  pub everything : (pads : List (PhysicalTouchpad R D)) → All (λ _. Unit {0}) pads
  everything [] = tt
  everything (p ∷ pads) = (tt, everything pads)
