-- ===== src/Touchpad/Router/Loop.antt =====
-- src/touchpad.rs, `Router`: what the loops over the touchpads keep.
use niri_bridge.Prelude.{Result, ok, err, ℕ, ◌+◌, ◌≡◌, refl, ap, List, [], ◌∷◌, map}
use niri_bridge.Prelude.All.{All}
use niri_bridge.Prelude.Action.{Action}
use niri_bridge.Touchpad.Physical.{Evdev}
use niri_bridge.Touchpad.Virtual.{Uinput}
use niri_bridge.Touchpad.Capture.{CapturedFrame, PhysicalTouchpad, View}
use niri_bridge.Touchpad.Router.{Shared, after_pad, each_pad}

module _ {W R D : Type 0} (kernel : Evdev W R) (uinput : Uinput W D) {A : Type 0}
    (step : ℕ → Action (View W R D) A) where
  module _ (P : PhysicalTouchpad R D → Type 0) (Q : List CapturedFrame → Type 0)
      (keeps : (index : ℕ) (v : View W R D)
        → P v.pad
        → Q v.pending
        → P (step index v).1.pad × Q (step index v).1.pending) where
    after_pad-keeps :
        (r : Result A) (p : PhysicalTouchpad R D) (pads : List (PhysicalTouchpad R D))
        (shared : Shared W)
        (rest : Shared W → Result (List A) × (List (PhysicalTouchpad R D) × Shared W))
        → P p
        → Q shared.0
        → All P pads
        → (All P (rest shared).1.0 × Q (rest shared).1.1.0)
        → let after = (after_pad kernel uinput r p pads shared rest).1 in
          All P after.0 × Q after.1.0
    after_pad-keeps (err e) p pads shared rest h k all others = ((h, all), k)
    after_pad-keeps (ok a) p pads shared rest h k all others = ((h, others.0), others.1)

    -- What a round keeps of its touchpad and of the frames that wait, the loop keeps of all.
    pub each_pad-keeps :
        (index : ℕ) (pads : List (PhysicalTouchpad R D)) (shared : Shared W)
        → All P pads
        → Q shared.0
        → let after = (each_pad kernel uinput step index pads shared).1 in
          All P after.0 × Q after.1.0
    unfolding each_pad
    each_pad-keeps index [] shared h k = (tt, k)
    each_pad-keeps index (p ∷ pads) shared h k =
        let start : View W R D = record { pad = p; pending = shared.0; world = shared.1 } in
        let (r, v) = step index start in
        let (hp, kp) = keeps index start h.0 k in
        after_pad-keeps r v.pad pads (v.pending, v.world)
          (each_pad kernel uinput step (index + 1) pads) hp kp h.1
          (each_pad-keeps (index + 1) pads (v.pending, v.world) h.1 kp)

  -- What a round leaves as it is in each touchpad, the loop does.
  module _ {B : Type 0} (f : PhysicalTouchpad R D → B)
      (same : (index : ℕ) (v : View W R D) → f (step index v).1.pad ≡ f v.pad) where
    after_pad-same :
        (r : Result A) (p q : PhysicalTouchpad R D) (pads : List (PhysicalTouchpad R D))
        (shared : Shared W)
        (rest : Shared W → Result (List A) × (List (PhysicalTouchpad R D) × Shared W))
        → f p ≡ f q
        → map f (rest shared).1.0 ≡ map f pads
        → map f (after_pad kernel uinput r p pads shared rest).1.0 ≡ f q ∷ map f pads
    after_pad-same (err e) p q pads shared rest h others = ap (λ b. b ∷ map f pads) h
    after_pad-same (ok a) p q pads shared rest h others = rw (h, others) refl

    pub each_pad-same :
        (index : ℕ) (pads : List (PhysicalTouchpad R D)) (shared : Shared W)
        → map f (each_pad kernel uinput step index pads shared).1.0 ≡ map f pads
    unfolding each_pad
    each_pad-same index [] shared = refl
    each_pad-same index (p ∷ pads) shared =
        let start : View W R D = record { pad = p; pending = shared.0; world = shared.1 } in
        let (r, v) = step index start in
        after_pad-same r v.pad p pads (v.pending, v.world)
          (each_pad kernel uinput step (index + 1) pads) (same index start)
          (each_pad-same (index + 1) pads (v.pending, v.world))
