-- ===== src/Touchpad/Virtual.antt =====
-- src/touchpad.rs, `VirtualTouchpad`: a uinput device that replays a touchpad's frames.
use niri_bridge.Prelude.Int.{ℤ, minus_one}
use niri_bridge.Prelude.Sets.{extend}
use niri_bridge.Prelude.{
  leb, ◌==◌, if◌then◌else◌, Result, ℕ, ◌-◌, min, max, String, ◌&&◌, Option, none, some, List, [],
  ◌∷◌,
}
use niri_bridge.Prelude.Action.{Action, ◌>>=◌, ◌>>◌, pure, fail, lift, get, modify, check}
use niri_bridge.Touchpad.Event.{Event, tracking, KernelEvent, kernel_events}
use niri_bridge.Touchpad.Descriptor.{AxisInfo, Descriptor, validate, validate_device_frame}
use niri_bridge.Touchpad.Descriptor as Descriptor
use niri_bridge.Touchpad.Clock.{RemoteClock, unset, map_time}
use niri_bridge.Touchpad.State.{TouchState, new, apply, releases}
use niri_bridge.Touchpad.State as State
pub mod Fitting
pub mod Capable
pub mod Releasing
pub mod Emitting

-- What a uinput device is built of: its axes each with the value that it starts with.
pub record Setup : Type 0 where
  pub name : String
  pub phys : String
  pub keys : List ℕ
  pub properties : List ℕ
  pub axes : List (ℤ × AxisInfo)

unfoldable pub setup_axes : List AxisInfo → List (ℤ × AxisInfo)
setup_axes [] = []
setup_axes (a ∷ as') = (if a.code == tracking then minus_one else a.minimum, a) ∷ setup_axes as'

unfoldable pub setup : Descriptor → Setup
setup d = record {
  name = "NiriBridge Virtual Touchpad";
  phys = "niri-bridge/touchpad";
  keys = extend [] d.keys;
  properties = extend [] d.properties;
  axes = setup_axes d.axes;
}

-- The kernel's part: `W` is what it keeps, and `D` a uinput device. `build` makes a device and
-- waits for the compositor, `monotonic_us` reads the clock, and `emit` writes a frame of events.
pub record Uinput (W D : Type 0) : Type 0 where
  pub build : Setup → W → Result D × W
  pub monotonic_us : W → Result ℕ × W
  pub emit : D → List KernelEvent → W → Result (Unit {0}) × W

pub record VirtualTouchpad (D : Type 0) : Type 0 where
  pub device : D
  pub descriptor : Descriptor
  pub state : TouchState
  pub remote_clock : RemoteClock
  pub last_time : ℕ

module _ {W D : Type 0} (k : Uinput W D) where
  unfoldable pub create : Descriptor → Action W (VirtualTouchpad D)
  create d = do
    lift (Descriptor.validate d)
    device ← k.build (setup d)
    pure (record {
      device = device;
      descriptor = d;
      state = State.new d;
      remote_clock = unset;
      last_time = 0;
    })

  -- A touchpad and the kernel that it is in.
  abbrev Pad : Type 0
  Pad = VirtualTouchpad D × W

  -- An action of the kernel alone.
  abbrev pub kernel : {A : Type 0} → Action W A → Action Pad A
  kernel action (pad, w) = let (r, w') = action w in (r, (pad, w'))

  -- `self.state.apply(events)`. Where it would panic this fails, with the state as it was.
  abbrev pub applied : Option TouchState → Action Pad (Unit {0})
  applied none = fail "index out of bounds"
  applied (some state) = modify (λ s. (record s.0 { state = state }, s.1))

  unfoldable pub emit_at : List Event → ℕ → Action Pad (Unit {0})
  emit_at events time_us = do
    s ← get
    lift (validate_device_frame s.0.descriptor events)
    now ← kernel k.monotonic_us
    check (leb time_us now && leb (now - time_us) 200000)
        "Touchpad input became too delayed; restoring local control"
    let time = min (max time_us s.0.last_time) now
    kernel (k.emit s.0.device (kernel_events time events))
    modify (λ s. (record s.0 { last_time = time }, s.1))
    applied (apply events s.0.state)

  unfoldable pub emit : List Event → Action Pad (Unit {0})
  emit events = do now ← kernel k.monotonic_us; emit_at events now

  unfoldable pub emit_remote : List Event → ℕ → Action Pad (Unit {0})
  emit_remote events time_us = do
    now ← kernel k.monotonic_us
    s ← get
    let (local, clock) = map_time s.0.remote_clock time_us now
    modify (λ s. (record s.0 { remote_clock = clock }, s.1))
    emit_at events local

  unfoldable pub reset : Action Pad (Unit {0})
  reset = do
    s ← get
    emit (releases s.0.state)
    modify (λ s. (record s.0 { state = State.new s.0.descriptor; remote_clock = unset }, s.1))

  -- `Drop`: a reset whose error is ignored.
  unfoldable pub drop_touchpad : Pad → W
  drop_touchpad s = (reset s).1.1
