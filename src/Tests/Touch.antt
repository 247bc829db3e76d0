-- ===== src/Tests/Touch.antt =====
-- Runs of the touchpad's clock and state.
use niri_bridge.Prelude.{ℕ, ◌≡◌, refl, true, some, List, [], ◌∷◌, map, arith}
use niri_bridge.Prelude.Int.{pos, ◌+ℤ◌, ◌-ℤ◌, minus_one}
use niri_bridge.Touchpad.Event.{
  Event, touch_key, touch_axis, key_event, abs_event, validate_event, validate_frame,
}
use niri_bridge.Touchpad.Descriptor as Descriptor
use niri_bridge.Touchpad.Descriptor.{
  AxisInfo, Descriptor, touch_property, validate_axis, validate_axes, validate_slots, validate,
  validate_device_frame,
}
use niri_bridge.Touchpad.Clock.{unset, map_time, map_times, IsTimed, map_times-IsTimed}
use niri_bridge.Touchpad.State as State
use niri_bridge.Touchpad.State.{TouchState, new, apply, idle, releases}
use niri_bridge.Touchpad.State.Releases.{end_contact, apply-releases}
use niri_bridge.Touchpad.State.Total.{Fits, apply-Fits, new-Fits}

-- A frame that is delayed, and one that the peer dates back.
abbrev arrivals : List (ℕ × ℕ)
arrivals = (1000, 5000) ∷ (2000, 6500) ∷ (100, 7000) ∷ []

three_times : map_times unset arrivals ≡ 5000 ∷ 6000 ∷ 6000 ∷ []
unfolding map_times map_time ◌+ℤ◌ ◌-ℤ◌
three_times = refl

map_times-IsTimed_example : IsTimed 0 (map_times unset arrivals) arrivals
map_times-IsTimed_example =
    map_times-IsTimed unset arrivals (omega arith, (omega arith, (omega arith, tt)))

abbrev axis : ℕ → ℕ → AxisInfo
axis code limit = record {
  code = code;
  minimum = pos 0;
  maximum = pos limit;
  fuzz = pos 0;
  flat = pos 0;
  resolution = pos 0;
}

abbrev pub pad : Descriptor
pad = record {
  keys = 330 ∷ 325 ∷ 272 ∷ [];
  properties = 0 ∷ [];
  axes = axis 0 900 ∷ axis 1 600 ∷ axis 47 1 ∷ axis 53 900 ∷ axis 54 600 ∷ axis 57 65535 ∷ [];
}

-- A second finger comes down.
abbrev pub frame : List Event
frame =
    abs_event 47 (pos 1)
    ∷ abs_event 57 (pos 12)
    ∷ abs_event 53 (pos 400)
    ∷ key_event 330 (pos 1)
    ∷ []

apply-Fits_example : (s : TouchState) × (apply frame (State.new pad) ≡ some s) × Fits pad s
unfolding Descriptor.validate validate_axes validate_axis validate_slots touch_key touch_axis
    touch_property validate_device_frame validate_frame validate_event ◌+ℤ◌
apply-Fits_example = apply-Fits pad frame (State.new pad) refl refl (new-Fits pad refl)

abbrev touching : TouchState
touching = record {
  slot = 1;
  keys = 325 ∷ 330 ∷ [];
  axes = (0, pos 400) ∷ [];
  contacts = ((57, pos 12) ∷ []) ∷ ((57, minus_one) ∷ []) ∷ [];
}

apply-releases_example :
    (s : TouchState) × (apply (releases touching) touching ≡ some s)
    × (idle s ≡ true)
    × (s.axes ≡ (0, pos 400) ∷ [])
    × (s.contacts ≡ map end_contact touching.contacts)
apply-releases_example = apply-releases touching
