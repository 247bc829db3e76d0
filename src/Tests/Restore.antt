-- ===== src/Tests/Restore.antt =====
-- Runs of the restoration of touchpads, on a kernel whose state is its clock, in microseconds.
use niri_bridge.Prelude.{
  ltb, if◌then◌else◌, ok, ℕ, ◌+◌, String, ◌≡◌, refl, true, false, Option, some, List, [], ◌∷◌, map,
  arith,
}
use niri_bridge.Prelude.Int.{pos, minus_one, ◌+ℤ◌, ◌-ℤ◌}
use niri_bridge.Prelude.Action.{Action, ◌>>=◌, ◌>>◌, pure, lift, get, modify, check}
use niri_bridge.Prelude.Triple.{After}
use niri_bridge.Touchpad.Event.{touch_key, touch_axis, validate_event, validate_frame}
use niri_bridge.Touchpad.Descriptor as Descriptor
use niri_bridge.Touchpad.Descriptor.{
  AxisInfo, touch_property, validate_axis, validate_axes, validate_slots, slots,
  validate_device_frame,
}
use niri_bridge.Touchpad.State as State
use niri_bridge.Touchpad.State.{idle}
use niri_bridge.Touchpad.Handoff.{
  synchronizable, hidden_keys, neutral_keys, hidden_axes, neutral_axes, slot_frames, outer_axes,
  hidden_frame, neutral_frame, handoff_frames, repair_starts, repaired, handoff,
}
use niri_bridge.Touchpad.Physical.{
  would_block, Evdev, from_device, write_physical_frame, finish_physical_handoff, read_axis,
  read_axes, read_state, is_pad, open_writable_pad, open_physical_touchpad,
}
use niri_bridge.Touchpad.Restore.{
  Timer, now, try_grab, wait_idle, restore_each, restore_local_inputs,
}
use niri_bridge.Touchpad.Restore.Waiting.{IsClocked, IsRestored, restore_local_inputs-ends}
use niri_bridge.Tests.Touch.{pad}

-- A finger is down for the first 30 milliseconds.
abbrev keys_at : ℕ → List ℕ
keys_at w = if ltb w 30000 then 330 ∷ [] else []

abbrev kernel : Evdev ℕ ℕ
kernel = record {
  open_readable = λ path w. (ok (record { identity = (1, 2, 3); device = 0 }), w);
  open_writable = λ path w. (ok (record { identity = (1, 2, 3); device = 0 }), w);
  properties = λ r. 0 ∷ [];
  supported_keys = λ r. some (272 ∷ 325 ∷ 330 ∷ []);
  has_virtual_path = λ r. false;
  absinfo = λ r w. (ok (map (λ (a : AxisInfo). (a, pos 0)) pad.axes), w);
  key_state = λ r w. (ok (keys_at w), w);
  contact_values = λ r code n w. (some (minus_one ∷ minus_one ∷ []), w);
  fetch_events = λ r w. (would_block, w);
  send_events = λ r events w. (ok tt, w);
  is_grabbed = λ r w. true;
  grab = λ r w. (ok tt, w);
  ungrab = λ r w. (ok tt, w);
}

abbrev timer : Timer ℕ
timer = record { now = λ w. (w, w); sleep = λ w. w + 10000 }

abbrev canonical : String → Action ℕ (Option String)
canonical path w = (ok (some path), w)

clocked : IsClocked kernel timer canonical (λ w. w)
clocked = record {
  now_after = λ w. omega arith;
  now_before = λ w. omega arith;
  sleeps = λ w. omega arith;
  located = λ path w. omega arith;
  readable = λ path w. omega arith;
  writable = λ path w. omega arith;
  absinfo = λ r w. omega arith;
  key_state = λ r w. omega arith;
  contact_values = λ r code n w. omega arith;
  send_events = λ r events w. omega arith;
  grab = λ r w. omega arith;
  ungrab = λ r w. omega arith;
}

-- A path that is named twice is restored once, when the finger is lifted.
restored_once :
    restore_local_inputs kernel timer canonical 6 ("pad" ∷ "pad" ∷ []) 0 ≡ (ok (some 1), 30000)
unfolding restore_local_inputs restore_each wait_idle try_grab now read_state read_axes read_axis
    open_physical_touchpad open_writable_pad from_device is_pad finish_physical_handoff
    write_physical_frame idle State.new Descriptor.validate validate_axes validate_axis
    validate_slots slots touch_key touch_axis touch_property validate_device_frame validate_frame
    validate_event handoff handoff_frames repaired hidden_frame neutral_frame hidden_keys
    neutral_keys hidden_axes neutral_axes slot_frames outer_axes repair_starts synchronizable ◌+ℤ◌
    ◌-ℤ◌ ◌>>=◌ ◌>>◌ pure lift get modify check
restored_once = refl

restore_local_inputs-ends_example :
    After {S = ℕ}
      (λ _. Unit {0})
      (λ n _. IsRestored 2 n)
      (restore_local_inputs kernel timer canonical 1501 ("pad" ∷ "other" ∷ []) 0)
restore_local_inputs-ends_example =
    restore_local_inputs-ends kernel timer canonical (λ w. w) clocked ("pad" ∷ "other" ∷ []) 0
