-- ===== src/Touchpad/Event.antt =====
-- src/touchpad.rs: the events of a touchpad frame and the bounds that a frame must meet before it
-- reaches a backend.
use niri_bridge.Prelude.{
  leb, ◌==◌, in_range, length, Result, ◌>>◌, ensure, for_each, ℕ, ◌/◌, ◌%◌, Bool, ◌&&◌, ◌||◌, not,
  List, map,
}
use niri_bridge.Prelude.Int.{ℤ, pos, negsuc, within}

pub data Kind : Type 0 where
  key absolute : Kind

pub record Event : Type 0 where
  pub kind : Kind
  pub code : ℕ
  pub value : ℤ

abbrev pub touch : ℕ
touch = 330

abbrev pub slot : ℕ
slot = 47

abbrev pub tracking : ℕ
tracking = 57

-- The tool key of a single finger, BTN_TOOL_FINGER.
abbrev pub tool_finger : ℕ
tool_finger = 325

unfoldable pub touch_key : ℕ → Bool
touch_key code =
    in_range 272 274 code || code == 325 || code == 328 || code == 330 || in_range 333 335 code

unfoldable pub touch_axis : ℕ → Bool
touch_axis code = code == 0 || code == 1 || code == 24 || code == 28 || in_range 47 61 code

-- `Event::key` and `Event::abs`
abbrev pub key_event : ℕ → ℤ → Event
key_event code value = record { kind = key; code = code; value = value }

abbrev pub abs_event : ℕ → ℤ → Event
abs_event code value = record { kind = absolute; code = code; value = value }

-- An event as the kernel takes it: `libc::input_event`.
pub record KernelEvent : Type 0 where
  pub seconds : ℕ
  pub micros : ℕ
  pub kind : ℕ
  pub code : ℕ
  pub value : ℤ

abbrev pub kernel_kind : Kind → ℕ
kernel_kind key = 1
kernel_kind absolute = 3

-- `Event::kernel`
unfoldable pub kernel_event : ℕ → Event → KernelEvent
kernel_event time_us e = record {
  seconds = time_us / 1000000;
  micros = time_us % 1000000;
  kind = kernel_kind e.kind;
  code = e.code;
  value = e.value;
}

unfoldable pub kernel_events : ℕ → List Event → List KernelEvent
kernel_events time_us events = map (kernel_event time_us) events

-- 1_000_000 and its negation
abbrev pub axis_limit : ℤ
axis_limit = pos 1000000

abbrev pub axis_floor : ℤ
axis_floor = negsuc 999999

abbrev event_in_bounds : Kind → Event → Bool
event_in_bounds key e = touch_key e.code && within (pos 0) (pos 1) e.value
event_in_bounds absolute e = touch_axis e.code && within axis_floor axis_limit e.value

unfoldable pub validate_event : Event → Result (Unit {0})
validate_event e = ensure (event_in_bounds e.kind e) "Invalid touchpad event"

unfoldable pub validate_frame : List Event → Result (Unit {0})
validate_frame events =
    ensure (not (length events == 0) && leb (length events) 512) "Invalid touchpad frame size"
    >> for_each validate_event events
