-- ===== src/Tests/Router.antt =====
-- Runs of the handoff, the virtual touchpads and the router, on a kernel that has queued batches.
use niri_bridge.Prelude.{
  length, ok, ℕ, ◌+◌, ◌≡◌, refl, sym, Bool, true, false, some, List, [], ◌∷◌, ◌++◌, arith,
}
use niri_bridge.Prelude.Int.{pos, ◌+ℤ◌, ◌-ℤ◌, minus_one}
use niri_bridge.Prelude.Sets.{contains}
use niri_bridge.Prelude.Action.{◌>>=◌, ◌>>◌, pure, done, lift, get, modify, check}
use niri_bridge.Prelude.Triple.{After}
use niri_bridge.Touchpad.Event.{Event, touch_key, touch_axis, validate_event, validate_frame}
use niri_bridge.Touchpad.Descriptor.{
  Descriptor, all_of, touch_property, validate_axis, validate_axes, validate_slots, validate, slots,
  validate_device_frame,
}
use niri_bridge.Touchpad.Descriptor as Descriptor
use niri_bridge.Touchpad.Clock.{unset}
use niri_bridge.Touchpad.State.{TouchState, rest_axes, apply_event, apply, idle, contact_values}
use niri_bridge.Touchpad.State as State
use niri_bridge.Touchpad.Handoff.{
  synchronizable, hidden_keys, neutral_keys, hidden_axes, neutral_axes, slot_frames, outer_axes,
  hidden_frame, neutral_frame, handoff_frames, repair_starts, repaired, handoff,
}
use niri_bridge.Touchpad.Handoff.Quiet.{no_press, neutral_event, handoff-no_press}
use niri_bridge.Touchpad.Handoff.Restored.{handoff-idle}
use niri_bridge.Touchpad.Physical.{RawEvent, Fetched, batch, would_block, Evdev}
use niri_bridge.Touchpad.Virtual.{Uinput, VirtualTouchpad, emit_at, reset}
use niri_bridge.Touchpad.Virtual.Fitting.{new-IsFitting}
use niri_bridge.Touchpad.Virtual.Emitting.{IsSound, Written, emit_at_lem, reset_works}
use niri_bridge.Touchpad.Capture.{
  PhysicalTouchpad, fetch_all, flush_frame, push_event, take_event, sample_event, sample_events,
  acquire, sample_pad,
}
use niri_bridge.Touchpad.Router.{Router, each_pad, over_pads, sample, route, drain}
use niri_bridge.Touchpad.Router.Safe.{RouterIsSafe, methods-RouterIsSafe}
use niri_bridge.Tests.Touch.{pad, frame}

-- The clock, and the batches that wait.
abbrev pub Kernel : Type 0
Kernel = ℕ × List (List RawEvent)

abbrev pub uinput : Uinput Kernel ℕ
uinput = record {
  build = λ setup w. (ok 0, w);
  monotonic_us = λ w. (ok w.0, (w.0 + 10, w.1));
  emit = λ device events w. (ok tt, w);
}

abbrev next_batch : List (List RawEvent) → Fetched × List (List RawEvent)
next_batch [] = (would_block, [])
next_batch (b ∷ batches) = (batch b, batches)

abbrev pub evdev : Evdev Kernel ℕ
evdev = record {
  open_readable = λ path w. (ok (record { identity = (1, 2, 3); device = 0 }), w);
  open_writable = λ path w. (ok (record { identity = (1, 2, 3); device = 0 }), w);
  properties = λ r. 0 ∷ [];
  supported_keys = λ r. some (272 ∷ 325 ∷ 330 ∷ []);
  has_virtual_path = λ r. false;
  absinfo = λ r w. (ok [], w);
  key_state = λ r w. (ok [], w);
  contact_values = λ r code slots w. (some [], w);
  fetch_events = λ r w. let (fetched, rest) = next_batch w.1 in (fetched, (w.0, rest));
  send_events = λ r events w. (ok tt, w);
  is_grabbed = λ r w. true;
  grab = λ r w. (ok tt, w);
  ungrab = λ r w. (ok tt, w);
}

abbrev hidden : List Event
hidden = hidden_frame pad ++ repair_starts (pos 0) 2 0

handed : handoff pad true ≡ ok (hidden, neutral_frame pad)
unfolding handoff handoff_frames repaired hidden_frame neutral_frame hidden_keys neutral_keys
    hidden_axes neutral_axes slot_frames outer_axes repair_starts slots synchronizable
    Descriptor.validate validate_axes validate_axis validate_slots touch_key touch_axis
    touch_property validate_device_frame validate_frame validate_event ◌+ℤ◌ ◌-ℤ◌
handed = refl

handoff-no_press_example :
    (all_of no_press hidden ≡ true) × (all_of neutral_event (neutral_frame pad) ≡ true)
handoff-no_press_example = handoff-no_press pad true hidden (neutral_frame pad) handed

-- A button and a finger are down.
abbrev pressed : TouchState
pressed = record {
  slot = 1;
  keys = 272 ∷ 330 ∷ [];
  axes = [];
  contacts = ((57, pos 12) ∷ []) ∷ ((57, minus_one) ∷ []) ∷ [];
}

pressed_known : (z : ℕ) → contains pressed.keys z ≡ true → contains pad.keys z ≡ true
pressed_known z h = ground arith

pad_slots : slots pad ≡ 2
unfolding slots ◌+ℤ◌
pad_slots = refl

handoff-idle_example :
    (s₁ s₂ : TouchState) × (apply hidden pressed ≡ some s₁)
    × (s₁.keys ≡ [])
    × (apply (neutral_frame pad) s₁ ≡ some s₂)
    × (idle s₂ ≡ true)
handoff-idle_example =
    handoff-idle pad true hidden (neutral_frame pad) pressed handed (sym pad_slots) pressed_known

pad_valid : Descriptor.validate pad ≡ ok tt
unfolding Descriptor.validate validate_axes validate_axis validate_slots touch_key touch_axis
    touch_property ◌+ℤ◌
pad_valid = refl

abbrev virtual : VirtualTouchpad ℕ
virtual = record {
  device = 0;
  descriptor = pad;
  state = State.new pad;
  remote_clock = unset;
  last_time = 900;
}

virtual-IsSound : IsSound virtual
virtual-IsSound = new-IsFitting pad pad_valid

emit_at_lem_example :
    After {S = VirtualTouchpad ℕ × Kernel}
      (λ t. t.0 ≡ virtual)
      (λ (_ : Unit {0}) t. Written uinput frame 950 (virtual, (1000, [])) t)
      (emit_at uinput frame 950 (virtual, (1000, [])))
emit_at_lem_example = emit_at_lem uinput frame 950 (virtual, (1000, [])) virtual-IsSound

reset_works_example : reset uinput (virtual, (1000, [])) ≡ (
  ok tt,
  (record virtual { state = State.new pad; remote_clock = unset; last_time = 1000 }, (1020, [])),
)
reset_works_example =
    reset_works uinput virtual (1000, []) (1010, []) (1020, []) (1020, []) 1000 1010 virtual-IsSound
      refl refl refl refl

-- A finger that comes down and moves.
abbrev pub raw : ℕ → ℕ → ℕ → RawEvent
raw kind code value = record { kind = kind; code = code; value = pos value; time = some 2000 }

abbrev batches : List (List RawEvent)
batches = (raw 3 57 12 ∷ raw 1 330 1 ∷ raw 0 0 0 ∷ []) ∷ (raw 3 53 40 ∷ raw 0 0 0 ∷ []) ∷ []

abbrev touchpad : PhysicalTouchpad ℕ ℕ
touchpad = record {
  device = 0;
  descriptor = pad;
  state = State.new pad;
  mirror = virtual;
  grabbed = true;
  frame = [];
}

abbrev pub router : Bool → Router ℕ ℕ
router remote = record { pads = touchpad ∷ []; remote = remote; pending = [] }

pub router-RouterIsSafe : (remote : Bool) → RouterIsSafe (router remote)
router-RouterIsSafe remote = record {
  pads = (record { fitting = new-IsFitting pad pad_valid; mirror = virtual-IsSound }, tt);
  frames = record { few = omega arith; valid = tt };
}

methods-RouterIsSafe_example :
    ((fuel : ℕ) → RouterIsSafe (sample evdev uinput fuel (router true, (1000, batches))).1.0)
    × ((remote : Bool)
        → RouterIsSafe (route evdev uinput remote (router true, (1000, batches))).1.0)
    × RouterIsSafe (drain evdev uinput (router true)).1
methods-RouterIsSafe_example =
    methods-RouterIsSafe evdev uinput (router true, (1000, batches)) (router-RouterIsSafe true)

-- Two frames of the finger are captured for the peer.
captured_two : length (sample evdev uinput 4 (router true, (1000, batches))).1.0.pending ≡ 2
unfolding sample over_pads each_pad sample_pad sample_events sample_event take_event flush_frame
    push_event acquire fetch_all get modify check lift pure done ◌>>=◌ ◌>>◌ validate_device_frame
    validate_frame validate_event touch_key touch_axis apply apply_event State.new slots ◌+ℤ◌
    rest_axes
captured_two = refl
