-- ===== src/Touchpad/Physical.antt =====
-- src/touchpad.rs: a physical touchpad, how it is opened, read and released.
use niri_bridge.Prelude.{
  ltb, ◌==◌, if◌then◌else◌, length, Result, ok, err, context, ℕ, String, Bool, false, ◌&&◌, not,
  Option, none, some, List, [], ◌∷◌, ◌++◌, map,
}
use niri_bridge.Prelude.Int.{ℤ, pos}
use niri_bridge.Prelude.Sets.{contains, extend}
use niri_bridge.Prelude.Action.{Action, ◌>>=◌, ◌>>◌, pure, lift, get, check}
use niri_bridge.Touchpad.Event.{Event, slot, tool_finger, touch_key, KernelEvent, kernel_events}
use niri_bridge.Touchpad.Descriptor.{AxisInfo, Descriptor, validate, slots}
use niri_bridge.Touchpad.Descriptor as Descriptor
use niri_bridge.Touchpad.State.{put, TouchState, new, as_usize}
use niri_bridge.Touchpad.State as State
use niri_bridge.Touchpad.Handoff.{handoff_frames, handoff}
pub mod Reading

-- An event as evdev reads it: its time in microseconds since the epoch, or none if it is before.
pub record RawEvent : Type 0 where
  pub kind : ℕ
  pub code : ℕ
  pub value : ℤ
  pub time : Option ℕ

pub data Fetched : Type 0 where
  batch : List RawEvent → Fetched
  would_block : Fetched
  failed : Fetched

-- A file that was opened: the device and inode that it is, and the evdev device made of it.
pub record Opened (R : Type 0) : Type 0 where
  pub identity : ℕ × ℕ × ℕ
  pub device : R

-- The kernel's part: `W` is what it keeps, and `R` an evdev device. `absinfo` gives each axis with
-- its present value, and `contact_values` the values of an axis in a number of slots.
pub record Evdev (W R : Type 0) : Type 0 where
  pub open_readable : String → W → Result (Opened R) × W
  pub open_writable : String → W → Result (Opened R) × W
  pub properties : R → List ℕ
  pub supported_keys : R → Option (List ℕ)
  pub has_virtual_path : R → Bool
  pub absinfo : R → W → Result (List (AxisInfo × ℤ)) × W
  pub key_state : R → W → Result (List ℕ) × W
  pub contact_values : R → ℕ → ℕ → W → Option (List ℤ) × W
  pub fetch_events : R → W → Fetched × W
  pub send_events : R → List KernelEvent → W → Result (Unit {0}) × W
  pub is_grabbed : R → W → Bool
  pub grab : R → W → Result (Unit {0}) × W
  pub ungrab : R → W → Result (Unit {0}) × W

-- `filter(touch_key)`
abbrev pub touch_keys : List ℕ → List ℕ
touch_keys [] = []
touch_keys (c ∷ keys) = let rest = touch_keys keys in if touch_key c then c ∷ rest else rest

-- A value of one axis for each contact, from the first.
abbrev pub put_each : ℕ → List ℤ → List (List (ℕ × ℤ)) → List (List (ℕ × ℤ))
put_each code [] contacts = contacts
put_each code (v ∷ values) [] = []
put_each code (v ∷ values) (c ∷ contacts) = put c code v ∷ put_each code values contacts

abbrev pub same_file : ℕ × ℕ × ℕ → ℕ × ℕ × ℕ → Bool
same_file (dev, ino, rdev) (dev', ino', rdev') = dev == dev' && ino == ino' && rdev == rdev'

module _ {W R : Type 0} (k : Evdev W R) where
  -- `Descriptor::from_device`
  unfoldable pub from_device : R → Action W Descriptor
  from_device r = do
    keys ← lift (context (k.supported_keys r) "Touchpad keys are missing")
    axes ← k.absinfo r
    let d : Descriptor = record {
      keys = touch_keys keys;
      properties = k.properties r;
      axes = map (λ (a : AxisInfo × ℤ). a.0) axes;
    }
    lift (Descriptor.validate d)
    pure d

  -- `write_physical_frame`: the events, and the report that ends them.
  unfoldable pub write_physical_frame : R → List Event → Action W (Unit {0})
  write_physical_frame r events = k.send_events r (
      kernel_events 0 events
      ++ record { seconds = 0; micros = 0; kind = 0; code = 0; value = pos 0 } ∷ [])

  unfoldable pub finish_physical_handoff : R → Descriptor → Bool → Action W (Unit {0})
  finish_physical_handoff r d repair_legacy_reader = do
    w ← get
    check (k.is_grabbed r w) "Touchpad restoration requires exclusive ownership"
    frames ← lift (handoff d repair_legacy_reader)
    write_physical_frame r frames.0
    k.ungrab r
    write_physical_frame r frames.1

  unfoldable pub release_physical : R → Descriptor → Action W (Unit {0})
  release_physical r d = finish_physical_handoff r d false

  -- The values of an axis above SLOT, or the error of the request for them.
  abbrev pub contact_axis : Option (List ℤ) → ℕ → TouchState → Result TouchState
  contact_axis none code s = err "Cannot inspect touchpad contacts"
  contact_axis (some values) code s = ok (record s { contacts = put_each code values s.contacts })

  -- One round of the loop over the axes in `TouchState::read`.
  unfoldable pub read_axis : R → Descriptor → AxisInfo × ℤ → TouchState → Action W TouchState
  read_axis r d (a, v) s w =
      if ltb a.code slot
      then (ok (record s { axes = put s.axes a.code v }), w)
      else if a.code == slot
      then (ok (record s { slot = as_usize v }), w)
      else let (values, w') = k.contact_values r a.code (slots d) w in
        (contact_axis values a.code s, w')

  unfoldable pub read_axes : R → Descriptor → List (AxisInfo × ℤ) → TouchState → Action W TouchState
  read_axes r d [] s = pure s
  read_axes r d (a ∷ as') s = read_axis r d a s >>= read_axes r d as'

  -- `TouchState::read`
  unfoldable pub read_state : R → Descriptor → Action W TouchState
  read_state r d = do
    down ← k.key_state r
    axes ← k.absinfo r
    s ← read_axes r d axes (record (State.new d) { keys = extend [] (touch_keys down) })
    check (ltb s.slot (length s.contacts)) "Touchpad has an invalid current slot"
    pure s

  -- BTN_TOOL_FINGER on a pointing device that is not a screen.
  unfoldable pub is_pad : R → Bool
  is_pad r =
      contains (k.properties r) 0
      && not (contains (k.properties r) 1)
      && fingers (k.supported_keys r)
    where
      fingers : Option (List ℕ) → Bool
      fingers none = false
      fingers (some keys) = contains keys tool_finger

  -- The rest of `open_physical_touchpad`, for a touchpad.
  unfoldable pub open_writable_pad : String → ℕ × ℕ × ℕ → Action W (R × Descriptor)
  open_writable_pad path original = do
    next ← k.open_writable path
    check (same_file original next.identity) "The touchpad changed while it was being opened"
    check (not (k.has_virtual_path next.device))
        "A virtual device cannot be a physical touchpad source"
    d ← from_device next.device
    lift (handoff_frames d)
    pure (next.device, d)

  abbrev pub opened_pad : String → Opened R → Action W (Option (R × Descriptor))
  opened_pad path inspected =
      if is_pad inspected.device
      then (open_writable_pad path inspected.identity >>= λ pad. pure (some pad))
      else pure none

  unfoldable pub open_physical_touchpad : String → Action W (Option (R × Descriptor))
  open_physical_touchpad path = do inspected ← k.open_readable path; opened_pad path inspected
