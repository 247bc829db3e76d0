-- ===== src/Protocol/Event.antt =====
-- src/protocol.rs: the input events of a frame, their validation, and what they hold down.
use niri_bridge.Prelude.{
  ℕ, Bool, true, false, ◌&&◌, List, Option, none, some, Result, ok, ensure, ◌>>◌, ltb, leb,
  in_range, if◌then◌else◌,
}
use niri_bridge.Float.{Float}
use niri_bridge.Touchpad.Event as Pad

pub data Axis : Type 0 where
  horizontal vertical : Axis

pub data ScrollSource : Type 0 where
  wheel finger continuous : ScrollSource

pub data InputEvent (F : Type 0) : Type 0 where
  touchpad : (device time_us : ℕ) (events : List Pad.Event) → InputEvent F
  key : (code : ℕ) (pressed : Bool) → InputEvent F
  button : (code : ℕ) (pressed : Bool) → InputEvent F
  motion : (dx dy : F) → InputEvent F
  absolute : (x y width height : ℕ) → InputEvent F
  scroll : (axis : Axis) (amount : F) (source : ScrollSource) → InputEvent F
  scroll_stop : (axis : Axis) (source : ScrollSource) → InputEvent F

module _ {F : Type 0} ⦃fl : Float F⦄ where
  -- `v.is_finite() && v.abs() <= 32768.0`
  abbrev pub bounded : F → Bool
  bounded v = fl.is_finite v && fl.leb (fl.abs v) (fl.of_ℕ 32768)

  unfoldable pub validate : InputEvent F → Result (Unit {0})
  validate (touchpad device time_us events) =
      ensure (ltb device 4) "Invalid touchpad index"
      >> ensure (in_range 1 1000000000000000 time_us) "Invalid touchpad event time"
      >> Pad.validate_frame events
  validate (key code pressed) = ensure (in_range 1 255 code) "Unsupported keyboard code"
  validate (button code pressed) = ensure (in_range 272 279 code) "Unsupported pointer button"
  validate (motion dx dy) = ensure (bounded dx && bounded dy) "Invalid relative motion"
  validate (absolute x y width height) =
      ensure (ltb 0 width && ltb 0 height && ltb x width && ltb y height)
        "Invalid absolute position"
  validate (scroll axis amount source) = ensure (bounded amount) "Invalid scroll amount"
  validate (scroll_stop axis source) = ok tt

module _ {F : Type 0} where
  unfoldable pub held_transition : InputEvent F → Option (ℕ × Bool)
  held_transition (key code pressed) = some (code, pressed)
  held_transition (button code pressed) = some (code, pressed)
  held_transition _ = none

  unfoldable pub is_absolute : InputEvent F → Bool
  is_absolute (absolute x y width height) = true
  is_absolute _ = false

-- `InputEvent::release(code)`
unfoldable pub release : {F : Type 0} → ℕ → InputEvent F
release code = if leb 272 code then button code false else key code false
