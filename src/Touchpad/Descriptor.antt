-- ===== src/Touchpad/Descriptor.antt =====
-- src/touchpad.rs: the capabilities that a touchpad advertises, their validation, and the check of
-- a frame against them.
use niri_bridge.Prelude.{
  leb, ◌==◌, if◌then◌else◌, in_range, length, Result, ok, err, ◌>>=◌, ◌>>◌, ensure, for_each, ℕ,
  Bool, true, ◌&&◌, ◌||◌, not, Option, none, some, List, [], ◌∷◌,
}
use niri_bridge.Prelude.Int.{ℤ, pos, pos_part, ◌+ℤ◌, ltb_ℤ, leb_ℤ, eqb_ℤ, within, minus_one}
use niri_bridge.Prelude.Sets.{contains, insert, extend}
use niri_bridge.Touchpad.Event.{
  Kind, key, absolute, Event, touch, slot, tracking, tool_finger, touch_key, touch_axis, axis_limit,
  axis_floor, validate_frame,
}

pub record AxisInfo : Type 0 where
  pub code : ℕ
  pub minimum : ℤ
  pub maximum : ℤ
  pub fuzz : ℤ
  pub flat : ℤ
  pub resolution : ℤ

pub record Descriptor : Type 0 where
  pub keys : List ℕ
  pub properties : List ℕ
  pub axes : List AxisInfo

abbrev pub all_of {ℓ} : {A : Type ℓ} → (A → Bool) → List A → Bool
all_of p [] = true
all_of p (x ∷ xs) = p x && all_of p xs

-- `axes.iter().find(|a| a.code == code)`
abbrev pub find_axis : List AxisInfo → ℕ → Option AxisInfo
find_axis [] code = none
find_axis (a ∷ as') code = if a.code == code then some a else find_axis as' code

unfoldable pub touch_property : ℕ → Bool
touch_property p = p == 0 || p == 2 || p == 3 || p == 4 || p == 6

-- `(0..=100_000).contains(v)`
abbrev pub calibrated : ℤ → Bool
calibrated v = within (pos 0) (pos 100000) v

-- One round of the loop over the axes, with the codes met before.
unfoldable pub validate_axis : AxisInfo → List ℕ → Result (List ℕ)
validate_axis a codes = do
  ensure (touch_axis a.code && not (contains codes a.code)) "Unsupported or duplicate touchpad axis"
  ensure (leb_ℤ axis_floor a.minimum && leb_ℤ a.minimum a.maximum && leb_ℤ a.maximum axis_limit)
      "Invalid touchpad axis range"
  ensure (calibrated a.fuzz && calibrated a.flat && calibrated a.resolution)
      "Invalid touchpad axis calibration"
  ok (insert codes a.code)

unfoldable pub validate_axes : List AxisInfo → List ℕ → Result (List ℕ)
validate_axes [] codes = ok codes
validate_axes (a ∷ as') codes = validate_axis a codes >>= λ met. validate_axes as' met

-- The last check of `validate`. A descriptor without a slot axis is refused before (`unwrap`).
unfoldable pub validate_slots : Option AxisInfo → Result (Unit {0})
validate_slots none = err "A slot-based multi-touch touchpad is required"
validate_slots (some a) =
    ensure (eqb_ℤ a.minimum (pos 0) && leb_ℤ (pos 0) a.maximum && ltb_ℤ a.maximum (pos 32))
      "Unsupported touchpad contact count"

unfoldable pub validate : Descriptor → Result (Unit {0})
unfolding validate_slots
validate d = do
  ensure (in_range 2 16 (length d.keys) && all_of touch_key d.keys) "Unsupported touchpad keys"
  ensure (length (extend [] d.keys) == length d.keys) "Duplicate touchpad key"
  ensure (contains d.keys touch && contains d.keys tool_finger)
      "Touchpad contact capabilities are missing"
  ensure
      (leb (length d.properties) 5 && contains d.properties 0 && all_of touch_property d.properties)
      "Unsupported touchpad properties"
  ensure (in_range 4 20 (length d.axes)) "Invalid touchpad axis count"
  codes ← validate_axes d.axes []
  ensure (all_of (contains codes) (0 ∷ 1 ∷ slot ∷ 53 ∷ 54 ∷ tracking ∷ []))
      "A slot-based multi-touch touchpad is required"
  validate_slots (find_axis d.axes slot)

-- `(maximum + 1) as usize` of the slot axis; a validated descriptor has one, with a maximum from 0
-- to 31. Without one the source panics, where this is 0.
abbrev pub slot_total : Option AxisInfo → ℕ
slot_total none = 0
slot_total (some a) = pos_part (a.maximum +ℤ pos 1)

unfoldable pub slots : Descriptor → ℕ
unfolding ◌+ℤ◌
slots d = slot_total (find_axis d.axes slot)

-- A value that an axis can take: in its range, or the end of a contact.
abbrev pub axis_accepts : AxisInfo → Event → Bool
axis_accepts a e =
    within a.minimum a.maximum e.value || (e.code == tracking && eqb_ℤ e.value minus_one)

abbrev pub axis_takes : Option AxisInfo → Event → Result (Unit {0})
axis_takes none e = err "Touchpad axis was not advertised"
axis_takes (some a) e = ensure (axis_accepts a e) "Touchpad value is outside its axis range"

abbrev pub advertised : Descriptor → Kind → Event → Result (Unit {0})
advertised d key e = ensure (contains d.keys e.code) "Touchpad key was not advertised"
advertised d absolute e = axis_takes (find_axis d.axes e.code) e

-- `Descriptor::validate_frame`
unfoldable pub validate_device_frame : Descriptor → List Event → Result (Unit {0})
validate_device_frame d frame = validate_frame frame >> for_each (λ e. advertised d e.kind e) frame
