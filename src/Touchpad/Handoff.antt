-- ===== src/Touchpad/Handoff.antt =====
-- src/touchpad.rs, `handoff_frames` and `finish_physical_handoff`: the frames that leave a physical
-- touchpad neutral, for its own reader and for the compositor's.
use niri_bridge.Prelude.{
  ltb, leb, ◌==◌, if◌then◌else◌, Result, ok, err, ◌>>=◌, ◌>>◌, ensure, for_each, ℕ, zero, suc, ◌+◌,
  ◌-◌, Bool, false, ◌&&◌, ◌||◌, not, Option, none, some, List, [], ◌∷◌, ◌++◌,
}
use niri_bridge.Prelude.Int.{ℤ, pos, ◌+ℤ◌, ◌-ℤ◌, ltb_ℤ, leb_ℤ, max_ℤ, minus_one}
use niri_bridge.Touchpad.Event.{Event, slot, tracking, key_event, abs_event}
use niri_bridge.Touchpad.Descriptor.{
  AxisInfo, Descriptor, find_axis, validate, slots, validate_device_frame,
}
use niri_bridge.Touchpad.Descriptor as Descriptor
pub mod Quiet
pub mod Ends
pub mod Restored

-- An axis whose ends differ by more than the fuzz hides: evdev passes one of two values on.
unfoldable pub synchronizable : AxisInfo → Bool
unfolding ◌-ℤ◌ ◌+ℤ◌
synchronizable a =
    (a.code == 53 || a.code == 54) && ltb_ℤ (a.fuzz +ℤ a.fuzz) (a.maximum -ℤ a.minimum)

abbrev pub any_of {ℓ} : {A : Type ℓ} → (A → Bool) → List A → Bool
any_of p [] = false
any_of p (x ∷ xs) = p x || any_of p xs

-- The axes of one contact, above SLOT: `code > SLOT && code != TRACKING`.
abbrev pub of_contact : ℕ → Bool
of_contact code = ltb slot code && not (code == tracking)

unfoldable pub hidden_keys : List ℕ → List Event
hidden_keys [] = []
hidden_keys (c ∷ keys) = key_event c (pos 0) ∷ hidden_keys keys

unfoldable pub neutral_keys : List ℕ → List Event
neutral_keys [] = []
neutral_keys (c ∷ keys) =
    let rest = neutral_keys keys in if leb 325 c then key_event c (pos 0) ∷ rest else rest

unfoldable pub hidden_axes : List AxisInfo → List Event
hidden_axes [] = []
hidden_axes (a ∷ as') =
    let rest = hidden_axes as' in
    if of_contact a.code
    then abs_event a.code a.minimum ∷ abs_event a.code a.maximum ∷ rest
    else rest

unfoldable pub neutral_axes : List AxisInfo → List Event
neutral_axes [] = []
neutral_axes (a ∷ as') =
    let rest = neutral_axes as' in
    if of_contact a.code then abs_event a.code a.minimum ∷ rest else rest

-- The loop over the slots, from an index on, with what it writes of each contact's axes.
unfoldable pub slot_frames : List Event → ℕ → ℕ → List Event
slot_frames values zero index = []
slot_frames values (suc left) index =
    abs_event slot (pos index) ∷ abs_event tracking minus_one ∷ values
    ++ slot_frames values left (index + 1)

-- The axes below SLOT, at an end of their range.
unfoldable pub outer_axes : (AxisInfo → ℤ) → List AxisInfo → List Event
outer_axes at [] = []
outer_axes at (a ∷ as') =
    let rest = outer_axes at as' in if ltb a.code slot then abs_event a.code (at a) ∷ rest else rest

unfoldable pub hidden_frame : Descriptor → List Event
hidden_frame d =
    hidden_keys d.keys
    ++ slot_frames (hidden_axes d.axes) (slots d) 0
    ++ outer_axes (λ a. a.maximum) d.axes

unfoldable pub neutral_frame : Descriptor → List Event
neutral_frame d =
    neutral_keys d.keys
    ++ slot_frames (neutral_axes d.axes) (slots d) 0
    ++ outer_axes (λ a. a.minimum) d.axes

-- The first chunk, of the elements that it has room for, and the chunks after it.
abbrev chunked {ℓ} : {A : Type ℓ} → ℕ → ℕ → List A → List A × List (List A)
chunked size left [] = ([], [])
chunked size zero (x ∷ xs) =
    let (first, rest) = chunked size (size - 1) xs in ([], (x ∷ first) ∷ rest)
chunked size (suc left) (x ∷ xs) = let (first, rest) = chunked size left xs in (x ∷ first, rest)

-- `list.chunks(size)`
abbrev chunks {ℓ} : {A : Type ℓ} → ℕ → List A → List (List A)
chunks size xs = (chunked size 0 xs).1

unfoldable pub handoff_frames : Descriptor → Result (List Event × List Event)
handoff_frames d = do
  Descriptor.validate d
  ensure (any_of synchronizable d.axes) "Touchpad coordinates cannot be synchronized"
  for_each (validate_device_frame d) (chunks 256 (hidden_frame d) ++ chunks 256 (neutral_frame d))
  ok (hidden_frame d, neutral_frame d)

-- The contact starts of the repair of a legacy reader, slot by slot.
unfoldable pub repair_starts : ℤ → ℕ → ℕ → List Event
repair_starts id zero index = []
repair_starts id (suc left) index =
    abs_event slot (pos index) ∷ abs_event tracking id ∷ repair_starts id left (index + 1)

-- The hidden frame with the starts of the repair. A descriptor without a tracking axis is refused
-- before (`unwrap`).
unfoldable pub repaired : Descriptor → List Event → Option AxisInfo → Result (List Event)
repaired d hidden none = err "A slot-based multi-touch touchpad is required"
repaired d hidden (some a) = do
  let id = max_ℤ a.minimum (pos 0)
  ensure (leb_ℤ id a.maximum) "Touchpad tracking IDs cannot be restored"
  let frame = hidden ++ repair_starts id (slots d) 0
  for_each (validate_device_frame d) (chunks 256 frame)
  ok frame

-- The frames that `finish_physical_handoff` writes, the first under the grab and the second after.
unfoldable pub handoff : Descriptor → Bool → Result (List Event × List Event)
handoff d repair_legacy_reader = do
  frames ← handoff_frames d
  hidden ←
      if repair_legacy_reader then repaired d frames.0 (find_axis d.axes tracking) else ok frames.0
  ok (hidden, frames.1)
