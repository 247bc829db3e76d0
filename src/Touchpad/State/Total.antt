-- ===== src/Touchpad/State/Total.antt =====
-- src/touchpad.rs, `TouchState::apply` on frames that the touchpad's descriptor admits.

use niri_bridge.Prelude.Int.{◌+ℤ◌}
use niri_bridge.Touchpad.Descriptor as Descriptor
use niri_bridge.Touchpad.State as State
use niri_bridge.Touchpad.State.{put, TouchState, new, as_usize, apply_event, apply}
use niri_bridge.Prelude.{
  ltb, ◌==◌, ==_iff, Bool-cases, length, get_elem?, set, length-set, length-replicate, ok, for_each,
  Result-cases, ℕ, zero, suc, ◌<◌, ◌≡◌, refl, sym, ap, ◌∙◌, inl, inr, Option, none, some, List, [],
  ◌∷◌, arith,
}
use niri_bridge.Touchpad.Event.{Kind, key, absolute, Event, slot, validate_frame}
use niri_bridge.Prelude.All.{>>-ok}
use niri_bridge.Touchpad.Descriptor.{
  AxisInfo, Descriptor, find_axis, validate_axes, validate_slots, validate, slot_total, slots,
  axis_takes, advertised, validate_device_frame,
}

-- The last check of `validate`.
validate-slots :
    (d : Descriptor)
    → Descriptor.validate d ≡ ok tt
    → validate_slots (find_axis d.axes slot) ≡ ok tt
unfolding Descriptor.validate
validate-slots d h = elim (Result-cases (validate_axes d.axes [])) [
  | inl (codes, e) ↦ ground (arith, (rw e at h))
  | inr (_, e) ↦ absurd (ground (arith, (rw e at h)))
]

-- A state that fits a touchpad: as many contacts as it has slots, and one of them is current.
abbrev pub Fits : Descriptor → TouchState → Type 0
Fits d s = (s.slot < slots d) × (length s.contacts ≡ slots d)

slot_in_range :
    (o : Option AxisInfo) (e : Event)
    → validate_slots o ≡ ok tt
    → axis_takes o e ≡ ok tt
    → e.code ≡ slot
    → as_usize e.value < slot_total o
unfolding validate_slots ◌+ℤ◌
slot_in_range none e h k c = cc
slot_in_range (some a) e h k c = ground arith

pub there : {A : Type 0} (xs : List A) (i : ℕ) → i < length xs → (x : A) × (get_elem? xs i ≡ some x)
there [] i h = absurd (omega arith)
there (x ∷ xs) zero h = (x, refl)
there (x ∷ xs) (suc i) h = there xs i (omega arith)

apply_event-Fits :
    (d : Descriptor) (k : Kind) (e : Event) (s : TouchState)
    → validate_slots (find_axis d.axes slot) ≡ ok tt
    → advertised d k e ≡ ok tt
    → Fits d s
    → (s' : TouchState) × (apply_event k e s ≡ some s') × Fits d s'
unfolding apply_event slots
apply_event-Fits d key e s v h f = (_, refl, f)
apply_event-Fits d absolute e s v h f = elim (Bool-cases (e.code == slot)) [
  | inl own ↦
      let at = (==_iff e.code slot).0 own in
      let takes = sym (ap (λ c. axis_takes (find_axis d.axes c) e) at) ∙ h in
      (
        record s { slot = as_usize e.value },
        rw own refl,
        (slot_in_range (find_axis d.axes slot) e v takes at, f.1),
      )
  | inr other ↦ elim (Bool-cases (ltb slot e.code)) [
    | inl above ↦
        let (contact, found) = there s.contacts s.slot (omega (arith, f.0, f.1)) in
        let changed = put contact e.code e.value in
        (
          record s { contacts = set s.contacts s.slot changed },
          rw (other, above, found) refl,
          (f.0, length-set s.contacts s.slot changed ∙ f.1),
        )
    | inr below ↦ (record s { axes = put s.axes e.code e.value }, rw (other, below) refl, f)
  ]
]

apply_each-Fits :
    (d : Descriptor) (frame : List Event) (s : TouchState)
    → validate_slots (find_axis d.axes slot) ≡ ok tt
    → for_each (λ e. advertised d e.kind e) frame ≡ ok tt
    → Fits d s
    → (s' : TouchState) × (apply frame s ≡ some s') × Fits d s'
unfolding apply
apply_each-Fits d [] s v h f = (s, refl, f)
apply_each-Fits d (e ∷ frame) s v h f =
    let (one, others) =
      (>>-ok (advertised d e.kind e) (for_each (λ e. advertised d e.kind e) frame) tt).0 h in
    let (s₁, applied, fits) = apply_event-Fits d e.kind e s v one f in
    let (s₂, rest, fits₂) = apply_each-Fits d frame s₁ v others fits in (s₂, rw applied rest, fits₂)

-- A validated frame on a validated touchpad is applied without a panic to a state that fits the
-- touchpad, and leaves one that fits it.
pub apply-Fits :
    (d : Descriptor) (frame : List Event) (s : TouchState)
    → Descriptor.validate d ≡ ok tt
    → validate_device_frame d frame ≡ ok tt
    → Fits d s
    → (s' : TouchState) × (apply frame s ≡ some s') × Fits d s'
unfolding validate_device_frame
apply-Fits d frame s v h f =
    let (_, each) =
      (>>-ok (validate_frame frame) (for_each (λ e. advertised d e.kind e) frame) tt).0 h in
    apply_each-Fits d frame s (validate-slots d v) each f

some_slot : (o : Option AxisInfo) → validate_slots o ≡ ok tt → 0 < slot_total o
unfolding validate_slots ◌+ℤ◌
some_slot none h = cc
some_slot (some a) h = ground arith

-- The state that `new` makes for a validated touchpad fits it.
pub new-Fits : (d : Descriptor) → Descriptor.validate d ≡ ok tt → Fits d (State.new d)
unfolding State.new slots
new-Fits d v =
    (some_slot (find_axis d.axes slot) (validate-slots d v), length-replicate (slots d) _)
