-- ===== src/Touchpad/Virtual/Capable.antt =====
-- src/touchpad.rs: what a validated touchpad can do, and the events that it admits.
use niri_bridge.Prelude.{
  leb, ◌==◌, ==_iff, Bool-cases, in_range, length, ok, ensure, ℕ, ◌+◌, ◌≤◌, ◌<◌, ◌≡◌, refl, ap, inl,
  inr, Bool, true, false, ◌&&◌, ◌||◌, not, Option, none, some, List, [], ◌∷◌, arith,
}
use niri_bridge.Prelude.Int.{ℤ, pos, ◌+ℤ◌, leb_ℤ, minus_one}
use niri_bridge.Prelude.Sets.{contains, insert, extend, contains-insert}
use niri_bridge.Prelude.All.{All, ensure-ok, >>-ok, >>=-ok, ok-injective}
use niri_bridge.Touchpad.Event.{
  Event, touch, slot, tracking, tool_finger, touch_key, touch_axis, key_event, abs_event,
  axis_limit, axis_floor, validate_event,
}
use niri_bridge.Touchpad.Descriptor.{
  AxisInfo, Descriptor, all_of, find_axis, touch_property, calibrated, validate_axis, validate_axes,
  validate_slots, validate, slot_total, slots, axis_takes, advertised,
}
use niri_bridge.Touchpad.Descriptor as Descriptor
use niri_bridge.Touchpad.State.{key_events, contact_ends}

abbrev is_some : Option AxisInfo → Bool
is_some none = false
is_some (some a) = true

-- What `validate` found, for the releases: the touch key, the touch surface's keys, the slot axis
-- and the tracking axis.
pub record Capable (d : Descriptor) : Type 0 where
  pub touches : contains d.keys touch ≡ true
  pub surface : all_of touch_key d.keys ≡ true
  pub slotted : validate_slots (find_axis d.axes slot) ≡ ok tt
  tracked : is_some (find_axis d.axes tracking) ≡ true

validate_axis-ok :
    (a : AxisInfo) (met codes : List ℕ) → validate_axis a met ≡ ok codes → insert met a.code ≡ codes
unfolding validate_axis
validate_axis-ok a met codes h =
    let (_, h) = (>>-ok (ensure (touch_axis a.code && not (contains met a.code)) _) _ codes).0 h in
    let (_, h) =
      (>>-ok
          (ensure
            (leb_ℤ axis_floor a.minimum && leb_ℤ a.minimum a.maximum && leb_ℤ a.maximum axis_limit)
            _)
          _ codes).0
        h in
    let (_, h) =
      (>>-ok (ensure (calibrated a.fuzz && calibrated a.flat && calibrated a.resolution) _) _
          codes).0
        h in
    ok-injective _ _ h

validate_axes-codes :
    (as' : List AxisInfo) (met codes : List ℕ) (c : ℕ)
    → validate_axes as' met ≡ ok codes
    → contains codes c ≡ (contains met c || is_some (find_axis as' c))
unfolding validate_axes
validate_axes-codes [] met codes c h =
    let same = ok-injective met codes h in ground (arith, ap (λ k. contains k c) same)
validate_axes-codes (a ∷ as') met codes c h =
    let (next, one, rest) = >>=-ok (validate_axis a met) (validate_axes as') codes h in
    let same = ap (λ k. contains k c) (validate_axis-ok a met next one) in
    ground (arith, validate_axes-codes as' next codes c rest, same, contains-insert met a.code c)

pub validate-Capable : (d : Descriptor) → Descriptor.validate d ≡ ok tt → Capable d
unfolding Descriptor.validate
validate-Capable d h =
    let (a, h₁) =
      (>>-ok (ensure (in_range 2 16 (length d.keys) && all_of touch_key d.keys) _) _ tt).0 h in
    let (_, h₂) = (>>-ok (ensure (length (extend [] d.keys) == length d.keys) _) _ tt).0 h₁ in
    let (b, h₃) =
      (>>-ok (ensure (contains d.keys touch && contains d.keys tool_finger) _) _ tt).0 h₂ in
    let (_, h₄) =
      (>>-ok
          (ensure
            (leb (length d.properties) 5
              && contains d.properties 0
              && all_of touch_property d.properties)
            _)
          _ tt).0
        h₃ in
    let (_, h₅) = (>>-ok (ensure (in_range 4 20 (length d.axes)) _) _ tt).0 h₄ in
    let (codes, met, h₆) = >>=-ok (validate_axes d.axes []) _ tt h₅ in
    let (c, slots') =
      (>>-ok (ensure (all_of (contains codes) (0 ∷ 1 ∷ slot ∷ 53 ∷ 54 ∷ tracking ∷ [])) _) _ tt).0
        h₆ in
    let keys = (ensure-ok _ _).0 a in
    let touching = (ensure-ok _ _).0 b in
    let all = (ensure-ok _ _).0 c in
    record {
      touches = ground arith;
      surface = ground arith;
      slotted = slots';
      tracked = ground (arith, validate_axes-codes d.axes [] codes tracking met);
    }

abbrev pub Admitted : Descriptor → Event → Type 0
Admitted d e = (validate_event e ≡ ok tt) × (advertised d e.kind e ≡ ok tt)

pub all_of-contains :
    (p : ℕ → Bool) (keys : List ℕ) (c : ℕ)
    → all_of p keys ≡ true
    → contains keys c ≡ true
    → p c ≡ true
all_of-contains p [] c h k = absurd (ground arith)
all_of-contains p (x ∷ keys) c h k = elim (Bool-cases (c == x)) [
  | inl same ↦ rw ((==_iff c x).0 same) (ground arith)
  | inr other ↦ all_of-contains p keys c (ground arith) (ground arith)
]

module _ (d : Descriptor) (can : Capable d) where
  pub key-Admitted :
      (c v : ℕ) → contains d.keys c ≡ true → leb v 1 ≡ true → Admitted d (key_event c (pos v))
  unfolding validate_event
  key-Admitted c v own small =
      let surface = all_of-contains touch_key d.keys c can.surface own in
      (ground arith, ground arith)

  slotted-Admitted :
      (o : Option AxisInfo) (index : ℕ)
      → validate_slots o ≡ ok tt
      → index < slot_total o
      → (validate_event (abs_event slot (pos index)) ≡ ok tt)
        × (axis_takes o (abs_event slot (pos index)) ≡ ok tt)
  unfolding validate_slots ◌+ℤ◌ validate_event touch_axis
  slotted-Admitted none index v h = cc
  slotted-Admitted (some a) index v h = (ground arith, ground arith)

  slot-Admitted : (index : ℕ) → index < slots d → Admitted d (abs_event slot (pos index))
  unfolding slots
  slot-Admitted index h = slotted-Admitted (find_axis d.axes slot) index can.slotted h

  tracking-taken :
      (o : Option AxisInfo) → is_some o ≡ true → axis_takes o (abs_event tracking minus_one) ≡ ok tt
  tracking-taken none h = absurd (ground arith)
  tracking-taken (some a) h = ground arith

  end-Admitted : Admitted d (abs_event tracking minus_one)
  unfolding validate_event touch_axis
  end-Admitted = (refl, tracking-taken (find_axis d.axes tracking) can.tracked)

  pub contact_ends-Admitted :
      (index : ℕ) (cs : List (List (ℕ × ℤ)))
      → index + length cs ≤ slots d
      → All (Admitted d) (contact_ends index cs)
  unfolding contact_ends
  contact_ends-Admitted index [] h = tt
  contact_ends-Admitted index (c ∷ cs) h = (
    slot-Admitted index (omega (arith, h)),
    (end-Admitted, contact_ends-Admitted (index + 1) cs (omega (arith, h))),
  )

  pub key_events-Admitted :
      (v : ℕ) (keys : List ℕ)
      → ((z : ℕ) → contains keys z ≡ true → contains d.keys z ≡ true)
      → leb v 1 ≡ true
      → All (Admitted d) (key_events (pos v) keys)
  unfolding key_events
  key_events-Admitted v [] h small = tt
  key_events-Admitted v (c ∷ keys) h small =
      let rest = key_events-Admitted v keys (λ z k. h z (ground arith)) small in
      let first = key-Admitted c v (h c (ground arith)) small in
      elim (Bool-cases (c == touch)) [ inl own ↦ rw own rest | inr other ↦ rw other (first, rest) ]
