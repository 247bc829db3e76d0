-- ===== src/Touchpad/Virtual/Releasing.antt =====
-- src/touchpad.rs: that a touchpad's releases are a frame that its descriptor admits.
use niri_bridge.Prelude.{
  leb, ◌==◌, length, length-append, ok, ensure, for_each, ℕ, ◌+◌, ◌-◌, ◌≤◌, ◌≡◌, refl, Bool, true,
  ◌&&◌, not, Option, none, some, List, [], ◌∷◌, ◌++◌, arith,
}
use niri_bridge.Prelude.Int.{ℤ, pos, ◌+ℤ◌}
use niri_bridge.Prelude.Sets.{contains, IsAbove, IsSorted}
use niri_bridge.Prelude.All.{All, All-append, ensure-ok, >>-ok}
use niri_bridge.Touchpad.Event.{
  Event, touch, slot, touch_key, key_event, validate_event, validate_frame,
}
use niri_bridge.Touchpad.Descriptor.{
  AxisInfo, Descriptor, all_of, find_axis, validate_slots, validate, slot_total, slots, advertised,
  validate_device_frame,
}
use niri_bridge.Touchpad.Descriptor as Descriptor
use niri_bridge.Touchpad.State.{TouchState, key_events, contact_ends, releases}
use niri_bridge.Touchpad.Virtual.Fitting.{IsKnown, IsFitting}
use niri_bridge.Touchpad.Virtual.Capable.{
  Capable, validate-Capable, Admitted, all_of-contains, key-Admitted, contact_ends-Admitted,
  key_events-Admitted,
}

All-Admitted-each :
    (d : Descriptor) (frame : List Event)
    → All (Admitted d) frame
    → (for_each validate_event frame ≡ ok tt)
      × (for_each (λ e. advertised d e.kind e) frame ≡ ok tt)
All-Admitted-each d [] h = (refl, refl)
All-Admitted-each d (e ∷ frame) ((a, b), rest) =
    let (as', bs) = All-Admitted-each d frame rest in
    (
      (>>-ok (validate_event e) (for_each validate_event frame) tt).1 (a, as'),
      (>>-ok (advertised d e.kind e) (for_each (λ e. advertised d e.kind e) frame) tt).1 (b, bs),
    )

-- Ascending numbers below a bound are no more than the bound leaves room for.
above-length :
    (b top : ℕ) (keys : List ℕ)
    → IsAbove b keys
    → all_of (λ c. leb c top) keys ≡ true
    → length keys ≤ top - b
above-length b top [] h k = omega arith
above-length b top (c ∷ keys) h k =
    let rest = above-length c top keys h.1 (ground arith) in ground arith

key_events-length : (v : ℤ) (keys : List ℕ) → length (key_events v keys) ≤ length keys
unfolding key_events
key_events-length v [] = omega arith
key_events-length v (c ∷ keys) = ground (arith, key_events-length v keys)

contact_ends-length :
    (index : ℕ) (cs : List (List (ℕ × ℤ))) → length (contact_ends index cs) ≡ length cs + length cs
unfolding contact_ends
contact_ends-length index [] = refl
contact_ends-length index (c ∷ cs) = omega (arith, contact_ends-length (index + 1) cs)

all_of-known :
    (p : ℕ → Bool) (keys : List ℕ)
    → ((z : ℕ) → contains keys z ≡ true → p z ≡ true)
    → all_of p keys ≡ true
all_of-known p [] h = refl
all_of-known p (c ∷ keys) h =
    ground (arith, h c (ground arith), all_of-known p keys (λ z k. h z (ground arith)))

touch_key-between : (c : ℕ) → touch_key c ≡ true → (leb 272 c && leb c 335) ≡ true
unfolding touch_key
touch_key-between c h = ground arith

sorted-length :
    (keys : List ℕ)
    → IsSorted keys
    → all_of (λ c. leb 272 c && leb c 335) keys ≡ true
    → length keys ≤ 64
sorted-length [] h k = omega arith
sorted-length (c ∷ keys) h k =
    let below =
      all_of-known (λ c. leb c 335) keys
        (λ z own.
          let both = all_of-contains (λ c. leb 272 c && leb c 335) keys z (ground arith) own in
          ground arith) in
    let rest = above-length c 335 keys h below in ground arith

keys-length : (d : Descriptor) (keys : List ℕ) → Capable d → IsKnown d keys → length keys ≤ 64
keys-length d keys can k = sorted-length keys k.sorted (
    all_of-known (λ c. leb 272 c && leb c 335) keys
      (λ z own.
        touch_key-between z (all_of-contains touch_key d.keys z can.surface (k.known z own))))

few_slots : (o : Option AxisInfo) → validate_slots o ≡ ok tt → slot_total o ≤ 32
unfolding validate_slots ◌+ℤ◌
few_slots none h = cc
few_slots (some a) h = ground arith

slots-le : (d : Descriptor) → Descriptor.validate d ≡ ok tt → slots d ≤ 32
unfolding slots
slots-le d v = few_slots (find_axis d.axes slot) (validate-Capable d v).slotted

frame-valid :
    (d : Descriptor) (frame : List Event)
    → All (Admitted d) frame
    → 1 ≤ length frame
    → length frame ≤ 512
    → validate_device_frame d frame ≡ ok tt
unfolding validate_device_frame validate_frame
frame-valid d frame h some_event few =
    let (each, own) = All-Admitted-each d frame h in
    let sized = not (length frame == 0) && leb (length frame) 512 in
    let fits : sized ≡ true = ground arith in
    (>>-ok _ (for_each (λ e. advertised d e.kind e) frame) tt).1 (
      (>>-ok (ensure sized _) (for_each validate_event frame) tt).1
          ((ensure-ok sized _).1 fits, each),
      own,
    )

-- In a state that fits its touchpad, the releases are a frame that the touchpad admits: not more
-- than 512 events, each of a key or axis that it has, in its range.
pub releases-Admitted :
    (d : Descriptor) (s : TouchState) → IsFitting d s → validate_device_frame d (releases s) ≡ ok tt
unfolding releases
releases-Admitted d s f =
    let can = validate-Capable d f.valid in
    let ends = contact_ends 0 s.contacts in
    let ups = key_events (pos 0) s.keys in
    let count = length-append ends ups in
    let few = keys-length d s.keys can f.keys in
    let each = (All-append (Admitted d) ends ups).1 (
      contact_ends-Admitted d can 0 s.contacts (omega (arith, f.fits.1)),
      key_events-Admitted d can 0 s.keys f.keys.known refl,
    ) in
    frame-valid d (key_event touch (pos 0) ∷ ends ++ ups)
      (key-Admitted d can touch 0 can.touches refl, each) (omega arith)
      (omega (
        arith,
        count,
        contact_ends-length 0 s.contacts,
        key_events-length (pos 0) s.keys,
        few,
        slots-le d f.valid,
        f.fits.1,
      ))
