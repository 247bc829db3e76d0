-- ===== src/Touchpad/Handoff/Quiet.antt =====
-- src/touchpad.rs: that the frames of a handoff press nothing, and show the compositor no contact.
use niri_bridge.Prelude.{
  leb, ◌==◌, ok, ensure, for_each, ℕ, zero, suc, ◌+◌, ◌≡◌, refl, ap, ◌∙◌, Bool, true, false, ◌&&◌,
  ◌||◌, not, Option, none, some, List, [], ◌∷◌, ◌++◌, arith,
}
use niri_bridge.Prelude.Int.{ℤ, pos, leb_ℤ, eqb_ℤ, max_ℤ, minus_one}
use niri_bridge.Prelude.All.{>>-ok, >>=-ok, ok-injective}
use niri_bridge.Touchpad.Event.{Kind, key, absolute, Event, slot, tracking, abs_event}
use niri_bridge.Touchpad.Descriptor.{
  AxisInfo, Descriptor, all_of, find_axis, validate, slots, validate_device_frame,
}
use niri_bridge.Touchpad.Descriptor as Descriptor
use niri_bridge.Touchpad.Handoff.{
  synchronizable, any_of, hidden_keys, neutral_keys, hidden_axes, neutral_axes, slot_frames,
  outer_axes, hidden_frame, neutral_frame, handoff_frames, repair_starts, repaired, handoff,
}

abbrev presses_nothing : Kind → Event → Bool
presses_nothing key e = eqb_ℤ e.value (pos 0)
presses_nothing absolute e = true

-- An event that presses no key.
abbrev pub no_press : Event → Bool
no_press e = presses_nothing e.kind e

abbrev shows_nothing : Kind → Event → Bool
shows_nothing key e = leb 325 e.code && eqb_ℤ e.value (pos 0)
shows_nothing absolute e = not (e.code == tracking) || eqb_ℤ e.value minus_one

-- The release of a key of the touch surface, the end of a contact, or the value of an axis: no
-- press, no event of a mouse button and no start of a contact.
abbrev pub neutral_event : Event → Bool
neutral_event e = shows_nothing e.kind e

all_of-append :
    {A : Type 0} (p : A → Bool) (xs ys : List A)
    → all_of p xs ≡ true
    → all_of p ys ≡ true
    → all_of p (xs ++ ys) ≡ true
all_of-append p [] ys h k = k
all_of-append p (x ∷ xs) ys h k = ground (arith, all_of-append p xs ys)

-- A test that the ends of contacts and the values of other axes pass.
record Passes (p : Event → Bool) : Type 0 where
  ends : (index : ℕ) → (p (abs_event slot (pos index)) && p (abs_event tracking minus_one)) ≡ true
  values : (code : ℕ) (v : ℤ) → (code == tracking) ≡ false → p (abs_event code v) ≡ true

module _ (p : Event → Bool) (passes : Passes p) where
  slot_frames-all :
      (values : List Event) (left index : ℕ)
      → all_of p values ≡ true
      → all_of p (slot_frames values left index) ≡ true
  unfolding slot_frames
  slot_frames-all values zero index h = refl
  slot_frames-all values (suc left) index h = ground (
    arith,
    passes.ends index,
    all_of-append p values (slot_frames values left (index + 1)) h
        (slot_frames-all values left (index + 1) h),
  )

  hidden_axes-all : (as' : List AxisInfo) → all_of p (hidden_axes as') ≡ true
  unfolding hidden_axes
  hidden_axes-all [] = refl
  hidden_axes-all (a ∷ as') =
      ground
        (arith, hidden_axes-all as', passes.values a.code a.minimum, passes.values a.code a.maximum)

  neutral_axes-all : (as' : List AxisInfo) → all_of p (neutral_axes as') ≡ true
  unfolding neutral_axes
  neutral_axes-all [] = refl
  neutral_axes-all (a ∷ as') = ground (arith, neutral_axes-all as', passes.values a.code a.minimum)

  outer_axes-all : (at : AxisInfo → ℤ) (as' : List AxisInfo) → all_of p (outer_axes at as') ≡ true
  unfolding outer_axes
  outer_axes-all at [] = refl
  outer_axes-all at (a ∷ as') = ground (arith, outer_axes-all at as', passes.values a.code (at a))

no_press-Passes : Passes no_press
no_press-Passes = record { ends = λ index. refl; values = λ code v h. refl }

neutral_event-Passes : Passes neutral_event
neutral_event-Passes = record { ends = λ index. refl; values = λ code v h. ground arith }

hidden_keys-no_press : (keys : List ℕ) → all_of no_press (hidden_keys keys) ≡ true
unfolding hidden_keys
hidden_keys-no_press [] = refl
hidden_keys-no_press (c ∷ keys) = hidden_keys-no_press keys

neutral_keys-neutral : (keys : List ℕ) → all_of neutral_event (neutral_keys keys) ≡ true
unfolding neutral_keys
neutral_keys-neutral [] = refl
neutral_keys-neutral (c ∷ keys) = ground (arith, neutral_keys-neutral keys)

hidden_frame-no_press : (d : Descriptor) → all_of no_press (hidden_frame d) ≡ true
unfolding hidden_frame
hidden_frame-no_press d =
    let contacts = slot_frames (hidden_axes d.axes) (slots d) 0 in
    let passes = no_press-Passes in
    let values = hidden_axes-all no_press passes d.axes in
    all_of-append no_press (hidden_keys d.keys ++ contacts) _
      (all_of-append no_press (hidden_keys d.keys) contacts (hidden_keys-no_press d.keys)
        (slot_frames-all no_press passes _ (slots d) 0 values))
      (outer_axes-all no_press passes _ d.axes)

neutral_frame-neutral : (d : Descriptor) → all_of neutral_event (neutral_frame d) ≡ true
unfolding neutral_frame
neutral_frame-neutral d =
    let contacts = slot_frames (neutral_axes d.axes) (slots d) 0 in
    let passes = neutral_event-Passes in
    let values = neutral_axes-all neutral_event passes d.axes in
    all_of-append neutral_event (neutral_keys d.keys ++ contacts) _
      (all_of-append neutral_event (neutral_keys d.keys) contacts (neutral_keys-neutral d.keys)
        (slot_frames-all neutral_event passes _ (slots d) 0 values))
      (outer_axes-all neutral_event passes _ d.axes)

repair_starts-no_press :
    (id : ℤ) (left index : ℕ) → all_of no_press (repair_starts id left index) ≡ true
unfolding repair_starts
repair_starts-no_press id zero index = refl
repair_starts-no_press id (suc left) index = repair_starts-no_press id left (index + 1)

-- The frames that a handoff checks are those that it returns.
handoff_frames-ok :
    (d : Descriptor) (frames : List Event × List Event)
    → handoff_frames d ≡ ok frames
    → (Descriptor.validate d ≡ ok tt) × ((hidden_frame d, neutral_frame d) ≡ frames)
unfolding handoff_frames
handoff_frames-ok d frames h =
    let (v, rest) = (>>-ok (Descriptor.validate d) _ frames).0 h in
    let (_, rest) = (>>-ok (ensure (any_of synchronizable d.axes) _) _ frames).0 rest in
    let (_, same) = (>>-ok (for_each (validate_device_frame d) _) _ frames).0 rest in
    (v, ok-injective _ _ same)

-- The hidden frame is that of `handoff_frames`, and with a repair the starts after it.
abbrev pub RepairOf : Descriptor → Bool → List Event → Type 0
RepairOf d false hidden = hidden_frame d ≡ hidden
RepairOf d true hidden = (id : ℤ) × ((hidden_frame d ++ repair_starts id (slots d) 0) ≡ hidden)

repaired-ok :
    (d : Descriptor) (o : Option AxisInfo) (hidden : List Event)
    → repaired d (hidden_frame d) o ≡ ok hidden
    → RepairOf d true hidden
unfolding repaired
repaired-ok d none hidden h = cc
repaired-ok d (some a) hidden h =
    let id = max_ℤ a.minimum (pos 0) in
    let (_, rest) = (>>-ok (ensure (leb_ℤ id a.maximum) _) _ hidden).0 h in
    let (_, same) = (>>-ok (for_each (validate_device_frame d) _) _ hidden).0 rest in
    (id, ok-injective _ _ same)

pub handoff-ok :
    (d : Descriptor) (repair : Bool) (hidden neutral : List Event)
    → handoff d repair ≡ ok (hidden, neutral)
    → (Descriptor.validate d ≡ ok tt) × RepairOf d repair hidden × (neutral_frame d ≡ neutral)
unfolding handoff
handoff-ok d false hidden neutral h =
    let (frames, made, rest) = >>=-ok (handoff_frames d) _ (hidden, neutral) h in
    let (v, same) = handoff_frames-ok d frames made in
    let both = same ∙ ok-injective _ _ rest in (v, ap (λ p. p.0) both, ap (λ p. p.1) both)
handoff-ok d true hidden neutral h =
    let (frames, made, rest) = >>=-ok (handoff_frames d) _ (hidden, neutral) h in
    let (v, same) = handoff_frames-ok d frames made in
    let (hidden', starts, last) = >>=-ok (repaired d frames.0 _) _ (hidden, neutral) rest in
    let both = ok-injective _ _ last in
    let starts' =
      ap (λ f. repaired d f (find_axis d.axes tracking)) (ap (λ p. p.0) same)
      ∙ starts
      ∙ ap (λ p. ok (p.0)) both in
    (v, repaired-ok d _ hidden starts', ap (λ p. p.1) same ∙ ap (λ p. p.1) both)

hidden-no_press :
    (d : Descriptor) (repair : Bool) (hidden : List Event)
    → RepairOf d repair hidden
    → all_of no_press hidden ≡ true
hidden-no_press d false hidden h = let same = hidden_frame-no_press d in (rw h at same)
hidden-no_press d true hidden (id, h) =
    let both =
      all_of-append no_press (hidden_frame d) (repair_starts id (slots d) 0)
        (hidden_frame-no_press d) (repair_starts-no_press id (slots d) 0) in
    (rw h at both)

-- Where the handoff of a touchpad has frames: the hidden one presses no key, and the visible one
-- shows the compositor no press, no event of a mouse button and no start of a contact, with the
-- repair of a legacy reader and without.
pub handoff-no_press :
    (d : Descriptor) (repair : Bool) (hidden neutral : List Event)
    → handoff d repair ≡ ok (hidden, neutral)
    → (all_of no_press hidden ≡ true) × (all_of neutral_event neutral ≡ true)
handoff-no_press d repair hidden neutral h =
    let (_, frame, same) = handoff-ok d repair hidden neutral h in
    let quiet = neutral_frame-neutral d in
    (hidden-no_press d repair hidden frame, (rw same at quiet))
