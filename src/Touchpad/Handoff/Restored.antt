-- ===== src/Touchpad/Handoff/Restored.antt =====
-- src/touchpad.rs: the state of a touchpad, and the compositor's view of it, after a handoff.
use niri_bridge.Prelude.{
  ltb, leb, ◌==◌, if◌then◌else◌, ==_iff, Bool-cases, length, get_elem?, set, length-set, ok, ℕ,
  zero, suc, ◌+◌, ◌≤◌, ◌<◌, ◌≡◌, refl, sym, ap, ◌∙◌, inl, inr, Bool, true, false, ◌&&◌, not, some,
  List, [], ◌∷◌, ◌++◌, arith,
}
use niri_bridge.Prelude.Int.{ℤ}
use niri_bridge.Prelude.Sets.{contains, remove, contains-remove}
use niri_bridge.Touchpad.Event.{Event, slot, tracking}
use niri_bridge.Touchpad.Descriptor.{AxisInfo, Descriptor, all_of, slots}
use niri_bridge.Touchpad.State.{put, find_value, TouchState, apply_event, apply, ended, idle}
use niri_bridge.Touchpad.State.Releases.{apply-append}
use niri_bridge.Touchpad.State.Total.{there}
use niri_bridge.Touchpad.Handoff.{
  hidden_keys, neutral_keys, hidden_axes, neutral_axes, slot_frames, outer_axes, hidden_frame,
  neutral_frame, repair_starts, handoff,
}
use niri_bridge.Touchpad.Handoff.Quiet.{RepairOf, handoff-ok}
use niri_bridge.Touchpad.Handoff.Ends.{
  HasEnded, Settling, hidden_axes-Settling, neutral_axes-Settling, slot_frames-Settles,
}
use niri_bridge.Receiver.Release.{eq-nil_of_contains}

-- The keys of a set that are left after the release of those that pass a test.
abbrev released : (ℕ → Bool) → List ℕ → List ℕ → List ℕ
released p keys [] = keys
released p keys (c ∷ codes) = released p (if p c then remove keys c else keys) codes

contains-released :
    (p : ℕ → Bool) (keys codes : List ℕ) (z : ℕ)
    → contains (released p keys codes) z ≡ (contains keys z && not (p z && contains codes z))
contains-released p keys [] z = ground arith
contains-released p keys (c ∷ codes) z = elim (Bool-cases (z == c)) [
  | inl own ↦
      let same = (==_iff z c).0 own in
      rw same (
        ground (
          arith,
          contains-released p (if p c then remove keys c else keys) codes c,
          contains-remove keys c c,
        ))
  | inr other ↦ ground (
    arith,
    contains-released p (if p c then remove keys c else keys) codes z,
    contains-remove keys c z,
  )
]

apply-hidden_keys :
    (codes : List ℕ) (s : TouchState)
    → apply (hidden_keys codes) s ≡ some (record s { keys = released (λ c. true) s.keys codes })
unfolding apply hidden_keys apply_event
apply-hidden_keys [] s = refl
apply-hidden_keys (c ∷ codes) s = apply-hidden_keys codes (record s { keys = remove s.keys c })

apply-neutral_keys :
    (codes : List ℕ) (s : TouchState)
    → apply (neutral_keys codes) s
      ≡ some (record s { keys = released (λ c. leb 325 c) s.keys codes })
unfolding apply neutral_keys apply_event
apply-neutral_keys [] s = refl
apply-neutral_keys (c ∷ codes) s = elim (Bool-cases (leb 325 c)) [
  | inl own ↦ rw own (apply-neutral_keys codes (record s { keys = remove s.keys c }))
  | inr other ↦ rw other (apply-neutral_keys codes s)
]

apply-outer_axes :
    (at : AxisInfo → ℤ) (as' : List AxisInfo) (s : TouchState)
    → (s' : TouchState) × (apply (outer_axes at as') s ≡ some s')
      × (s'.keys ≡ s.keys)
      × (s'.contacts ≡ s.contacts)
unfolding apply outer_axes apply_event
apply-outer_axes at [] s = (s, refl, refl, refl)
apply-outer_axes at (a ∷ as') s = elim (Bool-cases (ltb a.code slot)) [
  | inl own ↦
      let other : (a.code == slot) ≡ false = ground arith in
      let below : ltb slot a.code ≡ false = ground arith in
      let (s', applied, keys, contacts) =
        apply-outer_axes at as' (record s { axes = put s.axes a.code (at a) }) in
      (s', rw (own, other, below) applied, keys, contacts)
  | inr other ↦
      let (s', applied, keys, contacts) = apply-outer_axes at as' s in
      (s', rw other applied, keys, contacts)
]

apply-repair_starts :
    (id : ℤ) (left index : ℕ) (s : TouchState)
    → index + left ≤ length s.contacts
    → (s' : TouchState) × (apply (repair_starts id left index) s ≡ some s')
      × (s'.keys ≡ s.keys)
      × (length s'.contacts ≡ length s.contacts)
unfolding apply repair_starts apply_event
apply-repair_starts id zero index s h = (s, refl, refl, refl)
apply-repair_starts id (suc left) index s h =
    let (c, found) = there s.contacts index (omega arith) in
    let cs = set s.contacts index (put c tracking id) in
    let same = length-set s.contacts index (put c tracking id) in
    let s₁ = record s { slot = index; contacts = cs } in
    let (s', applied, keys, count) =
      apply-repair_starts id left (index + 1) s₁ (omega (arith, same, h)) in
    (s', rw found applied, keys, count ∙ same)

all_of-IsEnded :
    (cs : List (List (ℕ × ℤ)))
    → ((j : ℕ) → j < length cs → HasEnded (get_elem? cs j))
    → all_of (λ c. ended (find_value c tracking)) cs ≡ true
all_of-IsEnded [] h = refl
all_of-IsEnded (c ∷ cs) h =
    ground (arith, h 0 (omega arith), all_of-IsEnded cs (λ j k. h (suc j) (omega (arith, k))))

-- A frame of releases, of the ends of all contacts and of axis values.
frame-Ends :
    (keys : List Event) (left : List ℕ) (values : List Event) (at : AxisInfo → ℤ)
    (as' : List AxisInfo) (n : ℕ) (s : TouchState)
    → apply keys s ≡ some (record s { keys = left })
    → Settling values
    → length s.contacts ≡ n
    → (s' : TouchState) × (apply (keys ++ slot_frames values n 0 ++ outer_axes at as') s ≡ some s')
      × (s'.keys ≡ left)
      × (length s'.contacts ≡ n)
      × (all_of (λ c. ended (find_value c tracking)) s'.contacts ≡ true)
frame-Ends keys left values at as' n s released_keys settling count =
    let s₁ = record s { keys = left } in
    let (s₂, applied, settles, over) =
      slot_frames-Settles values n 0 s₁ settling (omega (arith, count)) in
    let (s₃, rest, kept, contacts) = apply-outer_axes at as' s₂ in
    let total = settles.count ∙ count in
    (
      s₃,
      rw
          (
            apply-append (keys ++ slot_frames values n 0) (outer_axes at as') s,
            apply-append keys (slot_frames values n 0) s,
            released_keys,
            applied,
          )
          rest,
      kept ∙ settles.keys,
      ap length contacts ∙ total,
      ap (all_of (λ c. ended (find_value c tracking))) contacts
          ∙ all_of-IsEnded s₂.contacts (λ j k. over j (omega arith) (omega (arith, total, k))),
    )

-- The visible frame, applied to any state with as many contacts as the touchpad has slots (what
-- the compositor believes): each contact has ended, and exactly the keys of the touch surface that
-- the touchpad has are released.
neutral-Ends :
    (d : Descriptor) (repair : Bool) (hidden neutral : List Event) (s : TouchState)
    → handoff d repair ≡ ok (hidden, neutral)
    → length s.contacts ≡ slots d
    → (s' : TouchState) × (apply neutral s ≡ some s')
      × (all_of (λ c. ended (find_value c tracking)) s'.contacts ≡ true)
      × ((z : ℕ) → contains s'.keys z ≡ (contains s.keys z && not (leb 325 z && contains d.keys z)))
unfolding neutral_frame
neutral-Ends d repair hidden neutral s h count =
    let (_, _, same) = handoff-ok d repair hidden neutral h in
    let (s', applied, keys, _, over) =
      frame-Ends (neutral_keys d.keys) (released (λ c. leb 325 c) s.keys d.keys)
        (neutral_axes d.axes) (λ a. a.minimum) d.axes (slots d) s (apply-neutral_keys d.keys s)
        (neutral_axes-Settling d.axes) count in
    (
      s',
      ap (λ f. apply f s) (sym same) ∙ applied,
      over,
      λ z. ap (λ k. contains k z) keys ∙ contains-released (λ c. leb 325 c) s.keys d.keys z,
    )

-- The hidden frame releases every key of the touchpad, and keeps the number of contacts.
hidden-released :
    (d : Descriptor) (repair : Bool) (hidden : List Event) (s : TouchState)
    → RepairOf d repair hidden
    → length s.contacts ≡ slots d
    → (s' : TouchState) × (apply hidden s ≡ some s')
      × (s'.keys ≡ released (λ c. true) s.keys d.keys)
      × (length s'.contacts ≡ slots d)
unfolding hidden_frame
hidden-released d repair hidden s h count =
    let (s₁, applied, keys, total, _) =
      frame-Ends (hidden_keys d.keys) (released (λ c. true) s.keys d.keys) (hidden_axes d.axes)
        (λ a. a.maximum) d.axes (slots d) s (apply-hidden_keys d.keys s)
        (hidden_axes-Settling d.axes) count in
    by_repair repair hidden h s₁ applied keys total
  where
    by_repair :
        (repair : Bool) (hidden : List Event)
        → RepairOf d repair hidden
        → (s₁ : TouchState) → apply (hidden_frame d) s ≡ some s₁
        → s₁.keys ≡ released (λ c. true) s.keys d.keys
        → length s₁.contacts ≡ slots d
        → (s' : TouchState) × (apply hidden s ≡ some s')
          × (s'.keys ≡ released (λ c. true) s.keys d.keys)
          × (length s'.contacts ≡ slots d)
    by_repair false hidden same s₁ applied keys total =
        (s₁, ap (λ f. apply f s) (sym same) ∙ applied, keys, total)
    by_repair true hidden (id, same) s₁ applied keys total =
        let (s₂, starts, kept, count₂) =
          apply-repair_starts id (slots d) 0 s₁ (omega (arith, total)) in
        (
          s₂,
          ap (λ f. apply f s) (sym same)
              ∙ rw (apply-append (hidden_frame d) (repair_starts id (slots d) 0) s, applied) starts,
          kept ∙ keys,
          count₂ ∙ total,
        )

-- A handoff, with the repair or without, from any state of the touchpad whose keys it advertises:
-- the hidden frame releases every key, and after the visible one the touchpad is idle.
pub handoff-idle :
    (d : Descriptor) (repair : Bool) (hidden neutral : List Event) (s : TouchState)
    → handoff d repair ≡ ok (hidden, neutral)
    → length s.contacts ≡ slots d
    → ((z : ℕ) → contains s.keys z ≡ true → contains d.keys z ≡ true)
    → (s₁ s₂ : TouchState) × (apply hidden s ≡ some s₁)
      × (s₁.keys ≡ [])
      × (apply neutral s₁ ≡ some s₂)
      × (idle s₂ ≡ true)
unfolding idle
handoff-idle d repair hidden neutral s h count own =
    let (_, frame, _) = handoff-ok d repair hidden neutral h in
    let (s₁, applied, keys, total) = hidden-released d repair hidden s frame count in
    let nothing =
      eq-nil_of_contains (released (λ c. true) s.keys d.keys)
        (λ z. ground (arith, contains-released (λ c. true) s.keys d.keys z, own z)) in
    let (s₂, rest, over, after) = neutral-Ends d repair hidden neutral s₁ h total in
    let none_left = eq-nil_of_contains s₂.keys (λ z.
      after z ∙ ap (λ k. contains k z && not (leb 325 z && contains d.keys z)) (keys ∙ nothing)) in
    (s₁, s₂, applied, keys ∙ nothing, rest, rw (none_left, over) refl)
