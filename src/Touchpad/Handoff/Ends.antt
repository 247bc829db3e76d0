-- ===== src/Touchpad/Handoff/Ends.antt =====
-- src/touchpad.rs: what the parts of a handoff's frames do to the contacts and keys of a state.
use niri_bridge.Touchpad.State.Total.{there}
use niri_bridge.Touchpad.State.Releases.{apply-append, find_value-put}
use niri_bridge.Touchpad.Descriptor.{AxisInfo}
use niri_bridge.Prelude.{
  ltb, ◌==◌, ==_iff, Bool-cases, length, get_elem?, set, length-set, ℕ, zero, suc, ◌+◌, ◌≤◌, ◌<◌,
  ◌≡◌, refl, ap, ◌∙◌, inl, inr, true, false, Option, none, some, List, [], ◌∷◌, arith,
}
use niri_bridge.Prelude.Int.{ℤ, minus_one}
use niri_bridge.Touchpad.Event.{absolute, Event, slot, tracking, abs_event}
use niri_bridge.Touchpad.State.{put, find_value, TouchState, apply_event, apply, ended}
use niri_bridge.Touchpad.Handoff.{of_contact, hidden_axes, neutral_axes, slot_frames}

-- A contact that has ended, or none.
abbrev pub HasEnded : Option (List (ℕ × ℤ)) → Type 0
HasEnded none = Unit {0}
HasEnded (some c) = ended (find_value c tracking) ≡ true

abbrev IsEnded : TouchState → ℕ → Type 0
IsEnded s j = HasEnded (get_elem? s.contacts j)

-- A state with the keys and the number of contacts of the one before, in which no contact has
-- started that had ended.
pub record Settles (s s' : TouchState) : Type 0 where
  pub keys : s'.keys ≡ s.keys
  pub count : length s'.contacts ≡ length s.contacts
  pub stays : (j : ℕ) → IsEnded s j → IsEnded s' j

Settles-refl : (s : TouchState) → Settles s s
Settles-refl s = record { keys = refl; count = refl; stays = λ j h. h }

Settles-trans : (s t u : TouchState) → Settles s t → Settles t u → Settles s u
Settles-trans s t u h k = record {
  keys = k.keys ∙ h.keys;
  count = k.count ∙ h.count;
  stays = λ j e. k.stays j (h.stays j e);
}

find_value-put_ne :
    (m : List (ℕ × ℤ)) (c d : ℕ) (v : ℤ)
    → (d == c) ≡ false
    → find_value (put m c v) d ≡ find_value m d
find_value-put_ne [] c d v h = ground arith
find_value-put_ne ((e, w) ∷ m) c d v h = ground (arith, find_value-put_ne m c d v h)

-- A write of one contact, after which it has ended if it had before.
HasEnded-set :
    (cs : List (List (ℕ × ℤ))) (i j : ℕ) (c c' : List (ℕ × ℤ))
    → get_elem? cs i ≡ some c
    → (ended (find_value c tracking) ≡ true → ended (find_value c' tracking) ≡ true)
    → HasEnded (get_elem? cs j)
    → HasEnded (get_elem? (set cs i c') j)
HasEnded-set [] i j c c' h k e = e
HasEnded-set (x ∷ cs) zero zero c c' h k e = k ((rw (some-injective x c h) at e))
  where
    some-injective : (x y : List (ℕ × ℤ)) → some x ≡ some y → x ≡ y
    some-injective x y same = cc
HasEnded-set (x ∷ cs) zero (suc j) c c' h k e = e
HasEnded-set (x ∷ cs) (suc i) zero c c' h k e = e
HasEnded-set (x ∷ cs) (suc i) (suc j) c c' h k e = HasEnded-set cs i j c c' h k e

HasEnded-set_self :
    (cs : List (List (ℕ × ℤ))) (i : ℕ) (c' : List (ℕ × ℤ))
    → ended (find_value c' tracking) ≡ true
    → HasEnded (get_elem? (set cs i c') i)
HasEnded-set_self [] i c' h = tt
HasEnded-set_self (x ∷ cs) zero c' h = h
HasEnded-set_self (x ∷ cs) (suc i) c' h = HasEnded-set_self cs i c' h

-- The state that a value of the current contact leaves.
contact_write :
    (code : ℕ) (v : ℤ) (s : TouchState) (c : List (ℕ × ℤ))
    → ltb slot code ≡ true
    → get_elem? s.contacts s.slot ≡ some c
    → apply_event absolute (abs_event code v) s
      ≡ some (record s { contacts = set s.contacts s.slot (put c code v) })
unfolding apply_event
contact_write code v s c above found =
    let other : (code == slot) ≡ false = ground arith in rw (other, above, found) refl

-- Events of the current contact after which no contact has started, and the slot is as before.
pub record Settling (values : List Event) : Type 0 where
  pub runs :
      (s : TouchState)
      → s.slot < length s.contacts
      → (s' : TouchState) × (apply values s ≡ some s') × Settles s s' × (s'.slot ≡ s.slot)

Settling-nil : Settling []
unfolding apply
Settling-nil = record { runs = λ s h. (s, refl, Settles-refl s, refl) }

Settling-cons :
    (code : ℕ) (v : ℤ) (values : List Event)
    → of_contact code ≡ true
    → Settling values
    → Settling (abs_event code v ∷ values)
unfolding apply
Settling-cons code v values h rest = record {
  runs = λ s inside.
      let (c, found) = there s.contacts s.slot inside in
      let above : ltb slot code ≡ true = ground arith in
      let other : (tracking == code) ≡ false = ground arith in
      let cs = set s.contacts s.slot (put c code v) in
      let same = length-set s.contacts s.slot (put c code v) in
      let (s', applied, settles, at) =
        rest.runs (record s { contacts = cs }) (omega (arith, same, inside)) in
      let keep = λ (e : ended (find_value c tracking) ≡ true).
        ap ended (find_value-put_ne c code tracking v other) ∙ e in
      let first : Settles s (record s { contacts = cs }) = record {
        keys = refl;
        count = same;
        stays = λ j e. HasEnded-set s.contacts s.slot j c (put c code v) found keep e;
      } in
      (
        s',
        rw (contact_write code v s c above found) applied,
        Settles-trans s _ s' first settles,
        at,
      );
}

pub hidden_axes-Settling : (as' : List AxisInfo) → Settling (hidden_axes as')
unfolding hidden_axes
hidden_axes-Settling [] = Settling-nil
hidden_axes-Settling (a ∷ as') = elim (Bool-cases (of_contact a.code)) [
  | inl own ↦ rw own (
      Settling-cons a.code a.minimum (abs_event a.code a.maximum ∷ hidden_axes as') own
        (Settling-cons a.code a.maximum (hidden_axes as') own (hidden_axes-Settling as')))
  | inr other ↦ rw other (hidden_axes-Settling as')
]

pub neutral_axes-Settling : (as' : List AxisInfo) → Settling (neutral_axes as')
unfolding neutral_axes
neutral_axes-Settling [] = Settling-nil
neutral_axes-Settling (a ∷ as') = elim (Bool-cases (of_contact a.code)) [
  | inl own ↦
      rw own (Settling-cons a.code a.minimum (neutral_axes as') own (neutral_axes-Settling as'))
  | inr other ↦ rw other (neutral_axes-Settling as')
]

-- The state after the slot and the end of its contact.
abbrev one_ended : TouchState → ℕ → List (ℕ × ℤ) → TouchState
one_ended s index c = record s {
  slot = index;
  contacts = set s.contacts index (put c tracking minus_one);
}

one_ended-Settles :
    (s : TouchState) (index : ℕ) (c : List (ℕ × ℤ))
    → get_elem? s.contacts index ≡ some c
    → Settles s (one_ended s index c) × IsEnded (one_ended s index c) index
one_ended-Settles s index c found =
    let c' = put c tracking minus_one in
    let over = ap ended (find_value-put c tracking minus_one) in
    (
      record {
        keys = refl;
        count = length-set s.contacts index c';
        stays = λ j e. HasEnded-set s.contacts index j c c' found (λ _. over) e;
      },
      HasEnded-set_self s.contacts index c' over,
    )

-- The loop over the slots ends the contact of each of them.
pub slot_frames-Settles :
    (values : List Event) (left index : ℕ) (s : TouchState)
    → Settling values
    → index + left ≤ length s.contacts
    → (s' : TouchState) × (apply (slot_frames values left index) s ≡ some s')
      × Settles s s'
      × ((j : ℕ) → index ≤ j → j < index + left → IsEnded s' j)
unfolding slot_frames apply apply_event
slot_frames-Settles values zero index s settling h =
    (s, refl, Settles-refl s, λ j a b. absurd (omega (arith, a, b)))
slot_frames-Settles values (suc left) index s settling h =
    let (c, found) = there s.contacts index (omega arith) in
    let s₁ = one_ended s index c in
    let (first, over) = one_ended-Settles s index c found in
    let (s₂, applied, second, at) = settling.runs s₁ (omega (arith, first.count, h)) in
    let (s₃, others, third, rest) =
      slot_frames-Settles values left (index + 1) s₂ settling
        (omega (arith, first.count, second.count, h)) in
    let kept = second.stays index over in
    (
      s₃,
      rw (found, apply-append values (slot_frames values left (index + 1)) s₁, applied) others,
      Settles-trans s s₁ s₃ first (Settles-trans s₁ s₂ s₃ second third),
      λ j a b. elim (Bool-cases (j == index)) [
        | inl same ↦ third.stays j (rw ((==_iff j index).0 same) kept)
        | inr other ↦ rest j (ground arith) (omega (arith, b))
      ],
    )
