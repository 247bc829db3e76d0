-- ===== src/Touchpad/State/Showing.antt =====
-- src/touchpad.rs, `TouchState::snapshot`: that it shows each contact that is there.
use mathlib.Core.List.{append_assoc, append-nil}
use mathlib.Core.Path.{subst}
use niri_bridge.Prelude.Sets.{contains}
use niri_bridge.Prelude.{
  ◌==◌, if◌then◌else◌, Bool-cases, ℕ, ◌+◌, ◌≡◌, refl, ap, ◌∙◌, inl, inr, Bool, true, false, List,
  [], ◌∷◌, ◌++◌,
}
use niri_bridge.Prelude.Int.{ℤ, pos, leb_ℤ}
use niri_bridge.Touchpad.Event.{Event, slot, touch, abs_event, key_event}
use niri_bridge.Touchpad.State.{
  TouchState, find_value, contact_values, tracking_of, key_events, axis_events, live_contacts,
  snapshot,
}

-- The positions of a contact: its values but the tracking identifier.
abbrev pub positions : List (ℕ × ℤ) → List Event
positions [] = []
positions ((code, v) ∷ values) =
    let rest = positions values in if code == 57 then rest else abs_event code v ∷ rest

-- A part of a frame.
pub record Holds (block events : List Event) : Type 0 where
  pub earlier : List Event
  pub later : List Event
  pub is : events ≡ (earlier ++ block) ++ later

-- A contact with an identifier is selected by its slot, given its identifier and put to its place;
-- one without is not asked for.
abbrev pub Shows : ℕ → List (ℕ × ℤ) → List Event → Type 0
Shows index c events =
    if leb_ℤ (pos 0) (tracking_of (find_value c 57))
    then Holds
        (abs_event 47 (pos index) ∷ abs_event 57 (tracking_of (find_value c 57)) ∷ positions c)
        events
    else Unit {0}

-- Each contact, from an index on, is shown.
abbrev pub ShowsAll : ℕ → List (List (ℕ × ℤ)) → List Event → Type 0
ShowsAll index [] events = Unit {0}
ShowsAll index (c ∷ contacts) events = Shows index c events × ShowsAll (index + 1) contacts events

positions_are : (c : List (ℕ × ℤ)) → positions c ≡ contact_values c
positions_are [] = refl
positions_are ((code, v) ∷ values) = rw (positions_are values) refl

within :
    (first last block events : List Event)
    → Holds block events
    → Holds block ((first ++ events) ++ last)
within first last block events h = record {
  earlier = first ++ h.earlier;
  later = h.later ++ last;
  is = ap (λ (es : List Event). (first ++ es) ++ last) h.is ∙ simp append_assoc refl;
}

within_all :
    (first last : List Event) (index : ℕ) (contacts : List (List (ℕ × ℤ))) (events : List Event)
    → ShowsAll index contacts events
    → ShowsAll index contacts ((first ++ events) ++ last)
within_all first last index [] events h = tt
within_all first last index (c ∷ contacts) events h = (
  one (leb_ℤ (pos 0) (tracking_of (find_value c 57))) h.0,
  within_all first last (index + 1) contacts events h.1,
)
  where
    one :
        (live : Bool)
        → (if live
            then Holds
                (abs_event 47 (pos index)
                  ∷ abs_event 57 (tracking_of (find_value c 57))
                  ∷ positions c)
                events
            else Unit {0})
        → (if live
            then Holds
                (abs_event 47 (pos index)
                  ∷ abs_event 57 (tracking_of (find_value c 57))
                  ∷ positions c)
                ((first ++ events) ++ last)
            else Unit {0})
    one true h = within first last _ events h
    one false h = tt

live_contacts-ShowsAll :
    (index : ℕ) (contacts : List (List (ℕ × ℤ)))
    → ShowsAll index contacts (live_contacts index contacts)
unfolding live_contacts
live_contacts-ShowsAll index [] = tt
live_contacts-ShowsAll index (c ∷ contacts) =
    let rest = live_contacts (index + 1) contacts in
    let others = live_contacts-ShowsAll (index + 1) contacts in
    let id = tracking_of (find_value c 57) in
    let block = abs_event 47 (pos index) ∷ abs_event 57 id ∷ contact_values c in
    elim (Bool-cases (leb_ℤ (pos 0) id)) [
      | inr gone ↦ rw gone (tt, others)
      | inl live ↦ rw live (
        record { earlier = []; later = rest; is = rw (positions_are c) refl },
        subst (ShowsAll (index + 1) contacts) (append-nil (block ++ rest))
            (within_all block [] (index + 1) contacts rest others),
      )
    ]

-- The snapshot of a touchpad shows each of its contacts.
pub snapshot-ShowsAll : (s : TouchState) → ShowsAll 0 s.contacts (snapshot s)
unfolding snapshot
snapshot-ShowsAll s =
    let live = live_contacts 0 s.contacts in
    let touch_now = key_event touch (if contains s.keys touch then pos 1 else pos 0) in
    let last =
      axis_events s.axes ++ (key_events (pos 1) s.keys ++ abs_event slot (pos s.slot) ∷ []) in
    subst (ShowsAll 0 s.contacts) (simp append_assoc refl)
      (within_all (touch_now ∷ []) last 0 s.contacts live (live_contacts-ShowsAll 0 s.contacts))
