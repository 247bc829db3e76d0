-- ===== src/Touchpad/State.antt =====
-- src/touchpad.rs, `TouchState`: the contacts, keys and axes of a touchpad, kept so that a stroke
-- can change its destination.
use niri_bridge.Prelude.{
  ltb, ◌==◌, if◌then◌else◌, get_elem?, set, replicate, ℕ, ◌+◌, ◌-◌, Bool, true, false, ◌&&◌, Option,
  none, some, List, [], ◌∷◌, ◌++◌,
}
use niri_bridge.Prelude.Int.{ℤ, pos, negsuc, ltb_ℤ, leb_ℤ, eqb_ℤ, minus_one}
use niri_bridge.Prelude.Sets.{contains, insert, remove}
use niri_bridge.Touchpad.Event.{
  slot, Kind, key, absolute, Event, touch, tracking, key_event, abs_event,
}
use niri_bridge.Touchpad.Descriptor.{AxisInfo, Descriptor, all_of, slots}
pub mod Releases
pub mod Showing
pub mod Total

-- `BTreeMap<u16, i32>`: ascending by code.
abbrev pub put : List (ℕ × ℤ) → ℕ → ℤ → List (ℕ × ℤ)
put [] code value = (code, value) ∷ []
put ((c, v) ∷ m) code value =
    let rest = put m code value in
    if ltb code c
    then (code, value) ∷ (c, v) ∷ m
    else if code == c
    then (code, value) ∷ m
    else (c, v) ∷ rest

abbrev pub find_value : List (ℕ × ℤ) → ℕ → Option ℤ
find_value [] code = none
find_value ((c, v) ∷ m) code = if code == c then some v else find_value m code

pub record TouchState : Type 0 where
  pub slot : ℕ
  pub keys : List ℕ
  pub axes : List (ℕ × ℤ)
  pub contacts : List (List (ℕ × ℤ))

-- The axes below SLOT at their minimum, as a map.
unfoldable pub rest_axes : List AxisInfo → List (ℕ × ℤ) → List (ℕ × ℤ)
rest_axes [] m = m
rest_axes (a ∷ as') m =
    if ltb a.code slot then rest_axes as' (put m a.code a.minimum) else rest_axes as' m

-- `TouchState::new`
unfoldable pub new : Descriptor → TouchState
unfolding rest_axes slots
new d = record {
  slot = 0;
  keys = [];
  axes = rest_axes d.axes [];
  contacts = replicate (slots d) ((tracking, minus_one) ∷ []);
}

-- `value as usize`, on 64 bits.
abbrev pub as_usize : ℤ → ℕ
as_usize (pos n) = n
as_usize (negsuc n) = 18446744073709551615 - n

-- `self.contacts[self.slot].insert(code, value)`, where an index out of range panics: `none`.
abbrev pub put_contact : Option (List (ℕ × ℤ)) → ℕ → ℤ → TouchState → Option TouchState
put_contact none code value s = none
put_contact (some contact) code value s =
    some (record s { contacts = set s.contacts s.slot (put contact code value) })

-- One round of the loop of `apply`.
unfoldable pub apply_event : Kind → Event → TouchState → Option TouchState
apply_event key e s = some (record s {
  keys = if eqb_ℤ e.value (pos 0) then remove s.keys e.code else insert s.keys e.code;
})
apply_event absolute e s =
    if e.code == slot
    then some (record s { slot = as_usize e.value })
    else if ltb slot e.code
    then put_contact (get_elem? s.contacts s.slot) e.code e.value s
    else some (record s { axes = put s.axes e.code e.value })

abbrev pub on_some {ℓ} : {A B : Type ℓ} → Option A → (A → Option B) → Option B
on_some none f = none
on_some (some a) f = f a

-- `apply`, or `none` where it panics.
unfoldable pub apply : List Event → TouchState → Option TouchState
unfolding apply_event
apply [] s = some s
apply (e ∷ events) s = on_some (apply_event e.kind e s) (apply events)

-- `c.get(&TRACKING).is_none_or(|v| *v < 0)`
abbrev pub ended : Option ℤ → Bool
ended none = true
ended (some v) = ltb_ℤ v (pos 0)

abbrev pub no_keys : List ℕ → Bool
no_keys [] = true
no_keys (c ∷ cs) = false

unfoldable pub idle : TouchState → Bool
idle s = no_keys s.keys && all_of (λ c. ended (find_value c tracking)) s.contacts

-- The keys but TOUCH, each with one value.
unfoldable pub key_events : ℤ → List ℕ → List Event
key_events value [] = []
key_events value (c ∷ keys) =
    let rest = key_events value keys in if c == touch then rest else key_event c value ∷ rest

-- The ends of the contacts from an index on; a descriptor has at most 32, so that the index is an
-- `i32` as it is.
unfoldable pub contact_ends : ℕ → List (List (ℕ × ℤ)) → List Event
contact_ends index [] = []
contact_ends index (c ∷ contacts) =
    abs_event slot (pos index) ∷ abs_event tracking minus_one ∷ contact_ends (index + 1) contacts

unfoldable pub releases : TouchState → List Event
unfolding contact_ends key_events
releases s = key_event touch (pos 0) ∷ contact_ends 0 s.contacts ++ key_events (pos 0) s.keys

abbrev pub axis_events : List (ℕ × ℤ) → List Event
axis_events [] = []
axis_events ((c, v) ∷ m) = abs_event c v ∷ axis_events m

-- `contact.iter().filter(|(c, _)| **c != TRACKING)`
abbrev pub contact_values : List (ℕ × ℤ) → List Event
contact_values [] = []
contact_values ((c, v) ∷ m) =
    let rest = contact_values m in if c == tracking then rest else abs_event c v ∷ rest

-- `*contact.get(&TRACKING).unwrap_or(&-1)`
abbrev pub tracking_of : Option ℤ → ℤ
tracking_of none = minus_one
tracking_of (some v) = v

unfoldable pub live_contacts : ℕ → List (List (ℕ × ℤ)) → List Event
live_contacts index [] = []
live_contacts index (c ∷ contacts) =
    let id = tracking_of (find_value c tracking) in
    let rest = live_contacts (index + 1) contacts in
    if leb_ℤ (pos 0) id
    then abs_event slot (pos index) ∷ abs_event tracking id ∷ contact_values c ++ rest
    else rest

unfoldable pub snapshot : TouchState → List Event
unfolding live_contacts key_events
snapshot s =
    key_event touch (if contains s.keys touch then pos 1 else pos 0) ∷ live_contacts 0 s.contacts
    ++ axis_events s.axes
    ++ key_events (pos 1) s.keys
    ++ abs_event slot (pos s.slot) ∷ []
