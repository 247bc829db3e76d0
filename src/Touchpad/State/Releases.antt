-- ===== src/Touchpad/State/Releases.antt =====
-- src/touchpad.rs, `TouchState::releases`: the frame that ends everything.
use niri_bridge.Prelude.{
  ◌==◌, if◌then◌else◌, Bool-cases, length, get_elem?, set, length-append, ℕ, ◌+◌, ◌≡◌, refl, sym,
  ap, ◌∙◌, inl, inr, true, ◌&&◌, ◌||◌, not, Option, none, some, List, [], ◌∷◌, ◌++◌, map, arith,
}
use niri_bridge.Prelude.Int.{ℤ, pos, minus_one}
use niri_bridge.Touchpad.Event.{Event, touch, tracking}
use niri_bridge.Touchpad.State.{
  put, find_value, TouchState, apply_event, on_some, apply, ended, idle, key_events, contact_ends,
  releases,
}
use niri_bridge.Prelude.Sets.{contains, remove, contains-remove}
use niri_bridge.Receiver.Release.{eq-nil_of_contains}
use niri_bridge.Touchpad.Descriptor.{all_of}

pub apply-append :
    (xs ys : List Event) (s : TouchState) → apply (xs ++ ys) s ≡ on_some (apply xs s) (apply ys)
unfolding apply
apply-append [] ys s = refl
apply-append (e ∷ xs) ys s = through (apply_event e.kind e s) (apply-append xs ys)
  where
    through :
        (o : Option TouchState)
        → ((t : TouchState) → apply (xs ++ ys) t ≡ on_some (apply xs t) (apply ys))
        → on_some o (apply (xs ++ ys)) ≡ on_some (on_some o (apply xs)) (apply ys)
    through none rest = refl
    through (some s') rest = rest s'

-- A contact that has ended.
abbrev pub end_contact : List (ℕ × ℤ) → List (ℕ × ℤ)
end_contact c = put c tracking minus_one

get-length :
    {A : Type 0} (done : List A) (c : A) (cs : List A)
    → get_elem? (done ++ c ∷ cs) (length done) ≡ some c
get-length [] c cs = refl
get-length (d ∷ done) c cs = get-length done c cs

set-length :
    {A : Type 0} (done : List A) (c v : A) (cs : List A)
    → set (done ++ c ∷ cs) (length done) v ≡ done ++ v ∷ cs
set-length [] c v cs = refl
set-length (d ∷ done) c v cs = ap (λ (xs : List _). d ∷ xs) (set-length done c v cs)

append_one :
    {A : Type 0} (done : List A) (v : A) (cs : List A) → (done ++ v ∷ []) ++ cs ≡ done ++ v ∷ cs
append_one [] v cs = refl
append_one (d ∷ done) v cs = ap (λ (xs : List _). d ∷ xs) (append_one done v cs)

length_one : {A : Type 0} (done : List A) (v : A) → length (done ++ v ∷ []) ≡ length done + 1
length_one done v = length-append done (v ∷ [])

-- The state that the ends of the contacts leave: all contacts ended, the keys as they were.
apply-contact_ends :
    (done rest : List (List (ℕ × ℤ))) (s : TouchState)
    → s.contacts ≡ done ++ rest
    → (s' : TouchState) × (apply (contact_ends (length done) rest) s ≡ some s')
      × (s'.keys ≡ s.keys)
      × (s'.axes ≡ s.axes)
      × (s'.contacts ≡ done ++ map end_contact rest)
unfolding apply contact_ends apply_event
apply-contact_ends done [] s h = (s, refl, refl, refl, h)
apply-contact_ends done (c ∷ rest) s h =
    let moved = record s { slot = length done; contacts = done ++ end_contact c ∷ rest } in
    let (s', applied, keys, axes, contacts) =
      apply-contact_ends (done ++ end_contact c ∷ []) rest moved (sym (append_one done _ rest)) in
    (
      s',
      rw (h, get-length done c rest, set-length done c (end_contact c) rest)
          (rw (length_one done (end_contact c)) at applied),
      keys,
      axes,
      contacts ∙ append_one done (end_contact c) (map end_contact rest),
    )

-- The keys that are left of a set after the releases of some codes.
abbrev pub without : List ℕ → List ℕ → List ℕ
without keys [] = keys
without keys (c ∷ codes) = without (if c == touch then keys else remove keys c) codes

apply-key_events :
    (codes : List ℕ) (s : TouchState)
    → apply (key_events (pos 0) codes) s ≡ some (record s { keys = without s.keys codes })
unfolding apply key_events apply_event
apply-key_events [] s = refl
apply-key_events (c ∷ codes) s = elim (Bool-cases (c == touch)) [
  | inl own ↦ rw own (apply-key_events codes s)
  | inr other ↦ rw other (apply-key_events codes (record s { keys = remove s.keys c }))
]

contains-without :
    (keys codes : List ℕ) (z : ℕ)
    → contains (without keys codes) z ≡ (contains keys z && (z == touch || not (contains codes z)))
contains-without keys [] z = ground arith
contains-without keys (c ∷ codes) z = ground (
  arith,
  contains-without keys codes z,
  contains-without (remove keys c) codes z,
  contains-remove keys c z,
)

nothing_left : (keys : List ℕ) → without (remove keys touch) keys ≡ []
nothing_left keys =
    eq-nil_of_contains _ (λ c.
      ground (arith, contains-without (remove keys touch) keys c, contains-remove keys touch c))

pub find_value-put : (m : List (ℕ × ℤ)) (c : ℕ) (v : ℤ) → find_value (put m c v) c ≡ some v
find_value-put [] c v = ground arith
find_value-put ((d, w) ∷ m) c v = ground (arith, find_value-put m c v)

all_ended :
    (contacts : List (List (ℕ × ℤ)))
    → all_of (λ c. ended (find_value c tracking)) (map end_contact contacts) ≡ true
all_ended [] = refl
all_ended (c ∷ contacts) = rw (find_value-put c tracking minus_one) (all_ended contacts)

-- The releases of a touchpad, applied to the state that they were made of, leave it idle: they are
-- applied without a panic, no key is down, each contact has ended, and the axes are as before.
pub apply-releases :
    (s : TouchState)
    → (s' : TouchState) × (apply (releases s) s ≡ some s')
      × (idle s' ≡ true)
      × (s'.axes ≡ s.axes)
      × (s'.contacts ≡ map end_contact s.contacts)
unfolding releases idle apply apply_event
apply-releases s =
    let s₁ = record s { keys = remove s.keys touch } in
    let (s₂, applied, keys, axes, contacts) = apply-contact_ends [] s.contacts s₁ refl in
    let s₃ = record s₂ { keys = without s₂.keys s.keys } in
    (
      s₃,
      rw (apply-append (contact_ends 0 s.contacts) (key_events (pos 0) s.keys) s₁, applied)
          (apply-key_events s.keys s₂),
      rw (keys, contacts, nothing_left s.keys) (all_ended s.contacts),
      axes,
      contacts,
    )
