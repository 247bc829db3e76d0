-- ===== src/Touchpad/Physical/Reading.antt =====
-- src/touchpad.rs, `TouchState::read`: the state that is read of a device.
use niri_bridge.Prelude.{
  ltb, ◌==◌, ltb→lt, Bool-cases, length, length-replicate, ℕ, suc, ◌<◌, ◌≡◌, refl, ap, ◌∙◌, inl,
  inr, Option, none, some, List, [], ◌∷◌,
}
use niri_bridge.Prelude.Int.{ℤ}
use niri_bridge.Prelude.Action.{Action}
use niri_bridge.Prelude.Triple.{After, Leads, bind, seq, always, returns, given, checks}
use niri_bridge.Touchpad.Event.{slot}
use niri_bridge.Touchpad.Descriptor.{AxisInfo, Descriptor, slots}
use niri_bridge.Touchpad.State.{TouchState, new, contact_values}
use niri_bridge.Touchpad.State as State
use niri_bridge.Touchpad.Physical.{Evdev, put_each, contact_axis, read_axis, read_axes, read_state}

put_each-length :
    (code : ℕ) (values : List ℤ) (contacts : List (List (ℕ × ℤ)))
    → length (put_each code values contacts) ≡ length contacts
put_each-length code [] contacts = refl
put_each-length code (v ∷ values) [] = refl
put_each-length code (v ∷ values) (c ∷ contacts) = ap suc (put_each-length code values contacts)

-- What is known of a value, whatever the state is.
abbrev pub Gives : {W A : Type 0} → (A → Type 0) → Action W A → Type 0
Gives Q action = Leads (λ _. Unit {0}) (λ _. Unit {0}) action (λ a _. Q a)

pub anything : {W A : Type 0} (action : Action W A) → Gives (λ _. Unit {0}) action
anything action = always (λ w h. tt) (λ w h. tt)

module _ {W R : Type 0} (k : Evdev W R) (r : R) (d : Descriptor) where
  contact_axis-length :
      (o : Option (List ℤ)) (code n : ℕ) (s : TouchState) (w : W)
      → length s.contacts ≡ n
      → After (λ _. Unit {0}) (λ t _. length t.contacts ≡ n) (contact_axis k o code s, w)
  contact_axis-length none code n s w h = tt
  contact_axis-length (some values) code n s w h = put_each-length code values s.contacts ∙ h

  read_axis-length :
      (n : ℕ) (a : AxisInfo × ℤ) (s : TouchState)
      → length s.contacts ≡ n
      → Gives (λ t. length t.contacts ≡ n) (read_axis k r d a s)
  unfolding read_axis
  read_axis-length n (a, v) s h = record {
    runs = λ w _. elim (Bool-cases (ltb a.code slot)) [
      | inl below ↦ rw below h
      | inr other ↦ elim (Bool-cases (a.code == slot)) [
        | inl own ↦ rw (other, own) h
        | inr above ↦
            let (values, w') = k.contact_values r a.code (slots d) w in
            rw (other, above) (contact_axis-length values a.code n s w' h)
      ]
    ];
  }

  read_axes-length :
      (n : ℕ) (as' : List (AxisInfo × ℤ)) (s : TouchState)
      → length s.contacts ≡ n
      → Gives (λ t. length t.contacts ≡ n) (read_axes k r d as' s)
  unfolding read_axes
  read_axes-length n [] s h = returns s (λ w _. h)
  read_axes-length n (a ∷ as') s h =
      bind _ (read_axis-length n a s h)
        (λ t. record { runs = λ w same. (read_axes-length n as' t same).runs w tt })

  -- A state that is read of a device has a contact for each slot, and one of them is current.
  pub read_state-Gives :
      Gives (λ s. (s.slot < length s.contacts) × (length s.contacts ≡ slots d)) (read_state k r d)
  unfolding read_state State.new
  read_state-Gives = bind _ (anything (k.key_state r)) (λ down.
      bind _ (anything (k.absinfo r)) (λ axes.
        bind _ (read_axes-length (slots d) axes _ (length-replicate (slots d) _)) (λ s.
          seq _ (checks (ltb s.slot (length s.contacts)) _ (λ w h. tt))
            (given (λ inside. returns s (λ w same. (ltb→lt _ _ inside, same)))))))
