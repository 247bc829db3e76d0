-- ===== src/Bridge/Role/Kind.antt =====
-- src/bridge.rs, `forward_keyboard`: what it does to the role.
use niri_bridge.Prelude.{
  ◌==◌, Bool-cases, Result, ok, err, Result-cases, ℕ, ◌≡◌, refl, ◌⊎◌, inl, inr, Bool, true, false,
  ◌&&◌, Option, none, some,
}
use niri_bridge.Protocol.Event.{InputEvent, key}
use niri_bridge.Input.Keys.{set_key, emergency_modifiers}
use niri_bridge.Receiver.{checked_next}
use niri_bridge.Protocol.Message.{Message}
use niri_bridge.Bridge.Role.{
  Role, local, sending, receiving, Sender, advance, forward_key, forward_as, forward_keyboard,
}

-- Whether a call asked for the end of the session.
abbrev pub asks : Result Bool → Bool
asks (ok b) = b
asks (err e) = false

abbrev pub is_sending_as : {F : Type 0} → Role F → Bool
is_sending_as (sending session sequence edge fraction) = true
is_sending_as _ = false

module _ {F W : Type 0} (send : Message F → W → Result (Unit {0}) × W) where
  -- A key event of a sending session advances at most the number of the session.
  forward_key-role :
      (session sequence edge : ℕ) (fraction : F) (code : ℕ) (pressed : Bool) (s : Sender F W)
      → let o = forward_key send session sequence edge fraction code pressed s in
        (o.1.role ≡ s.role) ⊎ ((next : ℕ) × (o.1.role ≡ sending session next edge fraction))
  unfolding forward_key
  forward_key-role session sequence edge fraction code pressed s =
      let held = set_key s.held code pressed in
      elim (Bool-cases (code == 1 && pressed && emergency_modifiers held)) [
        | inl chord ↦ inl (rw chord refl)
        | inr other ↦
            elim (Result-cases
              (send (Message.input session sequence (key code pressed)) s.writer).0) [
                | inr (e, bad) ↦ inl (rw (other, bad) refl)
                | inl (_, good) ↦ rw (other, good) (advance-role (checked_next sequence) _)
              ]
      ]
    where
      advance-role :
          (next : Option ℕ) (t : Sender F W)
          → let o = advance send next session edge fraction t in
            (o.1.role ≡ t.role) ⊎ ((n : ℕ) × (o.1.role ≡ sending session n edge fraction))
      advance-role none t = inl refl
      advance-role (some n) t = inr (n, refl)

  -- Out of a sending session nothing is asked for, and the role stays.
  pub forward_keyboard-idle :
      (event : InputEvent F) (s : Sender F W)
      → is_sending_as s.role ≡ false
      → (asks (forward_keyboard send event s).0 ≡ false)
        × ((forward_keyboard send event s).1.role ≡ s.role)
  unfolding forward_keyboard forward_as
  forward_keyboard-idle event s h = go s.role event h
    where
      go :
          (role : Role F) (event : InputEvent F)
          → is_sending_as role ≡ false
          → (asks (forward_as send role event s).0 ≡ false)
            × ((forward_as send role event s).1.role ≡ s.role)
      go local event h = (refl, refl)
      go (receiving session) event h = (refl, refl)
      go (sending session sequence edge fraction) event h = cc

  -- In a sending session at most the number advances.
  pub forward_keyboard-sending :
      (session sequence edge : ℕ) (fraction : F) (event : InputEvent F) (s : Sender F W)
      → s.role ≡ sending session sequence edge fraction
      → let o = forward_keyboard send event s in
        (o.1.role ≡ s.role) ⊎ ((next : ℕ) × (o.1.role ≡ sending session next edge fraction))
  unfolding forward_keyboard forward_as
  forward_keyboard-sending session sequence edge fraction event s h = go s.role h
    where
      sends :
          (event : InputEvent F)
          → let o = forward_as send (sending session sequence edge fraction) event s in
            (o.1.role ≡ s.role) ⊎ ((next : ℕ) × (o.1.role ≡ sending session next edge fraction))
      sends (key code pressed) = forward_key-role session sequence edge fraction code pressed s
      sends _ = inl refl

      go :
          (role : Role F)
          → role ≡ sending session sequence edge fraction
          → let o = forward_as send role event s in
            (o.1.role ≡ s.role) ⊎ ((next : ℕ) × (o.1.role ≡ sending session next edge fraction))
      go role e = rw e (sends event)
