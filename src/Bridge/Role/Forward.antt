-- ===== src/Bridge/Role/Forward.antt =====
-- src/bridge.rs, `forward_keyboard`: what a sender writes, key event by key event.
use niri_bridge.Prelude.{
  ltb, ◌==◌, if◌then◌else◌, ltb→lt, Bool-cases, Result, ok, err, is_ok, Result-cases, ℕ, ◌+◌, ◌≤◌,
  ◌<◌, ◌≡◌, refl, length, take, ◌⊎◌, inl, inr, Bool, true, false, ◌&&◌, not, List, [], ◌∷◌, ◌++◌,
  arith,
}
use niri_bridge.Input.Keys.{set_key, held, emergency_modifiers}
use niri_bridge.Protocol.Event.{key}
use niri_bridge.Protocol.Message.{Message}
use niri_bridge.Receiver.{u64_bound, checked_next}
use niri_bridge.Bridge.Role.{sending, Sender, forward_key, forward_as, forward_keyboard}

-- The chord that stops sharing: Escape with a Ctrl, an Alt and a Shift key down.
abbrev pub chord : List ℕ → ℕ → Bool → Bool
chord held code pressed = code == 1 && pressed && emergency_modifiers (set_key held code pressed)

abbrev pub goes_on : Result Bool → Bool
goes_on (ok stops) = not stops
goes_on (err e) = false

module _ {F W : Type 0} (send : Message F → W → Result (Unit {0}) × W) where
  -- The chord is not forwarded: the call says so, and writes nothing. Any other key event of a
  -- sending session is written with the session's next number, and where that is taken the
  -- session goes on with the following one; a failed write or the last number is an error.
  pub forward_keyboard-cases :
      (session sequence edge : ℕ) (fraction : F) (code : ℕ) (pressed : Bool) (s : Sender F W)
      → s.role ≡ sending session sequence edge fraction
      → let o = forward_keyboard send (key code pressed) s in
        let sent = send (Message.input session sequence (key code pressed)) s.writer in
        ((chord s.held code pressed ≡ true) × (o.0 ≡ ok true) × (o.1.writer ≡ s.writer))
        ⊎ ((chord s.held code pressed ≡ false)
            × (sent.0 ≡ ok tt)
            × (sequence + 1 < u64_bound)
            × (o.0 ≡ ok false)
            × (o.1.writer ≡ sent.1)
            × (o.1.role ≡ sending session (sequence + 1) edge fraction))
        ⊎ ((chord s.held code pressed ≡ false)
            × (is_ok o.0 ≡ false)
            × (o.1.writer ≡ sent.1)
            × (o.1.role ≡ s.role)
            × ((is_ok sent.0 ≡ false) ⊎ (u64_bound ≤ sequence + 1)))
  unfolding forward_keyboard forward_as forward_key checked_next
  forward_keyboard-cases session sequence edge fraction code pressed s role =
      let held = set_key s.held code pressed in
      let sent = send (Message.input session sequence (key code pressed)) s.writer in
      elim (Bool-cases (chord s.held code pressed)) [
        | inl pressed_all ↦
            inl (pressed_all, rw (role, pressed_all) refl, rw (role, pressed_all) refl)
        | inr other ↦ elim (Result-cases sent.0) [
          | inr (e, bad) ↦ inr (
              inr (
                other,
                rw (role, other, bad) refl,
                rw (role, other, bad) refl,
                rw (role, other, bad) refl,
                inl (rw bad refl),
              ))
          | inl (_, good) ↦ elim (Bool-cases (ltb (sequence + 1) u64_bound)) [
            | inl room ↦ inr (
                inl (
                  other,
                  good,
                  ltb→lt _ _ room,
                  rw (role, other, good, room) refl,
                  rw (role, other, good, room) refl,
                  rw (role, other, good, room) refl,
                ))
            | inr full ↦ inr (
                inr (
                  other,
                  rw (role, other, good, full) refl,
                  rw (role, other, good, full) refl,
                  rw (role, other, good, full) refl,
                  inr (ground (arith, full)),
                ))
          ]
        ]
      ]

-- A writer that keeps what is handed to `send`, in order, whatever `send` does with it.
abbrev pub noted :
    {F W : Type 0}
    → (Message F → W → Result (Unit {0}) × W)
    → Message F
    → W × List (Message F)
    → Result (Unit {0}) × (W × List (Message F))
noted send m (w, sent) = let (r, w') = send m w in (r, (w', sent ++ m ∷ []))

-- The messages of key events, with numbers that count up by one.
abbrev pub counted : {F : Type 0} → ℕ → ℕ → List (ℕ × Bool) → List (Message F)
counted session sequence [] = []
counted session sequence ((code, pressed) ∷ events) =
    Message.input session sequence (key code pressed) ∷ counted session (sequence + 1) events

module _ {F W : Type 0} (send : Message F → W → Result (Unit {0}) × W) where
  -- Key events are forwarded one by one, until an error or the chord: whether all were.
  unfoldable pub forward_keys : List (ℕ × Bool) → Sender F W → Bool × Sender F W
  forward_keys [] s = (true, s)
  forward_keys ((code, pressed) ∷ events) s =
      let (result, s') = forward_keyboard send (key code pressed) s in
      let rest = forward_keys events s' in if goes_on result then rest else (false, s')

module _ {F W : Type 0} (send : Message F → W → Result (Unit {0}) × W) where
  -- What was handed to `send` after some messages: the counted messages of the first of the events,
  -- of all of them where all were forwarded.
  pub record IsHanded (session sequence : ℕ) (events : List (ℕ × Bool)) (before : List (Message F))
      (o : Bool × Sender F (W × List (Message F))) : Type 0 where
    pub number : ℕ
    pub handed : o.1.writer.1 ≡ before ++ counted session sequence (take number events)
    pub whole : o.0 ≡ true → number ≡ length events
