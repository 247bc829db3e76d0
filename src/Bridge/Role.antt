-- ===== src/Bridge/Role.antt =====
-- src/bridge.rs: the role of a device, and the forwarding of its keyboards while it sends.
use niri_bridge.Prelude.{
  ◌==◌, if◌then◌else◌, Result, ok, err, ℕ, Bool, true, false, ◌&&◌, Option, none, some, List,
}
use niri_bridge.Protocol.Event.{InputEvent, key}
use niri_bridge.Protocol.Message as Message
use niri_bridge.Protocol.Message.{Message}
use niri_bridge.Input.Keys.{set_key, emergency_modifiers}
use niri_bridge.Receiver.{checked_next, input}
pub mod Forward
pub mod Kind

pub data Role (F : Type 0) : Type 0 where
  local : Role F
  sending : (session sequence edge : ℕ) (fraction : F) → Role F
  receiving : (session : ℕ) → Role F

-- `Role::session`
unfoldable pub session_of : {F : Type 0} → Role F → Option ℕ
session_of local = none
session_of (sending session sequence edge fraction) = some session
session_of (receiving session) = some session

-- What `forward_keyboard` changes: the role, the keys held, and the writer of the connection.
pub record Sender (F W : Type 0) : Type 0 where
  pub role : Role F
  pub held : List ℕ
  pub writer : W

module _ {F W : Type 0} (send : Message F → W → Result (Unit {0}) × W) where
  -- `sequence.checked_add(1)` after a message is sent.
  abbrev pub advance : Option ℕ → ℕ → ℕ → F → Sender F W → Result Bool × Sender F W
  advance none session edge fraction s = (err "Input sequence exhausted", s)
  advance (some next) session edge fraction s =
      (ok false, record s { role = sending session next edge fraction })

  -- A key event within a sending session.
  unfoldable pub forward_key :
      (session sequence edge : ℕ) (fraction : F) (code : ℕ) (pressed : Bool)
      → Sender F W
      → Result Bool × Sender F W
  unfolding emergency_modifiers checked_next
  forward_key session sequence edge fraction code pressed s =
      let held = set_key s.held code pressed in
      let (result, writer) = send (Message.input session sequence (key code pressed)) s.writer in
      if code == 1 && pressed && emergency_modifiers held
      then (ok true, record s { held = held })
      else elim result [
        | err e ↦ (err e, record s { held = held; writer = writer })
        | ok _ ↦
            advance (checked_next sequence) session edge fraction
              (record s { held = held; writer = writer })
      ]

  -- `forward_keyboard` in a role.
  unfoldable pub forward_as : Role F → InputEvent F → Sender F W → Result Bool × Sender F W
  unfolding forward_key
  forward_as (sending session sequence edge fraction) (key code pressed) s =
      forward_key session sequence edge fraction code pressed s
  forward_as (sending session sequence edge fraction) _ s =
      (err "Physical keyboard returned a non-key event", s)
  forward_as local event s = (ok false, s)
  forward_as (receiving session) event s = (ok false, s)

  -- `forward_keyboard`: whether the emergency chord was pressed.
  unfoldable pub forward_keyboard : InputEvent F → Sender F W → Result Bool × Sender F W
  unfolding forward_as
  forward_keyboard event s = forward_as s.role event s
