-- ===== src/Protocol/Message.antt =====
-- src/protocol.rs: the messages between two devices and their validation.
use niri_bridge.Prelude.{
  leb, ◌==◌, length, Result, ok, ◌>>◌, ensure, for_each, ℕ, String, Bool, ◌&&◌, not, Option, none,
  some, List,
}
use niri_bridge.Float.{Float}
use niri_bridge.Bridge.Edges.{valid_edge_id}
use niri_bridge.Control.Layout as Layout
use niri_bridge.Control.Layout.{Desktop, LayoutMessage, validate_desktop, validate_message}
use niri_bridge.Touchpad.Descriptor as Descriptor
use niri_bridge.Touchpad.Descriptor.{Descriptor}
use niri_bridge.Protocol.Event as Event
use niri_bridge.Protocol.Event.{InputEvent}

pub record EdgePosition (F : Type 0) : Type 0 where
  pub edge_id : String
  pub fraction : F

pub data Message (F : Type 0) : Type 0 where
  desktop : (info : Desktop F) → Message F
  layout : (message : LayoutMessage F) → Message F
  touchpads : (devices : List Descriptor) → Message F
  hello : (version : ℕ) → Message F
  begin : (session : ℕ) (entry : EdgePosition F) → Message F
  input : (session sequence : ℕ) (event : InputEvent F) → Message F
  end : (session : ℕ) (exit : Option (EdgePosition F)) → Message F
  ping pong : (nonce : ℕ) → Message F
  lock_state : (locked : Bool) → Message F

-- VERSION
abbrev pub protocol_version : ℕ
protocol_version = 5

abbrev pub some_session : ℕ → Result (Unit {0})
some_session session = ensure (not (session == 0)) "Session identifier cannot be zero"

module _ {F : Type 0} ⦃fl : Float F⦄ where
  unfoldable pub validate_position : EdgePosition F → Result (Unit {0})
  validate_position p =
      ensure (valid_edge_id p.edge_id) "Invalid edge identifier"
      >> ensure
          (fl.is_finite p.fraction
            && fl.leb (fl.of_ℕ 0) p.fraction
            && fl.leb p.fraction (fl.of_ℕ 1))
          "Invalid edge position"

  abbrev pub validate_exit : Option (EdgePosition F) → Result (Unit {0})
  validate_exit none = ok tt
  validate_exit (some exit) = validate_position exit

  -- `Message::validate`
  unfoldable pub validate : Message F → Result (Unit {0})
  validate (desktop info) = Layout.validate_desktop info
  validate (layout message) = Layout.validate_message message
  validate (hello version) = ensure (version == protocol_version) "Unsupported protocol version"
  validate (touchpads devices) =
      ensure (leb (length devices) 4) "Too many touchpads" >> for_each Descriptor.validate devices
  validate (begin session entry) = some_session session >> validate_position entry
  validate (input session sequence event) = some_session session >> Event.validate event
  validate (end session exit) = some_session session >> validate_exit exit
  validate (ping nonce) = ok tt
  validate (pong nonce) = ok tt
  validate (lock_state locked) = ok tt
