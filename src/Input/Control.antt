-- ===== src/Input/Control.antt =====
-- src/input.rs: `HeldInputs` and `ControlState`. A `&mut self` method returns its result with the
-- new state.
use niri_bridge.Prelude.{
  ℕ, Bool, true, false, ◌&&◌, ◌||◌, not, Option, none, some, List, [], if◌then◌else◌,
}
use niri_bridge.Prelude.Sets.{contains, insert, remove}
pub mod Invariant
pub mod Release

pub record HeldInputs : Type 0 where
  pub keys : List ℕ

-- `press`: whether the code was new.
unfoldable pub press_held : HeldInputs → ℕ → Bool × HeldInputs
press_held h code = (not (contains h.keys code), record { keys = insert h.keys code })

-- `release`: whether the code was held.
unfoldable pub release_held : HeldInputs → ℕ → Bool × HeldInputs
release_held h code = (contains h.keys code, record { keys = remove h.keys code })

-- `release_all`: the codes, in ascending order.
unfoldable pub release_all : HeldInputs → List ℕ × HeldInputs
release_all h = (h.keys, record { keys = [] })

pub data Mode : Type 0 where
  local sending receiving paused : Mode

pub data StopReason : Type 0 where
  returned disconnected emergency local_takeover locked : StopReason

pub record StopEffects : Type 0 where
  pub release_codes : List ℕ
  pub release_capture : Bool
  pub notify_peer : Bool

pub record ControlState : Type 0 where
  pub mode : Mode
  pub local_locked : Bool
  pub peer_locked : Bool
  pub held : HeldInputs

-- `ControlState::default()`
unfoldable pub initial : ControlState
initial = record {
  mode = local;
  local_locked = false;
  peer_locked = false;
  held = record { keys = [] };
}

-- `matches!(mode, Mode::Sending | Mode::Receiving)`
abbrev pub is_active : Mode → Bool
is_active sending = true
is_active receiving = true
is_active _ = false

abbrev pub is_local : Mode → Bool
is_local local = true
is_local _ = false

abbrev pub is_sending : Mode → Bool
is_sending sending = true
is_sending _ = false

abbrev pub is_receiving : Mode → Bool
is_receiving receiving = true
is_receiving _ = false

abbrev pub is_disconnected : StopReason → Bool
is_disconnected disconnected = true
is_disconnected _ = false

unfoldable pub start : ControlState → Mode → Bool × ControlState
start s mode =
    if not (is_local s.mode) || s.local_locked || s.peer_locked || not (is_active mode)
    then (false, s)
    else (true, record s { mode = mode })

unfoldable pub press : ControlState → ℕ → Bool × ControlState
unfolding press_held
press s code =
    if is_active s.mode
    then (let (fresh, held) = press_held s.held code in (fresh, record s { held = held }))
    else (false, s)

unfoldable pub release : ControlState → ℕ → Bool × ControlState
unfolding release_held
release s code =
    let (was_held, held) = release_held s.held code in (was_held, record s { held = held })

unfoldable pub stop : ControlState → StopReason → StopEffects × ControlState
unfolding release_all
stop s reason =
    let (codes, emptied) = release_all s.held in
    (
      record {
        release_codes = codes;
        release_capture = is_sending s.mode;
        notify_peer = is_active s.mode && not (is_disconnected reason);
      },
      record s { held = emptied; mode = if s.local_locked || s.peer_locked then paused else local },
    )

abbrev pub no_effects : StopEffects
no_effects = record { release_codes = []; release_capture = false; notify_peer = false }

-- `a == b` on `bool`
abbrev pub eqb : Bool → Bool → Bool
eqb true b = b
eqb false b = not b

unfoldable pub local_lock_changed : ControlState → Bool → StopEffects × ControlState
unfolding stop
local_lock_changed s now_locked =
    if eqb s.local_locked now_locked
    then (no_effects, s)
    else stop (record s { local_locked = now_locked }) locked

unfoldable pub peer_lock_changed : ControlState → Bool → StopEffects × ControlState
unfolding stop
peer_lock_changed s now_locked =
    if eqb s.peer_locked now_locked
    then (no_effects, s)
    else stop (record s { peer_locked = now_locked }) locked

unfoldable pub receiver_physical_activity : ControlState → Option StopEffects × ControlState
unfolding stop
receiver_physical_activity s =
    if is_receiving s.mode
    then (let (effects, s') = stop s local_takeover in (some effects, s'))
    else (none, s)
