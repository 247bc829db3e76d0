-- ===== src/Tests/Inputs.antt =====
-- Runs of the held inputs, of the control state and of the physical keys.
use niri_bridge.Prelude.{in_range, ℕ, ◌≡◌, refl, true, false, ◌||◌, not, List, [], ◌∷◌, ◌++◌}
use niri_bridge.Input.Control.{
  sending, receiving, paused, ControlState, initial, start, press, stop, local_lock_changed,
}
use niri_bridge.Input.Control.Invariant.{
  IsValid, Call, start_call, press_call, local_lock, call, calls, calls-IsValid,
}
use niri_bridge.Prelude.Sets.{contains}
use niri_bridge.Input.Keys.Report.{reported}
use niri_bridge.Input.Keys as Keys
use niri_bridge.Input.Keys.Run as KeyRun

-- A session that receives a press and ends by a lock.
abbrev lock_calls : List Call
lock_calls = start_call receiving ∷ press_call 30 ∷ local_lock true ∷ start_call sending ∷ []

locked_state : (calls initial lock_calls).mode ≡ paused
unfolding calls call initial start press local_lock_changed stop
locked_state = refl

calls-IsValid_example : IsValid (calls initial lock_calls)
calls-IsValid_example = calls-IsValid lock_calls

abbrev two_held : ControlState
two_held = record {
  mode = sending;
  local_locked = false;
  peer_locked = false;
  held = record { keys = 29 ∷ 30 ∷ [] };
}

-- The same key on two keyboards, one of which is unplugged.
abbrev key_calls : List KeyRun.Call
key_calls =
    KeyRun.change 0 30 true ∷ KeyRun.change 1 30 true ∷ KeyRun.take_events ∷ KeyRun.unplug 0 ∷ []

abbrev keys_after : KeyRun.Monitor ℕ
keys_after = (KeyRun.run KeyRun.new key_calls).1

held-reported_example :
    (contains (Keys.held keys_after.keys) 30
      ≡ reported (keys_after.sent ++ keys_after.keys.pending) 30 false)
    × ((not (contains (Keys.held keys_after.keys) 30) || in_range 1 255 30) ≡ true)
unfolding KeyRun.run KeyRun.call Keys.update Keys.disconnect Keys.none_held Keys.update_entry
    Keys.release_keys Keys.get_entry
held-reported_example = KeyRun.held-reported ℕ key_calls 30 refl
