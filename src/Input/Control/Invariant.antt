-- ===== src/Input/Control/Invariant.antt =====
-- What holds of a control state between two calls, whatever the order of the calls.
use mathlib.Core.Option
use niri_bridge.Prelude.{ℕ, ◌≡◌, Bool, true, false, ◌||◌, List, [], ◌∷◌, arith}
use niri_bridge.Prelude.Sets.{IsSorted, insert-IsSorted, remove-IsSorted}
use niri_bridge.Input.Control.{
  Mode, paused, StopReason, StopEffects, ControlState, initial, is_active, start, press, release,
  stop, no_effects, local_lock_changed, peer_lock_changed, receiver_physical_activity,
}

pub record IsValid (s : ControlState) : Type 0 where
  pub unlocked : is_active s.mode ≡ true → (s.local_locked || s.peer_locked) ≡ false
  pub pause : s.mode ≡ paused → (s.local_locked || s.peer_locked) ≡ true
  pub idle : is_active s.mode ≡ false → s.held.keys ≡ []
  pub sorted : IsSorted s.held.keys

-- The calls that a machine makes on its control state.
pub data Call : Type 0 where
  start_call : Mode → Call
  press_call release_call : ℕ → Call
  stop_call : StopReason → Call
  local_lock peer_lock : Bool → Call
  activity : Call

-- What a call asks its caller to do, with the state that it leaves.
unfoldable pub call : ControlState → Call → StopEffects × ControlState
unfolding start press release stop local_lock_changed peer_lock_changed receiver_physical_activity
call s (start_call m) = (no_effects, (start s m).1)
call s (press_call code) = (no_effects, (press s code).1)
call s (release_call code) = (no_effects, (release s code).1)
call s (stop_call reason) = stop s reason
call s (local_lock b) = local_lock_changed s b
call s (peer_lock b) = peer_lock_changed s b
call s activity =
    let (effects, s') = receiver_physical_activity s in (Option.get_or effects no_effects, s')

unfoldable pub calls : ControlState → List Call → ControlState
calls s [] = s
calls s (c ∷ cs) = calls (call s c).1 cs

pub call-IsValid : (s : ControlState) (c : Call) → IsValid s → IsValid (call s c).1
unfolding call
call-IsValid s (press_call code) v = ground (arith, insert-IsSorted s.held.keys code)
call-IsValid s (release_call code) v = ground (arith, remove-IsSorted s.held.keys code)
call-IsValid s (start_call m) v = ground arith
call-IsValid s (stop_call r) v = ground arith
call-IsValid s (local_lock b) v = ground arith
call-IsValid s (peer_lock b) v = ground arith
call-IsValid s activity v = ground arith

pub initial-IsValid : IsValid initial
unfolding initial
initial-IsValid = ground arith

calls-IsValid_from : (s : ControlState) (cs : List Call) → IsValid s → IsValid (calls s cs)
unfolding calls
calls-IsValid_from s [] v = v
calls-IsValid_from s (c ∷ cs) v = calls-IsValid_from (call s c).1 cs (call-IsValid s c v)

-- After any sequence of calls on a new control state: a session that sends or receives has
-- neither side locked, the mode is paused only while a side is locked, codes are held only
-- during a session, and the held codes ascend without repetition.
pub calls-IsValid : (cs : List Call) → IsValid (calls initial cs)
calls-IsValid cs = calls-IsValid_from initial cs initial-IsValid
