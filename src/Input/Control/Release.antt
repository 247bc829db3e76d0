-- ===== src/Input/Control/Release.antt =====
-- What the calls on a control state hand over when they end a session.
use niri_bridge.Prelude.{◌==◌, ℕ, ◌≡◌, Bool, true, false, ◌&&◌, ◌||◌, not, [], arith}
use niri_bridge.Prelude.Sets.{contains, contains-insert, contains-remove}
use niri_bridge.Input.Control.{StopEffects, ControlState, is_active, is_sending, is_receiving}
use niri_bridge.Input.Control.Invariant.{
  Call, start_call, press_call, release_call, stop_call, local_lock, peer_lock, activity, call,
}

abbrev releases : Call → ℕ → Bool
releases (release_call c) code = c == code
releases _ code = false

-- A code that was held is, after any call, still held, handed over for release, or the one code
-- that the call released.
pub call_keeps_codes :
    (s : ControlState) (c : Call) (code : ℕ)
    → contains s.held.keys code ≡ true
    → (contains (call s c).1.held.keys code
        || contains (call s c).0.release_codes code
        || releases c code)
      ≡ true
unfolding call
call_keeps_codes s (press_call k) code h = ground (arith, contains-insert s.held.keys k code)
call_keeps_codes s (release_call k) code h = ground (arith, contains-remove s.held.keys k code)
call_keeps_codes s (start_call m) code h = ground arith
call_keeps_codes s (stop_call r) code h = ground arith
call_keeps_codes s (local_lock b) code h = ground arith
call_keeps_codes s (peer_lock b) code h = ground arith
call_keeps_codes s activity code h = ground arith

-- Any call asks to release the pointer capture exactly when it ends a sending session, and asks
-- to notify the peer only when it ends a session.
pub call-release_capture :
    (s : ControlState) (c : Call)
    → ((call s c).0.release_capture ≡ (is_sending s.mode && not (is_sending (call s c).1.mode)))
      × ((not (call s c).0.notify_peer || (is_active s.mode && not (is_active (call s c).1.mode)))
          ≡ true)
unfolding call
call-release_capture s (press_call k) = ground arith
call-release_capture s (release_call k) = ground arith
call-release_capture s (start_call m) = ground arith
call-release_capture s (stop_call r) = ground arith
call-release_capture s (local_lock b) = ground arith
call-release_capture s (peer_lock b) = ground arith
call-release_capture s activity = ground arith

-- The calls that can only end a session.
abbrev pub IsEnding : Call → Type 0
IsEnding (stop_call r) = Unit {0}
IsEnding (local_lock b) = Unit {0}
IsEnding (peer_lock b) = Unit {0}
IsEnding activity = Unit {0}
IsEnding _ = ⊥

-- What such a call does to the held codes.
pub record Ends (s s' : ControlState) (e : StopEffects) : Type 0 where
  pub held_fewer : (c : ℕ) → contains s'.held.keys c ≡ true → contains s.held.keys c ≡ true
  pub codes_held : (c : ℕ) → contains e.release_codes c ≡ true → contains s.held.keys c ≡ true
  pub kept :
      (c : ℕ)
      → contains s.held.keys c ≡ true
      → (contains s'.held.keys c || contains e.release_codes c) ≡ true
  pub still : is_receiving s'.mode ≡ true → (s' ≡ s) × (e.release_codes ≡ [])
  pub no_send : is_sending s.mode ≡ false → is_sending s'.mode ≡ false

pub call-Ends : (s : ControlState) (c : Call) → IsEnding c → Ends s (call s c).1 (call s c).0
unfolding call
call-Ends s (stop_call r) h = record {
  held_fewer = λ c k. cc;
  codes_held = λ c k. k;
  kept = λ c k. k;
  still = λ k. ground arith;
  no_send = λ k. ground arith;
}
call-Ends s (local_lock b) h = record {
  held_fewer = λ c. ground arith;
  codes_held = λ c. ground arith;
  kept = λ c. ground arith;
  still = ground arith;
  no_send = ground arith;
}
call-Ends s (peer_lock b) h = record {
  held_fewer = λ c. ground arith;
  codes_held = λ c. ground arith;
  kept = λ c. ground arith;
  still = ground arith;
  no_send = ground arith;
}
call-Ends s activity h = record {
  held_fewer = λ c. ground arith;
  codes_held = λ c. ground arith;
  kept = λ c. ground arith;
  still = ground arith;
  no_send = ground arith;
}
call-Ends s (start_call m) h = absurd h
call-Ends s (press_call k) h = absurd h
call-Ends s (release_call k) h = absurd h
