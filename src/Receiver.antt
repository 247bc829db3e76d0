-- ===== src/Receiver.antt =====
-- src/receiver.rs: the receiver of one authenticated connection. It owns the held input of its
-- backend: what was pressed there is released when the session ends, however it ends.
use niri_bridge.Prelude.{
  ltb, leb, ◌==◌, if◌then◌else◌, length, Result, ok, err, ◌>>◌, ensure, is_ok, and_then, ℕ, zero,
  ◌+◌, String, Bool, true, false, ◌&&◌, ◌||◌, not, Option, none, some, List, [], ◌∷◌,
}
use niri_bridge.Prelude.Sets.{remove, extend}
use niri_bridge.Float.{Float}
use niri_bridge.Protocol.Event as Event
use niri_bridge.Protocol.Event.{InputEvent, touchpad, absolute, held_transition, is_absolute}
use niri_bridge.Touchpad.Descriptor.{Descriptor, validate}
use niri_bridge.Input.Control as Control
use niri_bridge.Input.Control.{
  receiving, StopReason, returned, disconnected, ControlState, initial, is_receiving, start, press,
  local_lock_changed, peer_lock_changed, receiver_physical_activity,
}
mod Sink
pub mod Safe
pub mod Release
pub mod Cleanup
pub mod Calls
pub mod Begin
pub mod Held
pub mod Position
pub mod Run
pub mod Sequence
pub mod Injected
pub mod Session
pub mod Input
pub mod Leaves
unfoldable pub use Sink.*

pub record Receiver (S : Type 0) : Type 0 where
  pub sink : S
  pub state : ControlState
  pub session : Option ℕ
  pub expected_sequence : ℕ
  pub pending_releases : List ℕ

unfoldable pub new : {S : Type 0} → S → Receiver S
new sink = record {
  sink = sink;
  state = Control.initial;
  session = none;
  expected_sequence = 0;
  pending_releases = [];
}

-- `2 ^ 64`
abbrev pub u64_bound : ℕ
u64_bound = 18446744073709551616

-- `expected_sequence.checked_add(1)`
unfoldable pub checked_next : ℕ → Option ℕ
checked_next n = if ltb (n + 1) u64_bound then some (n + 1) else none

abbrev pub is_session : Option ℕ → ℕ → Bool
is_session none s = false
is_session (some t) s = t == s

abbrev pub no_session : Option ℕ → Bool
no_session none = true
no_session (some s) = false

abbrev pub no_codes : List ℕ → Bool
no_codes [] = true
no_codes (x ∷ xs) = false

-- The error kept in `first_error`.
abbrev pub first_error : Result (Unit {0}) → Result (Unit {0}) → Result (Unit {0})
first_error (ok _) r = r
first_error (err e) r = err e

-- `state.press(code)` if the event presses a code.
abbrev pub press_of : Option (ℕ × Bool) → ControlState → ControlState
press_of (some (code, true)) s = (Control.press s code).1
press_of (some (code, false)) s = s
press_of none s = s

abbrev pub release_of : Option (ℕ × Bool) → ControlState → ControlState
release_of (some (code, true)) s = s
release_of (some (code, false)) s = (Control.release s code).1
release_of none s = s

module _ {F S : Type 0} ⦃fl : Float F⦄ (sk : InputSink F S) where
  -- The loop of `release` over a copy of the pending codes.
  unfoldable pub release_each :
      List ℕ → Result (Unit {0}) → Receiver S → Result (Unit {0}) × Receiver S
  release_each [] first r = (first, r)
  release_each (code ∷ codes) first r =
      let (result, sink) = sk.emit (Event.release code) r.sink in
      release_each codes (first_error first result) (record r {
        sink = sink;
        pending_releases =
            if is_ok result then remove r.pending_releases code else r.pending_releases;
      })

  unfoldable pub release : List ℕ → Receiver S → Result (Unit {0}) × Receiver S
  unfolding release_each
  release codes r =
      let pending = extend r.pending_releases codes in
      release_each pending (ok tt) (record r { pending_releases = pending })

  unfoldable pub release_with_touchpads : List ℕ → Receiver S → Result (Unit {0}) × Receiver S
  unfolding release
  release_with_touchpads codes r =
      let (keys, r') = release codes r in
      let (pads, sink) = sk.reset_touchpads r'.sink in
      (first_error keys pads, record r' { sink = sink })

  unfoldable pub stop : StopReason → Receiver S → Result (Unit {0}) × Receiver S
  unfolding release_with_touchpads
  stop reason r =
      let (effects, state) = Control.stop r.state reason in
      release_with_touchpads effects.release_codes (record r { session = none; state = state })

  unfoldable pub poll : Receiver S → Result (Unit {0}) × Receiver S
  poll r = let (result, sink) = sk.poll r.sink in (result, record r { sink = sink })

  unfoldable pub configure_touchpads : List Descriptor → Receiver S → Result (Unit {0}) × Receiver S
  configure_touchpads devices r =
      if no_session r.session && leb (length devices) 4
      then (let (result, sink) = sk.configure_touchpads devices r.sink in
          (result, record r { sink = sink }))
      else (err "Cannot change touchpad devices during input", r)

  unfoldable pub begin : ℕ → Receiver S → Result Bool × Receiver S
  begin session r =
      let (started, state) = Control.start r.state receiving in
      if session == 0
      then (err "Session identifier cannot be zero", r)
      else if not (no_codes r.pending_releases)
      then (err "Backend cleanup must complete before a new session", r)
      else if started
      then (ok true, record r { state = state; session = some session; expected_sequence = 0 })
      else (ok false, r)

  -- The end of `input` on an invalid sequence or event: the failure of the stop comes first.
  abbrev pub fail_input : String → Result (Unit {0}) × Receiver S → Result Bool × Receiver S
  fail_input message (ok _, r) = (err message, r)
  fail_input message (err e, r) = (err e, r)

  -- `sink.emit(event)` and what follows, with the press already noted.
  unfoldable pub emit_input : ℕ → InputEvent F → Receiver S → Result Bool × Receiver S
  unfolding stop
  emit_input next event r =
      let (result, sink) = sk.emit event r.sink in
      let r' = record r { sink = sink } in
      elim result [
        | ok _ ↦ (
          ok true,
          record r' {
            state = release_of (held_transition event) r'.state;
            expected_sequence = next;
          },
        )
        | err e ↦ (err e, (stop disconnected r').1)
      ]

  -- The steps of `input` on a valid event.
  unfoldable pub accept_input : Option ℕ → InputEvent F → Receiver S → Result Bool × Receiver S
  unfolding emit_input stop
  accept_input none event r = fail_input "Input sequence exhausted" (stop disconnected r)
  accept_input (some next) event r =
      emit_input next event (record r { state = press_of (held_transition event) r.state })

  unfoldable pub checked_input :
      Result (Unit {0}) → InputEvent F → Receiver S → Result Bool × Receiver S
  unfolding accept_input checked_next stop
  checked_input (ok _) event r = accept_input (checked_next r.expected_sequence) event r
  checked_input (err e) event r = fail_input e (stop disconnected r)

  unfoldable pub input : ℕ → ℕ → InputEvent F → Receiver S → Result Bool × Receiver S
  unfolding checked_input stop
  input session sequence event r =
      if not (is_session r.session session) || not (is_receiving r.state.mode)
      then (ok false, r)
      else if not (sequence == r.expected_sequence)
      then fail_input "Input sequence mismatch" (stop disconnected r)
      else checked_input (Event.validate event) event r

  unfoldable pub end : ℕ → Receiver S → Result (Unit {0}) × Receiver S
  unfolding stop
  end session r = if is_session r.session session then stop returned r else (ok tt, r)

  -- The common end of `local_lock` and `peer_lock`.
  unfoldable pub after_lock : List ℕ → Receiver S → Result (Unit {0}) × Receiver S
  unfolding release release_with_touchpads
  after_lock codes r =
      if is_receiving r.state.mode
      then release codes r
      else release_with_touchpads codes (record r { session = none })

  unfoldable pub local_lock : Bool → Receiver S → Result (Unit {0}) × Receiver S
  unfolding after_lock
  local_lock now_locked r =
      let (effects, state) = Control.local_lock_changed r.state now_locked in
      after_lock effects.release_codes (record r { state = state })

  unfoldable pub peer_lock : Bool → Receiver S → Result (Unit {0}) × Receiver S
  unfolding after_lock
  peer_lock now_locked r =
      let (effects, state) = Control.peer_lock_changed r.state now_locked in
      after_lock effects.release_codes (record r { state = state })

  unfoldable pub physical_activity : Receiver S → Result (Unit {0}) × Receiver S
  unfolding release_with_touchpads
  physical_activity r =
      let (effects, state) = Control.receiver_physical_activity r.state in
      elim effects [
        | none ↦ (ok tt, record r { state = state })
        | some e ↦
            release_with_touchpads e.release_codes (record r { state = state; session = none })
      ]

  unfoldable pub position : InputEvent F → Receiver S → Result (Unit {0}) × Receiver S
  position event r =
      elim (ensure (is_absolute event) "Only an absolute pointer placement is allowed here"
        >> Event.validate event) [
          | err e ↦ (err e, r)
          | ok _ ↦ let (result, sink) = sk.emit event r.sink in (result, record r { sink = sink })
        ]

  unfoldable pub position_on : String → InputEvent F → Receiver S → Result (Unit {0}) × Receiver S
  position_on output event r =
      elim (ensure
          (no_codes r.pending_releases && (no_session r.session || r.expected_sequence == 0))
          "Release active input before changing pointer output"
        >> ensure (is_absolute event) "Only an absolute pointer placement is allowed here"
        >> Event.validate event) [
          | err e ↦ (err e, r)
          | ok _ ↦
              let (result, sink) =
                and_then (sk.select_output output r.sink) (λ _ s. sk.emit event s) in
              (result, record r { sink = sink })
        ]
