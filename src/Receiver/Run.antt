-- ===== src/Receiver/Run.antt =====
-- A connection: any calls on a new receiver, in any order, over a backend that may fail at any
-- call.
use niri_bridge.Prelude.{ℕ, String, ◌≡◌, refl, Bool, false, List, [], ◌∷◌, arith}
use niri_bridge.Float.{Float}
use niri_bridge.Protocol.Event.{InputEvent}
use niri_bridge.Touchpad.Descriptor.{Descriptor}
use niri_bridge.Input.Control as Control
use niri_bridge.Input.Control.{StopReason, initial}
use niri_bridge.Input.Control.Invariant as Valid
use niri_bridge.Receiver as Receiver
use niri_bridge.Receiver.{InputSink, Receiver, new, configure_touchpads, physical_activity}
use niri_bridge.Receiver.Safe.{IsHonest, IsSafe}
use niri_bridge.Receiver.Calls.{
  stop-IsSafe, end-IsSafe, local_lock-IsSafe, peer_lock-IsSafe, physical_activity-IsSafe,
}
use niri_bridge.Receiver.Begin.{begin-IsSafe}
use niri_bridge.Receiver.Held.{poll-IsSafe, configure_touchpads-IsSafe}
use niri_bridge.Receiver.Input.{input-IsSafe}
use niri_bridge.Receiver.Position.{position-IsSafe, position_on-IsSafe}

pub data Call (F : Type 0) : Type 0 where
  begin : (session : ℕ) → Call F
  input : (session sequence : ℕ) (event : InputEvent F) → Call F
  end : (session : ℕ) → Call F
  stop : StopReason → Call F
  local_lock peer_lock : Bool → Call F
  activity poll : Call F
  configure : List Descriptor → Call F
  position : InputEvent F → Call F
  position_on : String → InputEvent F → Call F

module _ {F S : Type 0} ⦃fl : Float F⦄ (sk : InputSink F S) where
  -- The receiver after a call, whatever its result.
  unfoldable pub call : Receiver S → Call F → Receiver S
  unfolding Receiver.begin Receiver.input Receiver.end Receiver.stop Receiver.local_lock
      Receiver.peer_lock Receiver.physical_activity Receiver.poll Receiver.configure_touchpads
      Receiver.position Receiver.position_on
  call r (begin session) = (Receiver.begin sk session r).1
  call r (input session sequence event) = (Receiver.input sk session sequence event r).1
  call r (end session) = (Receiver.end sk session r).1
  call r (stop reason) = (Receiver.stop sk reason r).1
  call r (local_lock b) = (Receiver.local_lock sk b r).1
  call r (peer_lock b) = (Receiver.peer_lock sk b r).1
  call r activity = (Receiver.physical_activity sk r).1
  call r poll = (Receiver.poll sk r).1
  call r (configure devices) = (Receiver.configure_touchpads sk devices r).1
  call r (position event) = (Receiver.position sk event r).1
  call r (position_on output event) = (Receiver.position_on sk output event r).1

  unfoldable pub run : Receiver S → List (Call F) → Receiver S
  unfolding call
  run r [] = r
  run r (c ∷ cs) = run (call r c) cs

  module _ (down : S → ℕ → Bool) (honest : IsHonest sk down) where
    call-IsSafe : (r : Receiver S) (c : Call F) → IsSafe down r → IsSafe down (call r c)
    call-IsSafe r (begin session) v = unfold call in begin-IsSafe sk down session r v
    call-IsSafe r (input session sequence event) v =
        unfold call in input-IsSafe sk down honest session sequence event r v
    call-IsSafe r (end session) v = unfold call in end-IsSafe sk down honest session r v
    call-IsSafe r (stop reason) v = unfold call in stop-IsSafe sk down honest reason r v
    call-IsSafe r (local_lock b) v = unfold call in local_lock-IsSafe sk down honest b r v
    call-IsSafe r (peer_lock b) v = unfold call in peer_lock-IsSafe sk down honest b r v
    call-IsSafe r activity v = unfold call in physical_activity-IsSafe sk down honest r v
    call-IsSafe r poll v = unfold call in poll-IsSafe sk down honest r v
    call-IsSafe r (configure devices) v =
        unfold call in configure_touchpads-IsSafe sk down honest devices r v
    call-IsSafe r (position event) v = unfold call in position-IsSafe sk down honest event r v
    call-IsSafe r (position_on output event) v =
        unfold call in position_on-IsSafe sk down honest output event r v

    pub new-IsSafe : (s : S) → ((c : ℕ) → down s c ≡ false) → IsSafe down (Receiver.new s)
    unfolding Receiver.new Control.initial
    new-IsSafe s up = record {
      covered = λ c h. absurd (ground (arith, up c));
      held_releasable = λ c h. cc;
      pending_releasable = λ c h. cc;
      control = unfold Control.initial in Valid.initial-IsValid;
      never_sends = refl;
      session_mode = refl;
      settled = λ h. refl;
    }

    run-IsSafe_from : (r : Receiver S) (cs : List (Call F)) → IsSafe down r → IsSafe down (run r cs)
    unfolding run
    run-IsSafe_from r [] v = v
    run-IsSafe_from r (c ∷ cs) v = run-IsSafe_from (call r c) cs (call-IsSafe r c v)

    -- On a backend where nothing is pressed at first: after any calls on a new receiver, in any
    -- order and with any failures of the backend, each code that is down at the backend is held
    -- or waits for its release, a session is active exactly while the mode is receiving, and then
    -- no side is locked and no earlier code waits.
    pub run-IsSafe :
        (s : S) (cs : List (Call F))
        → ((c : ℕ) → down s c ≡ false)
        → IsSafe down (run (Receiver.new s) cs)
    run-IsSafe s cs up = run-IsSafe_from (Receiver.new s) cs (new-IsSafe s up)
