-- ===== src/Receiver/Leaves.antt =====
-- src/receiver.rs: which calls keep the session of a receiver, and which end it.
use niri_bridge.Prelude.{
  if◌then◌else◌, Bool-cases, ok, ℕ, String, ◌≡◌, refl, inl, inr, Bool, true, false, ◌&&◌, Option,
  none, some, List, arith,
}
use niri_bridge.Float.{Float}
use niri_bridge.Protocol.Event.{InputEvent}
use niri_bridge.Touchpad.Descriptor.{Descriptor}
use niri_bridge.Input.Control as Control
use niri_bridge.Input.Control.{
  returned, local_takeover, ControlState, is_receiving, local_lock_changed, peer_lock_changed,
}
use niri_bridge.Input.Control.Invariant as Valid
use niri_bridge.Receiver as Receiver
use niri_bridge.Receiver.{
  InputSink, Receiver, is_session, no_session, release_with_touchpads, configure_touchpads, input,
  end, after_lock, local_lock, peer_lock, physical_activity, position_on,
}
use niri_bridge.Receiver.Safe.{IsSafe}
use niri_bridge.Receiver.Cleanup.{release-Frame}
use niri_bridge.Receiver.Calls.{physical_activity_receiving, physical_activity_idle}
use niri_bridge.Receiver.Session.{stop_ends}
use niri_bridge.Receiver.Sequence.{input-cases, input_stale}

-- Without a mode of receiving there is no session.
none_of : (n : Option ℕ) → no_session n ≡ true → n ≡ none
none_of none h = refl
none_of (some s) h = cc

local_lock_mode :
    (s : ControlState) (b : Bool)
    → Valid.IsValid s
    → b ≡ true
    → is_receiving (Control.local_lock_changed s b).1.mode ≡ false
unfolding Control.local_lock_changed
local_lock_mode s b v h = ground (arith, v.unlocked)

local_lock_still :
    (s : ControlState) (b : Bool)
    → Valid.IsValid s
    → b ≡ false
    → is_receiving (Control.local_lock_changed s b).1.mode ≡ is_receiving s.mode
unfolding Control.local_lock_changed
local_lock_still s b v h = ground (arith, v.unlocked)

peer_lock_mode :
    (s : ControlState) (b : Bool)
    → Valid.IsValid s
    → b ≡ true
    → is_receiving (Control.peer_lock_changed s b).1.mode ≡ false
unfolding Control.peer_lock_changed
peer_lock_mode s b v h = ground (arith, v.unlocked)

peer_lock_still :
    (s : ControlState) (b : Bool)
    → Valid.IsValid s
    → b ≡ false
    → is_receiving (Control.peer_lock_changed s b).1.mode ≡ is_receiving s.mode
unfolding Control.peer_lock_changed
peer_lock_still s b v h = ground (arith, v.unlocked)

module _ {F S : Type 0} ⦃fl : Float F⦄ (sk : InputSink F S) (r : Receiver S) where
  release_with-session :
      (codes : List ℕ) (t : Receiver S)
      → (Receiver.release_with_touchpads sk codes t).1.session ≡ t.session
  unfolding Receiver.release_with_touchpads
  release_with-session codes t = (release-Frame sk codes t).session_same

  pub end_running : (s : ℕ) → r.session ≡ some s → (Receiver.end sk s r).1.session ≡ none
  unfolding Receiver.end
  end_running s h = ground (arith, (stop_ends sk Control.returned r).0)

  pub end_idle : (s : ℕ) → r.session ≡ none → Receiver.end sk s r ≡ (ok tt, r)
  unfolding Receiver.end
  end_idle s h = rw h refl

  pub position_on-session :
      (output : String) (event : InputEvent F)
      → (Receiver.position_on sk output event r).1.session ≡ r.session
  unfolding Receiver.position_on
  position_on-session output event = ground arith

  pub configure_touchpads-session :
      (devices : List Descriptor)
      → (Receiver.configure_touchpads sk devices r).1.session ≡ r.session
  unfolding Receiver.configure_touchpads
  configure_touchpads-session devices = ground arith

  module _ (down : S → ℕ → Bool) (v : IsSafe down r) where
    pub idle_session : is_receiving r.state.mode ≡ false → r.session ≡ none
    idle_session mode = none_of r.session (ground (arith, v.session_mode))

    -- The end of a lock call that takes the machine to a state: the session is over exactly where
    -- that state does not receive.
    after_lock-session :
        (codes : List ℕ) (state : ControlState) (b : Bool)
        → (b ≡ true → is_receiving state.mode ≡ false)
        → (b ≡ false → is_receiving state.mode ≡ is_receiving r.state.mode)
        → (Receiver.after_lock sk codes (record r { state = state })).1.session
          ≡ (if b then none else r.session)
    unfolding Receiver.after_lock
    after_lock-session codes state b stops stays =
        let r' = record r { state = state } in
        let released = (release-Frame sk codes r').session_same in
        let left = (release_with-session codes (record r' { session = none })) in
        elim (Bool-cases (is_receiving state.mode)) [
          | inl mode ↦ rw mode (ground (arith, released))
          | inr mode ↦ rw mode (ground (arith, left, idle_session))
        ]

    pub physical_activity-session : (Receiver.physical_activity sk r).1.session ≡ none
    physical_activity-session = elim (Bool-cases (is_receiving r.state.mode)) [
      | inl mode ↦ rw (physical_activity_receiving sk r mode) (stop_ends sk local_takeover r).0
      | inr mode ↦ rw (physical_activity_idle sk r mode) (idle_session mode)
    ]

    pub input-session :
        (session sequence : ℕ) (event : InputEvent F) (b : Bool)
        → (Receiver.input sk session sequence event r).0 ≡ ok b
        → (Receiver.input sk session sequence event r).1.session ≡ r.session
    input-session session sequence event b good =
        elim (Bool-cases (is_session r.session session && is_receiving r.state.mode)) [
          | inr stale ↦ rw (input_stale sk session sequence event r stale) refl
          | inl running ↦
              elim (input-cases sk session sequence event r (ground arith) (ground arith)) [
                | inl (_, (_, _, same, _)) ↦ same
                | inr (_, (bad, _, _)) ↦ cc
              ]
        ]

    pub local_lock-session :
        (b : Bool) → (Receiver.local_lock sk b r).1.session ≡ (if b then none else r.session)
    unfolding Receiver.local_lock
    local_lock-session b =
        let (effects, state) = Control.local_lock_changed r.state b in
        after_lock-session effects.release_codes state b
          (λ h. local_lock_mode r.state b v.control h) (λ h. local_lock_still r.state b v.control h)

    pub peer_lock-session :
        (b : Bool) → (Receiver.peer_lock sk b r).1.session ≡ (if b then none else r.session)
    unfolding Receiver.peer_lock
    peer_lock-session b =
        let (effects, state) = Control.peer_lock_changed r.state b in
        after_lock-session effects.release_codes state b (λ h. peer_lock_mode r.state b v.control h)
          (λ h. peer_lock_still r.state b v.control h)
