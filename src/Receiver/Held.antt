-- ===== src/Receiver/Held.antt =====
-- What one backend call, and one noted press or release, does to the receiver's invariant.
use niri_bridge.Prelude.{
  leb, ==_iff, Bool-cases, length, ok, ℕ, ◌≡◌, refl, inl, inr, Bool, true, false, ◌&&◌, Option,
  none, some, List, arith,
}
use niri_bridge.Prelude.Sets.{contains, insert, remove, contains-insert, contains-remove}
use niri_bridge.Float.{Float}
use niri_bridge.Protocol.Event as Event
use niri_bridge.Protocol.Event.{InputEvent, held_transition}
use niri_bridge.Touchpad.Descriptor.{Descriptor}
use niri_bridge.Input.Control as Control
use niri_bridge.Input.Control.{ControlState, is_receiving, press}
use niri_bridge.Input.Control.Invariant as Valid
use niri_bridge.Receiver as Receiver
use niri_bridge.Receiver.{
  InputSink, Receiver, no_session, press_of, release_of, release, poll, configure_touchpads,
}
use niri_bridge.Receiver.Safe.{IsHonest, releasable, IsSafe}

-- The code of a valid event that holds one can be released.
held_transition-releasable :
    {F : Type 0} ⦃fl : Float F⦄ (e : InputEvent F) (c : ℕ) (p : Bool)
    → Event.validate e ≡ ok tt
    → held_transition e ≡ some (c, p)
    → releasable c ≡ true
unfolding Event.validate held_transition
held_transition-releasable e c p valid h = ground arith

pub press_receiving :
    (s : ControlState) (c : ℕ)
    → is_receiving s.mode ≡ true
    → (Control.press s c).1 ≡ record s { held = record { keys = insert s.held.keys c } }
unfolding Control.press
press_receiving s c mode = ground arith

release_keys :
    (s : ControlState) (c : ℕ)
    → (Control.release s c).1 ≡ record s { held = record { keys = remove s.held.keys c } }
unfolding Control.release
release_keys s c = refl

module _ {F S : Type 0} ⦃fl : Float F⦄ (sk : InputSink F S) (down : S → ℕ → Bool)
    (honest : IsHonest sk down) where
  -- A new sequence number.
  pub count-IsSafe :
      (n : ℕ) (r : Receiver S) → IsSafe down r → IsSafe down (record r { expected_sequence = n })
  count-IsSafe n r v = record {
    covered = v.covered;
    held_releasable = v.held_releasable;
    pending_releasable = v.pending_releasable;
    control = v.control;
    never_sends = v.never_sends;
    session_mode = v.session_mode;
    settled = v.settled;
  }

  -- A backend call that presses nothing.
  pub quiet-IsSafe :
      (r : Receiver S) (s : S)
      → IsSafe down r
      → ((c : ℕ) → down s c ≡ true → down r.sink c ≡ true)
      → IsSafe down (record r { sink = s })
  quiet-IsSafe r s v keeps = record {
    covered = λ c h. v.covered c (keeps c h);
    held_releasable = v.held_releasable;
    pending_releasable = v.pending_releasable;
    control = v.control;
    never_sends = v.never_sends;
    session_mode = v.session_mode;
    settled = v.settled;
  }

  pub poll-IsSafe : (r : Receiver S) → IsSafe down r → IsSafe down (Receiver.poll sk r).1
  unfolding Receiver.poll
  poll-IsSafe r v = quiet-IsSafe r (sk.poll r.sink).1 v (honest.poll_keeps r.sink)

  pub configure_touchpads-IsSafe :
      (devices : List Descriptor) (r : Receiver S)
      → IsSafe down r
      → IsSafe down (Receiver.configure_touchpads sk devices r).1
  unfolding Receiver.configure_touchpads
  configure_touchpads-IsSafe devices r v =
      elim (Bool-cases (no_session r.session && leb (length devices) 4)) [
        | inl free ↦ rw free (
            quiet-IsSafe r (sk.configure_touchpads devices r.sink).1 v
              (honest.configure_keeps devices r.sink))
        | inr busy ↦ rw busy v
      ]

  -- With a press noted before the emission, the code is held whatever the backend does.
  pub press-IsSafe :
      (event : InputEvent F) (r : Receiver S)
      → Event.validate event ≡ ok tt
      → is_receiving r.state.mode ≡ true
      → IsSafe down r
      → IsSafe down (record r { state = press_of (held_transition event) r.state })
  press-IsSafe event r valid mode v =
      go (held_transition event) (λ c p. held_transition-releasable event c p valid)
    where
      go :
          (t : Option (ℕ × Bool))
          → ((c : ℕ) (p : Bool) → t ≡ some (c, p) → releasable c ≡ true)
          → IsSafe down (record r { state = press_of t r.state })
      go none ranged = v
      go (some (c, false)) ranged = v
      go (some (c, true)) ranged = record {
        covered = λ z h.
            rw (press_receiving r.state c mode)
              (ground (arith, contains-insert r.state.held.keys c z, v.covered z h));
        held_releasable = rw (press_receiving r.state c mode) (λ z h. ground (
          arith,
          contains-insert r.state.held.keys c z,
          v.held_releasable z,
          ranged c true refl,
        ));
        pending_releasable = v.pending_releasable;
        control = unfold Valid.call in Valid.call-IsValid r.state (Valid.press_call c) v.control;
        never_sends = rw (press_receiving r.state c mode) v.never_sends;
        session_mode = rw (press_receiving r.state c mode) v.session_mode;
        settled = λ _. v.settled mode;
      }

  -- Once an emitted release has left the code up, the code is held no more.
  pub release-IsSafe :
      (t : Option (ℕ × Bool)) (r : Receiver S)
      → IsSafe down r
      → ((c : ℕ) → t ≡ some (c, false) → down r.sink c ≡ false)
      → IsSafe down (record r { state = release_of t r.state })
  release-IsSafe none r v up = v
  release-IsSafe (some (c, true)) r v up = v
  release-IsSafe (some (c, false)) r v up = record {
    covered = λ z h. rw (release_keys r.state c) (
        ground
          (arith, ==_iff z c, contains-remove r.state.held.keys c z, v.covered z h, up c refl));
    held_releasable =
        rw (release_keys r.state c)
          (λ z h. ground (arith, contains-remove r.state.held.keys c z, v.held_releasable z));
    pending_releasable = v.pending_releasable;
    control = unfold Valid.call in Valid.call-IsValid r.state (Valid.release_call c) v.control;
    never_sends = rw (release_keys r.state c) v.never_sends;
    session_mode = rw (release_keys r.state c) v.session_mode;
    settled = rw (release_keys r.state c) v.settled;
  }

  pub emit-IsSafe :
      (event : InputEvent F) (r : Receiver S)
      → is_receiving r.state.mode ≡ true
      → IsSafe down r
      → ((c : ℕ) → held_transition event ≡ some (c, true) → contains r.state.held.keys c ≡ true)
      → IsSafe down (record r { sink = (sk.emit event r.sink).1 })
  emit-IsSafe event r mode v pressed = record {
    covered = λ c h. elim (honest.emit_presses event r.sink c h) [
      | inl before ↦ v.covered c before
      | inr press ↦ ground (arith, pressed c press)
    ];
    held_releasable = v.held_releasable;
    pending_releasable = v.pending_releasable;
    control = v.control;
    never_sends = v.never_sends;
    session_mode = v.session_mode;
    settled = v.settled;
  }
