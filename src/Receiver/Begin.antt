-- ===== src/Receiver/Begin.antt =====
-- The start of a session.
use niri_bridge.Prelude.{
  ok, ℕ, ◌≡◌, refl, ◌≢◌, ◌⊎◌, inl, inr, Bool, true, false, ◌||◌, some, [], arith,
}
use niri_bridge.Float.{Float}
use niri_bridge.Input.Control as Control
use niri_bridge.Input.Control.{receiving, ControlState, is_local, start}
use niri_bridge.Input.Control.Invariant as Valid
use niri_bridge.Receiver as Receiver
use niri_bridge.Receiver.{InputSink, Receiver, begin}
use niri_bridge.Receiver.Safe.{IsSafe}

start_unlocked :
    (s : ControlState)
    → is_local s.mode ≡ true
    → (s.local_locked || s.peer_locked) ≡ false
    → (Control.start s receiving).1 ≡ record s { mode = receiving }
unfolding Control.start
start_unlocked s mode unlocked = ground arith

module _ {F S : Type 0} ⦃fl : Float F⦄ (sk : InputSink F S) where
  -- The receiver in a new session.
  abbrev pub begun : ℕ → Receiver S → Receiver S
  begun session r = record r {
    state = (Control.start r.state receiving).1;
    session = some session;
    expected_sequence = 0;
  }

  -- A session begins exactly where its number is not 0, all earlier codes are released, the
  -- machine is in no session, and neither side is locked; else the receiver stays as it is.
  pub begin-cases :
      (session : ℕ) (r : Receiver S)
      → ((Receiver.begin sk session r ≡ (ok true, begun session r))
          × (session ≢ 0)
          × (r.pending_releases ≡ [])
          × (is_local r.state.mode ≡ true)
          × ((r.state.local_locked || r.state.peer_locked) ≡ false))
        ⊎ (((Receiver.begin sk session r).1 ≡ r)
            × ((Receiver.begin sk session r).0 ≢ ok true)
            × ((session ≡ 0)
                ⊎ (r.pending_releases ≢ [])
                ⊎ (is_local r.state.mode ≡ false)
                ⊎ ((r.state.local_locked || r.state.peer_locked) ≡ true)))
  unfolding Receiver.begin Control.start
  begin-cases session r = ground arith

  pub begin-IsSafe :
      (down : S → ℕ → Bool) (session : ℕ) (r : Receiver S)
      → IsSafe down r
      → IsSafe down (Receiver.begin sk session r).1
  begin-IsSafe down session r v = elim (begin-cases session r) [
    | inr (same, _, _) ↦ rw same v
    | inl (begins, _, clear, mode, unlocked) ↦ rw begins (record {
      covered = rw (start_unlocked r.state mode unlocked) v.covered;
      held_releasable = rw (start_unlocked r.state mode unlocked) v.held_releasable;
      pending_releasable = v.pending_releasable;
      control =
          unfold Valid.call in Valid.call-IsValid r.state (Valid.start_call receiving) v.control;
      never_sends = rw (start_unlocked r.state mode unlocked) refl;
      session_mode = rw (start_unlocked r.state mode unlocked) refl;
      settled = λ _. clear;
    })
  ]
