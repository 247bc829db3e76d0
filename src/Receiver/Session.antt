-- ===== src/Receiver/Session.antt =====
-- The end of a session and the start of the next: nothing stays pressed at the backend.
use niri_bridge.Prelude.{
  Bool-cases, ok, ℕ, ◌≡◌, refl, ap, inl, inr, Bool, true, false, ◌||◌, not, none, List, [], arith,
}
use niri_bridge.Prelude.Sets.{contains}
use niri_bridge.Float.{Float}
use niri_bridge.Input.Control as Control
use niri_bridge.Input.Control.{StopReason, is_active, is_local}
use niri_bridge.Receiver as Receiver
use niri_bridge.Receiver.{InputSink, Receiver, release_with_touchpads, stop, begin}
use niri_bridge.Receiver.Safe.{IsHonest, IsSafe}
use niri_bridge.Receiver.Cleanup.{release-Frame, cleanup-ok}
use niri_bridge.Receiver.Calls.{stop-IsSafe}
use niri_bridge.Receiver.Begin.{begin-cases}

-- With both accounts empty nothing is down.
nothing_down :
    {S : Type 0} (down : S → ℕ → Bool) (r : Receiver S) (c : ℕ)
    → IsSafe down r
    → r.state.held.keys ≡ []
    → r.pending_releases ≡ []
    → down r.sink c ≡ false
nothing_down down r c v held pending = elim (Bool-cases (down r.sink c)) [
  | inr up ↦ up
  | inl h ↦ absurd (
      ground (
        arith,
        v.covered c h,
        ap (λ (k : List ℕ). contains k c) held,
        ap (λ (k : List ℕ). contains k c) pending,
      ))
]

module _ {F S : Type 0} ⦃fl : Float F⦄ (sk : InputSink F S) where
  stop-state :
      (reason : StopReason) (r : Receiver S)
      → ((Receiver.stop sk reason r).1.state ≡ (Control.stop r.state reason).1)
        × ((Receiver.stop sk reason r).1.session ≡ none)
        × ((Receiver.stop sk reason r).1.expected_sequence ≡ r.expected_sequence)
  unfolding Receiver.stop Receiver.release_with_touchpads
  stop-state reason r =
      let (effects, state) = Control.stop r.state reason in
      let f = release-Frame sk effects.release_codes (record r { session = none; state = state }) in
      (f.state_same, f.session_same, f.sequence_same)

  -- A stop ends the session, empties the held codes and keeps the locks; its mode is paused
  -- exactly where a side is locked, whatever the backend does.
  pub stop_ends :
      (reason : StopReason) (r : Receiver S)
      → let r' = (Receiver.stop sk reason r).1 in
        (r'.session ≡ none)
        × (r'.state.held.keys ≡ [])
        × (is_active r'.state.mode ≡ false)
        × (is_local r'.state.mode ≡ not (r.state.local_locked || r.state.peer_locked))
        × (r'.expected_sequence ≡ r.expected_sequence)
  unfolding Control.stop
  stop_ends reason r =
      let (state, session, sequence) = stop-state reason r in
      (session, rw state refl, rw state (ground arith), rw state (ground arith), sequence)

  module _ (down : S → ℕ → Bool) (honest : IsHonest sk down) where
    -- A stop that returns without an error, for whatever reason it was called, leaves no code
    -- down at the backend, no code held and none waiting.
    pub stop_releases :
        (reason : StopReason) (r : Receiver S) (c : ℕ)
        → IsSafe down r
        → (Receiver.stop sk reason r).0 ≡ ok tt
        → let r' = (Receiver.stop sk reason r).1 in
          (down r'.sink c ≡ false) × (r'.state.held.keys ≡ []) × (r'.pending_releases ≡ [])
    unfolding Receiver.stop
    stop_releases reason r c v done =
        let (effects, state) = Control.stop r.state reason in
        let held = (stop_ends reason r).1 in
        let pending =
          cleanup-ok sk down honest effects.release_codes
            (record r { session = none; state = state }) done in
        (
          nothing_down down (Receiver.stop sk reason r).1 c (stop-IsSafe sk down honest reason r v)
              held pending,
          held,
          pending,
        )

  -- A session starts only with nothing down at the backend: a failed cleanup before it blocks it.
  pub begin_clean :
      (down : S → ℕ → Bool) (session : ℕ) (r : Receiver S) (c : ℕ)
      → IsSafe down r
      → (Receiver.begin sk session r).0 ≡ ok true
      → down (Receiver.begin sk session r).1.sink c ≡ false
  begin_clean down session r c v done = elim (begin-cases sk session r) [
    | inr (_, refused, _) ↦ absurd (refused done)
    | inl (begins, _, clear, mode, _) ↦
        rw begins (nothing_down down r c v (v.control.idle (ground arith)) clear)
  ]
