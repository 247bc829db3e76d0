-- ===== src/Receiver/Calls.antt =====
-- The ends of a session keep the receiver's invariant, whatever the backend does.
use niri_bridge.Prelude.{
  Bool-cases, ok, ℕ, ◌≡◌, refl, sym, ap, ◌∙◌, inl, inr, Bool, true, false, none, List, [], arith,
}
use niri_bridge.Prelude.Sets.{contains}
use niri_bridge.Float.{Float}
use niri_bridge.Input.Control as Control
use niri_bridge.Input.Control.{
  StopReason, returned, local_takeover, ControlState, is_receiving, receiver_physical_activity,
}
use niri_bridge.Input.Control.Invariant as Valid
use niri_bridge.Input.Control.Release as Ending
use niri_bridge.Receiver as Receiver
use niri_bridge.Receiver.{
  InputSink, Receiver, is_session, release_each, release, stop, end, after_lock, local_lock,
  peer_lock, physical_activity,
}
use niri_bridge.Receiver.Safe.{IsHonest, IsSafe}
use niri_bridge.Receiver.Cleanup.{IsLeaving, cleanup-IsSafe}

-- A call on the control state that can only end a session, and has.
leave :
    {S : Type 0} (down : S → ℕ → Bool) (r : Receiver S) (c : Valid.Call)
    → IsSafe down r
    → Ending.IsEnding c
    → is_receiving (Valid.call r.state c).1.mode ≡ false
    → let (effects, state) = Valid.call r.state c in
      IsLeaving down effects.release_codes (record r { session = none; state = state })
leave down r c v ends stopped =
    let (effects, state) = Valid.call r.state c in
    let e = Ending.call-Ends r.state c ends in
    record {
      covered = λ code h.
          let before = v.covered code h in
          elim (Bool-cases (contains r.state.held.keys code)) [
            | inl held ↦ let keeps = e.kept code held in ground arith
            | inr free ↦ ground arith
          ];
      held_releasable = λ code h. v.held_releasable code (e.held_fewer code h);
      codes_releasable = λ code h. v.held_releasable code (e.codes_held code h);
      pending_releasable = v.pending_releasable;
      control = Valid.call-IsValid r.state c v.control;
      never_sends = e.no_send v.never_sends;
      left = stopped;
      no_more = refl;
    }

module _ {F S : Type 0} ⦃fl : Float F⦄ (sk : InputSink F S) (r : Receiver S) where
  pub physical_activity_receiving :
      is_receiving r.state.mode ≡ true
      → Receiver.physical_activity sk r ≡ Receiver.stop sk local_takeover r
  unfolding Receiver.physical_activity Receiver.stop Control.receiver_physical_activity
  physical_activity_receiving mode = ground arith

  pub physical_activity_idle :
      is_receiving r.state.mode ≡ false → Receiver.physical_activity sk r ≡ (ok tt, r)
  unfolding Receiver.physical_activity Control.receiver_physical_activity
  physical_activity_idle mode = ground arith

module _ {F S : Type 0} ⦃fl : Float F⦄ (sk : InputSink F S) (down : S → ℕ → Bool)
    (honest : IsHonest sk down) where
  pub stop-IsSafe :
      (reason : StopReason) (r : Receiver S)
      → IsSafe down r
      → IsSafe down (Receiver.stop sk reason r).1
  unfolding Receiver.stop Valid.call
  stop-IsSafe reason r v =
      let (effects, state) = Valid.call r.state (Valid.stop_call reason) in
      cleanup-IsSafe sk down honest effects.release_codes
        (record r { session = none; state = state })
        (leave down r (Valid.stop_call reason) v tt (ground arith))

  pub end-IsSafe :
      (session : ℕ) (r : Receiver S) → IsSafe down r → IsSafe down (Receiver.end sk session r).1
  unfolding Receiver.end
  end-IsSafe session r v = elim (Bool-cases (Receiver.is_session r.session session)) [
    | inl e ↦ rw e (stop-IsSafe Control.returned r v)
    | inr e ↦ rw e v
  ]

  -- With nothing pending there is nothing to release.
  release_each_nothing :
      (pending : List ℕ) (r : Receiver S)
      → pending ≡ []
      → Receiver.release_each sk pending (ok tt) r ≡ (ok tt, r)
  unfolding Receiver.release_each
  release_each_nothing pending r e = rw e refl

  after_lock-IsSafe :
      (r : Receiver S) (c : Valid.Call)
      → IsSafe down r
      → Ending.IsEnding c
      → let (effects, state) = Valid.call r.state c in
        IsSafe down (Receiver.after_lock sk effects.release_codes (record r { state = state })).1
  unfolding Receiver.after_lock Receiver.release
  after_lock-IsSafe r c v ends =
      let (effects, state) = Valid.call r.state c in
      let e = Ending.call-Ends r.state c ends in
      elim (Bool-cases (is_receiving state.mode)) [
        | inl mode ↦
            let (same, none_held) = e.still mode in
            let before = ap (λ (t : Control.ControlState). is_receiving t.mode) (sym same) ∙ mode in
            rw (mode, same, none_held)
              (rw (release_each_nothing r.pending_releases r (v.settled before)) v)
        | inr mode ↦ rw mode (
            cleanup-IsSafe sk down honest effects.release_codes
              (record r { session = none; state = state }) (leave down r c v ends mode))
      ]

  pub local_lock-IsSafe :
      (b : Bool) (r : Receiver S) → IsSafe down r → IsSafe down (Receiver.local_lock sk b r).1
  unfolding Receiver.local_lock Valid.call
  local_lock-IsSafe b r v = after_lock-IsSafe r (Valid.local_lock b) v tt

  pub peer_lock-IsSafe :
      (b : Bool) (r : Receiver S) → IsSafe down r → IsSafe down (Receiver.peer_lock sk b r).1
  unfolding Receiver.peer_lock Valid.call
  peer_lock-IsSafe b r v = after_lock-IsSafe r (Valid.peer_lock b) v tt

  pub physical_activity-IsSafe :
      (r : Receiver S) → IsSafe down r → IsSafe down (Receiver.physical_activity sk r).1
  physical_activity-IsSafe r v = elim (Bool-cases (is_receiving r.state.mode)) [
    | inl mode ↦ rw (physical_activity_receiving sk r mode) (stop-IsSafe local_takeover r v)
    | inr mode ↦ rw (physical_activity_idle sk r mode) v
  ]
