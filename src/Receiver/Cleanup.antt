-- ===== src/Receiver/Cleanup.antt =====
-- The cleanup at the end of a session: `release` and `release_with_touchpads`.
use niri_bridge.Prelude.{
  Bool-cases, ok, ℕ, ◌≡◌, ap, inl, inr, Bool, true, false, ◌||◌, List, [], arith,
}
use niri_bridge.Prelude.Sets.{contains, extend, contains-extend}
use niri_bridge.Float.{Float}
use niri_bridge.Input.Control.{ControlState, is_sending, is_receiving}
use niri_bridge.Input.Control.Invariant as Valid
use niri_bridge.Receiver.{
  InputSink, Receiver, no_session, release_each, release, release_with_touchpads,
}
use niri_bridge.Receiver.Safe.{IsHonest, Covered, Releasable, IsSafe}
use niri_bridge.Receiver.Release.{
  Frame, first_error-eq-ok, eq-nil_of_contains, release_each-Frame, release_each-Fewer,
  release_each-ok, release_each-Covered,
}

-- A receiver that has left its session, with the codes that it is about to release.
pub record IsLeaving {S : Type 0} (down : S → ℕ → Bool) (codes : List ℕ) (r : Receiver S)
    : Type 0 where
  pub covered :
      (c : ℕ)
      → down r.sink c ≡ true
      → (contains r.state.held.keys c || (contains codes c || contains r.pending_releases c)) ≡ true
  pub held_releasable : Releasable r.state.held.keys
  pub codes_releasable : Releasable codes
  pub pending_releasable : Releasable r.pending_releases
  pub control : Valid.IsValid r.state
  pub never_sends : is_sending r.state.mode ≡ false
  pub left : is_receiving r.state.mode ≡ false
  pub no_more : no_session r.session ≡ true

module _ {F S : Type 0} ⦃fl : Float F⦄ (sk : InputSink F S) where
  pub release-Frame : (codes : List ℕ) (r : Receiver S) → Frame r (release sk codes r).1
  unfolding release
  release-Frame codes r =
      let pending = extend r.pending_releases codes in
      let f = release_each-Frame sk pending (ok tt) (record r { pending_releases = pending }) in
      record {
        state_same = f.state_same;
        session_same = f.session_same;
        sequence_same = f.sequence_same;
      }

  -- A release that succeeds leaves nothing pending.
  pub release-ok :
      (codes : List ℕ) (r : Receiver S)
      → (release sk codes r).0 ≡ ok tt
      → (release sk codes r).1.pending_releases ≡ []
  unfolding release
  release-ok codes r h =
      let pending = extend r.pending_releases codes in
      let start = record r { pending_releases = pending } in
      let after = (release_each sk pending (ok tt) start).1 in
      let gone = (release_each-ok sk pending (ok tt) start h).1 in
      eq-nil_of_contains after.pending_releases (λ c.
        elim (Bool-cases (contains after.pending_releases c)) [
          | inr no_more ↦ no_more
          | inl kept ↦ gone c (release_each-Fewer sk pending (ok tt) start c kept)
        ])

  pub release-Releasable :
      (codes : List ℕ) (r : Receiver S)
      → Releasable codes
      → Releasable r.pending_releases
      → Releasable (release sk codes r).1.pending_releases
  unfolding release
  release-Releasable codes r hc hp c h =
      let pending = extend r.pending_releases codes in
      let start = record r { pending_releases = pending } in
      let before = release_each-Fewer sk pending (ok tt) start c h in
      ground (arith, contains-extend r.pending_releases codes c, hc c, hp c)

  module _ (down : S → ℕ → Bool) (honest : IsHonest sk down) where
    pub release-Covered :
        (codes : List ℕ) (r : Receiver S) (held : ℕ → Bool)
        → ((c : ℕ)
            → down r.sink c ≡ true
            → (held c || (contains codes c || contains r.pending_releases c)) ≡ true)
        → Covered down (release sk codes r).1.sink held (release sk codes r).1.pending_releases
    unfolding release
    release-Covered codes r held v =
        let pending = extend r.pending_releases codes in
        release_each-Covered sk down honest pending (ok tt)
          (record r { pending_releases = pending }) held
          (λ c h. rw (contains-extend r.pending_releases codes c) (v c h))

    -- Whatever the backend does, a cleanup ends in a safe receiver.
    pub cleanup-IsSafe :
        (codes : List ℕ) (r : Receiver S)
        → IsLeaving down codes r
        → IsSafe down (release_with_touchpads sk codes r).1
    unfolding release_with_touchpads
    cleanup-IsSafe codes r v =
        let r' = (release sk codes r).1 in
        let f = release-Frame codes r in
        let same = f.state_same in
        record {
          covered = λ c h. rw same (
              release-Covered codes r (contains r.state.held.keys) v.covered c
                (honest.reset_keeps r'.sink c h));
          held_releasable = rw same v.held_releasable;
          pending_releasable = release-Releasable codes r v.codes_releasable v.pending_releasable;
          control = rw same v.control;
          never_sends = rw same v.never_sends;
          session_mode = rw (same, f.session_same, v.left) v.no_more;
          settled = λ h.
              absurd (ground (arith, ap (λ (t : ControlState). is_receiving t.mode) same, v.left));
        }

    -- A cleanup that succeeds leaves nothing pending, and nothing down that is not held.
    pub cleanup-ok :
        (codes : List ℕ) (r : Receiver S)
        → (release_with_touchpads sk codes r).0 ≡ ok tt
        → (release_with_touchpads sk codes r).1.pending_releases ≡ []
    unfolding release_with_touchpads
    cleanup-ok codes r h =
        release-ok codes r
          (first_error-eq-ok (release sk codes r).0
            (sk.reset_touchpads (release sk codes r).1.sink).0 h).0
