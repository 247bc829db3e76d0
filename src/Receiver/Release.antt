-- ===== src/Receiver/Release.antt =====
-- The release loop: a code that is down stays on an account, and a loop that succeeds clears the
-- pending account.
use niri_bridge.Prelude.{
  ◌==◌, if◌then◌else◌, ==_iff, Bool-cases, Result, ok, err, is_ok, Result-cases, ℕ, ◌≡◌, refl, inl,
  inr, Bool, true, false, some, List, [], ◌∷◌, arith,
}
use niri_bridge.Prelude.Sets.{contains, remove, contains-remove}
use niri_bridge.Float.{Float}
use niri_bridge.Protocol.Event as Event
use niri_bridge.Protocol.Event.{held_transition, release}
use niri_bridge.Receiver.{InputSink, Receiver, first_error, release_each}
use niri_bridge.Receiver.Safe.{IsHonest, Covered}

pub held_transition-release :
    (F : Type 0) (c : ℕ) → held_transition (Event.release {F = F} c) ≡ some (c, false)
unfolding held_transition Event.release
held_transition-release F c = ground arith

-- What the release of codes leaves alone.
pub record Frame {S : Type 0} (r r' : Receiver S) : Type 0 where
  pub state_same : r'.state ≡ r.state
  pub session_same : r'.session ≡ r.session
  pub sequence_same : r'.expected_sequence ≡ r.expected_sequence

abbrev pub Fewer : List ℕ → List ℕ → Type 0
Fewer after before = (c : ℕ) → contains after c ≡ true → contains before c ≡ true

pub first_error-eq-ok :
    (a b : Result (Unit {0})) → first_error a b ≡ ok tt → (a ≡ ok tt) × (b ≡ ok tt)
first_error-eq-ok (ok tt) b h = (refl, h)
first_error-eq-ok (err e) b h = cc

pub eq-nil_of_contains : (s : List ℕ) → ((c : ℕ) → contains s c ≡ false) → s ≡ []
eq-nil_of_contains [] h = refl
eq-nil_of_contains (x ∷ s) h = ground (arith, h x)

module _ {F S : Type 0} ⦃fl : Float F⦄ (sk : InputSink F S) where
  -- One round of the loop.
  abbrev pub round : ℕ → Receiver S → Receiver S
  round code r =
      let (result, sink) = sk.emit (Event.release code) r.sink in
      record r {
        sink = sink;
        pending_releases =
            if is_ok result then remove r.pending_releases code else r.pending_releases;
      }

  pub release_each-Frame :
      (codes : List ℕ) (first : Result (Unit {0})) (r : Receiver S)
      → Frame r (release_each sk codes first r).1
  unfolding release_each
  release_each-Frame [] first r = record {
    state_same = refl;
    session_same = refl;
    sequence_same = refl;
  }
  release_each-Frame (code ∷ codes) first r =
      let f =
        release_each-Frame codes (first_error first (sk.emit (Event.release code) r.sink).0)
          (round code r) in
      record {
        state_same = f.state_same;
        session_same = f.session_same;
        sequence_same = f.sequence_same;
      }

  pub release_each-Fewer :
      (codes : List ℕ) (first : Result (Unit {0})) (r : Receiver S)
      → Fewer (release_each sk codes first r).1.pending_releases r.pending_releases
  unfolding release_each
  release_each-Fewer [] first r c h = h
  release_each-Fewer (code ∷ codes) first r c h = ground (
    arith,
    contains-remove r.pending_releases code c,
    release_each-Fewer codes (first_error first (sk.emit (Event.release code) r.sink).0)
        (round code r) c h,
  )

  -- A loop that succeeds met no error before, and each of its codes is gone from the account.
  pub release_each-ok :
      (codes : List ℕ) (first : Result (Unit {0})) (r : Receiver S)
      → (release_each sk codes first r).0 ≡ ok tt
      → (first ≡ ok tt)
        × ((c : ℕ)
            → contains codes c ≡ true
            → contains (release_each sk codes first r).1.pending_releases c ≡ false)
  unfolding release_each
  release_each-ok [] first r h = (h, λ c m. cc)
  release_each-ok (code ∷ codes) first r h =
      let result = (sk.emit (Event.release code) r.sink).0 in
      let (both, rest) = release_each-ok codes (first_error first result) (round code r) h in
      let (before, done) = first_error-eq-ok first result both in
      let last = (release_each sk codes (first_error first result) (round code r)).1 in
      (
        before,
        λ c m. elim (Bool-cases (contains last.pending_releases c)) [
          | inr gone ↦ gone
          | inl kept ↦
              let before =
                release_each-Fewer codes (first_error first result) (round code r) c kept in
              ground (arith, contains-remove r.pending_releases code c, rest c)
        ],
      )

module _ {F S : Type 0} ⦃fl : Float F⦄ (sk : InputSink F S) (down : S → ℕ → Bool)
    (honest : IsHonest sk down) where
  -- A release presses nothing.
  emit_release-down :
      (code : ℕ) (s : S) (c : ℕ)
      → down (sk.emit (Event.release code) s).1 c ≡ true
      → down s c ≡ true
  emit_release-down code s c h = elim (honest.emit_presses (Event.release code) s c h) [
    | inl before ↦ before
    | inr pressed ↦ cc (held_transition-release F code)
  ]

  emit_release-Covered :
      (code : ℕ) (r : Receiver S) (held : ℕ → Bool)
      → Covered down r.sink held r.pending_releases
      → Covered down (round sk code r).sink held (round sk code r).pending_releases
  emit_release-Covered code r held v c h =
      let before = v c (emit_release-down code r.sink c h) in
      elim (Result-cases (sk.emit (Event.release code) r.sink).0) [
        | inl (_, done) ↦ elim (Bool-cases (c == code)) [
          | inl same ↦
              let up =
                honest.emit_releases (Event.release code) r.sink code done
                  (held_transition-release F code) in
              let eq = (==_iff c code).0 same in absurd (ground arith)
          | inr other ↦ ground (arith, contains-remove r.pending_releases code c)
        ]
        | inr (_, failed) ↦ rw failed before
      ]

  pub release_each-Covered :
      (codes : List ℕ) (first : Result (Unit {0})) (r : Receiver S) (held : ℕ → Bool)
      → Covered down r.sink held r.pending_releases
      → Covered down
          (release_each sk codes first r).1.sink
          held
          (release_each sk codes first r).1.pending_releases
  unfolding release_each
  release_each-Covered [] first r held v = v
  release_each-Covered (code ∷ codes) first r held v =
      release_each-Covered codes (first_error first (sk.emit (Event.release code) r.sink).0)
        (round sk code r) held (emit_release-Covered code r held v)
