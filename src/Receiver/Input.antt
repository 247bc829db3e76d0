-- ===== src/Receiver/Input.antt =====
-- `input` and the placements keep the receiver's invariant.
use niri_bridge.Prelude.{
  ◌==◌, Bool-cases, Result, ok, err, Result-cases, ℕ, String, ◌≡◌, refl, sym, inl, inr, Bool, true,
  false, Option, none, some, arith,
}
use niri_bridge.Prelude.Sets.{contains, contains-insert}
use niri_bridge.Float.{Float}
use niri_bridge.Protocol.Event as Event
use niri_bridge.Protocol.Event.{InputEvent, validate, held_transition}
use niri_bridge.Input.Control as Control
use niri_bridge.Input.Control.{disconnected, ControlState, is_receiving, press}
use niri_bridge.Receiver as Receiver
use niri_bridge.Receiver.{
  InputSink, Receiver, checked_next, is_session, press_of, release_of, stop, fail_input, emit_input,
  accept_input, checked_input, input,
}
use niri_bridge.Receiver.Safe.{IsHonest, IsSafe}
use niri_bridge.Receiver.Calls.{stop-IsSafe}
use niri_bridge.Receiver.Held.{
  press_receiving, count-IsSafe, press-IsSafe, release-IsSafe, emit-IsSafe,
}

pub fail_input-state :
    {F S : Type 0} ⦃fl : Float F⦄ (sk : InputSink F S) (message : String)
    (o : Result (Unit {0}) × Receiver S)
    → (Receiver.fail_input sk message o).1 ≡ o.1
fail_input-state sk message (ok _, r) = refl
fail_input-state sk message (err e, r) = refl

-- A press is held once it is noted.
press_of-held :
    (t : Option (ℕ × Bool)) (s : ControlState) (c : ℕ)
    → is_receiving s.mode ≡ true
    → t ≡ some (c, true)
    → contains (press_of t s).held.keys c ≡ true
press_of-held t s c mode e =
    rw (e, press_receiving s c mode) (ground (arith, contains-insert s.held.keys c c))

press_of-mode : (t : Option (ℕ × Bool)) (s : ControlState) → (press_of t s).mode ≡ s.mode
unfolding Control.press
press_of-mode none s = refl
press_of-mode (some (c, false)) s = refl
press_of-mode (some (c, true)) s = ground arith

module _ {F S : Type 0} ⦃fl : Float F⦄ (sk : InputSink F S) (down : S → ℕ → Bool)
    (honest : IsHonest sk down) where
  emit_input-IsSafe :
      (next : ℕ) (event : InputEvent F) (r : Receiver S)
      → is_receiving r.state.mode ≡ true
      → IsSafe down r
      → ((c : ℕ) → held_transition event ≡ some (c, true) → contains r.state.held.keys c ≡ true)
      → IsSafe down (Receiver.emit_input sk next event r).1
  unfolding Receiver.emit_input
  emit_input-IsSafe next event r mode v pressed =
      let r' = record r { sink = (sk.emit event r.sink).1 } in
      let w = emit-IsSafe sk down honest event r mode v pressed in
      elim (Result-cases (sk.emit event r.sink).0) [
        | inl (_, e) ↦
            rw (e, Receiver.emit_input)
              (count-IsSafe sk down honest next
                (record r' { state = release_of (held_transition event) r'.state })
                (release-IsSafe sk down honest (held_transition event) r' w
                  (λ c. honest.emit_releases event r.sink c e)))
        | inr (_, e) ↦ rw (e, Receiver.emit_input) (stop-IsSafe sk down honest disconnected r' w)
      ]

  fail-IsSafe :
      (message : String) (r : Receiver S)
      → IsSafe down r
      → IsSafe down (Receiver.fail_input sk message (Receiver.stop sk disconnected r)).1
  fail-IsSafe message r v =
      rw (fail_input-state sk message (Receiver.stop sk disconnected r))
        (stop-IsSafe sk down honest disconnected r v)

  accept_input-IsSafe :
      (next : Option ℕ) (event : InputEvent F) (r : Receiver S)
      → Event.validate event ≡ ok tt
      → is_receiving r.state.mode ≡ true
      → IsSafe down r
      → IsSafe down (Receiver.accept_input sk next event r).1
  unfolding Receiver.accept_input
  accept_input-IsSafe none event r valid mode v = fail-IsSafe "Input sequence exhausted" r v
  accept_input-IsSafe (some next) event r valid mode v =
      let t = held_transition event in
      emit_input-IsSafe next event (record r { state = press_of t r.state })
        (rw (press_of-mode t r.state) mode) (press-IsSafe sk down honest event r valid mode v)
        (λ c e. press_of-held t r.state c mode e)

  checked_input-IsSafe :
      (valid : Result (Unit {0})) (event : InputEvent F) (r : Receiver S)
      → valid ≡ Event.validate event
      → is_receiving r.state.mode ≡ true
      → IsSafe down r
      → IsSafe down (Receiver.checked_input sk valid event r).1
  unfolding Receiver.checked_input
  checked_input-IsSafe (ok tt) event r valid mode v =
      accept_input-IsSafe (Receiver.checked_next r.expected_sequence) event r (sym valid) mode v
  checked_input-IsSafe (err e) event r valid mode v = fail-IsSafe e r v

  pub input-IsSafe :
      (session sequence : ℕ) (event : InputEvent F) (r : Receiver S)
      → IsSafe down r
      → IsSafe down (Receiver.input sk session sequence event r).1
  unfolding Receiver.input
  input-IsSafe session sequence event r v = elim (Bool-cases (is_receiving r.state.mode)) [
    | inr mode ↦ rw mode (elim (Bool-cases (Receiver.is_session r.session session)) [
      | inl e ↦ rw e v
      | inr e ↦ rw e v
    ])
    | inl mode ↦ elim (Bool-cases (Receiver.is_session r.session session)) [
      | inr e ↦ rw e v
      | inl e ↦ elim (Bool-cases (sequence == r.expected_sequence)) [
        | inr k ↦ rw (e, mode, k) (fail-IsSafe "Input sequence mismatch" r v)
        | inl k ↦ rw (e, mode, k) (checked_input-IsSafe (Event.validate event) event r refl mode v)
      ]
    ]
  ]
