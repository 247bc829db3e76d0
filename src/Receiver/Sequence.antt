-- ===== src/Receiver/Sequence.antt =====
-- src/receiver.rs, `input` within a session: when an event is injected, and what follows if not.
use niri_bridge.Prelude.{
  ltb, ◌==◌, ltb→lt, ==_iff, Bool-cases, Result, ok, err, is_ok, Result-cases, ℕ, ◌+◌, ◌<◌, String,
  ◌≡◌, refl, ◌⊎◌, inl, inr, Bool, true, false, ◌&&◌, none, arith,
}
use niri_bridge.Float.{Float}
use niri_bridge.Receiver.Session.{stop_ends}
use niri_bridge.Receiver.Input.{fail_input-state}
use niri_bridge.Protocol.Event as Event
use niri_bridge.Protocol.Event.{InputEvent, validate, held_transition}
use niri_bridge.Input.Control.{disconnected, is_receiving}
use niri_bridge.Receiver as Receiver
use niri_bridge.Receiver.{
  InputSink, Receiver, u64_bound, checked_next, is_session, press_of, stop, fail_input, emit_input,
  accept_input, checked_input, input,
}

module _ {F S : Type 0} ⦃fl : Float F⦄ (sk : InputSink F S) where
  -- The conditions under which `input` injects an event.
  abbrev pub Accepts : Receiver S → ℕ → ℕ → InputEvent F → Type 0
  Accepts r session sequence event =
      (is_session r.session session ≡ true)
      × (is_receiving r.state.mode ≡ true)
      × (sequence ≡ r.expected_sequence)
      × (Event.validate event ≡ ok tt)
      × (r.expected_sequence + 1 < u64_bound)
      × ((sk.emit event r.sink).0 ≡ ok tt)

  -- What is left after an injected event.
  abbrev pub Injected : Receiver S → InputEvent F → Result Bool × Receiver S → Type 0
  Injected r event (result, r') =
      (result ≡ ok true)
      × (r'.sink ≡ (sk.emit event r.sink).1)
      × (r'.session ≡ r.session)
      × (r'.expected_sequence ≡ r.expected_sequence + 1)

  abbrev pub Failed : Receiver S → Result Bool × Receiver S → Type 0
  Failed r (result, r') =
      (is_ok result ≡ false) × (r'.session ≡ none) × (r'.expected_sequence ≡ r.expected_sequence)

  fail_input-Failed :
      (message : String) (r : Receiver S)
      → Failed r (Receiver.fail_input sk message (Receiver.stop sk disconnected r))
  fail_input-Failed message r =
      let o = Receiver.stop sk disconnected r in
      let (session, _, _, _, sequence) = stop_ends sk disconnected r in
      (
        fails o,
        rw (fail_input-state sk message o) session,
        rw (fail_input-state sk message o) sequence,
      )
    where
      fails :
          (o : Result (Unit {0}) × Receiver S) → is_ok (Receiver.fail_input sk message o).0 ≡ false
      fails (ok _, r') = refl
      fails (err e, r') = refl

  emit_input-cases :
      (next : ℕ) (event : InputEvent F) (r : Receiver S)
      → let o = Receiver.emit_input sk next event r in
        (((sk.emit event r.sink).0 ≡ ok tt)
          × (o.0 ≡ ok true)
          × (o.1.sink ≡ (sk.emit event r.sink).1)
          × (o.1.session ≡ r.session)
          × (o.1.expected_sequence ≡ next))
        ⊎ ((is_ok (sk.emit event r.sink).0 ≡ false) × Failed r o)
  unfolding Receiver.emit_input
  emit_input-cases next event r = elim (Result-cases (sk.emit event r.sink).0) [
    | inl (_, e) ↦ inl (
      e,
      rw (e, Receiver.emit_input),
      rw (e, Receiver.emit_input),
      rw (e, Receiver.emit_input),
      rw (e, Receiver.emit_input),
    )
    | inr (_, e) ↦
        let (session, _, _, _, sequence) =
          stop_ends sk disconnected (record r { sink = (sk.emit event r.sink).1 }) in
        inr (
          rw e,
          (
            rw (e, Receiver.emit_input),
            rw (e, Receiver.emit_input) session,
            rw (e, Receiver.emit_input) sequence,
          ),
        )
  ]

  accept_input-cases :
      (event : InputEvent F) (r : Receiver S)
      → let o = Receiver.accept_input sk (Receiver.checked_next r.expected_sequence) event r in
        ((r.expected_sequence + 1 < u64_bound)
          × ((sk.emit event r.sink).0 ≡ ok tt)
          × Injected r event o)
        ⊎ (((r.expected_sequence + 1 < u64_bound) → is_ok (sk.emit event r.sink).0 ≡ false)
            × Failed r o)
  unfolding Receiver.accept_input Receiver.checked_next
  accept_input-cases event r = elim (Bool-cases (ltb (r.expected_sequence + 1) u64_bound)) [
    | inr full ↦
        rw full
          (inr ((λ room. absurd (ground arith)), fail_input-Failed "Input sequence exhausted" r))
    | inl room ↦
        rw room
          (elim (emit_input-cases (r.expected_sequence + 1) event
            (record r { state = press_of (held_transition event) r.state })) [
              | inl (e, result, sink, session, next) ↦
                  inl (ltb→lt _ _ room, e, (result, sink, session, next))
              | inr (e, failed) ↦ inr ((λ _. e), failed)
            ])
  ]

  -- An event of the running session is injected, and then the number expected next is one
  -- higher, exactly where its number is the expected one, it is valid, the numbers are not used
  -- up and the backend takes it; else the call fails and ends the session.
  pub input-cases :
      (session sequence : ℕ) (event : InputEvent F) (r : Receiver S)
      → is_session r.session session ≡ true
      → is_receiving r.state.mode ≡ true
      → (Accepts r session sequence event
          × Injected r event (Receiver.input sk session sequence event r))
        ⊎ ((¬ Accepts r session sequence event)
            × Failed r (Receiver.input sk session sequence event r))
  unfolding Receiver.input Receiver.checked_input
  input-cases session sequence event r here mode =
      elim (Bool-cases (sequence == r.expected_sequence)) [
        | inr other ↦ inr (
          (λ a. absurd (ground (arith, a.2, ==_iff sequence r.expected_sequence))),
          rw (here, mode, other) (fail_input-Failed "Input sequence mismatch" r),
        )
        | inl same ↦ elim (Result-cases (Event.validate event)) [
          | inr (e, bad) ↦ inr (
            (λ a. absurd (ground (arith, a.3))),
            rw (here, mode, same, bad) (fail_input-Failed e r),
          )
          | inl (_, good) ↦ elim (accept_input-cases event r) [
            | inl (room, taken, injected) ↦ inl (
              (here, mode, (==_iff _ _).0 same, good, room, taken),
              rw (here, mode, same, good) injected,
            )
            | inr (refused, failed) ↦ inr (
              (λ a. absurd (ground (arith, refused a.4, a.5))),
              rw (here, mode, same, good) failed,
            )
          ]
        ]
      ]

  -- An event of another session, or outside a session, changes nothing and is no error.
  pub input_stale :
      (session sequence : ℕ) (event : InputEvent F) (r : Receiver S)
      → (is_session r.session session && is_receiving r.state.mode) ≡ false
      → Receiver.input sk session sequence event r ≡ (ok false, r)
  unfolding Receiver.input
  input_stale session sequence event r h = ground arith
