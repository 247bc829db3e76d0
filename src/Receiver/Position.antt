-- ===== src/Receiver/Position.antt =====
-- The placements of the pointer keep the receiver's invariant.
use niri_bridge.Prelude.{
  ◌==◌, Bool-cases, Result-cases, and_then, and_then-keeps, ℕ, String, ◌≡◌, inl, inr, Bool, true,
  ◌&&◌, ◌||◌, none, arith,
}
use niri_bridge.Float.{Float}
use niri_bridge.Protocol.Event as Event
use niri_bridge.Protocol.Event.{InputEvent, validate, held_transition, is_absolute}
use niri_bridge.Receiver as Receiver
use niri_bridge.Receiver.{InputSink, Receiver, no_session, no_codes, position, position_on}
use niri_bridge.Receiver.Safe.{IsHonest, IsSafe}
use niri_bridge.Receiver.Held.{quiet-IsSafe}

-- A placement holds no code.
absolute-held_transition :
    {F : Type 0} (event : InputEvent F) → is_absolute event ≡ true → held_transition event ≡ none
unfolding is_absolute held_transition
absolute-held_transition event h = ground arith

module _ {F S : Type 0} ⦃fl : Float F⦄ (sk : InputSink F S) (down : S → ℕ → Bool)
    (honest : IsHonest sk down) where
  emit-quiet :
      (event : InputEvent F) (s : S) (c : ℕ)
      → is_absolute event ≡ true
      → down (sk.emit event s).1 c ≡ true
      → down s c ≡ true
  emit-quiet event s c placed h = elim (honest.emit_presses event s c h) [
    | inl before ↦ before
    | inr press ↦ cc (absolute-held_transition event placed)
  ]

  select_emit-quiet :
      (output : String) (event : InputEvent F) (s : S) (c : ℕ)
      → is_absolute event ≡ true
      → down (and_then (sk.select_output output s) (λ _ s'. sk.emit event s')).1 c ≡ true
      → down s c ≡ true
  select_emit-quiet output event s c placed =
      and_then-keeps (λ s'. down s' c ≡ true → down s c ≡ true) (sk.select_output output s)
        (λ _ s'. sk.emit event s') (honest.select_keeps output s c)
        (λ _ s' keeps h. keeps (emit-quiet event s' c placed h))

  pub position-IsSafe :
      (event : InputEvent F) (r : Receiver S)
      → IsSafe down r
      → IsSafe down (Receiver.position sk event r).1
  unfolding Receiver.position
  position-IsSafe event r v = elim (Bool-cases (is_absolute event)) [
    | inr e ↦ rw (e, Receiver.position) v
    | inl e ↦ elim (Result-cases (Event.validate event)) [
      | inr (_, bad) ↦ rw (e, bad, Receiver.position) v
      | inl (_, good) ↦
          rw (e, good, Receiver.position)
            (quiet-IsSafe sk down honest r (sk.emit event r.sink).1 v
              (λ c. emit-quiet event r.sink c e))
    ]
  ]

  pub position_on-IsSafe :
      (output : String) (event : InputEvent F) (r : Receiver S)
      → IsSafe down r
      → IsSafe down (Receiver.position_on sk output event r).1
  unfolding Receiver.position_on
  position_on-IsSafe output event r v =
      let free =
        no_codes r.pending_releases && (no_session r.session || r.expected_sequence == 0) in
      elim (Bool-cases free) [
        | inr busy ↦ rw (busy, Receiver.position_on) v
        | inl open_now ↦ elim (Bool-cases (is_absolute event)) [
          | inr e ↦ rw (open_now, e, Receiver.position_on) v
          | inl e ↦ elim (Result-cases (Event.validate event)) [
            | inr (_, bad) ↦ rw (open_now, e, bad, Receiver.position_on) v
            | inl (_, good) ↦
                rw (open_now, e, good, Receiver.position_on)
                  (quiet-IsSafe sk down honest r
                    (and_then (sk.select_output output r.sink) (λ _ s. sk.emit event s)).1 v
                    (λ c. select_emit-quiet output event r.sink c e))
          ]
        ]
      ]
