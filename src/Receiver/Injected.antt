-- ===== src/Receiver/Injected.antt =====
-- Which events a receiver injects: those of its session, in the order of their numbers, each once.
use niri_bridge.Prelude.{
  if◌then◌else◌, Bool-cases, Result, ok, err, is_ok, ℕ, ◌+◌, ◌≡◌, refl, inl, inr, Bool, true, false,
  ◌&&◌, Option, none, List, [], ◌∷◌, arith,
}
use niri_bridge.Float.{Float}
use niri_bridge.Receiver.Sequence.{input-cases, input_stale}
use niri_bridge.Protocol.Event.{InputEvent}
use niri_bridge.Input.Control.{is_receiving}
use niri_bridge.Receiver as Receiver
use niri_bridge.Receiver.{InputSink, Receiver, is_session, input}

abbrev pub accepted : Result Bool → Bool
accepted (ok b) = b
accepted (err e) = false

-- Numbers that count up from `n`, all of the one session.
abbrev pub IsCount : Option ℕ → ℕ → List (ℕ × ℕ) → Type 0
IsCount current n [] = Unit {0}
IsCount current n ((session, sequence) ∷ rest) =
    (is_session current session ≡ true) × (sequence ≡ n) × IsCount current (n + 1) rest

IsCount-none :
    (n : ℕ) (current : Option ℕ) (m : ℕ) (xs : List (ℕ × ℕ))
    → IsCount none n xs
    → IsCount current m xs
IsCount-none n current m [] h = tt
IsCount-none n current m ((session, sequence) ∷ xs) h = cc

IsCount-subst :
    (c d : Option ℕ) (n m : ℕ) (xs : List (ℕ × ℕ)) → c ≡ d → n ≡ m → IsCount c n xs → IsCount d m xs
IsCount-subst c d n m xs p q h = rw⁻¹ (p, q) h

failure_refused : (r : Result Bool) → is_ok r ≡ false → accepted r ≡ false
failure_refused (ok b) h = cc
failure_refused (err e) h = refl

and_left : (a b : Bool) → (a && b) ≡ true → a ≡ true
and_left a b h = ground arith

and_right : (a b : Bool) → (a && b) ≡ true → b ≡ true
and_right a b h = ground arith

module _ {F S : Type 0} ⦃fl : Float F⦄ (sk : InputSink F S) where
  -- The numbers of the events that a receiver injects from a stream of events.
  unfoldable pub injected : Receiver S → List (ℕ × ℕ × InputEvent F) → List (ℕ × ℕ)
  injected r [] = []
  injected r ((session, sequence, event) ∷ events) =
      let (result, r') = Receiver.input sk session sequence event r in
      let rest = injected r' events in if accepted result then (session, sequence) ∷ rest else rest

  -- From any receiver on, the numbers of the injected events count up by one from the number
  -- that it expects, and all are of its session: no event is injected twice, and none after one
  -- was left out.
  pub injected-IsCount :
      (r : Receiver S) (events : List (ℕ × ℕ × InputEvent F))
      → IsCount r.session r.expected_sequence (injected r events)
  unfolding injected
  injected-IsCount r [] = tt
  injected-IsCount r ((session, sequence, event) ∷ events) =
      let o = Receiver.input sk session sequence event r in
      let rest = injected-IsCount o.1 events in
      elim (Bool-cases (is_session r.session session && is_receiving r.state.mode)) [
        | inr stale ↦ rw (input_stale sk session sequence event r stale) (injected-IsCount r events)
        | inl running ↦
            elim (input-cases sk session sequence event r (and_left _ _ running)
              (and_right _ _ running)) [
                | inl ((here, _, same, _, _, _), (done, _, session_same, next)) ↦
                    rw done (here, same, IsCount-subst _ _ _ _ _ session_same next rest)
                | inr (_, (failed, ended, _)) ↦ rw (failure_refused o.0 failed) (
                    IsCount-none o.1.expected_sequence r.session r.expected_sequence
                      (injected o.1 events) (rw ended at rest))
              ]
      ]
