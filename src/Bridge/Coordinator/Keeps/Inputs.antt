-- ===== src/Bridge/Coordinator/Keeps/Inputs.antt =====
-- src/bridge.rs, `coordinate_with_control`: the input of the peer keeps the invariant.
use niri_bridge.Prelude.{Result, ok, err, ℕ, ◌≡◌, refl, ap, ◌∙◌, Bool, true, false}
use niri_bridge.Float.{Float}
use niri_bridge.Protocol.Event.{InputEvent}
use niri_bridge.Receiver as Receiver
use niri_bridge.Receiver.{InputSink, Receiver, input, physical_activity}
use niri_bridge.Bridge.Coordinator.{World, Coordinator, with_receiver}
use niri_bridge.Receiver.Safe.{IsHonest, IsSafe}
use niri_bridge.Prelude.Triple.{After, Leads, bind, seq, skips, either}
use niri_bridge.Bridge.Coordinator.View.{
  View, view, IsValid, Safe, Sees, Sound, check-IsQuiet, in_world-IsQuiet, with_receiver-none,
  quietly,
}
use niri_bridge.Bridge.Coordinator.Steps.{lands, from_Sound, reads, send-IsQuiet}
use niri_bridge.Receiver.Calls.{physical_activity-IsSafe}
use niri_bridge.Receiver.Input.{input-IsSafe}
use niri_bridge.Receiver.Leaves.{physical_activity-session, input-session}
use niri_bridge.Bridge.Coordinator.Frames.{is_receiving_session, accept, on_input}
use niri_bridge.Bridge.Coordinator.Keeps.Locks.{home_from}

module _ {F S W P : Type 0} ⦃fl : Float F⦄ (sk : InputSink F S) (down : S → ℕ → Bool)
    (honest : IsHonest sk down) (w : World F W P) where
  input-After :
      (v : View F) (c : Coordinator F S W P) (o : Result Bool × Receiver S)
      → IsSafe down o.1
      → Sees down v c
      → ((b : Bool) → o.0 ≡ ok b → o.1.session ≡ c.receiver.session)
      → After (Safe down) (λ _. Sees down v) (o.0, record c { receiver = o.1 })
  input-After v c (ok b, r) safe h same = record {
    safe = safe;
    sees = ap (λ n. record (view c) { session = n }) (same b refl) ∙ h.sees;
  }
  input-After v c (err e, r) safe h same = safe

  input_lem :
      (v : View F) (session sequence : ℕ) (event : InputEvent F)
      → Leads
          (Safe down)
          (Sees down v)
          (with_receiver {W = W} {P = P} (Receiver.input sk session sequence event))
          (λ _. Sees down v)
  unfolding with_receiver
  input_lem v session sequence event = record {
    runs = λ c h.
        input-After v c (Receiver.input sk session sequence event c.receiver)
          (input-IsSafe sk down honest session sequence event c.receiver h.safe) h
          (λ b good. input-session sk c.receiver down h.safe session sequence event b good);
  }

  accept_lem :
      (v : View F) (physical : Bool) (session sequence : ℕ) (event : InputEvent F)
      → IsValid v
      → Leads
          (Safe down)
          (Sees down v)
          (accept sk w physical session sequence event)
          (λ _. Sound down)
  unfolding accept
  accept_lem v true session sequence event valid =
      seq (Safe down)
        (with_receiver-none down v (Receiver.physical_activity sk)
          (λ r. physical_activity-IsSafe sk down honest r)
          (λ c h. physical_activity-session sk c.receiver down h.safe))
        (seq (Safe down) (quietly down (send-IsQuiet down sk honest w _))
          (home_from sk down honest w _ refl))
  accept_lem v false session sequence event valid =
      seq (Safe down) (input_lem v session sequence event) (skips (λ c h. lands down v c valid h))

  pub on_input_lem :
      (age session sequence : ℕ) (event : InputEvent F)
      → Leads (Safe down) (Sound down) (on_input sk w age session sequence event) (λ _. Sound down)
  unfolding on_input
  on_input_lem age session sequence event = from_Sound down (λ v valid.
      seq (Safe down) (quietly down (check-IsQuiet down _ _)) (
        reads down (λ c same.
          either (is_receiving_session sk w c.role session)
            (λ _.
              bind (Safe down) (quietly down (in_world-IsQuiet down w.sample))
                (λ physical. accept_lem v physical session sequence event valid))
            (λ _ d h. lands down v d valid h))))
