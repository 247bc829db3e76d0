-- ===== src/Bridge/Coordinator/Keeps/Loop.antt =====
-- src/bridge.rs, `coordinate_with_control`: the invariant over the whole loop.
use niri_bridge.Prelude.{ℕ, Bool, true, Option, none, some, List, [], ◌∷◌}
use niri_bridge.Prelude.Action.{Action, ◌>>◌, pure}
use niri_bridge.Float.{Float}
use niri_bridge.Receiver.{InputSink}
use niri_bridge.Bridge.Coordinator.{World, Coordinator}
use niri_bridge.Receiver.Safe.{IsHonest}
use niri_bridge.Prelude.Triple.{Leads, bind, seq, returns}
use niri_bridge.Bridge.Coordinator.View.{Safe, Sound, fail-IsQuiet}
use niri_bridge.Bridge.Coordinator.Steps.{Sound-quietly}
use niri_bridge.Bridge.Coordinator.Keeps.Round.{begin_round_lem}
use niri_bridge.Bridge.Coordinator.Keeps.Tick.{on_tick_lem}
use niri_bridge.Bridge.Coordinator.Keeps.Commands.{on_command_lem, on_outputs_lem, on_status_lem}
use niri_bridge.Bridge.Coordinator.Keeps.Captured.{on_captured_lem}
use niri_bridge.Bridge.Coordinator.Keeps.Frames.{on_frame_lem}
use niri_bridge.Bridge.Coordinator.Run.{
  Event, exit_signal, outputs, command, changed, tick, capture_event, capture_closed, frame, closed,
  handle_event, round, go_on, loop,
}

module _ {F S W P : Type 0} ⦃fl : Float F⦄ (sk : InputSink F S) (down : S → ℕ → Bool)
    (honest : IsHonest sk down) (w : World F W P) where
  then_on :
      {B : Type 0} {action : Action (Coordinator F S W P) (Unit {0})} (b : B)
      → Leads (Safe down) (Sound down) action (λ _. Sound down)
      → Leads (Safe down) (Sound down) (action >> pure b) (λ _. Sound down)
  then_on b t = seq (Safe down) t (returns b (λ c h. h))

  handle_event_lem :
      (available : List ℕ) (event : Event F)
      → Leads (Safe down) (Sound down) (handle_event sk w available event) (λ _. Sound down)
  unfolding handle_event
  handle_event_lem available exit_signal = returns (some true) (λ c h. h)
  handle_event_lem available (outputs none) = returns none (λ c h. h)
  handle_event_lem available (outputs (some names)) =
      then_on none (on_outputs_lem sk down honest w names)
  handle_event_lem available (command none) = returns none (λ c h. h)
  handle_event_lem available (command (some request)) =
      then_on none (on_command_lem sk down honest w request)
  handle_event_lem available (changed unlocked) =
      then_on none (on_status_lem sk down honest w unlocked)
  handle_event_lem available (tick waited) = then_on none (on_tick_lem sk down honest w waited)
  handle_event_lem available (capture_event generation age event) =
      then_on none (on_captured_lem sk down honest w generation age available event)
  handle_event_lem available capture_closed = Sound-quietly down (fail-IsQuiet down _)
  handle_event_lem available (frame age message) =
      on_frame_lem sk down honest w age available message
  handle_event_lem available closed = Sound-quietly down (fail-IsQuiet down _)

  round_lem :
      (event : Event F) → Leads (Safe down) (Sound down) (round sk w event) (λ _. Sound down)
  unfolding round
  round_lem event =
      bind (Safe down) (begin_round_lem sk down honest w)
        (λ available. handle_event_lem available event)

  go_on_lem :
      (again : Option Bool) {rest : Action (Coordinator F S W P) (Option Bool)}
      → Leads (Safe down) (Sound down) rest (λ _. Sound down)
      → Leads (Safe down) (Sound down) (go_on sk w rest again) (λ _. Sound down)
  unfolding go_on
  go_on_lem (some again) t = returns (some again) (λ c h. h)
  go_on_lem none t = t

  pub loop_lem :
      (events : List (Event F))
      → Leads (Safe down) (Sound down) (loop sk w events) (λ _. Sound down)
  unfolding loop
  loop_lem [] = returns none (λ c h. h)
  loop_lem (event ∷ events) =
      bind (Safe down) (round_lem event) (λ again. go_on_lem again (loop_lem events))
