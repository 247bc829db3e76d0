-- ===== src/Tests/Session.antt =====
-- Runs of a receiver over a backend that stops to work.
use niri_bridge.Prelude.{ℕ, ◌≡◌, refl, ◌⊎◌, true, false, List, [], ◌∷◌}
use niri_bridge.Protocol.Event as Event
use niri_bridge.Input.Control as Control
use niri_bridge.Protocol.Event.{InputEvent, key, button, validate, held_transition}
use niri_bridge.Input.Control.{disconnected, emergency, initial, start, press}
use niri_bridge.Receiver.{default_sink, Receiver, new, release, stop, begin, input}
use niri_bridge.Receiver as Receiver
use niri_bridge.Receiver.Safe.{IsSafe}
use niri_bridge.Receiver.Run as Run
use niri_bridge.Receiver.Session.{stop_releases, begin_clean}
use niri_bridge.Receiver.Sequence.{Accepts, Injected, Failed, input-cases}
use niri_bridge.Receiver.Injected.{IsCount, injected, injected-IsCount}
use niri_bridge.Tests.Backend.{whole_numbers, Board, is_down, board, board-IsHonest}

abbrev idle : ℕ → Receiver Board
idle n = Receiver.new (record { left = n; codes = [] })

-- A key and a button go down, then the peer goes away.
abbrev session_calls : List (Run.Call ℕ)
session_calls =
    Run.begin 7
    ∷ Run.input 7 0 (key 30 true)
    ∷ Run.input 7 1 (button 272 true)
    ∷ Run.stop disconnected
    ∷ []

-- The backend takes the two presses and one release; the button stays down and waits.
abbrev waiting : Receiver Board
waiting = Run.run board (idle 3) session_calls

button_waits : (waiting.sink.codes ≡ 272 ∷ []) × (waiting.pending_releases ≡ 272 ∷ [])
unfolding Run.run Run.call Receiver.new Receiver.begin Receiver.input Receiver.stop
    Receiver.default_sink Control.stop Control.start Control.initial Event.validate
    Event.held_transition Control.press Event.release
button_waits = (refl, refl)

run-IsSafe_example : IsSafe is_down waiting
run-IsSafe_example =
    Run.run-IsSafe board is_down board-IsHonest (record { left = 3; codes = [] }) session_calls
      (λ c. refl)

-- A receiver within session 7, with one key down.
abbrev held_calls : List (Run.Call ℕ)
held_calls = Run.begin 7 ∷ Run.input 7 0 (key 30 true) ∷ []

abbrev running : Receiver Board
running = Run.run board (idle 9) held_calls

stop_releases_example :
    let r = (Receiver.stop board emergency running).1 in
    (is_down r.sink 30 ≡ false) × (r.state.held.keys ≡ []) × (r.pending_releases ≡ [])
unfolding Run.run Run.call Receiver.new Receiver.begin Receiver.input Receiver.stop
    Receiver.default_sink Control.stop Control.start Control.initial Event.validate
    Event.held_transition Control.press
stop_releases_example =
    stop_releases board is_down board-IsHonest emergency running 30
      (Run.run-IsSafe board is_down board-IsHonest (record { left = 9; codes = [] }) held_calls
        (λ c. refl))
      refl

begin_clean_example : is_down (Receiver.begin board 7 (idle 9)).1.sink 30 ≡ false
unfolding Receiver.new Run.run Control.start Control.initial
begin_clean_example =
    begin_clean board is_down 7 (idle 9) 30
      (Run.run-IsSafe board is_down board-IsHonest (record { left = 9; codes = [] }) [] (λ c. refl))
      refl

-- The second event comes again, the fourth is skipped.
abbrev events : List (ℕ × ℕ × InputEvent ℕ)
events =
    (7, 1, button 272 true)
    ∷ (6, 2, key 31 true)
    ∷ (7, 2, button 272 false)
    ∷ (7, 4, key 31 true)
    ∷ (7, 3, key 31 true)
    ∷ []

two_injected : injected board running events ≡ (7, 1) ∷ (7, 2) ∷ []
unfolding injected Run.run Run.call Receiver.new Receiver.begin Receiver.input Receiver.stop
    Receiver.default_sink Control.stop Control.start Control.initial Event.validate
    Event.held_transition Control.press Control.release
two_injected = refl

injected-IsCount_example :
    IsCount running.session running.expected_sequence (injected board running events)
injected-IsCount_example = injected-IsCount board running events

input-cases_example :
    (Accepts board running 7 1 (key 31 true)
      × Injected board running (key 31 true) (Receiver.input board 7 1 (key 31 true) running))
    ⊎ ((¬ Accepts board running 7 1 (key 31 true))
        × Failed board running (Receiver.input board 7 1 (key 31 true) running))
unfolding Run.run Run.call Receiver.new Receiver.begin Receiver.input Receiver.stop
    Receiver.default_sink Control.stop Control.start Control.initial Event.validate
    Event.held_transition Control.press
input-cases_example = input-cases board 7 1 (key 31 true) running refl refl
