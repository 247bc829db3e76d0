-- ===== src/Tests/Sender.antt =====
-- Runs of a sender of keys, whose writer keeps the messages.
use niri_bridge.Prelude.{Result, ok, ℕ, ◌≡◌, refl, Bool, true, take, List, [], ◌∷◌, ◌++◌}
use niri_bridge.Protocol.Message.{Message}
use niri_bridge.Bridge.Role.{sending, Sender, forward_key, forward_as, forward_keyboard}
use niri_bridge.Bridge.Role.Forward.{noted, counted, forward_keys}

abbrev keep : Message ℕ → List (Message ℕ) → Result (Unit {0}) × List (Message ℕ)
keep m sent = (ok tt, sent ++ m ∷ [])

abbrev sender : Sender ℕ (List (Message ℕ) × List (Message ℕ))
sender = record { role = sending 7 4 0 1; held = []; writer = ([], []) }

-- Ctrl and Alt go down, a key is pressed, then Shift and Escape complete the chord.
abbrev typed : List (ℕ × Bool)
typed = (29, true) ∷ (56, true) ∷ (30, true) ∷ (42, true) ∷ (1, true) ∷ (31, true) ∷ []

four_handed : (forward_keys (noted keep) typed sender).1.writer.1 ≡ counted 7 4 (take 4 typed)
unfolding forward_keys forward_keyboard forward_as forward_key
four_handed = refl
