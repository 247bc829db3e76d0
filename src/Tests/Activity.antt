-- ===== src/Tests/Activity.antt =====
-- Runs of the activity monitor, on the kernel of the router's runs and one keyboard.
use niri_bridge.Prelude.{ok, ℕ, true, false, none, some, [], ◌∷◌}
use niri_bridge.Activity.Watch.{input_file, input_batch, Inputs}
use niri_bridge.Activity.Monitor.{ActivityMonitor, Sources}
use niri_bridge.Tests.Router.{Kernel, uinput, evdev, raw, router}
use niri_bridge.Tests.Touch.{pad}

-- A keyboard of which one key is down, and on which another comes down.
abbrev keyboard_inputs : Inputs Kernel ℕ
keyboard_inputs = record {
  open_input = λ path w. (input_file (some 0), w);
  is_virtual = λ r. false;
  set_nonblocking = λ r w. (ok tt, w);
  input_key_state = λ r w. (ok (30 ∷ []), w);
  fetch_input = λ r w. (input_batch (raw 1 42 1 ∷ []), w);
}

abbrev sources : Sources Kernel ℕ ℕ ℕ
sources = record {
  inputs = keyboard_inputs;
  kernel = evdev;
  uinput = uinput;
  canonicalize = λ path w. (ok (some path), w);
  register = λ p w. (ok tt, w);
}

abbrev monitor : ActivityMonitor ℕ ℕ ℕ ℕ
monitor = record {
  slots = record { path = "/dev/input/event3"; device = none } ∷ [];
  keyboard = record { devices = []; pending = [] };
  native_touchpads = true;
  touchpads = some (router true);
  touchpad_profiles = some (pad ∷ []);
}

abbrev start : ActivityMonitor ℕ ℕ ℕ ℕ × Kernel
start = (monitor, (1000, []))
