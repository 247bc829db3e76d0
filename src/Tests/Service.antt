-- ===== src/Tests/Service.antt =====
-- Runs of the loop of connections, on a host whose connections are refused.
use niri_bridge.Prelude.{ok, ℕ, ◌+◌, ◌≡◌, refl, true, false, none, some, [], ◌∷◌, arith}
use niri_bridge.Bridge.Service.{
  waiting, finished, ended, Host, Service, connection_error_code, poll_pointer, wait_unlocked,
  connect_once, sleep_once, round, serve,
}
use niri_bridge.Bridge.Service.Lasting.{IsQuiet, serve_lasts}
use niri_bridge.Tests.Pairing.{paired}

-- The world counts the connections that were tried.
abbrev refusing : Host ℕ ℕ
refusing = record {
  pointer_lost = λ w. (false, w);
  load = λ path w. (ok paired, w);
  unlocked = λ w. true;
  status_changed = λ w. (finished (ok tt), w);
  connect =
      λ config w. (finished (some (record { text = "refused"; no_protocol = false } ∷ [])), w + 1);
  session = λ config w. (finished (ended false), w);
  sleep = λ w. (finished tt, w);
}

abbrev starting : Service ℕ ℕ
starting = record {
  config = paired;
  display = record {
    connection = "starting";
    reason = none;
    role = "local";
    configuring = false;
    capture_ready = false;
    local_unlocked = false;
    has_peer = false;
  };
  last_error = "";
  world = 0;
}

refusing-IsQuiet : IsQuiet refusing (λ w. w)
refusing-IsQuiet = record {
  pointer = λ w. refl;
  load = λ path w. tt;
  unlocked = λ w. refl;
  connect = λ config w. tt;
  session = λ config w. tt;
  sleep = λ w. tt;
  pointer_tries = λ w. refl;
  load_tries = λ path w. refl;
  connect_tries = λ config w. omega arith;
  session_tries = λ config w. refl;
  sleep_tries = λ w. refl;
}

serve_lasts_example :
    ((serve refusing 3 1 starting).0 ≡ waiting) × ((serve refusing 3 1 starting).1.world ≡ 3)
serve_lasts_example = serve_lasts refusing (λ w. w) refusing-IsQuiet 3 0 starting

-- Three connections are tried in three rounds.
three_tries : (serve refusing 3 1 starting).1.world ≡ 3
unfolding serve round poll_pointer wait_unlocked connect_once sleep_once connection_error_code
three_tries = refl

-- A certificate that is refused is told from other errors by its text.
refused_code :
    connection_error_code (
      record { text = "handshake"; no_protocol = false }
      ∷ record { text = "invalid peer Certificate"; no_protocol = false }
      ∷ [])
    ≡ "authentication_failed"
unfolding connection_error_code
refused_code = refl
