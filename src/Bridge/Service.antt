-- ===== src/Bridge/Service.antt =====
-- src/bridge.rs, `run_async`: the loop that connects, runs a session, and connects again.
use niri_bridge.Prelude.{
  if◌then◌else◌, Result, ok, err, ℕ, zero, suc, String, Bool, true, false, ◌||◌, Option, none, some,
  List, [], ◌∷◌, map,
}
use niri_bridge.Prelude.Text.{◌==ₛ◌, chars, contains_text, ascii_lowercase}
use niri_bridge.Pairing as Pairing
pub mod Lasting

-- One cause in the chain of an error: its text, and whether it is a TLS error about the protocol.
pub record Cause : Type 0 where
  pub text : String
  pub no_protocol : Bool

-- Why the loop stops with an error; a failed release comes with the chain of its causes.
pub data Failure : Type 0 where
  release_failed : List Cause → Failure
  config_failed monitor_failed : String → Failure

-- Why the loop returns.
pub data Reason : Type 0 where
  exit_signal authorization_lost session_ended : Reason

-- How a part of the loop ends: with a value, by returning, with an error, or still waiting when
-- its fuel runs out.
pub data Turn (A : Type 0) : Type 0 where
  next : A → Turn A
  leave : Reason → Turn A
  throw : Failure → Turn A
  waiting : Turn A

-- What a `select!` between the exit signal and a future yields.
pub data Selected (A : Type 0) : Type 0 where
  exited : Selected A
  finished : A → Selected A

-- What a connection attempt or a session gives: whether a session asked to end, or an error.
pub data Attempt : Type 0 where
  ended : Bool → Attempt
  broken : (release : Bool) → List Cause → Attempt

-- The fields of the displayed state that the loop sets.
pub record Display : Type 0 where
  pub connection : String
  pub reason : Option String
  pub role : String
  pub configuring : Bool
  pub capture_ready : Bool
  pub local_unlocked : Bool
  pub has_peer : Bool

-- What the loop calls, in a world `W`: the pointer of the desktop portal, the configuration, the
-- session monitor, the connection with its session, and the sleep before the next one.
pub record Host (F W : Type 0) : Type 0 where
  pub pointer_lost : W → Bool × W
  pub load : String → W → Result (Pairing.Config F) × W
  pub unlocked : W → Bool
  pub status_changed : W → Selected (Result (Unit {0})) × W
  pub connect : Pairing.Config F → W → Selected (Option (List Cause)) × W
  pub session : Pairing.Config F → W → Selected Attempt × W
  pub sleep : W → Selected (Unit {0}) × W

pub record Service (F W : Type 0) : Type 0 where
  pub config : Pairing.Config F
  pub display : Display
  pub last_error : String
  pub world : W

abbrev pub any_cause : (Cause → Bool) → List Cause → Bool
any_cause p [] = false
any_cause p (c ∷ causes) = p c || any_cause p causes

abbrev pub mentions_certificate : String → Bool
mentions_certificate text =
    let lowered = map ascii_lowercase (chars text) in
    contains_text (chars "certificate") lowered || contains_text (chars "certificat") lowered

-- `error.to_string()`: the outermost cause.
abbrev pub message_of : List Cause → String
message_of [] = ""
message_of (c ∷ causes) = c.text

unfoldable pub connection_error_code : List Cause → String
connection_error_code causes =
    if any_cause (λ c. c.text ==ₛ "peer_address_required") causes
    then "peer_address_required"
    else if any_cause (λ c. c.no_protocol) causes
    then "protocol_mismatch"
    else if any_cause (λ c. mentions_certificate c.text) causes
    then "authentication_failed"
    else "connection_failed"

abbrev pub connecting_text : Pairing.Connection → String
connecting_text (Pairing.listen address) = "waiting"
connecting_text (Pairing.connect address) = "connecting"

infixl 5 ◌follows◌
-- A part of the loop, and what follows it where it gives a value.
abbrev pub ◌follows◌ : {A B S : Type 0} → Turn A × S → (A → S → Turn B × S) → Turn B × S
(next a, s) follows k = k a s
(leave r, s) follows k = (leave r, s)
(throw e, s) follows k = (throw e, s)
(waiting, s) follows k = (waiting, s)

module _ {F W : Type 0} (host : Host F W) where
  abbrev pub show_on : (Display → Display) → Service F W → Service F W
  show_on f s = record s { display = f s.display }

  -- `if ei.poll().is_err() { ... }`
  unfoldable pub poll_pointer : Service F W → Turn (Unit {0}) × Service F W
  poll_pointer s =
      let (lost, w) = host.pointer_lost s.world in
      if lost
      then (
        leave authorization_lost,
        record s {
          display = record s.display {
            connection = "problem";
            reason = some "desktop_authorization_required";
            capture_ready = false;
          };
          world = w;
        },
      )
      else (next tt, record s { world = w })

  abbrev pub loaded : Result (Pairing.Config F) × W → Service F W → Turn (Unit {0}) × Service F W
  loaded (ok config, w) s = (next tt, record s { config = config; world = w })
  loaded (err e, w) s = (throw (config_failed e), record s { world = w })

  abbrev pub reload : Option String → Service F W → Turn (Unit {0}) × Service F W
  reload none s = (next tt, s)
  reload (some path) s = loaded (host.load path s.world) s

  abbrev pub on_changed :
      Selected (Result (Unit {0}))
      → Service F W
      → (Service F W → Turn (Unit {0}) × Service F W)
      → Turn (Unit {0}) × Service F W
  on_changed exited s again = (leave exit_signal, s)
  on_changed (finished (err e)) s again = (throw (monitor_failed e), s)
  on_changed (finished (ok _)) s again = again s

  abbrev pub locked : Display → Display
  locked d = record d {
    connection = "paused";
    local_unlocked = false;
    reason = some "session_locked";
  }

  -- The loop that waits until the desktop is unlocked, on fuel.
  unfoldable pub wait_unlocked : ℕ → Service F W → Turn (Unit {0}) × Service F W
  wait_unlocked zero s = (waiting, s)
  wait_unlocked (suc fuel) s =
      let (changed, w) = host.status_changed s.world in
      let rest =
        on_changed changed (record s { display = locked s.display; world = w })
          (wait_unlocked fuel) in
      if host.unlocked s.world then (next tt, s) else rest

  abbrev pub problem : List Cause → Display → Display
  problem causes d = record d {
    connection = "problem";
    role = "local";
    configuring = false;
    reason = some (connection_error_code causes);
  }

  abbrev pub on_attempt : Selected Attempt → Service F W → Turn (Unit {0}) × Service F W
  on_attempt exited s = (leave exit_signal, s)
  on_attempt (finished (ended true)) s = (leave session_ended, s)
  on_attempt (finished (ended false)) s = (next tt, s)
  on_attempt (finished (broken true causes)) s =
      (throw (release_failed causes), show_on (problem causes) s)
  on_attempt (finished (broken false causes)) s =
      (next tt, record (show_on (problem causes) s) { last_error = message_of causes })

  abbrev pub on_connected :
      Selected (Option (List Cause)) → Service F W → Turn (Unit {0}) × Service F W
  on_connected exited s = (leave exit_signal, s)
  on_connected (finished (some causes)) s = on_attempt (finished (broken false causes)) s
  on_connected (finished none) s =
      let (attempt, w) = host.session s.config s.world in
      on_attempt attempt (record s { world = w })

  abbrev pub on_slept : Selected (Unit {0}) → Service F W → Turn (Unit {0}) × Service F W
  on_slept exited s = (leave exit_signal, s)
  on_slept (finished _) s = (next tt, s)

  abbrev pub cleared : Display → Display
  cleared d = record d {
    has_peer = false;
    role = "local";
    configuring = false;
    capture_ready = false;
  }

  unfoldable pub connect_once : Service F W → Turn (Unit {0}) × Service F W
  connect_once s =
      let shown =
        show_on
          (λ d. record d {
            connection = connecting_text s.config.connection;
            reason = none;
            local_unlocked = true;
          })
          s in
      let (connected, w) = host.connect s.config s.world in
      on_connected connected (record shown { world = w })

  unfoldable pub sleep_once : Service F W → Turn (Unit {0}) × Service F W
  sleep_once s = let (slept, w) = host.sleep s.world in on_slept slept (record s { world = w })

  -- One round of the loop.
  unfoldable pub round : ℕ → Service F W → Turn (Unit {0}) × Service F W
  round fuel s =
      poll_pointer s
      follows (λ _ s. reload s.config.source_path s)
      follows (λ _ s. wait_unlocked fuel (show_on cleared s))
      follows (λ _ s. connect_once s)
      follows (λ _ s. sleep_once s)

  -- The loop, for a number of rounds.
  unfoldable pub serve : ℕ → ℕ → Service F W → Turn (Unit {0}) × Service F W
  serve zero fuel s = (waiting, s)
  serve (suc rounds) fuel s = round fuel s follows (λ _ s. serve rounds fuel s)
