-- ===== src/Receiver/Safe.antt =====
-- The receiver's invariant, over what a backend is relied on for.
use mathlib.Core.Logic.{◌⊎◌}
use niri_bridge.Prelude.{in_range, ok, ℕ, String, ◌≡◌, Bool, true, false, ◌||◌, not, some, List, []}
use niri_bridge.Prelude.Sets.{contains}
use niri_bridge.Protocol.Event.{InputEvent, held_transition}
use niri_bridge.Touchpad.Descriptor.{Descriptor}
use niri_bridge.Input.Control.{is_sending, is_receiving}
use niri_bridge.Input.Control.Invariant as Valid
use niri_bridge.Receiver.{InputSink, Receiver, no_session}

-- What is relied on of a backend with a view `down` of the codes that it holds pressed: an event
-- presses at most its own code, also where its emission fails, an emitted release leaves its code
-- up, and nothing else presses a code.
pub record IsHonest {F S : Type 0} (sk : InputSink F S) (down : S → ℕ → Bool) : Type 0 where
  pub emit_presses :
      (e : InputEvent F) (s : S) (c : ℕ)
      → down (sk.emit e s).1 c ≡ true
      → (down s c ≡ true) ⊎ (held_transition e ≡ some (c, true))
  pub emit_releases :
      (e : InputEvent F) (s : S) (c : ℕ)
      → (sk.emit e s).0 ≡ ok tt
      → held_transition e ≡ some (c, false)
      → down (sk.emit e s).1 c ≡ false
  pub poll_keeps : (s : S) (c : ℕ) → down (sk.poll s).1 c ≡ true → down s c ≡ true
  pub select_keeps :
      (output : String) (s : S) (c : ℕ)
      → down (sk.select_output output s).1 c ≡ true
      → down s c ≡ true
  pub configure_keeps :
      (devices : List Descriptor) (s : S) (c : ℕ)
      → down (sk.configure_touchpads devices s).1 c ≡ true
      → down s c ≡ true
  pub reset_keeps : (s : S) (c : ℕ) → down (sk.reset_touchpads s).1 c ≡ true → down s c ≡ true

-- A code whose release event is valid.
abbrev pub releasable : ℕ → Bool
releasable c = in_range 1 255 c || in_range 272 279 c

-- Every code that is down at the backend is held by one of two accounts.
abbrev pub Covered : {S : Type 0} → (S → ℕ → Bool) → S → (ℕ → Bool) → List ℕ → Type 0
Covered down sink held pending =
    (c : ℕ) → down sink c ≡ true → (held c || contains pending c) ≡ true

abbrev pub Releasable : List ℕ → Type 0
Releasable codes = (c : ℕ) → contains codes c ≡ true → releasable c ≡ true

-- What holds of a receiver between two calls.
pub record IsSafe {S : Type 0} (down : S → ℕ → Bool) (r : Receiver S) : Type 0 where
  pub covered : Covered down r.sink (contains r.state.held.keys) r.pending_releases
  pub held_releasable : Releasable r.state.held.keys
  pub pending_releasable : Releasable r.pending_releases
  pub control : Valid.IsValid r.state
  pub never_sends : is_sending r.state.mode ≡ false
  pub session_mode : no_session r.session ≡ not (is_receiving r.state.mode)
  pub settled : is_receiving r.state.mode ≡ true → r.pending_releases ≡ []
