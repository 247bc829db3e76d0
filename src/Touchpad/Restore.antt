-- ===== src/Touchpad/Restore.antt =====
-- src/touchpad.rs, `restore_local_inputs`: touchpads that a legacy backend left are put right.
use niri_bridge.Prelude.{
  ltb, if◌then◌else◌, ok, ℕ, zero, suc, ◌+◌, String, Bool, true, false, Option, none, some, List,
  [], ◌∷◌,
}
use niri_bridge.Prelude.Text.{has_text}
use niri_bridge.Prelude.Action.{Action, ◌>>=◌, ◌>>◌, pure, modify, check}
use niri_bridge.Touchpad.Descriptor.{Descriptor}
use niri_bridge.Touchpad.State as State
use niri_bridge.Touchpad.State.{TouchState}
use niri_bridge.Touchpad.Physical.{
  Evdev, finish_physical_handoff, read_state, open_physical_touchpad,
}
pub mod Waiting

-- `Instant::now` in microseconds, and the sleep of 10 milliseconds.
pub record Timer (W : Type 0) : Type 0 where
  pub now : W → ℕ × W
  pub sleep : W → W

module _ {W R : Type 0} (kernel : Evdev W R) (timer : Timer W) where
  unfoldable pub now : Action W ℕ
  now = λ w. let (t, w') = timer.now w in (ok t, w')

  -- An idle touchpad is grabbed, and let go if it is no longer idle: whether the loop is left.
  unfoldable pub try_grab : R → Descriptor → TouchState → Action W Bool
  try_grab r d state =
      if State.idle state
      then (do
        kernel.grab r
        again ← read_state kernel r d
        if State.idle again then pure true else (kernel.ungrab r >> pure false))
      else pure false

  -- The wait for a touchpad, on fuel: `false` is that it ran out.
  unfoldable pub wait_idle : ℕ → R → Descriptor → ℕ → Action W Bool
  wait_idle zero r d deadline = pure false
  wait_idle (suc fuel) r d deadline = do
    state ← read_state kernel r d
    grabbed ← try_grab r d state
    if grabbed then pure true else (do
      t ← now
      check (ltb t deadline) "Lift all fingers from the touchpad, then try stopping sharing again"
      modify timer.sleep
      wait_idle fuel r d deadline)

  -- The rest of the loop over the paths: with the paths seen and the number restored. `none` is
  -- that the fuel of a wait ran out.
  abbrev pub Rest : Type 0
  Rest = List String → ℕ → Action W (Option ℕ)

  abbrev pub restore_pad :
      ℕ → ℕ → List String → ℕ → Rest → Option (R × Descriptor) → Action W (Option ℕ)
  restore_pad fuel deadline seen restored rest none = rest seen restored
  restore_pad fuel deadline seen restored rest (some (r, d)) = do
    grabbed ← wait_idle fuel r d deadline
    if grabbed
        then (finish_physical_handoff kernel r d true >> rest seen (restored + 1))
        else pure none

  abbrev pub restore_located : ℕ → ℕ → List String → ℕ → Rest → Option String → Action W (Option ℕ)
  restore_located fuel deadline seen restored rest none = rest seen restored
  restore_located fuel deadline seen restored rest (some path) =
      if has_text seen path
      then rest seen restored
      else (open_physical_touchpad kernel path
          >>= restore_pad fuel deadline (path ∷ seen) restored rest)

  unfoldable pub restore_each : (String → Action W (Option String)) → ℕ → ℕ → List String → Rest
  restore_each canonicalize fuel deadline [] seen restored = pure (some restored)
  restore_each canonicalize fuel deadline (path ∷ paths) seen restored = do
    located ← canonicalize path
    restore_located fuel deadline seen restored (restore_each canonicalize fuel deadline paths)
        located

  -- `restore_local_inputs`
  unfoldable pub restore_local_inputs :
      (String → Action W (Option String)) → ℕ → List String → Action W (Option ℕ)
  restore_local_inputs canonicalize fuel paths = do
    start ← now
    restore_each canonicalize fuel (start + 15000000) paths [] 0
