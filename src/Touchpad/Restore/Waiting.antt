-- ===== src/Touchpad/Restore/Waiting.antt =====
-- src/touchpad.rs, `restore_local_inputs`: that its waits end.
use niri_bridge.Prelude.{
  ltb, ltb→lt, ◌==◌, Bool-cases, length, Result, ℕ, zero, suc, ◌+◌, ◌*◌, ◌≤◌, ◌<◌, String, ◌≡◌,
  refl, Bool, true, false, Option, none, some, List, [], ◌∷◌, inl, inr, arith,
}
use niri_bridge.Prelude.Text.{has_text}
use niri_bridge.Prelude.Action.{Action, lift, check}
use niri_bridge.Prelude.Triple.{
  After, Leads, bind, seq, read, before, after, always, returns, modifies, lifts, checks, branch,
  given,
}
use niri_bridge.Prelude.Int.{ℤ}
use niri_bridge.Touchpad.Event.{slot}
use niri_bridge.Touchpad.Descriptor.{AxisInfo, Descriptor, slots}
use niri_bridge.Touchpad.State.{TouchState}
use niri_bridge.Touchpad.State as State
use niri_bridge.Touchpad.Handoff.{handoff}
use niri_bridge.Touchpad.Physical.{
  Evdev, Opened, write_physical_frame, from_device, finish_physical_handoff, read_axis, read_axes,
  read_state, is_pad, open_writable_pad, open_physical_touchpad,
}
use niri_bridge.Touchpad.Restore.{
  Timer, now, try_grab, wait_idle, Rest, restore_pad, restore_located, restore_each,
  restore_local_inputs,
}

-- An action after which a clock is not before what it was.
abbrev pub Later : {W A : Type 0} → (W → ℕ) → (W → A × W) → Type 0
Later clock action = (w : _) → clock w ≤ clock (action w).1

-- What is relied on of time: no call takes the clock back, `Instant::now` reads it, and a sleep of
-- 10 milliseconds lasts as long at least.
pub record IsClocked {W R : Type 0} (kernel : Evdev W R) (timer : Timer W)
    (canonicalize : String → Action W (Option String)) (clock : W → ℕ) : Type 0 where
  pub now_after : (w : W) → clock w ≤ (timer.now w).0
  pub now_before : (w : W) → (timer.now w).0 ≤ clock (timer.now w).1
  pub sleeps : (w : W) → clock w + 10000 ≤ clock (timer.sleep w)
  pub located : (path : String) → Later clock (canonicalize path)
  pub readable : (path : String) → Later clock (kernel.open_readable path)
  pub writable : (path : String) → Later clock (kernel.open_writable path)
  pub absinfo : (r : R) → Later clock (kernel.absinfo r)
  pub key_state : (r : R) → Later clock (kernel.key_state r)
  pub contact_values : (r : R) (code n : ℕ) → Later clock (kernel.contact_values r code n)
  pub send_events : (r : R) (events : _) → Later clock (kernel.send_events r events)
  pub grab : (r : R) → Later clock (kernel.grab r)
  pub ungrab : (r : R) → Later clock (kernel.ungrab r)

-- A number of touchpads that is within a bound: not the end of the fuel.
abbrev pub IsRestored : ℕ → Option ℕ → Type 0
IsRestored bound none = ⊥
IsRestored bound (some n) = n ≤ bound

module _ {W R : Type 0} (kernel : Evdev W R) (timer : Timer W)
    (canonicalize : String → Action W (Option String)) (clock : W → ℕ)
    (timed : IsClocked kernel timer canonicalize clock) where
  abbrev Any : W → Type 0
  Any w = Unit {0}

  -- The clock is not before a time.
  abbrev From : ℕ → W → Type 0
  From c w = c ≤ clock w

  -- An action that keeps to that.
  abbrev Keeps : {A : Type 0} → ℕ → Action W A → Type 0
  Keeps c action = Leads Any (From c) action (λ _. From c)

  later : {A : Type 0} (c : ℕ) (action : Action W A) → Later clock action → Keeps c action
  later c action h = always (λ w h. tt) (λ w k. omega (arith, h w, k))

  checked : (c : ℕ) (b : Bool) (message : String) → Keeps c (check b message)
  checked c b message = after (λ _ w h. h.0) (checks b message (λ w h. tt))

  lifted : {A : Type 0} (c : ℕ) (r : Result A) → Keeps c (lift r)
  lifted c r = lifts r (λ w h. tt)

  read_axis_lem :
      (c : ℕ) (r : R) (d : Descriptor) (a : AxisInfo × ℤ) (s : TouchState)
      → Keeps c (read_axis kernel r d a s)
  unfolding read_axis
  read_axis_lem c r d (a, v) s =
      always (λ w h. tt)
        (λ w h. elim (Bool-cases (ltb a.code slot)) [
          | inl below ↦ rw below h
          | inr other ↦ elim (Bool-cases (a.code == slot)) [
            | inl own ↦ rw (other, own) h
            | inr above ↦
                rw (other, above) (omega (arith, h, timed.contact_values r a.code (slots d) w))
          ]
        ])

  read_axes_lem :
      (c : ℕ) (r : R) (d : Descriptor) (axes : List (AxisInfo × ℤ)) (s : TouchState)
      → Keeps c (read_axes kernel r d axes s)
  unfolding read_axes
  read_axes_lem c r d [] s = returns s (λ w h. h)
  read_axes_lem c r d (a ∷ axes) s =
      bind Any (read_axis_lem c r d a s) (λ t. read_axes_lem c r d axes t)

  read_state_lem : (c : ℕ) (r : R) (d : Descriptor) → Keeps c (read_state kernel r d)
  unfolding read_state
  read_state_lem c r d = bind Any (later c _ (timed.key_state r)) (λ down.
      bind Any (later c _ (timed.absinfo r)) (λ axes.
        bind Any (read_axes_lem c r d axes _)
          (λ s. seq Any (checked c _ _) (returns s (λ w h. h)))))

  try_grab_lem :
      (c : ℕ) (r : R) (d : Descriptor) (s : TouchState) → Keeps c (try_grab kernel timer r d s)
  unfolding try_grab
  try_grab_lem c r d s =
      branch (State.idle s)
        (λ _. seq Any (later c _ (timed.grab r)) (
          bind Any (read_state_lem c r d) (λ again.
            branch (State.idle again) (λ _. returns true (λ w h. h))
              (λ _. seq Any (later c _ (timed.ungrab r)) (returns false (λ w h. h))))))
        (λ _. returns false (λ w h. h))

  -- The time that is read is between the clock before and after.
  now_lem : (c : ℕ) → Leads Any (From c) (now kernel timer) (λ t w. From t w × (c ≤ t))
  unfolding now
  now_lem c = record { runs = λ w h. (timed.now_before w, omega (arith, h, timed.now_after w)) }

  -- With fuel for each 10 milliseconds to the deadline, and a round more, a wait does not run out.
  wait_idle_lem :
      (fuel c deadline : ℕ) (r : R) (d : Descriptor)
      → c < deadline + 10000
      → deadline + 10000 ≤ c + 10000 * fuel
      → Leads Any (From c) (wait_idle kernel timer fuel r d deadline) (λ b w. From c w × (b ≡ true))
  unfolding wait_idle
  wait_idle_lem zero c deadline r d soon enough = absurd (omega (arith, soon, enough))
  wait_idle_lem (suc fuel) c deadline r d soon enough = bind Any (read_state_lem c r d) (λ s.
      bind Any (try_grab_lem c r d s) (λ grabbed.
        branch grabbed (λ yes. returns true (λ w h. (h, refl)))
          (λ not_yet. bind Any (now_lem c) (λ t. given (λ after_c.
            seq Any (checks (ltb t deadline) _ (λ w h. tt)) (
              given (λ before_end.
                let early = ltb→lt t deadline before_end in
                seq Any {Q = From (t + 10000)}
                  (modifies timer.sleep (λ w h. omega (arith, h, timed.sleeps w)))
                  (after (λ b w h. (omega (arith, h.0, after_c), h.1))
                    (wait_idle_lem fuel (t + 10000) deadline r d (omega (arith, early))
                      (omega (arith, after_c, enough)))))))))))

  finish_lem :
      (c : ℕ) (r : R) (d : Descriptor) (repair : Bool)
      → Keeps c (finish_physical_handoff kernel r d repair)
  unfolding finish_physical_handoff write_physical_frame
  finish_lem c r d repair = read (λ w _. seq Any (checked c _ _) (
      bind Any (lifted c (handoff d repair)) (λ frames.
        seq Any (later c _ (timed.send_events r _))
          (seq Any (later c _ (timed.ungrab r)) (later c _ (timed.send_events r _))))))

  open_lem : (c : ℕ) (path : String) → Keeps c (open_physical_touchpad kernel path)
  unfolding open_physical_touchpad open_writable_pad from_device
  open_lem c path = bind Any (later c _ (timed.readable path)) (λ inspected.
      branch (is_pad kernel inspected.device)
        (λ _. bind Any (writable inspected) (λ pad. returns (some pad) (λ w h. h)))
        (λ _. returns none (λ w h. h)))
    where
      writable : (inspected : Opened R) → Keeps c (open_writable_pad kernel path inspected.identity)
      writable inspected = bind Any (later c _ (timed.writable path)) (λ next.
          seq Any (checked c _ _) (
            seq Any (checked c _ _) (
              bind Any
                (bind Any (lifted c _) (λ keys.
                  bind Any (later c _ (timed.absinfo next.device))
                    (λ axes. seq Any (lifted c _) (returns _ (λ w h. h)))))
                (λ d. seq Any (lifted c _) (returns (next.device, d) (λ w h. h))))))

  module _ (fuel c deadline : ℕ) (soon : c < deadline + 10000)
      (enough : deadline + 10000 ≤ c + 10000 * fuel) where
    -- The rest of the loop, over a number of paths.
    abbrev RestEnds : ℕ → ℕ → Rest kernel timer → Type 0
    RestEnds bound n rest =
        (seen : List String) (restored : ℕ)
        → restored + n ≤ bound
        → Leads Any (From c) (rest seen restored) (λ m _. IsRestored bound m)

    restore_pad_lem :
        (bound n restored : ℕ) (seen : List String) (rest : Rest kernel timer)
        (pad : Option (R × Descriptor))
        → restored + suc n ≤ bound
        → RestEnds bound n rest
        → Leads Any
            (From c)
            (restore_pad kernel timer fuel deadline seen restored rest pad)
            (λ m _. IsRestored bound m)
    restore_pad_lem bound n restored seen rest none few k = k seen restored (omega (arith, few))
    restore_pad_lem bound n restored seen rest (some (r, d)) few k =
        bind Any (wait_idle_lem fuel c deadline r d soon enough) (λ grabbed. given (λ yes.
          branch grabbed
            (λ _. seq Any (finish_lem c r d true) (k seen (restored + 1) (omega (arith, few))))
            (λ out. absurd (ground (arith, yes, out)))))

    restore_located_lem :
        (bound n restored : ℕ) (seen : List String) (rest : Rest kernel timer)
        (located : Option String)
        → restored + suc n ≤ bound
        → RestEnds bound n rest
        → Leads Any
            (From c)
            (restore_located kernel timer fuel deadline seen restored rest located)
            (λ m _. IsRestored bound m)
    restore_located_lem bound n restored seen rest none few k = k seen restored (omega (arith, few))
    restore_located_lem bound n restored seen rest (some path) few k =
        branch (has_text seen path) (λ _. k seen restored (omega (arith, few)))
          (λ _.
            bind Any (open_lem c path)
              (λ pad. restore_pad_lem bound n restored (path ∷ seen) rest pad few k))

    restore_each_lem :
        (bound : ℕ) (paths : List String)
        → RestEnds bound (length paths) (restore_each kernel timer canonicalize fuel deadline paths)
    unfolding restore_each
    restore_each_lem bound [] seen restored few =
        returns (some restored) (λ w h. omega (arith, few))
    restore_each_lem bound (path ∷ paths) seen restored few =
        bind Any (later c _ (timed.located path)) (λ located.
          restore_located_lem bound (length paths) restored seen _ located few
            (restore_each_lem bound paths))

  -- Over a clock as relied on, and with fuel for 1501 rounds of each wait, one for each 10
  -- milliseconds of the 15 seconds and one more, the restoration of touchpads does not run out of
  -- it, whatever they do: it fails, or ends with at most as many touchpads restored as there are
  -- paths.
  pub restore_local_inputs-ends :
      (paths : List String) (w : W)
      → After
          (λ _. Unit {0})
          (λ n _. IsRestored (length paths) n)
          (restore_local_inputs kernel timer canonicalize 1501 paths w)
  unfolding restore_local_inputs
  restore_local_inputs-ends paths w =
      (bind Any (now_lem 0) (λ t.
          before (λ v h. h.0)
            (restore_each_lem 1501 t (t + 15000000) (omega arith) (omega arith) (length paths) paths
              [] 0 (omega arith)))).runs
        w (omega arith)
