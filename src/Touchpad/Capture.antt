-- ===== src/Touchpad/Capture.antt =====
-- src/touchpad.rs, `Router::sample`: one physical touchpad, its events read, and its frames mirrored
-- locally or captured for the peer.
use niri_bridge.Prelude.{
  ltb, leb, ◌==◌, if◌then◌else◌, length, ok, context, ℕ, zero, suc, ◌%◌, Bool, true, false, ◌&&◌,
  ◌||◌, not, Option, none, some, List, [], ◌∷◌, ◌++◌,
}
use niri_bridge.Prelude.Int.{pos, eqb_ℤ}
use niri_bridge.Prelude.Action.{Action, ◌>>=◌, ◌>>◌, pure, done, fail, lift, get, modify, check}
use niri_bridge.Touchpad.Event.{Event, touch_key, touch_axis, key_event, abs_event}
use niri_bridge.Touchpad.Descriptor.{Descriptor, validate_device_frame}
use niri_bridge.Touchpad.State.{TouchState, apply, ended, idle}
use niri_bridge.Touchpad.Virtual.{Uinput, VirtualTouchpad, kernel, emit_at}
use niri_bridge.Touchpad.Physical.{
  RawEvent, Fetched, batch, would_block, failed, Evdev, touch_keys, release_physical, read_state,
}
pub mod Fetching
pub mod Keeps

-- `CapturedFrame`: the touchpad's index, the time and the events.
pub record CapturedFrame : Type 0 where
  pub index : ℕ
  pub time : ℕ
  pub events : List Event

pub record PhysicalTouchpad (R D : Type 0) : Type 0 where
  pub device : R
  pub descriptor : Descriptor
  pub state : TouchState
  pub mirror : VirtualTouchpad D
  pub grabbed : Bool
  pub frame : List Event

-- One touchpad in a round of a loop over them, with what the loop shares: the frames that wait
-- and the kernel.
pub record View (W R D : Type 0) : Type 0 where
  pub pad : PhysicalTouchpad R D
  pub pending : List CapturedFrame
  pub world : W

abbrev pub is_empty {ℓ} : {A : Type ℓ} → List A → Bool
is_empty [] = true
is_empty (x ∷ xs) = false

-- `as u64`
abbrev pub u64 : ℕ → ℕ
u64 n = n % 18446744073709551616

module _ {W R D : Type 0} (kernel : Evdev W R) (uinput : Uinput W D) where
  -- An action of the kernel alone.
  abbrev pub on_world : {A : Type 0} → Action W A → Action (View W R D) A
  on_world action v = let (r, w) = action v.world in (r, record v { world = w })

  -- An action of the touchpad's local mirror.
  abbrev pub on_mirror : {A : Type 0} → Action (VirtualTouchpad D × W) A → Action (View W R D) A
  on_mirror action v =
      let (r, (mirror, w)) = action (v.pad.mirror, v.world) in
      (r, record v { pad = record v.pad { mirror = mirror }; world = w })

  -- What the fetch loop of `sample` does with a batch: an error, its end, or another round.
  abbrev pub fetched_batch :
      List RawEvent
      → List RawEvent
      → (List RawEvent → Action W (Option (List RawEvent)))
      → Action W (Option (List RawEvent))
  fetched_batch events new_events again =
      let all_events = events ++ new_events in
      if ltb 4096 (length all_events)
      then fail "Touchpad input queue is full"
      else if length all_events == length events
      then pure (some all_events)
      else again all_events

  abbrev pub on_fetched :
      Fetched
      → List RawEvent
      → (List RawEvent → Action W (Option (List RawEvent)))
      → Action W (Option (List RawEvent))
  on_fetched (batch new_events) events again = fetched_batch events new_events again
  on_fetched would_block events again = pure (some events)
  on_fetched failed events again = fail "Touchpad disconnected or became unavailable"

  -- The fetch loop of `sample`, on fuel: `none` is that the fuel ran out.
  unfoldable pub fetch_all : ℕ → R → List RawEvent → Action W (Option (List RawEvent))
  fetch_all zero r events w = (ok none, w)
  fetch_all (suc fuel) r events w =
      let (fetched, w') = kernel.fetch_events r w in on_fetched fetched events (fetch_all fuel r) w'

  -- A batch adds an event or ends the loop, and above 4096 events the loop fails.
  abbrev pub fetch_fuel : ℕ
  fetch_fuel = 4098

  abbrev pub deliver : ℕ → Bool → List Event → ℕ → Action (View W R D) (Unit {0})
  deliver index remote frame time_us =
      if remote
      then modify (λ v. record v {
        pending = v.pending ++ record { index = index % 256; time = time_us; events = frame } ∷ [];
      })
      else on_mirror (emit_at uinput frame time_us)

  -- A complete frame: captured for the peer, or written to the mirror.
  unfoldable pub flush_frame : ℕ → Bool → Option ℕ → Action (View W R D) (Unit {0})
  flush_frame index remote time = do
    v ← get
    check (ltb (length v.pending) 128) "Touchpad forwarding queue is full"
    modify (λ v. record v { pad = record v.pad { frame = [] } })
    lift (validate_device_frame v.pad.descriptor v.pad.frame)
    state ← lift (context (apply v.pad.frame v.pad.state) "index out of bounds")
    modify (λ v. record v { pad = record v.pad { state = state } })
    time_us ← lift (context time "second time provided was later than self")
    deliver index remote v.pad.frame (u64 time_us)

  unfoldable pub push_event : Event → Action (View W R D) (Unit {0})
  push_event e = modify (λ v. record v { pad = record v.pad { frame = v.pad.frame ++ e ∷ [] } })

  -- The `match` on an event of a grabbed touchpad.
  unfoldable pub take_event : ℕ → Bool → RawEvent → Action (View W R D) (Unit {0})
  take_event index remote e = get >>= λ v.
      if e.kind == 0 && e.code == 3
      then fail "Touchpad events were lost; restoring local control"
      else if e.kind == 0 && e.code == 0 && not (is_empty v.pad.frame)
      then flush_frame index remote e.time
      else if e.kind == 1 && touch_key e.code && not (eqb_ℤ e.value (pos 2))
      then push_event (key_event e.code e.value)
      else if e.kind == 3 && touch_axis e.code
      then push_event (abs_event e.code e.value)
      else done

  -- One round of the loop over the events: whether it counts as activity.
  unfoldable pub sample_event : ℕ → Bool → RawEvent → Action (View W R D) Bool
  sample_event index remote e = get >>= λ v.
      if v.pad.grabbed
      then (do
        take_event index remote e
        v ← get
        check (leb (length v.pad.frame) 512) "Touchpad frame is too large"
        pure (e.kind == 1 || e.kind == 3))
      else pure false

  unfoldable pub sample_events : ℕ → Bool → List RawEvent → Action (View W R D) Bool
  sample_events index remote [] = pure false
  sample_events index remote (e ∷ events) = do
    now ← sample_event index remote e
    later ← sample_events index remote events
    pure (now || later)

  abbrev pub discarded : Fetched → Action W (Option (Unit {0})) → Action W (Option (Unit {0}))
  discarded (batch []) again = pure (some tt)
  discarded (batch (e ∷ events)) again = again
  discarded would_block again = pure (some tt)
  discarded failed again = fail "The touchpad could not be read"

  -- The loop that discards what was delivered before the grab, on fuel: `none` is that it ran out.
  unfoldable pub discard : ℕ → R → Action W (Option (Unit {0}))
  discard zero r w = (ok none, w)
  discard (suc fuel) r w =
      let (fetched, w') = kernel.fetch_events r w in discarded fetched (discard fuel r) w'

  -- After the grab: the touchpad is taken if it is idle, and released otherwise.
  unfoldable pub take_pad : Action (View W R D) (Unit {0})
  take_pad = do
    v ← get
    state ← on_world (read_state kernel v.pad.device v.pad.descriptor)
    if idle state
        then modify (λ v. record v { pad = record v.pad { state = state; grabbed = true } })
        else on_world (release_physical kernel v.pad.device v.pad.descriptor)

  abbrev pub taken : Option (Unit {0}) → Action (View W R D) Bool
  taken none = pure false
  taken (some _) = take_pad >> pure true

  -- A touchpad of which no key is down is grabbed, and what it delivered before is discarded.
  unfoldable pub grab_pad : ℕ → R → Action (View W R D) Bool
  grab_pad fuel r = do on_world (kernel.grab r); emptied ← on_world (discard fuel r); taken emptied

  -- The attempt to grab a touchpad of which no key is down. `false` is that the fuel ran out.
  unfoldable pub acquire : ℕ → Action (View W R D) Bool
  acquire fuel = get >>= λ v. if v.pad.grabbed then pure true else (do
    down ← on_world (kernel.key_state v.pad.device)
    if is_empty (touch_keys down) then grab_pad fuel v.pad.device else pure true)

  abbrev pub with_events : ℕ → ℕ → Bool → Option (List RawEvent) → Action (View W R D) (Option Bool)
  with_events fuel index remote none = pure none
  with_events fuel index remote (some events) = do
    active ← sample_events index remote events
    ended ← acquire fuel
    pure (if ended then some active else none)

  -- One touchpad of `sample`: whether it was active. `none` is that the fuel ran out.
  unfoldable pub sample_pad : ℕ → ℕ → Bool → Action (View W R D) (Option Bool)
  sample_pad fuel index remote = do
    v ← get
    events ← on_world (fetch_all fetch_fuel v.pad.device [])
    with_events fuel index remote events
