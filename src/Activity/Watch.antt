-- ===== src/Activity/Watch.antt =====
-- src/activity.rs: the watched devices, one slot for each configured path.
use niri_bridge.Prelude.{
  ◌==◌, if◌then◌else◌, Result, ok, err, ℕ, ◌+◌, String, Bool, true, false, ◌&&◌, ◌||◌, not, Option,
  none, some, List, [], ◌∷◌,
}
use niri_bridge.Prelude.Int.{pos, eqb_ℤ}
use niri_bridge.Prelude.Action.{Action, ◌>>=◌, ◌>>◌, pure, fail, get, modify, when, check, each}
use niri_bridge.Input.Keys.{PhysicalKeys, update, disconnect}
use niri_bridge.Touchpad.Physical.{RawEvent}

-- The configured file: an input device (or a file that is none), no such file, or another error.
pub data OpenedInput (R : Type 0) : Type 0 where
  input_file : Option R → OpenedInput R
  no_input_file : OpenedInput R
  denied_input_file : OpenedInput R

pub data FetchedInput : Type 0 where
  input_batch : List RawEvent → FetchedInput
  no_input_yet : FetchedInput
  input_gone : FetchedInput
  input_failed : FetchedInput

-- The kernel's part under the watched devices.
pub record Inputs (W R : Type 0) : Type 0 where
  pub open_input : String → W → OpenedInput R × W
  pub is_virtual : R → Bool
  pub set_nonblocking : R → W → Result (Unit {0}) × W
  pub input_key_state : R → W → Result (List ℕ) × W
  pub fetch_input : R → W → FetchedInput × W

pub record Slot (R : Type 0) : Type 0 where
  pub path : String
  pub device : Option R

-- One slot in a round of the loop over them, with what the loop shares.
pub record SlotView (F R W : Type 0) : Type 0 where
  pub slot : Slot R
  pub keyboard : PhysicalKeys F
  pub world : W

-- `active |= …`
abbrev pub or_active : Bool → Result Bool → Result Bool
or_active active (ok later) = ok (active || later)
or_active active (err e) = err e

-- `event_type()` is KEY or ABSOLUTE, or a RELATIVE one that moves.
abbrev is_activity : RawEvent → Bool
is_activity e = e.kind == 1 || e.kind == 3 || (e.kind == 2 && not (eqb_ℤ e.value (pos 0)))

module _ {F W R : Type 0} (inputs : Inputs W R) where
  -- An action of the kernel alone.
  abbrev pub on_inputs : {A : Type 0} → Action W A → Action (SlotView F R W) A
  on_inputs action v = let (r, w) = action v.world in (r, record v { world = w })

  unfoldable pub update_keyboard : ℕ → ℕ → Bool → Action (SlotView F R W) (Unit {0})
  update_keyboard index code pressed v =
      let (r, k) = update v.keyboard index code pressed in (r, record v { keyboard = k })

  unfoldable pub disconnect_keyboard : ℕ → Action (SlotView F R W) (Unit {0})
  disconnect_keyboard index v =
      let (r, k) = disconnect v.keyboard index in (r, record v { keyboard = k })

  -- A device that was opened: its keys that are down are noted before it is watched.
  unfoldable pub attach : ℕ → R → Action (SlotView F R W) Bool
  attach index r = do
    check (not (inputs.is_virtual r))
        "A NiriBridge virtual device cannot be used for physical takeover detection"
    on_inputs (inputs.set_nonblocking r)
    down ← on_inputs (inputs.input_key_state r)
    each (λ code. update_keyboard index code true) down
    modify (λ v. record v { slot = record v.slot { device = some r } })
    pure true

  abbrev pub on_opened : ℕ → OpenedInput R → Action (SlotView F R W) Bool
  on_opened index (input_file (some r)) = attach index r
  on_opened index (input_file none) = fail "Configured activity path is not an input device"
  on_opened index no_input_file = pure false
  on_opened index denied_input_file =
      fail "Cannot read a configured physical input device; check its permissions"

  abbrev pub open_unless : ℕ → String → Option R → Action (SlotView F R W) Bool
  open_unless index path (some r) v = (ok true, v)
  open_unless index path none v =
      let (opened, w) = inputs.open_input path v.world in
      on_opened index opened (record v { world = w })

  unfoldable pub watch_event : ℕ → RawEvent → Action (SlotView F R W) (Unit {0})
  watch_event index e =
      when (e.kind == 1 && not (eqb_ℤ e.value (pos 2)))
        (update_keyboard index e.code (not (eqb_ℤ e.value (pos 0))))

  unfoldable pub watch_events : ℕ → List RawEvent → Action (SlotView F R W) Bool
  watch_events index [] = pure false
  watch_events index (e ∷ events) = do
    watch_event index e
    later ← watch_events index events
    pure (is_activity e || later)

  abbrev pub on_fetched_input : ℕ → FetchedInput → Action (SlotView F R W) Bool
  on_fetched_input index (input_batch events) = watch_events index events
  on_fetched_input index no_input_yet = pure false
  on_fetched_input index input_gone = do
    modify (λ v. record v { slot = record v.slot { device = none } })
    disconnect_keyboard index
    pure false
  on_fetched_input index input_failed = fail "Physical input activity monitoring failed"

  abbrev pub fetch_slot : ℕ → Option R → Action (SlotView F R W) Bool
  fetch_slot index none v = (ok false, v)
  fetch_slot index (some r) v =
      let (fetched, w) = inputs.fetch_input r v.world in
      on_fetched_input index fetched (record v { world = w })

  -- One round of the loop over the slots: whether it counts as activity.
  unfoldable pub sample_slot : ℕ → Action (SlotView F R W) Bool
  sample_slot index = do
    v ← get
    present ← open_unless index v.slot.path v.slot.device
    u ← get
    if present then fetch_slot index u.slot.device else pure false

  abbrev pub after_slot :
      Result Bool
      → Slot R
      → List (Slot R)
      → PhysicalKeys F × W
      → (PhysicalKeys F × W → Result Bool × (List (Slot R) × (PhysicalKeys F × W)))
      → Result Bool × (List (Slot R) × (PhysicalKeys F × W))
  after_slot (err e) slot slots shared rest = (err e, (slot ∷ slots, shared))
  after_slot (ok active) slot slots shared rest =
      let (r, (slots', last)) = rest shared in (or_active active r, (slot ∷ slots', last))

  -- The loop over the slots, from an index on. An error ends it.
  unfoldable pub sample_slots :
      ℕ → List (Slot R) → PhysicalKeys F × W → Result Bool × (List (Slot R) × (PhysicalKeys F × W))
  sample_slots index [] shared = (ok false, ([], shared))
  sample_slots index (slot ∷ slots) shared =
      let (r, v) =
        sample_slot index (record { slot = slot; keyboard = shared.0; world = shared.1 }) in
      after_slot r v.slot slots (v.keyboard, v.world) (sample_slots (index + 1) slots)
