-- ===== src/Activity/Followed.antt =====
-- src/activity.rs: that the events of the watched keyboards tell what is down on them.
use niri_bridge.Prelude.{
  ◌==◌, Result, ok, err, ℕ, ◌+◌, String, ◌≡◌, refl, Bool, true, false, ◌&&◌, not, Option, none,
  some, List, [], ◌∷◌,
}
use niri_bridge.Prelude.Int.{pos, eqb_ℤ}
use niri_bridge.Prelude.Action.{Action}
use niri_bridge.Prelude.Triple.{
  After, Leads, bind, seq, read, after, always, returns, modifies, either, fails_with, branch,
  checks, repeats,
}
use niri_bridge.Protocol.Event.{InputEvent}
use niri_bridge.Input.Keys.{PhysicalKeys, update, disconnect}
use niri_bridge.Input.Keys.Report.{IsFollowed, update-IsFollowed, disconnect-IsFollowed}
use niri_bridge.Touchpad.Descriptor.{slots}
use niri_bridge.Touchpad.Physical.{RawEvent}
use niri_bridge.Activity.Watch.{
  OpenedInput, input_file, no_input_file, denied_input_file, FetchedInput, input_batch,
  no_input_yet, input_gone, input_failed, Inputs, Slot, SlotView, or_active, on_inputs,
  update_keyboard, disconnect_keyboard, attach, on_opened, open_unless, watch_event, watch_events,
  on_fetched_input, fetch_slot, sample_slot, after_slot, sample_slots,
}

-- What waits was reported by `sent` and by what is pending.
module _ {F W R : Type 0} (inputs : Inputs W R) (sent : List (InputEvent F)) where
  abbrev Any : SlotView F R W → Type 0
  Any v = Unit {0}

  abbrev Followed : SlotView F R W → Type 0
  Followed v = IsFollowed sent v.keyboard

  keyboard_call :
      (o : Result (Unit {0}) × PhysicalKeys F) (v : SlotView F R W)
      → (o.0 ≡ ok tt → IsFollowed sent o.1)
      → After Any (λ (_ : Unit {0}). Followed) (o.0, record v { keyboard = o.1 })
  keyboard_call (ok _, k) v h = h refl
  keyboard_call (err e, k) v h = tt

  update_keyboard-Followed :
      (index code : ℕ) (pressed : Bool)
      → Leads Any Followed (update_keyboard inputs index code pressed) (λ _. Followed)
  unfolding update_keyboard
  update_keyboard-Followed index code pressed = record {
    runs = λ v h.
        keyboard_call (update v.keyboard index code pressed) v
          (λ done. update-IsFollowed sent v.keyboard index code pressed h done);
  }

  disconnect_keyboard-Followed :
      (index : ℕ) → Leads Any Followed (disconnect_keyboard inputs index) (λ _. Followed)
  unfolding disconnect_keyboard
  disconnect_keyboard-Followed index = record {
    runs = λ v h.
        keyboard_call (disconnect v.keyboard index) v
          (λ done. disconnect-IsFollowed sent v.keyboard index h done);
  }

  inputs-Followed :
      {A : Type 0} (action : Action W A)
      → Leads Any Followed (on_inputs inputs action) (λ _. Followed)
  inputs-Followed action = always (λ v h. tt) (λ v h. h)

  attach-Followed : (index : ℕ) (r : R) → Leads Any Followed (attach inputs index r) (λ _. Followed)
  unfolding attach
  attach-Followed index r =
      seq _ (after (λ _ v h. h.0) (checks (not (inputs.is_virtual r)) _ (λ v h. tt))) (
        seq _ (inputs-Followed (inputs.set_nonblocking r)) (
          bind _ (inputs-Followed (inputs.input_key_state r)) (λ down.
            seq _ (repeats down (λ code. update_keyboard-Followed index code true))
              (seq _ (modifies _ (λ v h. h)) (returns true (λ v h. h))))))

  on_opened-Followed :
      (index : ℕ) (opened : OpenedInput R)
      → Leads Any Followed (on_opened inputs index opened) (λ _. Followed)
  on_opened-Followed index (input_file (some r)) = attach-Followed index r
  on_opened-Followed index (input_file none) = fails_with _ (λ v h. tt)
  on_opened-Followed index no_input_file = returns false (λ v h. h)
  on_opened-Followed index denied_input_file = fails_with _ (λ v h. tt)

  open_unless-Followed :
      (index : ℕ) (path : String) (o : Option R)
      → Leads Any Followed (open_unless inputs index path o) (λ _. Followed)
  open_unless-Followed index path (some r) = record { runs = λ v h. h }
  open_unless-Followed index path none = record {
    runs = λ v h.
        let (opened, w) = inputs.open_input path v.world in
        (on_opened-Followed index opened).runs (record v { world = w }) h;
  }

  watch_event-Followed :
      (index : ℕ) (e : RawEvent) → Leads Any Followed (watch_event inputs index e) (λ _. Followed)
  unfolding watch_event
  watch_event-Followed index e =
      either (e.kind == 1 && not (eqb_ℤ e.value (pos 2)))
        (λ _. update_keyboard-Followed index e.code (not (eqb_ℤ e.value (pos 0)))) (λ _ v h. h)

  watch_events-Followed :
      (index : ℕ) (events : List RawEvent)
      → Leads Any Followed (watch_events inputs index events) (λ _. Followed)
  unfolding watch_events
  watch_events-Followed index [] = returns false (λ v h. h)
  watch_events-Followed index (e ∷ events) =
      seq _ (watch_event-Followed index e)
        (bind _ (watch_events-Followed index events) (λ later. returns _ (λ v h. h)))

  on_fetched_input-Followed :
      (index : ℕ) (fetched : FetchedInput)
      → Leads Any Followed (on_fetched_input inputs index fetched) (λ _. Followed)
  on_fetched_input-Followed index (input_batch events) = watch_events-Followed index events
  on_fetched_input-Followed index no_input_yet = returns false (λ v h. h)
  on_fetched_input-Followed index input_gone =
      seq _ (modifies _ (λ v h. h))
        (seq _ (disconnect_keyboard-Followed index) (returns false (λ v h. h)))
  on_fetched_input-Followed index input_failed = fails_with _ (λ v h. tt)

  fetch_slot-Followed :
      (index : ℕ) (o : Option R) → Leads Any Followed (fetch_slot inputs index o) (λ _. Followed)
  fetch_slot-Followed index none = record { runs = λ v h. h }
  fetch_slot-Followed index (some r) = record {
    runs = λ v h.
        let (fetched, w) = inputs.fetch_input r v.world in
        (on_fetched_input-Followed index fetched).runs (record v { world = w }) h;
  }

  sample_slot-Followed : (index : ℕ) → Leads Any Followed (sample_slot inputs index) (λ _. Followed)
  unfolding sample_slot
  sample_slot-Followed index = read (λ v _.
      bind _ (open_unless-Followed index v.slot.path v.slot.device) (λ present. read (λ u _.
        branch present (λ _. fetch_slot-Followed index u.slot.device)
          (λ _. returns false (λ t h. h)))))

  -- The reader's view after the loop over the slots, where it succeeds.
  abbrev pub AllFollowed : Result Bool × (List (Slot R) × (PhysicalKeys F × W)) → Type 0
  AllFollowed (ok active, (slots, (k, w))) = IsFollowed sent k
  AllFollowed (err e, end) = Unit {0}

  after_slot-Followed :
      (o : Result Bool × SlotView F R W) (slots : List (Slot R))
      (rest : PhysicalKeys F × W → Result Bool × (List (Slot R) × (PhysicalKeys F × W)))
      → After Any (λ (_ : Bool). Followed) o
      → ((shared : PhysicalKeys F × W) → IsFollowed sent shared.0 → AllFollowed (rest shared))
      → AllFollowed (after_slot inputs o.0 o.1.slot slots (o.1.keyboard, o.1.world) rest)
  after_slot-Followed (err e, v) slots rest h others = tt
  after_slot-Followed (ok active, v) slots rest h others =
      joined (rest (v.keyboard, v.world)) (others (v.keyboard, v.world) h)
    where
      joined :
          (o : Result Bool × (List (Slot R) × (PhysicalKeys F × W)))
          → AllFollowed o
          → AllFollowed (or_active active o.0, (v.slot ∷ o.1.0, o.1.1))
      joined (ok later, (slots', (k, w))) h = h
      joined (err e, end) h = tt

  pub sample_slots-Followed :
      (index : ℕ) (slots : List (Slot R)) (shared : PhysicalKeys F × W)
      → IsFollowed sent shared.0
      → AllFollowed (sample_slots inputs index slots shared)
  unfolding sample_slots
  sample_slots-Followed index [] shared h = h
  sample_slots-Followed index (slot ∷ slots) shared h =
      let start : SlotView F R W = record { slot = slot; keyboard = shared.0; world = shared.1 } in
      after_slot-Followed (sample_slot inputs index start) slots
        (sample_slots inputs (index + 1) slots) ((sample_slot-Followed index).runs start h)
        (λ later k. sample_slots-Followed (index + 1) slots later k)
