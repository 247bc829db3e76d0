-- ===== src/Activity/Monitor.antt =====
-- src/activity.rs, `ActivityMonitor`: the watched devices and the touchpads.
use niri_bridge.Prelude.{
  ◌==◌, if◌then◌else◌, in_range, length, Result, ok, err, ensure, ℕ, String, Bool, true, false,
  ◌&&◌, ◌||◌, not, Option, none, some, List, [], ◌∷◌, map,
}
use niri_bridge.Prelude.Int.{eqb_ℤ}
use niri_bridge.Prelude.Action.{Action, ◌>>=◌, ◌>>◌, pure, done, get, modify, check}
use niri_bridge.Protocol.Event.{InputEvent, touchpad}
use niri_bridge.Input.Keys as Keys
use niri_bridge.Input.Keys.{PhysicalKeys, none_held, held}
use niri_bridge.Touchpad.Descriptor.{AxisInfo, Descriptor}
use niri_bridge.Touchpad.Physical.{Evdev}
use niri_bridge.Touchpad.Virtual.{Uinput}
use niri_bridge.Touchpad.Capture.{CapturedFrame}
use niri_bridge.Touchpad.Router as Router
use niri_bridge.Touchpad.Router.{Router, flat, route, drain, descriptors}
use niri_bridge.Activity.Watch.{Inputs, Slot, sample_slots}

abbrev map_ok : {A B : Type 0} → (A → B) → Result A → Result B
map_ok f (ok a) = ok (f a)
map_ok f (err e) = err e

pub record ActivityMonitor (F R P D : Type 0) : Type 0 where
  pub slots : List (Slot R)
  pub keyboard : PhysicalKeys F
  pub native_touchpads : Bool
  pub touchpads : Option (Router P D)
  pub touchpad_profiles : Option (List Descriptor)

abbrev unopened : {R : Type 0} → String → Slot R
unopened path = record { path = path; device = none }

abbrev pub made :
    {F R P D : Type 0} → List String → Bool → Result (Unit {0}) → Result (ActivityMonitor F R P D)
made paths native_touchpads (err e) = err e
made paths native_touchpads (ok _) = ok (record {
  slots = map unopened paths;
  keyboard = none_held;
  native_touchpads = native_touchpads;
  touchpads = none;
  touchpad_profiles = none;
})

-- `ActivityMonitor::new`
unfoldable pub new : {F R P D : Type 0} → List String → Bool → Result (ActivityMonitor F R P D)
new paths native_touchpads =
    made paths native_touchpads (
      ensure (in_range 1 32 (length paths))
        "Configure between one and 32 physical activity devices")

-- `previous == next` of descriptors: `PartialEq`, field by field.
abbrev pub same_list {ℓ} : {A : Type ℓ} → (A → A → Bool) → List A → List A → Bool
same_list same [] [] = true
same_list same (x ∷ xs) (y ∷ ys) = same x y && same_list same xs ys
same_list same _ _ = false

abbrev pub same_axis : AxisInfo → AxisInfo → Bool
same_axis a b =
    a.code == b.code
    && eqb_ℤ a.minimum b.minimum
    && eqb_ℤ a.maximum b.maximum
    && eqb_ℤ a.fuzz b.fuzz
    && eqb_ℤ a.flat b.flat
    && eqb_ℤ a.resolution b.resolution

abbrev pub same_descriptor : Descriptor → Descriptor → Bool
same_descriptor d e =
    same_list (λ x y. x == y) d.keys e.keys
    && same_list (λ x y. x == y) d.properties e.properties
    && same_list same_axis d.axes e.axes

abbrev pub paths_of : {R : Type 0} → List (Slot R) → List String
paths_of slots = map (λ (s : Slot _). s.path) slots

-- What the monitor is given: the watched devices, and what the router of touchpads is.
pub record Sources (W R P D : Type 0) : Type 0 where
  pub inputs : Inputs W R
  pub kernel : Evdev W P
  pub uinput : Uinput W D
  pub canonicalize : String → Action W (Option String)
  pub register : P → Action W (Unit {0})

module _ (F : Type 0) {W R P D : Type 0} (sources : Sources W R P D) where
  abbrev pub State : Type 0
  State = ActivityMonitor F R P D × W

  abbrev pub on_state : {A : Type 0} → Action W A → Action State A
  on_state action (m, w) = let (r, w') = action w in (r, (m, w'))

  unfoldable pub prepare_touchpads : Action State (List Descriptor)
  prepare_touchpads = get >>= λ s. if not s.0.native_touchpads then pure [] else (do
    router ← on_state (
        Router.new sources.kernel sources.uinput sources.canonicalize sources.register
          (paths_of s.0.slots))
    let profiles = descriptors sources.kernel sources.uinput router
    modify (λ t. (record t.0 { touchpads = some router; touchpad_profiles = some profiles }, t.1))
    pure profiles)

  -- A router that was given up is prepared anew, with the capabilities agreed before.
  abbrev pub renew : Bool → Option (Router P D) → Option (List Descriptor) → Action State (Unit {0})
  renew true none (some previous) = do
    next ← prepare_touchpads
    check (same_list same_descriptor previous next)
        "Touchpad capabilities changed; reconnect to renegotiate them"
  renew native pads profiles = done

  -- `pads.sample()?`. `none` is that the router's fuel ran out.
  abbrev pub sample_touchpads : ℕ → Option (Router P D) → Action State (Option Bool)
  sample_touchpads fuel none s = (ok (some false), s)
  sample_touchpads fuel (some router) (m, w) =
      let (r, (router', w')) = Router.sample sources.kernel sources.uinput fuel (router, w) in
      (r, (record m { touchpads = some router' }, w'))

  unfoldable pub sample_inputs : Action State Bool
  sample_inputs (m, w) =
      let (r, (slots, (keyboard, w'))) = sample_slots sources.inputs 0 m.slots (m.keyboard, w) in
      (r, (record m { slots = slots; keyboard = keyboard }, w'))

  abbrev pub also_inputs : Option Bool → Action State (Option Bool)
  also_inputs none = pure none
  also_inputs (some active) = do later ← sample_inputs; pure (some (active || later))

  unfoldable pub sample : ℕ → Action State (Option Bool)
  sample fuel = do
    s ← get
    renew s.0.native_touchpads s.0.touchpads s.0.touchpad_profiles
    t ← get
    active ← sample_touchpads fuel t.0.touchpads
    also_inputs active

  unfoldable pub suspend : ActivityMonitor F R P D → ActivityMonitor F R P D
  suspend m = record m {
    slots = map (λ (s : Slot R). record s { device = none }) m.slots;
    keyboard = none_held;
    touchpads = none;
  }

  unfoldable pub keyboard_state : ActivityMonitor F R P D → Option (List ℕ)
  keyboard_state m = some (held m.keyboard)

  unfoldable pub take_keyboard_events :
      ActivityMonitor F R P D → List (InputEvent F) × ActivityMonitor F R P D
  take_keyboard_events m =
      let (events, keyboard) = Keys.drain m.keyboard in (events, record m { keyboard = keyboard })

  abbrev input_events : List CapturedFrame → List (InputEvent F)
  input_events frames = map (λ (f : CapturedFrame). touchpad f.index f.time f.events) frames

  abbrev pub route_router : Bool → Option (Router P D) → Action State (List (InputEvent F))
  route_router remote none s = (ok [], s)
  route_router remote (some router) (m, w) =
      let (r, (router', w')) = route sources.kernel sources.uinput remote (router, w) in
      (map_ok input_events r, (record m { touchpads = some router' }, w'))

  unfoldable pub route_touchpads : Bool → Action State (List (InputEvent F))
  route_touchpads remote = get >>= λ s. route_router remote s.0.touchpads

  abbrev pub take_router :
      Option (Router P D) → ActivityMonitor F R P D → List (InputEvent F) × ActivityMonitor F R P D
  take_router none m = ([], m)
  take_router (some router) m =
      let (frames, router') = Router.drain sources.kernel sources.uinput router in
      (input_events frames, record m { touchpads = some router' })

  unfoldable pub take_touchpad_events :
      ActivityMonitor F R P D → List (InputEvent F) × ActivityMonitor F R P D
  take_touchpad_events m = take_router m.touchpads m
