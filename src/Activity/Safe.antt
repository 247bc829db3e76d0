-- ===== src/Activity/Safe.antt =====
-- src/activity.rs: the invariant of the activity monitor.
use niri_bridge.Prelude.All.{ok-injective}
use mathlib.Core.Path.{subst}
use niri_bridge.Prelude.{
  Result, ok, err, String, ◌≡◌, refl, Bool, Option, none, some, List, [], arith,
}
use niri_bridge.Protocol.Event.{InputEvent}
use niri_bridge.Input.Keys.{none_held}
use niri_bridge.Input.Keys.Report.{IsFollowed}
use niri_bridge.Touchpad.Descriptor.{Descriptor}
use niri_bridge.Touchpad.Router as Router
use niri_bridge.Touchpad.Router.{Router, descriptors}
use niri_bridge.Touchpad.Router.Safe.{RouterIsSafe}
use niri_bridge.Activity.Monitor.{ActivityMonitor, made, new, Sources}

module _ {F W R P D : Type 0} (sources : Sources W R P D) (sent : List (InputEvent F)) where
  -- The touchpads' router, if there is one, is safe and has the capabilities that were agreed.
  abbrev TouchpadsAreSafe : Option (Router P D) → Option (List Descriptor) → Type 0
  TouchpadsAreSafe none profiles = Unit {0}
  TouchpadsAreSafe (some router) profiles =
      RouterIsSafe router × (profiles ≡ some (descriptors sources.kernel sources.uinput router))

  -- The keyboard events, those drained before and those that wait, tell what is down.
  pub record MonitorIsSafe (m : ActivityMonitor F R P D) : Type 0 where
    pub keyboard : IsFollowed sent m.keyboard
    pub touchpads : TouchpadsAreSafe m.touchpads m.touchpad_profiles

  -- With the capabilities that were agreed.
  module _ (agreed : Option (List Descriptor)) where
    abbrev Any : ActivityMonitor F R P D × W → Type 0
    Any s = Unit {0}

    abbrev SafeState : ActivityMonitor F R P D × W → Type 0
    SafeState s = MonitorIsSafe s.0 × (s.0.touchpad_profiles ≡ agreed)

none_held-IsFollowed : {F : Type 0} → IsFollowed [] (none_held {F = F})
unfolding none_held
none_held-IsFollowed = record { agrees = λ code. refl; ranged = λ code k. absurd (ground arith) }

made-MonitorIsSafe :
    {F W R P D : Type 0} (sources : Sources W R P D) (paths : List String) (native : Bool)
    (r : Result (Unit {0})) (m : ActivityMonitor F R P D)
    → made paths native r ≡ ok m
    → MonitorIsSafe sources [] m
made-MonitorIsSafe sources paths native (err e) m h = cc
made-MonitorIsSafe sources paths native (ok _) m h =
    subst (MonitorIsSafe sources []) (ok-injective _ m h)
      (record { keyboard = none_held-IsFollowed; touchpads = tt })

-- A new monitor is safe, and its reader knows of no key.
new-MonitorIsSafe :
    {F W R P D : Type 0} (sources : Sources W R P D) (paths : List String) (native : Bool)
    (m : ActivityMonitor F R P D)
    → new paths native ≡ ok m
    → MonitorIsSafe sources [] m
unfolding new
new-MonitorIsSafe sources paths native m h = made-MonitorIsSafe sources paths native _ m h
