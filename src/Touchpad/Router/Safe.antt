-- ===== src/Touchpad/Router/Safe.antt =====
-- src/touchpad.rs, `Router`: the invariant of the touchpads and of the frames that wait.
use mathlib.Core.Path.{subst}
use niri_bridge.Prelude.{
  ltb, length, length-append, ok, ℕ, ◌%◌, ◌≤◌, ◌<◌, ◌≡◌, sym, ◌∙◌, Bool, true, false, some, List,
  [], ◌∷◌, ◌++◌, arith,
}
use niri_bridge.Prelude.All.{All, All-append, >>-ok}
use niri_bridge.Prelude.Action.{Action}
use niri_bridge.Prelude.Triple.{Leads, bind, seq, read, always, returns, modifies, branch, kept}
use niri_bridge.Touchpad.Event.{Event, validate_frame}
use niri_bridge.Touchpad.Descriptor.{Descriptor, slots, validate_device_frame}
use niri_bridge.Touchpad.State.{TouchState, apply, no_keys, idle, snapshot}
use niri_bridge.Touchpad.Physical.{Evdev}
use niri_bridge.Touchpad.Virtual.{Uinput, VirtualTouchpad, applied, emit_at, emit, reset}
use niri_bridge.Touchpad.Virtual.Fitting.{IsKnown, IsFitting, some-injective, apply-IsFitting}
use niri_bridge.Touchpad.Virtual.Emitting.{IsSound, emit_at-IsSound, emit-IsSound, reset-IsSound}
use niri_bridge.Touchpad.Capture.{CapturedFrame, PhysicalTouchpad, View, on_mirror, sample_pad}
use niri_bridge.Touchpad.Capture.Keeps.{Closed, sample_pad-keeps}
use niri_bridge.Touchpad.Router.{
  Router, same_bool, over_pads, sample, to_destination, route_pad, route, drain,
}
use niri_bridge.Touchpad.Router.Loop.{each_pad-keeps}

-- A touchpad whose state fits its descriptor, and whose mirror's does.
pub record PadIsSafe {R D : Type 0} (p : PhysicalTouchpad R D) : Type 0 where
  pub fitting : IsFitting p.descriptor p.state
  pub mirror : IsSound p.mirror

-- At most 128 frames, each of a size and of events that the protocol admits.
pub record FramesAreSafe (frames : List CapturedFrame) : Type 0 where
  pub few : length frames ≤ 128
  pub valid : All (λ f. validate_frame f.events ≡ ok tt) frames

pub record RouterIsSafe {R D : Type 0} (router : Router R D) : Type 0 where
  pub pads : All PadIsSafe router.pads
  pub frames : FramesAreSafe router.pending

-- The state that a touchpad is taken with has no key down.
idle-IsFitting :
    (d : Descriptor) (s t : TouchState)
    → IsFitting d t
    → s.slot < length s.contacts
    → length s.contacts ≡ slots d
    → idle s ≡ true
    → IsFitting d s
unfolding idle
idle-IsFitting d s t f inside count resting = record {
  valid = f.valid;
  fits = (omega (arith, inside, count), count);
  keys = none_down s.keys (ground arith);
}
  where
    none_down : (keys : List ℕ) → no_keys keys ≡ true → IsKnown d keys
    none_down [] h = record { known = λ z k. absurd (ground arith); sorted = tt }
    none_down (c ∷ keys) h = absurd (ground arith)

applied-IsFitting :
    (d : Descriptor) (frame : List Event) (t s : TouchState)
    → validate_device_frame d frame ≡ ok tt
    → apply frame t ≡ some s
    → IsFitting d t
    → IsFitting d s
applied-IsFitting d frame t s valid found f =
    let (s', applied, fitting) = apply-IsFitting d frame t valid f in
    subst (IsFitting d) (some-injective s' s (sym applied ∙ found)) fitting

capture-FramesAreSafe :
    (d : Descriptor) (frames : List CapturedFrame) (index time : ℕ) (frame : List Event)
    → validate_device_frame d frame ≡ ok tt
    → ltb (length frames) 128 ≡ true
    → FramesAreSafe frames
    → FramesAreSafe (frames ++ record { index = index; time = time; events = frame } ∷ [])
unfolding validate_device_frame
capture-FramesAreSafe d frames index time frame valid room h = record {
  few =
      let grown =
        length-append frames (record { index = index; time = time; events = frame } ∷ []) in
      ground (arith, grown);
  valid =
      (All-append (λ f. validate_frame f.events ≡ ok tt) frames _).1
        (h.valid, (((>>-ok (validate_frame frame) _ tt).0 valid).0, tt));
}

module _ {W R D : Type 0} (kernel : Evdev W R) (uinput : Uinput W D) where
  abbrev ViewIsSafe : View W R D → Type 0
  ViewIsSafe v = PadIsSafe v.pad × FramesAreSafe v.pending

  safe-Closed : (index : ℕ) (remote : Bool) → Closed kernel uinput index remote ViewIsSafe
  safe-Closed index remote = record {
    world = λ v w h. h;
    frame = λ v frame h. (record { fitting = h.0.fitting; mirror = h.0.mirror }, h.1);
    state = λ v frame s valid found h. (
      record {
        fitting = applied-IsFitting v.pad.descriptor frame v.pad.state s valid found h.0.fitting;
        mirror = h.0.mirror;
      },
      h.1,
    );
    capture = λ v frame time yes valid room h. (
      h.0,
      capture-FramesAreSafe v.pad.descriptor v.pending (index % 256) time frame valid room h.1,
    );
    mirror = λ v frame time no h. (
      record {
        fitting = h.0.fitting;
        mirror =
            kept (λ s. IsSound s.0) (emit_at uinput frame time) (v.pad.mirror, v.world)
              (emit_at-IsSound uinput frame time) h.0.mirror;
      },
      h.1,
    );
    take = λ v s inside count resting h. (
      record {
        fitting = idle-IsFitting v.pad.descriptor s v.pad.state h.0.fitting inside count resting;
        mirror = h.0.mirror;
      },
      h.1,
    );
  }

  over_pads-IsSafe :
      {A : Type 0} (step : ℕ → Action (View W R D) A)
      → ((index : ℕ) → Leads ViewIsSafe ViewIsSafe (step index) (λ _. ViewIsSafe))
      → Leads
          (λ (s : Router R D × W). RouterIsSafe s.0)
          (λ s. RouterIsSafe s.0)
          (over_pads kernel uinput step)
          (λ _ s. RouterIsSafe s.0)
  unfolding over_pads
  over_pads-IsSafe step keeps =
      always (λ s h. h)
        (λ s h.
          let (router, w) = s in
          let (pads, frames) =
            each_pad-keeps kernel uinput step PadIsSafe FramesAreSafe
              (λ index v p q. kept ViewIsSafe (step index) v (keeps index) (p, q)) 0 router.pads
              (router.pending, w) h.pads h.frames in
          record { pads = pads; frames = frames })

  sample-Leads :
      (fuel : ℕ)
      → Leads
          (λ (s : Router R D × W). RouterIsSafe s.0)
          (λ s. RouterIsSafe s.0)
          (sample kernel uinput fuel)
          (λ _ s. RouterIsSafe s.0)
  unfolding sample
  sample-Leads fuel = read (λ s h.
      bind _
        (over_pads-IsSafe (λ index. sample_pad kernel uinput fuel index s.0.remote)
          (λ index.
            sample_pad-keeps kernel uinput index s.0.remote _ (safe-Closed index s.0.remote) fuel))
        (λ each. returns _ (λ t k. k)))

  mirror_step :
      (action : Action (VirtualTouchpad D × W) (Unit {0}))
      → Leads (λ s. IsSound s.0) (λ s. IsSound s.0) action (λ _ s. IsSound s.0)
      → Leads ViewIsSafe ViewIsSafe (on_mirror kernel uinput action) (λ _. ViewIsSafe)
  mirror_step action t =
      always (λ v h. h)
        (λ v h. (
          record {
            fitting = h.0.fitting;
            mirror = kept (λ s. IsSound s.0) action (v.pad.mirror, v.world) t h.0.mirror;
          },
          h.1,
        ))

  to_destination-Leads :
      (pad : PhysicalTouchpad R D) (remote : Bool) (index : ℕ)
      → Leads ViewIsSafe ViewIsSafe
          (to_destination kernel uinput index pad remote)
          (λ _. ViewIsSafe)
  to_destination-Leads pad true index =
      seq _ (mirror_step (reset uinput) (reset-IsSound uinput))
        (bind _ (always (λ v h. h) (λ v h. h)) (λ now. returns _ (λ v h. h)))
  to_destination-Leads pad false index =
      seq _ (mirror_step (emit uinput (snapshot pad.state)) (emit-IsSound uinput _))
        (returns _ (λ v h. h))

  route_pad-Leads :
      (remote : Bool) (index : ℕ)
      → Leads ViewIsSafe ViewIsSafe (route_pad kernel uinput remote index) (λ _. ViewIsSafe)
  unfolding route_pad
  route_pad-Leads remote index = read (λ v _.
      branch v.pad.grabbed (λ _. to_destination-Leads v.pad remote index)
        (λ _. returns [] (λ v h. h)))

  route-Leads :
      (remote : Bool)
      → Leads
          (λ (s : Router R D × W). RouterIsSafe s.0)
          (λ s. RouterIsSafe s.0)
          (route kernel uinput remote)
          (λ _ s. RouterIsSafe s.0)
  unfolding route
  route-Leads remote = read (λ s _.
      branch (same_bool s.0.remote remote) (λ _. returns [] (λ t h. h))
        (λ _.
          seq _
            (modifies _
              (λ t h. record { pads = h.pads; frames = record { few = omega arith; valid = tt } }))
            (bind _ (over_pads-IsSafe (route_pad kernel uinput remote) (route_pad-Leads remote))
              (λ frames. returns _ (λ t h. h)))))

  -- Sampling the touchpads, routing them and draining their frames keeps the router safe, whatever
  -- the kernel does and whether they succeed or fail: each touchpad's state and its mirror's fit
  -- their descriptors, and at most 128 frames wait, the events of each of which are a valid frame.
  pub methods-RouterIsSafe :
      (s : Router R D × W)
      → RouterIsSafe s.0
      → ((fuel : ℕ) → RouterIsSafe (sample kernel uinput fuel s).1.0)
        × ((remote : Bool) → RouterIsSafe (route kernel uinput remote s).1.0)
        × RouterIsSafe (drain kernel uinput s.0).1
  unfolding drain
  methods-RouterIsSafe s h = (
    λ fuel. kept (λ (s : Router R D × W). RouterIsSafe s.0) _ s (sample-Leads fuel) h,
    λ remote. kept (λ (s : Router R D × W). RouterIsSafe s.0) _ s (route-Leads remote) h,
    record { pads = h.pads; frames = record { few = omega arith; valid = tt } },
  )
