-- ===== src/Touchpad/Router/Opening.antt =====
-- src/touchpad.rs, `Router::new`: that a new router is safe; and what keeps its descriptors.
use niri_bridge.Prelude.Text.{has_text}
use niri_bridge.Prelude.{
  ltb, length, ok, ℕ, String, ◌≡◌, refl, ◌∙◌, Bool, true, false, Option, none, some, List, [], ◌∷◌,
  ◌++◌, arith,
}
use niri_bridge.Prelude.All.{All, All-append}
use niri_bridge.Prelude.Action.{Action, check}
use niri_bridge.Prelude.Triple.{
  Leads, bind, seq, read, always, returns, modifies, branch, confirmed, given, kept,
}
use niri_bridge.Touchpad.Descriptor.{Descriptor, validate}
use niri_bridge.Touchpad.Descriptor as Descriptor
use niri_bridge.Touchpad.Physical.{Evdev, open_physical_touchpad}
use niri_bridge.Touchpad.Physical.Reading.{Gives, anything}
use niri_bridge.Touchpad.Virtual.{setup, Uinput, create}
use niri_bridge.Touchpad.Virtual.Fitting.{new-IsFitting}
use niri_bridge.Touchpad.Virtual.Emitting.{IsSound}
use niri_bridge.Touchpad.Capture.{PhysicalTouchpad, View, sample_pad}
use niri_bridge.Touchpad.Capture.Keeps.{Closed, sample_pad-keeps}
use niri_bridge.Touchpad.Router.{
  Router, same_bool, over_pads, sample, to_destination, route_pad, route, descriptors, add_pad,
  Rest, with_pad, on_located, open_pads, new,
}
use niri_bridge.Touchpad.Router as Router
use niri_bridge.Touchpad.Router.Loop.{each_pad-same}
use niri_bridge.Touchpad.Router.Safe.{PadIsSafe, RouterIsSafe}

module _ {W R D : Type 0} (kernel : Evdev W R) (uinput : Uinput W D) where
  create-Gives :
      (d : Descriptor) → Gives (λ m. (Descriptor.validate d ≡ ok tt) × IsSound m) (create uinput d)
  unfolding create
  create-Gives d = seq _ (confirmed (Descriptor.validate d) (λ w h. tt)) (
      given (λ valid.
        bind _ (anything (uinput.build (setup d)))
          (λ device. returns _ (λ w h. (valid, new-IsFitting d valid)))))

  one_more :
      (pads : List (PhysicalTouchpad R D)) (p : PhysicalTouchpad R D)
      → All PadIsSafe pads
      → PadIsSafe p
      → All PadIsSafe (pads ++ p ∷ [])
  one_more pads p h k = (All-append PadIsSafe pads (p ∷ [])).1 (h, (k, tt))

  add_pad-Gives :
      (register : R → Action W (Unit {0})) (r : R) (d : Descriptor)
      (pads : List (PhysicalTouchpad R D))
      → All PadIsSafe pads
      → Gives (λ pads'. All PadIsSafe pads') (add_pad kernel uinput register (r, d) pads)
  unfolding add_pad
  add_pad-Gives register r d pads h = seq _ (anything (check (ltb (length pads) 4) _)) (
      seq _ (anything (register r)) (
        bind _ (create-Gives d) (λ m. returns _ (λ w known.
          one_more pads _ h (record { fitting = new-IsFitting d known.0; mirror = known.1 })))))

  -- What the rest of the loop over the paths gives.
  abbrev RestIsSafe : Rest kernel uinput → Type 0
  RestIsSafe rest =
      (seen : List String) (pads : List (PhysicalTouchpad R D))
      → All PadIsSafe pads
      → Gives (λ pads'. All PadIsSafe pads') (rest seen pads)

  with_pad-Gives :
      (register : R → Action W (Unit {0})) (seen : List String) (pads : List (PhysicalTouchpad R D))
      (rest : Rest kernel uinput) (pad : Option (R × Descriptor))
      → RestIsSafe rest
      → All PadIsSafe pads
      → Gives (λ pads'. All PadIsSafe pads') (with_pad kernel uinput register seen pads rest pad)
  with_pad-Gives register seen pads rest none k h = k seen pads h
  with_pad-Gives register seen pads rest (some (r, d)) k h =
      bind _ (add_pad-Gives register r d pads h)
        (λ pads'. record { runs = λ w all. (k seen pads' all).runs w tt })

  on_located-Gives :
      (register : R → Action W (Unit {0})) (seen : List String) (pads : List (PhysicalTouchpad R D))
      (rest : Rest kernel uinput) (located : Option String)
      → RestIsSafe rest
      → All PadIsSafe pads
      → Gives
          (λ pads'. All PadIsSafe pads')
          (on_located kernel uinput register seen pads rest located)
  on_located-Gives register seen pads rest none k h = k seen pads h
  on_located-Gives register seen pads rest (some path) k h =
      branch (has_text seen path) (λ _. k seen pads h)
        (λ _.
          bind _ (anything (open_physical_touchpad kernel path))
            (λ pad. with_pad-Gives register (path ∷ seen) pads rest pad k h))

  open_pads-Gives :
      (canonicalize : String → Action W (Option String)) (register : R → Action W (Unit {0}))
      (paths : List String)
      → RestIsSafe (open_pads kernel uinput canonicalize register paths)
  unfolding open_pads
  open_pads-Gives canonicalize register [] seen pads h = returns pads (λ w _. h)
  open_pads-Gives canonicalize register (path ∷ paths) seen pads h =
      bind _ (anything (canonicalize path)) (λ located.
        on_located-Gives register seen pads _ located (open_pads-Gives canonicalize register paths)
          h)

  -- A router that `new` makes is safe: its touchpads are validated, and nothing waits.
  pub new-RouterIsSafe :
      (canonicalize : String → Action W (Option String)) (register : R → Action W (Unit {0}))
      (paths : List String)
      → Gives RouterIsSafe (Router.new kernel uinput canonicalize register paths)
  unfolding Router.new
  new-RouterIsSafe canonicalize register paths =
      bind _ (open_pads-Gives canonicalize register paths [] [] tt) (λ pads.
        returns _ (λ w h. record { pads = h; frames = record { few = omega arith; valid = tt } }))

  descriptor-Closed :
      (index : ℕ) (remote : Bool) (d : Descriptor)
      → Closed kernel uinput index remote (λ v. v.pad.descriptor ≡ d)
  descriptor-Closed index remote d = record {
    world = λ v w h. h;
    frame = λ v frame h. h;
    state = λ v frame s valid found h. h;
    capture = λ v frame time yes valid room h. h;
    mirror = λ v frame time no h. h;
    take = λ v s inside sized resting h. h;
  }

  over_pads-descriptors :
      {A : Type 0} (step : ℕ → Action (View W R D) A) (s : Router R D × W)
      → ((index : ℕ) (v : View W R D) → (step index v).1.pad.descriptor ≡ v.pad.descriptor)
      → descriptors kernel uinput (over_pads kernel uinput step s).1.0
        ≡ descriptors kernel uinput s.0
  unfolding over_pads descriptors
  over_pads-descriptors step (router, w) same =
      each_pad-same kernel uinput step (λ p. p.descriptor) same 0 router.pads (router.pending, w)

  sample_pad-descriptor :
      (fuel : ℕ) (remote : Bool) (index : ℕ) (v : View W R D)
      → (sample_pad kernel uinput fuel index remote v).1.pad.descriptor ≡ v.pad.descriptor
  sample_pad-descriptor fuel remote index v =
      kept _ _ v
        (sample_pad-keeps kernel uinput index remote _
          (descriptor-Closed index remote v.pad.descriptor) fuel)
        refl

  route_pad-descriptor :
      (remote : Bool) (index : ℕ) (v : View W R D)
      → (route_pad kernel uinput remote index v).1.pad.descriptor ≡ v.pad.descriptor
  unfolding route_pad
  route_pad-descriptor remote index v =
      kept (λ u. u.pad.descriptor ≡ v.pad.descriptor) (route_pad kernel uinput remote index) v
        (read (λ u _. branch u.pad.grabbed (λ _. either_way u remote) (λ _. returns [] (λ t h. h))))
        refl
    where
      Same : View W R D → Type 0
      Same u = u.pad.descriptor ≡ v.pad.descriptor

      either_way :
          (u : View W R D) (remote : Bool)
          → Leads Same Same (to_destination kernel uinput index u.pad remote) (λ _. Same)
      either_way u true =
          seq _ (always (λ t h. h) (λ t h. h))
            (bind _ (always (λ t h. h) (λ t h. h)) (λ now. returns _ (λ t h. h)))
      either_way u false = seq _ (always (λ t h. h) (λ t h. h)) (returns _ (λ t h. h))

module _ {W R D : Type 0} (kernel : Evdev W R) (uinput : Uinput W D) (ds : List Descriptor) where
  abbrev Same : Router R D × W → Type 0
  Same t = descriptors kernel uinput t.0 ≡ ds

  over_pads-Same :
      {A : Type 0} (step : ℕ → Action (View W R D) A)
      → ((index : ℕ) (v : View W R D) → (step index v).1.pad.descriptor ≡ v.pad.descriptor)
      → Leads Same Same (over_pads kernel uinput step) (λ _. Same)
  over_pads-Same step same =
      always (λ t h. h) (λ t h. over_pads-descriptors kernel uinput step t same ∙ h)

  sample-Same : (fuel : ℕ) → Leads Same Same (Router.sample kernel uinput fuel) (λ _. Same)
  unfolding Router.sample
  sample-Same fuel = read (λ s _.
      bind _
        (over_pads-Same (λ index. sample_pad kernel uinput fuel index s.0.remote)
          (sample_pad-descriptor kernel uinput fuel s.0.remote))
        (λ each. returns _ (λ t h. h)))

  route-Same : (remote : Bool) → Leads Same Same (route kernel uinput remote) (λ _. Same)
  unfolding route descriptors
  route-Same remote = read (λ s _.
      branch (same_bool s.0.remote remote) (λ _. returns [] (λ t h. h))
        (λ _. seq _ (modifies _ (λ t h. h)) (
          bind _
            (over_pads-Same (route_pad kernel uinput remote)
              (route_pad-descriptor kernel uinput remote))
            (λ frames. returns _ (λ t h. h)))))

module _ {W R D : Type 0} (kernel : Evdev W R) (uinput : Uinput W D) where
  -- Sampling and routing keep the descriptors, which the peer was told.
  pub methods-descriptors :
      (s : Router R D × W)
      → ((fuel : ℕ)
          → descriptors kernel uinput (Router.sample kernel uinput fuel s).1.0
            ≡ descriptors kernel uinput s.0)
        × ((remote : Bool)
            → descriptors kernel uinput (route kernel uinput remote s).1.0
              ≡ descriptors kernel uinput s.0)
  methods-descriptors s =
      let ds = descriptors kernel uinput s.0 in
      (
        λ fuel. kept (Same kernel uinput ds) _ s (sample-Same kernel uinput ds fuel) refl,
        λ remote. kept (Same kernel uinput ds) _ s (route-Same kernel uinput ds remote) refl,
      )
