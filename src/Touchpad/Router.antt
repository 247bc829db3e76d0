-- ===== src/Touchpad/Router.antt =====
-- src/touchpad.rs, `Router`: the physical touchpads, mirrored locally or captured for the peer.
use niri_bridge.Prelude.{
  ltb, if◌then◌else◌, length, Result, ok, err, ℕ, ◌+◌, ◌%◌, String, Bool, true, false, ◌||◌, not,
  Option, none, some, List, [], ◌∷◌, ◌++◌, map,
}
use niri_bridge.Prelude.Text.{has_text}
use niri_bridge.Prelude.Action.{Action, ◌>>=◌, ◌>>◌, pure, get, modify, when, check, attempt, each}
use niri_bridge.Touchpad.Descriptor.{Descriptor}
use niri_bridge.Touchpad.State.{snapshot}
use niri_bridge.Touchpad.State as State
use niri_bridge.Touchpad.Virtual.{Uinput, create, kernel, emit, reset}
use niri_bridge.Touchpad.Physical.{Evdev, release_physical, open_physical_touchpad}
use niri_bridge.Touchpad.Capture.{
  CapturedFrame, PhysicalTouchpad, View, on_world, on_mirror, sample_pad,
}
pub mod Loop
pub mod Opening
pub mod Safe
pub mod Exclusive
pub mod Routing

pub record Router (R D : Type 0) : Type 0 where
  pub pads : List (PhysicalTouchpad R D)
  pub remote : Bool
  pub pending : List CapturedFrame

-- What the loops over the touchpads work on: those done, and what they share.
abbrev pub Shared : Type 0 → Type 0
Shared W = List CapturedFrame × W

abbrev pub prepend {ℓ} : {A : Type ℓ} → A → Result (List A) → Result (List A)
prepend a (ok others) = ok (a ∷ others)
prepend a (err e) = err e

abbrev pub same_bool : Bool → Bool → Bool
same_bool true b = b
same_bool false b = not b

module _ {W R D : Type 0} (kernel : Evdev W R) (uinput : Uinput W D) where
  -- The rest of a loop over touchpads after the first of them: an error ends it, with the others
  -- as they were.
  abbrev pub after_pad :
      {A : Type 0}
      → Result A
      → PhysicalTouchpad R D
      → List (PhysicalTouchpad R D)
      → Shared W
      → (Shared W → Result (List A) × (List (PhysicalTouchpad R D) × Shared W))
      → Result (List A) × (List (PhysicalTouchpad R D) × Shared W)
  after_pad (err e) p pads shared rest = (err e, (p ∷ pads, shared))
  after_pad (ok a) p pads shared rest =
      let (r, (pads', last)) = rest shared in (prepend a r, (p ∷ pads', last))

  -- A loop over the touchpads, from an index on.
  unfoldable pub each_pad :
      {A : Type 0}
      → (ℕ → Action (View W R D) A)
      → ℕ
      → List (PhysicalTouchpad R D)
      → Shared W
      → Result (List A) × (List (PhysicalTouchpad R D) × Shared W)
  each_pad step index [] shared = (ok [], ([], shared))
  each_pad step index (p ∷ pads) shared =
      let (r, v) = step index (record { pad = p; pending = shared.0; world = shared.1 }) in
      after_pad r v.pad pads (v.pending, v.world) (each_pad step (index + 1) pads)

  -- A loop over all of a router's touchpads.
  unfoldable pub over_pads :
      {A : Type 0} → (ℕ → Action (View W R D) A) → Action (Router R D × W) (List A)
  over_pads step (router, w) =
      let (r, (pads, (pending, w'))) = each_pad step 0 router.pads (router.pending, w) in
      (r, (record router { pads = pads; pending = pending }, w'))

  -- Whether one of the touchpads was active; `none` is that the fuel of one ran out.
  abbrev pub any_active : List (Option Bool) → Option Bool
  any_active [] = some false
  any_active (none ∷ others) = none
  any_active (some active ∷ others) = or_active active (any_active others)
    where
      or_active : Bool → Option Bool → Option Bool
      or_active active none = none
      or_active active (some later) = some (active || later)

  unfoldable pub sample : ℕ → Action (Router R D × W) (Option Bool)
  sample fuel = get >>= λ s.
      over_pads (λ index. sample_pad kernel uinput fuel index s.0.remote) >>= λ each.
      pure (any_active each)

  -- A grabbed touchpad's snapshot, for the peer or written to the mirror.
  abbrev pub to_destination :
      ℕ → PhysicalTouchpad R D → Bool → Action (View W R D) (List CapturedFrame)
  to_destination index pad true = do
    on_mirror kernel uinput (reset uinput)
    now ← on_world kernel uinput uinput.monotonic_us
    pure (record { index = index % 256; time = now; events = snapshot pad.state } ∷ [])
  to_destination index pad false = do
    on_mirror kernel uinput (emit uinput (snapshot pad.state))
    pure []

  -- One touchpad of `route`.
  unfoldable pub route_pad : Bool → ℕ → Action (View W R D) (List CapturedFrame)
  route_pad remote index =
      get >>= λ v. if v.pad.grabbed then to_destination index v.pad remote else pure []

  abbrev pub flat : List (List CapturedFrame) → List CapturedFrame
  flat [] = []
  flat (frames ∷ rest) = frames ++ flat rest

  unfoldable pub route : Bool → Action (Router R D × W) (List CapturedFrame)
  route remote = get >>= λ s. if same_bool s.0.remote remote then pure [] else (do
    modify (λ s. (record s.0 { remote = remote; pending = [] }, s.1))
    snapshots ← over_pads (route_pad remote)
    pure (flat snapshots))

  unfoldable pub drain : Router R D → List CapturedFrame × Router R D
  drain router = (router.pending, record router { pending = [] })

  unfoldable pub descriptors : Router R D → List Descriptor
  descriptors router = map (λ (p : PhysicalTouchpad R D). p.descriptor) router.pads

  -- One touchpad of `Drop`: errors are ignored.
  unfoldable pub drop_pad : ℕ → Action (View W R D) (Unit {0})
  drop_pad index = do
    attempt (on_mirror kernel uinput (reset uinput))
    v ← get
    when v.pad.grabbed (do
      attempt (on_world kernel uinput (release_physical kernel v.pad.device v.pad.descriptor))
      modify (λ v. record v { pad = record v.pad { grabbed = false } }))

  unfoldable pub drop_router : Router R D × W → Router R D × W
  drop_router s = (over_pads drop_pad s).1

  -- A touchpad that `new` found, made ready: at most four, with their input clock selected and
  -- their readiness registered, which is the kernel's part.
  unfoldable pub add_pad :
      (R → Action W (Unit {0}))
      → R × Descriptor
      → List (PhysicalTouchpad R D)
      → Action W (List (PhysicalTouchpad R D))
  add_pad register (device, d) pads = do
    check (ltb (length pads) 4) "At most four touchpads may be shared"
    register device
    mirror ← create uinput d
    pure (
        pads
        ++ record {
          device = device;
          descriptor = d;
          state = State.new d;
          mirror = mirror;
          grabbed = false;
          frame = [];
        }
          ∷ [])

  -- The rest of the loop over the paths: with the paths seen and the touchpads found.
  abbrev pub Rest : Type 0
  Rest = List String → List (PhysicalTouchpad R D) → Action W (List (PhysicalTouchpad R D))

  abbrev pub with_pad :
      (R → Action W (Unit {0}))
      → List String
      → List (PhysicalTouchpad R D)
      → Rest
      → Option (R × Descriptor)
      → Action W (List (PhysicalTouchpad R D))
  with_pad register seen pads rest none = rest seen pads
  with_pad register seen pads rest (some pad) = add_pad register pad pads >>= rest seen

  -- A path of the configuration, made canonical, or none where there is no such file.
  abbrev pub on_located :
      (R → Action W (Unit {0}))
      → List String
      → List (PhysicalTouchpad R D)
      → Rest
      → Option String
      → Action W (List (PhysicalTouchpad R D))
  on_located register seen pads rest none = rest seen pads
  on_located register seen pads rest (some path) =
      if has_text seen path
      then rest seen pads
      else (open_physical_touchpad kernel path >>= with_pad register (path ∷ seen) pads rest)

  unfoldable pub open_pads :
      (String → Action W (Option String)) → (R → Action W (Unit {0})) → List String → Rest
  open_pads canonicalize register [] seen pads = pure pads
  open_pads canonicalize register (path ∷ paths) seen pads = do
    located ← canonicalize path
    on_located register seen pads (open_pads canonicalize register paths) located

  -- `Router::new`
  unfoldable pub new :
      (String → Action W (Option String))
      → (R → Action W (Unit {0}))
      → List String
      → Action W (Router R D)
  new canonicalize register paths = do
    pads ← open_pads canonicalize register paths [] []
    pure (record { pads = pads; remote = false; pending = [] })
