-- ===== src/Input/Keys.antt =====
-- src/input.rs: `PhysicalKeys`, the keys held on several keyboards as one keyboard, and the
-- emergency chord.
use niri_bridge.Prelude.{
  ltb, ◌==◌, if◌then◌else◌, in_range, length, Result, ok, err, and_then, ℕ, Bool, true, false, ◌&&◌,
  ◌||◌, not, List, [], ◌∷◌, ◌++◌,
}
use niri_bridge.Prelude.Sets.{contains, insert, remove, extend}
use niri_bridge.Protocol.Event.{InputEvent, key}
pub mod Maps
pub mod Report
pub mod Run
pub mod Queue

-- `devices` is a `BTreeMap<usize, BTreeSet<u16>>`: ascending by device.
pub record PhysicalKeys (F : Type 0) : Type 0 where
  pub devices : List (ℕ × List ℕ)
  pub pending : List (InputEvent F)

-- `PhysicalKeys::default()`
unfoldable pub none_held : {F : Type 0} → PhysicalKeys F
none_held = record { devices = []; pending = [] }

-- `devices.values().any(|keys| keys.contains(&code))`
abbrev pub any_holds : List (ℕ × List ℕ) → ℕ → Bool
any_holds [] code = false
any_holds ((d, keys) ∷ m) code = contains keys code || any_holds m code

-- The set of keys that a press or a release leaves.
abbrev pub set_key : List ℕ → ℕ → Bool → List ℕ
set_key keys code pressed = if pressed then insert keys code else remove keys code

-- `devices.entry(device).or_default()`, changed by one press or release.
unfoldable pub update_entry : List (ℕ × List ℕ) → ℕ → ℕ → Bool → List (ℕ × List ℕ)
update_entry [] device code pressed = (device, set_key [] code pressed) ∷ []
update_entry ((d, keys) ∷ m) device code pressed =
    let rest = update_entry m device code pressed in
    if ltb device d
    then (device, set_key [] code pressed) ∷ (d, keys) ∷ m
    else if device == d
    then (d, set_key keys code pressed) ∷ m
    else (d, keys) ∷ rest

-- `devices.get(&device).cloned().unwrap_or_default()`
unfoldable pub get_entry : List (ℕ × List ℕ) → ℕ → List ℕ
get_entry [] device = []
get_entry ((d, keys) ∷ m) device = if device == d then keys else get_entry m device

-- `devices.remove(&device)`
unfoldable pub remove_entry : List (ℕ × List ℕ) → ℕ → List (ℕ × List ℕ)
remove_entry [] device = []
remove_entry ((d, keys) ∷ m) device = if device == d then m else (d, keys) ∷ remove_entry m device

abbrev pub eqb : Bool → Bool → Bool
eqb true b = b
eqb false b = not b

-- `devices.values().flatten().copied().collect()`
unfoldable pub held_in : List (ℕ × List ℕ) → List ℕ → List ℕ
held_in [] s = s
held_in ((d, keys) ∷ m) s = held_in m (extend s keys)

module _ {F : Type 0} where
  unfoldable pub update : PhysicalKeys F → ℕ → ℕ → Bool → Result (Unit {0}) × PhysicalKeys F
  update k device code pressed =
      let devices = update_entry k.devices device code pressed in
      let after = any_holds devices code in
      if not (in_range 1 255 code)
      then (ok tt, k)
      else if eqb (any_holds k.devices code) after
      then (ok tt, record k { devices = devices })
      else if ltb (length k.pending) 512
      then (ok tt, record { devices = devices; pending = k.pending ++ key code after ∷ [] })
      else (
        err "Physical keyboard queue is full; restoring local control",
        record k { devices = devices },
      )

  -- The loop of `disconnect`, over the keys that the device held at the start.
  unfoldable pub release_keys : List ℕ → ℕ → PhysicalKeys F → Result (Unit {0}) × PhysicalKeys F
  release_keys [] device k = (ok tt, k)
  release_keys (code ∷ codes) device k =
      and_then (update k device code false) (λ _ k'. release_keys codes device k')

  unfoldable pub disconnect : PhysicalKeys F → ℕ → Result (Unit {0}) × PhysicalKeys F
  disconnect k device =
      and_then (release_keys (get_entry k.devices device) device k)
        (λ _ k'. (ok tt, record k' { devices = remove_entry k'.devices device }))

  unfoldable pub held : PhysicalKeys F → List ℕ
  unfolding held_in
  held k = held_in k.devices []

  unfoldable pub drain : PhysicalKeys F → List (InputEvent F) × PhysicalKeys F
  drain k = (k.pending, record k { pending = [] })

-- `emergency_modifiers`: a Ctrl, an Alt and a Shift key.
unfoldable pub emergency_modifiers : List ℕ → Bool
emergency_modifiers keys =
    (contains keys 29 || contains keys 97)
    && (contains keys 56 || contains keys 100)
    && (contains keys 42 || contains keys 54)
