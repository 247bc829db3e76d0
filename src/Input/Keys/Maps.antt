-- ===== src/Input/Keys/Maps.antt =====
-- The map from devices to held keys, read through `any_holds`.
use niri_bridge.Prelude.{
  ◌==◌, if◌then◌else◌, ℕ, ◌≡◌, refl, Bool, true, false, ◌||◌, List, [], ◌∷◌, arith,
}
use niri_bridge.Prelude.Sets.{contains, extend, contains-insert, contains-remove, contains-extend}
use niri_bridge.Input.Keys.{any_holds, set_key, update_entry, get_entry, remove_entry, held_in}

pub contains-set_key :
    (keys : List ℕ) (code : ℕ) (pressed : Bool) (z : ℕ)
    → contains (set_key keys code pressed) z ≡ (if z == code then pressed else contains keys z)
contains-set_key keys code true z = ground (arith, contains-insert keys code z)
contains-set_key keys code false z = ground (arith, contains-remove keys code z)

-- A change of one key leaves all others as they were.
pub any_holds-update_entry_ne :
    (m : List (ℕ × List ℕ)) (d code : ℕ) (p : Bool) (z : ℕ)
    → (z == code) ≡ false
    → any_holds (update_entry m d code p) z ≡ any_holds m z
unfolding update_entry
any_holds-update_entry_ne [] d code p z h = ground (arith, contains-set_key [] code p z)
any_holds-update_entry_ne ((e, keys) ∷ m) d code p z h = ground (
  arith,
  contains-set_key [] code p z,
  contains-set_key keys code p z,
  any_holds-update_entry_ne m d code p z h,
)

-- A press is held.
pub any_holds-update_entry_press :
    (m : List (ℕ × List ℕ)) (d code : ℕ) → any_holds (update_entry m d code true) code ≡ true
unfolding update_entry
any_holds-update_entry_press [] d code = ground (arith, contains-set_key [] code true code)
any_holds-update_entry_press ((e, keys) ∷ m) d code = ground (
  arith,
  contains-set_key [] code true code,
  contains-set_key keys code true code,
  any_holds-update_entry_press m d code,
)

-- A release leaves the device with some of its other keys.
pub get_entry-update_entry_release :
    (m : List (ℕ × List ℕ)) (d code z : ℕ)
    → contains (get_entry (update_entry m d code false) d) z ≡ true
    → ((z == code) ≡ false) × (contains (get_entry m d) z ≡ true)
unfolding update_entry get_entry
get_entry-update_entry_release [] d code z h = ground (arith, contains-set_key [] code false z)
get_entry-update_entry_release ((e, keys) ∷ m) d code z h = ground (
  arith,
  contains-set_key [] code false z,
  contains-set_key keys code false z,
  get_entry-update_entry_release m d code z,
)

-- A device that holds nothing can go.
pub any_holds-remove_entry :
    (m : List (ℕ × List ℕ)) (d z : ℕ)
    → contains (get_entry m d) z ≡ false
    → any_holds (remove_entry m d) z ≡ any_holds m z
unfolding remove_entry get_entry
any_holds-remove_entry [] d z h = refl
any_holds-remove_entry ((e, keys) ∷ m) d z h = ground (arith, any_holds-remove_entry m d z)

pub contains-held_in :
    (m : List (ℕ × List ℕ)) (s : List ℕ) (z : ℕ)
    → contains (held_in m s) z ≡ (any_holds m z || contains s z)
unfolding held_in
contains-held_in [] s z = refl
contains-held_in ((d, keys) ∷ m) s z =
    ground (arith, contains-held_in m (extend s keys) z, contains-extend s keys z)

-- Every key that a device holds is a key of the whole, so it is in range.
pub any_holds-get_entry :
    (m : List (ℕ × List ℕ)) (d z : ℕ) → contains (get_entry m d) z ≡ true → any_holds m z ≡ true
unfolding get_entry
any_holds-get_entry [] d z h = h
any_holds-get_entry ((e, keys) ∷ m) d z h = ground (arith, any_holds-get_entry m d z)
