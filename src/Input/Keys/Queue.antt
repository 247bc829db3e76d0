-- ===== src/Input/Keys/Queue.antt =====
-- The queue of key events: what a change adds to it, and its bound.
use niri_bridge.Prelude.{
  in_range, length, length-append, ok, is_ok, and_then-keeps, ℕ, ◌≤◌, ◌<◌, ◌≡◌, ◌≢◌, ◌⊎◌, Bool,
  true, false, List, [], ◌∷◌, ◌++◌, arith,
}
use niri_bridge.Protocol.Event.{key}
use niri_bridge.Input.Keys.{
  PhysicalKeys, none_held, any_holds, update_entry, get_entry, remove_entry, update, release_keys,
  disconnect,
}
use niri_bridge.Input.Keys.Maps.{contains-set_key, any_holds-update_entry_press}
use niri_bridge.Input.Keys.Run.{Call, change, unplug, take_events, Monitor, call, run, new}

-- A release takes nothing but presses away.
any_holds-update_entry_up :
    (m : List (ℕ × List ℕ)) (d code : ℕ)
    → any_holds m code ≡ false
    → any_holds (update_entry m d code false) code ≡ false
unfolding update_entry
any_holds-update_entry_up [] d code h = ground (arith, contains-set_key [] code false code)
any_holds-update_entry_up ((e, keys) ∷ m) d code h = ground (
  arith,
  contains-set_key [] code false code,
  contains-set_key keys code false code,
  any_holds-update_entry_up m d code,
)

-- A changed keyboard adds one event, with the code and the new position of the key, exactly
-- when the key goes down on the first of the devices or up on the last; with 512 events
-- waiting that is the error, and the queue stays as it is.
pub update-pending :
    {F : Type 0} (k : PhysicalKeys F) (d c : ℕ) (p : Bool)
    → in_range 1 255 c ≡ true
    → let (r, k') = update k d c p in
      ((any_holds k.devices c ≡ any_holds k'.devices c) × (r ≡ ok tt) × (k'.pending ≡ k.pending))
      ⊎ ((any_holds k.devices c ≢ any_holds k'.devices c)
          × (length k.pending < 512)
          × (r ≡ ok tt)
          × (k'.pending ≡ k.pending ++ key c p ∷ []))
      ⊎ ((any_holds k.devices c ≢ any_holds k'.devices c)
          × (512 ≤ length k.pending)
          × (is_ok r ≡ false)
          × (k'.pending ≡ k.pending))
unfolding update
update-pending k d c true h = ground (arith, any_holds-update_entry_press k.devices d c)
update-pending k d c false h = ground (arith, any_holds-update_entry_up k.devices d c)

abbrev Bounded : {F : Type 0} → PhysicalKeys F → Type 0
Bounded k = length k.pending ≤ 512

update-Bounded :
    {F : Type 0} (k : PhysicalKeys F) (d c : ℕ) (p : Bool) → Bounded k → Bounded (update k d c p).1
unfolding update
update-Bounded k d c p h =
    ground
      (arith, length-append k.pending (key c (any_holds (update_entry k.devices d c p) c) ∷ []))

release_keys-Bounded :
    {F : Type 0} (codes : List ℕ) (d : ℕ) (k : PhysicalKeys F)
    → Bounded k
    → Bounded (release_keys codes d k).1
unfolding release_keys
release_keys-Bounded [] d k h = h
release_keys-Bounded (c ∷ codes) d k h =
    and_then-keeps Bounded (update k d c false) (λ _ k'. release_keys codes d k')
      (update-Bounded k d c false h) (λ _ k' b. release_keys-Bounded codes d k' b)

call-Bounded : {F : Type 0} (m : Monitor F) (c : Call) → Bounded m.keys → Bounded (call m c).1.keys
unfolding call disconnect
call-Bounded m (change d c p) h = update-Bounded m.keys d c p h
call-Bounded m (unplug d) h =
    and_then-keeps Bounded (release_keys (get_entry m.keys.devices d) d m.keys)
      (λ _ k'. (ok tt, record k' { devices = remove_entry k'.devices d }))
      (release_keys-Bounded (get_entry m.keys.devices d) d m.keys h) (λ _ k' b. b)
call-Bounded m take_events h = omega arith

run-Bounded :
    {F : Type 0} (m : Monitor F) (cs : List Call) → Bounded m.keys → Bounded (run m cs).1.keys
unfolding run
run-Bounded m [] h = h
run-Bounded m (c ∷ cs) h =
    and_then-keeps (λ m'. Bounded m'.keys) (call m c) (λ _ m'. run m' cs) (call-Bounded m c h)
      (λ _ m' b. run-Bounded m' cs b)

-- No calls whatever, failing ones included, leave more than 512 events waiting.
pub run-length-le :
    (F : Type 0) (cs : List Call) → length (run (new {F = F}) cs).1.keys.pending ≤ 512
unfolding none_held
run-length-le F cs = run-Bounded new cs (omega arith)
