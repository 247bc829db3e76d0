-- ===== src/Input/Keys/Run.antt =====
-- A monitor's calls on the physical keys, in any order, and what the reader of the events sees.
use niri_bridge.Prelude.{
  in_range, Result, ok, and_then, and_then-eq-ok, ℕ, ◌≡◌, refl, sym, ap, ◌∙◌, Bool, true, false,
  ◌||◌, not, List, [], ◌∷◌, ◌++◌, arith,
}
use niri_bridge.Prelude.Sets.{contains}
use niri_bridge.Protocol.Event.{InputEvent}
use niri_bridge.Input.Keys.{PhysicalKeys, none_held, any_holds, update, disconnect, held, drain}
use niri_bridge.Input.Keys.Maps.{contains-held_in}
use niri_bridge.Input.Keys.Report.{
  reported, IsFollowed, update-IsFollowed, disconnect-IsFollowed, drain-IsFollowed,
}

pub data Call : Type 0 where
  change : (device code : ℕ) (pressed : Bool) → Call
  unplug : (device : ℕ) → Call
  take_events : Call

-- The events drained so far, and the keys.
pub record Monitor (F : Type 0) : Type 0 where
  pub sent : List (InputEvent F)
  pub keys : PhysicalKeys F

module _ {F : Type 0} where
  unfoldable pub call : Monitor F → Call → Result (Unit {0}) × Monitor F
  unfolding update disconnect drain
  call m (change d c p) = let (r, k) = update m.keys d c p in (r, record m { keys = k })
  call m (unplug d) = let (r, k) = disconnect m.keys d in (r, record m { keys = k })
  call m take_events =
      let (events, k) = drain m.keys in (ok tt, record { sent = m.sent ++ events; keys = k })

  -- The calls up to the first that fails.
  unfoldable pub run : Monitor F → List Call → Result (Unit {0}) × Monitor F
  run m [] = (ok tt, m)
  run m (c ∷ cs) = and_then (call m c) (λ _ m'. run m' cs)

  abbrev IsSound : Monitor F → Type 0
  IsSound m = IsFollowed m.sent m.keys

  call-IsSound :
      (m : Monitor F) (c : Call) → IsSound m → (call m c).0 ≡ ok tt → IsSound (call m c).1
  call-IsSound m (change d c p) v done = unfold call in update-IsFollowed m.sent m.keys d c p v done
  call-IsSound m (unplug d) v done = unfold call in disconnect-IsFollowed m.sent m.keys d v done
  call-IsSound m take_events v done = unfold call in drain-IsFollowed m.sent m.keys v

  run-IsSound :
      (m : Monitor F) (cs : List Call) → IsSound m → (run m cs).0 ≡ ok tt → IsSound (run m cs).1
  unfolding run
  run-IsSound m [] v done = v
  run-IsSound m (c ∷ cs) v done =
      let (_, first, both) = and_then-eq-ok (call m c) (λ _ m'. run m' cs) done in
      rw both
        (run-IsSound (call m c).1 cs (call-IsSound m c v first) (ap (λ o. o.0) (sym both) ∙ done))

abbrev pub new : {F : Type 0} → Monitor F
new = record { sent = []; keys = none_held }

new-IsSound : {F : Type 0} → IsSound (new {F = F})
unfolding none_held
new-IsSound = record { agrees = λ code. refl; ranged = λ code h. cc }

contains-held :
    {F : Type 0} (k : PhysicalKeys F) (code : ℕ) → contains (held k) code ≡ any_holds k.devices code
unfolding held
contains-held k code = ground (arith, contains-held_in k.devices [] code)

-- After any calls that succeed, on any number of keyboards plugged in and out, `held` lists
-- exactly the keys that are down by the events drained so far and those that still wait, and
-- all of them are keyboard codes.
pub held-reported :
    (F : Type 0) (cs : List Call) (code : ℕ)
    → (run (new {F = F}) cs).0 ≡ ok tt
    → let m = (run (new {F = F}) cs).1 in
      (contains (held m.keys) code ≡ reported (m.sent ++ m.keys.pending) code false)
      × ((not (contains (held m.keys) code) || in_range 1 255 code) ≡ true)
held-reported F cs code done =
    let m = (run (new {F = F}) cs).1 in
    let v = run-IsSound new cs new-IsSound done in
    (
      contains-held m.keys code ∙ sym (v.agrees code),
      ground (arith, v.ranged code, contains-held m.keys code),
    )
