-- ===== src/Touchpad/Capture/Keeps.antt =====
-- src/touchpad.rs, `Router::sample`: what one touchpad's round keeps.
use niri_bridge.Prelude.Action.{Action}
use niri_bridge.Prelude.Int.{pos, eqb_ℤ}
use niri_bridge.Touchpad.Physical.Reading.{Gives, anything, read_state-Gives}
use mathlib.Core.Path.{subst}
use niri_bridge.Prelude.{
  ltb, leb, ◌==◌, length, Result, ok, err, context, ℕ, ◌%◌, ◌<◌, String, ◌≡◌, sym, ap, ◌∙◌, Bool,
  true, false, ◌&&◌, not, Option, none, some, List, [], ◌∷◌, ◌++◌,
}
use niri_bridge.Prelude.All.{ok-injective}
use niri_bridge.Prelude.Triple.{
  After, Leads, bind, seq, read, read_exact, before, after, always, returns, skips, modifies,
  fails_with, branch, lifted, confirmed, given, checks,
}
use niri_bridge.Touchpad.Event.{Event, touch_key, touch_axis}
use niri_bridge.Touchpad.Descriptor.{slots, validate_device_frame}
use niri_bridge.Touchpad.State.{TouchState, apply, idle}
use niri_bridge.Touchpad.Physical.{RawEvent, Evdev, touch_keys, release_physical, read_state}
use niri_bridge.Touchpad.Virtual.{Uinput, emit_at}
use niri_bridge.Touchpad.Capture.{
  PhysicalTouchpad, View, is_empty, u64, on_world, on_mirror, fetch_all, fetch_fuel, deliver,
  flush_frame, push_event, take_event, sample_event, sample_events, discard, take_pad, taken,
  grab_pad, acquire, with_events, sample_pad,
}

-- The steps that a touchpad's round is made of keep what holds of the view.
pub record Closed {W R D : Type 0} (kernel : Evdev W R) (uinput : Uinput W D) (index : ℕ)
    (remote : Bool) (I : View W R D → Type 0) : Type 0 where
  pub world : (v : View W R D) (w : W) → I v → I (record v { world = w })
  pub frame :
      (v : View W R D) (frame : List Event)
      → I v
      → I (record v { pad = record v.pad { frame = frame } })
  pub state :
      (v : View W R D) (frame : List Event) (s : TouchState)
      → validate_device_frame v.pad.descriptor frame ≡ ok tt
      → apply frame v.pad.state ≡ some s
      → I v
      → I (record v { pad = record v.pad { state = s } })
  pub capture :
      (v : View W R D) (frame : List Event) (time : ℕ)
      → remote ≡ true
      → validate_device_frame v.pad.descriptor frame ≡ ok tt
      → ltb (length v.pending) 128 ≡ true
      → I v
      → I (record v {
        pending = v.pending ++ record { index = index % 256; time = time; events = frame } ∷ [];
      })
  pub mirror :
      (v : View W R D) (frame : List Event) (time : ℕ)
      → remote ≡ false
      → I v
      → I (on_mirror kernel uinput (emit_at uinput frame time) v).1
  pub take :
      (v : View W R D) (s : TouchState)
      → s.slot < length s.contacts
      → length s.contacts ≡ slots v.pad.descriptor
      → idle s ≡ true
      → I v
      → I (record v { pad = record v.pad { state = s; grabbed = true } })

context-ok :
    {A : Type 0} (o : Option A) (message : String) (a : A) → context o message ≡ ok a → o ≡ some a
context-ok none message a h = cc
context-ok (some b) message a h = ap (λ c. some c) (ok-injective b a h)

module _ {W R D : Type 0} (kernel : Evdev W R) (uinput : Uinput W D) (E J : View W R D → Type 0)
    (fails : (v : View W R D) → J v → E v)
    (closed : (v : View W R D) (w : W) → J v → J (record v { world = w })) where
  world-After :
      {A : Type 0} (Q : A → Type 0) (o : Result A × W) (v : View W R D)
      → After (λ _. Unit {0}) (λ a _. Q a) o
      → J v
      → After E (λ a t. J t × Q a) (o.0, record v { world = o.1 })
  world-After Q (ok a, w) v h k = (closed v w k, h)
  world-After Q (err e, w) v h k = fails (record v { world = w }) (closed v w k)

  -- What the kernel does keeps what holds of the view.
  pub on_world-keeps :
      {A : Type 0} (Q : A → Type 0) (action : Action W A)
      → Gives Q action
      → Leads E J (on_world kernel uinput action) (λ a t. J t × Q a)
  on_world-keeps Q action h = record {
    runs = λ v k. world-After Q (action v.world) v (h.runs v.world tt) k;
  }

module _ {W R D : Type 0} (kernel : Evdev W R) (uinput : Uinput W D) (index : ℕ) (remote : Bool)
    (I : View W R D → Type 0) (c : Closed kernel uinput index remote I) where
  deliver-keeps :
      (v : View W R D) (frame : List Event) (time : ℕ)
      → validate_device_frame v.pad.descriptor frame ≡ ok tt
      → ltb (length v.pending) 128 ≡ true
      → I v
      → Leads I (λ t. t ≡ v) (deliver kernel uinput index remote frame time) (λ _ t. I t)
  deliver-keeps v frame time valid room h =
      branch remote
        (λ yes. modifies _ (λ t e.
          subst
            (λ (u : View W R D). I (record u {
              pending =
                  u.pending ++ record { index = index % 256; time = time; events = frame } ∷ [];
            }))
            (sym e) (c.capture v frame time yes valid room h)))
        (λ no.
          always (λ t k. k)
            (λ t e.
              subst
                (λ (u : View W R D). I (on_mirror kernel uinput (emit_at uinput frame time) u).1)
                (sym e) (c.mirror v frame time no h)))

  flush_frame-keeps :
      (time : Option ℕ) → Leads I I (flush_frame kernel uinput index remote time) (λ _ t. I t)
  unfolding flush_frame
  flush_frame-keeps time = read_exact (λ v h.
      let frame = v.pad.frame in
      let v₁ = record v { pad = record v.pad { frame = [] } } in
      let h₁ = c.frame v [] h in
      seq _ (checks (ltb (length v.pending) 128) _ (λ t e. subst I (sym e) h)) (
        given (λ room.
          seq _ {Q = λ t. t ≡ v₁}
            (modifies _
              (λ t e. ap (λ (u : View W R D). record u { pad = record u.pad { frame = [] } }) e))
            (seq _
              (confirmed (validate_device_frame v.pad.descriptor frame) (λ t e. subst I (sym e) h₁))
              (given (λ valid.
                bind _ (lifted (context (apply frame v.pad.state) _) (λ t e. subst I (sym e) h₁))
                  (λ s. given (λ found.
                    let h₂ = c.state v₁ frame s valid (context-ok _ _ s found) h₁ in
                    let v₂ = record v₁ { pad = record v₁.pad { state = s } } in
                    seq _ {Q = λ t. t ≡ v₂}
                      (modifies _ (λ t e.
                        ap (λ (u : View W R D). record u { pad = record u.pad { state = s } }) e))
                      (bind _ (lifted (context time _) (λ t e. subst I (sym e) h₂))
                        (λ us. given (λ _. deliver-keeps v₂ frame (u64 us) valid room h₂)))))))))))

  push_event-keeps : (e : Event) → Leads I I (push_event kernel uinput e) (λ _ t. I t)
  unfolding push_event
  push_event-keeps e = modifies _ (λ t h. c.frame t (t.pad.frame ++ e ∷ []) h)

  take_event-keeps :
      (e : RawEvent) → Leads I I (take_event kernel uinput index remote e) (λ _ t. I t)
  unfolding take_event
  take_event-keeps e = read (λ v _.
      branch (e.kind == 0 && e.code == 3) (λ _. fails_with _ (λ t h. h))
        (λ _.
          branch (e.kind == 0 && e.code == 0 && not (is_empty v.pad.frame))
            (λ _. flush_frame-keeps e.time)
            (λ _.
              branch (e.kind == 1 && touch_key e.code && not (eqb_ℤ e.value (pos 2)))
                (λ _. push_event-keeps _)
                (λ _.
                  branch (e.kind == 3 && touch_axis e.code) (λ _. push_event-keeps _)
                    (λ _. skips (λ t h. h))))))

  sample_event-keeps :
      (e : RawEvent) → Leads I I (sample_event kernel uinput index remote e) (λ _ t. I t)
  unfolding sample_event
  sample_event-keeps e = read (λ v _.
      branch v.pad.grabbed
        (λ _. seq _ (take_event-keeps e) (
          read (λ u _.
            seq _ (checks (leb (length u.pad.frame) 512) _ (λ t h. h)) (returns _ (λ t h. h.0)))))
        (λ _. returns false (λ t h. h)))

  sample_events-keeps :
      (events : List RawEvent)
      → Leads I I (sample_events kernel uinput index remote events) (λ _ t. I t)
  unfolding sample_events
  sample_events-keeps [] = returns false (λ t h. h)
  sample_events-keeps (e ∷ events) =
      bind _ (sample_event-keeps e)
        (λ now. bind _ (sample_events-keeps events) (λ later. returns _ (λ t h. h)))

  world_step :
      {A : Type 0} (action : Action W A) → Leads I I (on_world kernel uinput action) (λ _ t. I t)
  world_step action =
      after (λ a t h. h.0)
        (on_world-keeps kernel uinput I I (λ v h. h) c.world _ action (anything action))

  take_pad-keeps : Leads I I (take_pad kernel uinput) (λ _ t. I t)
  unfolding take_pad
  take_pad-keeps = read_exact (λ v h.
      let J = λ (t : View W R D). I t × (t.pad ≡ v.pad) in
      let reading =
        on_world-keeps kernel uinput I J (λ t k. k.0) (λ t w k. (c.world t w k.0, k.1)) _
          (read_state kernel v.pad.device v.pad.descriptor)
          (read_state-Gives kernel v.pad.device v.pad.descriptor) in
      bind _ (before (λ t e. (subst I (sym e) h, ap (λ (u : View W R D). u.pad) e)) reading) (λ s.
        given (λ sized.
          branch (idle s)
            (λ resting. modifies _ (λ t k.
              c.take t s sized.0
                (sized.1 ∙ ap (λ (p : PhysicalTouchpad R D). slots p.descriptor) (sym k.1)) resting
                k.0))
            (λ _.
              before (λ t k. k.0)
                (world_step (release_physical kernel v.pad.device v.pad.descriptor))))))

  taken-keeps : (emptied : Option (Unit {0})) → Leads I I (taken kernel uinput emptied) (λ _ t. I t)
  taken-keeps none = returns false (λ t h. h)
  taken-keeps (some _) = seq _ take_pad-keeps (returns true (λ t h. h))

  acquire-keeps : (fuel : ℕ) → Leads I I (acquire kernel uinput fuel) (λ _ t. I t)
  unfolding acquire grab_pad
  acquire-keeps fuel = read (λ v _.
      branch v.pad.grabbed (λ _. returns true (λ t h. h))
        (λ _. bind _ (world_step (kernel.key_state v.pad.device)) (λ down.
          branch (is_empty (touch_keys down))
            (λ _.
              seq _ (world_step (kernel.grab v.pad.device))
                (bind _ (world_step (discard kernel uinput fuel v.pad.device)) taken-keeps))
            (λ _. returns true (λ t h. h)))))

  with_events-keeps :
      (fuel : ℕ) (events : Option (List RawEvent))
      → Leads I I (with_events kernel uinput fuel index remote events) (λ _ t. I t)
  with_events-keeps fuel none = returns none (λ t h. h)
  with_events-keeps fuel (some events) =
      bind _ (sample_events-keeps events)
        (λ active. bind _ (acquire-keeps fuel) (λ done. returns _ (λ t h. h)))

  -- A touchpad's round of `sample` keeps what its steps keep, whether it succeeds or fails.
  pub sample_pad-keeps :
      (fuel : ℕ) → Leads I I (sample_pad kernel uinput fuel index remote) (λ _ t. I t)
  unfolding sample_pad
  sample_pad-keeps fuel = read (λ v _.
      bind _ (world_step (fetch_all kernel uinput (fetch_fuel kernel uinput) v.pad.device []))
        (with_events-keeps fuel))
