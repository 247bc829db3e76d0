-- ===== src/Touchpad/Virtual/Emitting.antt =====
-- src/touchpad.rs: what a virtual touchpad writes, and the state that it is left in.
use mathlib.Core.Path.{subst}
use niri_bridge.Touchpad.State as State
use niri_bridge.Touchpad.Virtual.Releasing.{releases-Admitted}
use niri_bridge.Touchpad.Clock.{unset, map_time}
use niri_bridge.Prelude.{
  leb, Bool-cases, Result-cases, inl, inr, Result, ok, err, ℕ, ◌-◌, min, max, ◌≡◌, refl, sym, true,
  ◌&&◌, some, List,
}
use niri_bridge.Prelude.Action.{Action, ◌>>=◌, ◌>>◌, lift, get, modify, check}
use niri_bridge.Prelude.Triple.{After, Leads, bind, seq, read, always, modifies, After-map}
use niri_bridge.Touchpad.Event.{Event, kernel_events}
use niri_bridge.Touchpad.Descriptor.{validate_device_frame}
use niri_bridge.Touchpad.State.{TouchState, new, apply, releases}
use niri_bridge.Touchpad.Virtual.{
  Uinput, VirtualTouchpad, kernel, emit_at, emit, emit_remote, reset,
}
use niri_bridge.Touchpad.Virtual.Fitting.{IsFitting, apply-IsFitting, new-IsFitting}

abbrev pub IsSound : {D : Type 0} → VirtualTouchpad D → Type 0
IsSound pad = IsFitting pad.descriptor pad.state

module _ {W D : Type 0} (k : Uinput W D) where
  -- A frame was written to the device, as kernel events with the time that is kept: not before the
  -- last one but for the clock, and the clock's, or up to 200 milliseconds before it, where the
  -- frame has such a time. It was applied to the state.
  pub record Written (events : List Event) (time : ℕ) (s s' : VirtualTouchpad D × W) : Type 0 where
    pub now : ℕ
    pub read_at : W
    pub state : TouchState
    clock : k.monotonic_us s.1 ≡ (ok now, read_at)
    prompt : (leb time now && leb (now - time) 200000) ≡ true
    taken :
        k.emit s.0.device (kernel_events (min (max time s.0.last_time) now) events) read_at
        ≡ (ok tt, s'.1)
    advanced : apply events s.0.state ≡ some state
    pub fitting : IsFitting s.0.descriptor state
    pub same : s'.0 ≡ record s.0 { state = state; last_time = min (max time s.0.last_time) now }

  kernel-keeps :
      {E P : VirtualTouchpad D → Type 0} {A : Type 0} (action : Action W A)
      → ((pad : VirtualTouchpad D) → P pad → E pad)
      → Leads (λ s. E s.0) (λ s. P s.0) (kernel k action) (λ _ s. P s.0)
  kernel-keeps action fails = always (λ s h. fails s.0 h) (λ s h. h)

  -- What `emit_at` leaves, where it succeeds and where it fails.
  abbrev Emitted :
      List Event → ℕ → VirtualTouchpad D × W → Result (Unit {0}) × (VirtualTouchpad D × W) → Type 0
  Emitted events time s o = After (λ t. t.0 ≡ s.0) (λ (_ : Unit {0}) t. Written events time s t) o

  -- A frame for a sound touchpad is refused or fails with the touchpad as it was, or the device
  -- took its events, with a time that is not after the clock that was read, and it is applied
  -- without a panic. The time of the frame is at most 200 milliseconds before that clock, and the
  -- time that is written goes back behind the last one only where the clock does.
  pub emit_at_lem :
      (events : List Event) (time : ℕ) (s : VirtualTouchpad D × W)
      → IsSound s.0
      → After {S = VirtualTouchpad D × W}
          (λ t. t.0 ≡ s.0)
          (λ (_ : Unit {0}) t. Written events time s t)
          (emit_at k events time s)
  unfolding emit_at ◌>>=◌ ◌>>◌ get lift check modify
  emit_at_lem events time (pad, w) sound =
      elim (Result-cases (validate_device_frame pad.descriptor events)) [
        | inr (m, bad) ↦ rw bad refl
        | inl (_, valid) ↦ clocked valid (k.monotonic_us w) refl
      ]
    where
      written :
          validate_device_frame pad.descriptor events ≡ ok tt
          → (now : ℕ) (w₁ : W) → k.monotonic_us w ≡ (ok now, w₁)
          → (leb time now && leb (now - time) 200000) ≡ true
          → (o : Result (Unit {0}) × W)
          → k.emit pad.device (kernel_events (min (max time pad.last_time) now) events) w₁ ≡ o
          → Emitted events time (pad, w) (emit_at k events time (pad, w))
      written valid now w₁ read prompt (err m, w₂) e = rw (valid, read, prompt, e) refl
      written valid now w₁ read prompt (ok tt, w₂) e =
          let (state, advanced, fitting) =
            apply-IsFitting pad.descriptor events pad.state valid sound in
          rw (valid, read, prompt, e, advanced)
            (record {
              now = now;
              read_at = w₁;
              state = state;
              clock = read;
              prompt = prompt;
              taken = e;
              advanced = advanced;
              fitting = fitting;
              same = refl;
            })

      clocked :
          validate_device_frame pad.descriptor events ≡ ok tt
          → (o : Result ℕ × W) → k.monotonic_us w ≡ o
          → Emitted events time (pad, w) (emit_at k events time (pad, w))
      clocked valid (err m, w₁) e = rw (valid, e) refl
      clocked valid (ok now, w₁) e = elim (Bool-cases (leb time now && leb (now - time) 200000)) [
        | inr late ↦ rw (valid, e, late) refl
        | inl prompt ↦
            written valid now w₁ e prompt
              (k.emit pad.device (kernel_events (min (max time pad.last_time) now) events) w₁) refl
      ]

  Written-IsSound :
      (events : List Event) (time : ℕ) (s s' : VirtualTouchpad D × W)
      → Written events time s s'
      → IsSound s'.0
  Written-IsSound events time s s' w =
      subst (λ (p : VirtualTouchpad D). IsSound p) (sym w.same) w.fitting

  pub emit_at-IsSound :
      (events : List Event) (time : ℕ)
      → Leads (λ s. IsSound s.0) (λ s. IsSound s.0) (emit_at k events time) (λ _ s. IsSound s.0)
  emit_at-IsSound events time = record {
    runs = λ s sound.
        After-map _ _ _ _ (emit_at k events time s) (emit_at_lem events time s sound)
          (λ t same. (rw (sym same) at sound)) (λ _ t w. Written-IsSound events time s t w);
  }

  pub emit-IsSound :
      (events : List Event)
      → Leads (λ s. IsSound s.0) (λ s. IsSound s.0) (emit k events) (λ _ s. IsSound s.0)
  unfolding emit
  emit-IsSound events =
      bind _ (kernel-keeps k.monotonic_us (λ p h. h)) (λ now. emit_at-IsSound events now)

  remote-IsSound :
      (events : List Event) (time : ℕ)
      → Leads (λ s. IsSound s.0) (λ s. IsSound s.0) (emit_remote k events time) (λ _ s. IsSound s.0)
  unfolding emit_remote
  remote-IsSound events time = bind _ (kernel-keeps k.monotonic_us (λ p h. h)) (λ now.
      read (λ s sound.
        seq _ (modifies _ (λ t h. h))
          (emit_at-IsSound events (map_time s.0.remote_clock time now).0)))

  pub reset-IsSound : Leads (λ s. IsSound s.0) (λ s. IsSound s.0) (reset k) (λ _ s. IsSound s.0)
  unfolding reset
  reset-IsSound = read (λ s sound.
      seq _ (emit-IsSound (releases s.0.state))
        (modifies _ (λ t h. new-IsFitting t.0.descriptor h.valid)))

  -- The methods of a virtual touchpad keep it sound, whether they succeed or fail: its descriptor
  -- valid, its state fitting the descriptor, and the keys that are down advertised by it.
  methods-IsSound :
      (s : VirtualTouchpad D × W)
      → IsSound s.0
      → ((events : List Event) → IsSound (emit k events s).1.0)
        × ((events : List Event) (time : ℕ) → IsSound (emit_remote k events time s).1.0)
        × IsSound (reset k s).1.0
  methods-IsSound s sound = (
    λ events. ended_sound (emit k events s) ((emit-IsSound events).runs s sound),
    λ events time.
        ended_sound (emit_remote k events time s) ((remote-IsSound events time).runs s sound),
    ended_sound (reset k s) (reset-IsSound.runs s sound),
  )
    where
      ended_sound :
          (o : Result (Unit {0}) × (VirtualTouchpad D × W))
          → After (λ t. IsSound t.0) (λ _ t. IsSound t.0) o
          → IsSound o.1.0
      ended_sound (ok _, t) h = h
      ended_sound (err e, t) h = h

  -- Where the kernel's clock works and does not go back by a step or on by more than 200
  -- milliseconds in between, and the device takes the frame: a sound touchpad's reset is never
  -- refused by the touchpad's own checks, whatever its state. The releases of the state are
  -- written, the state is that of a new touchpad, and the remote clock is unset.
  pub reset_works :
      (pad : VirtualTouchpad D) (w w₁ w₂ w₃ : W) (now later : ℕ)
      → IsSound pad
      → k.monotonic_us w ≡ (ok now, w₁)
      → k.monotonic_us w₁ ≡ (ok later, w₂)
      → (leb now later && leb (later - now) 200000) ≡ true
      → let time = min (max now pad.last_time) later in
        k.emit pad.device (kernel_events time (releases pad.state)) w₂ ≡ (ok tt, w₃)
        → reset k (pad, w) ≡ (
          ok tt,
          (
            record pad { state = State.new pad.descriptor; remote_clock = unset; last_time = time },
            w₃,
          ),
        )
  unfolding reset emit emit_at ◌>>=◌ ◌>>◌ get lift check modify
  reset_works pad w w₁ w₂ w₃ now later sound first second prompt taken =
      let valid = releases-Admitted pad.descriptor pad.state sound in
      let (state, advanced, _) =
        apply-IsFitting pad.descriptor (releases pad.state) pad.state valid sound in
      rw (first, valid, second, prompt, taken, advanced) refl
