-- ===== src/Bridge/Coordinator/Ending.antt =====
-- src/bridge.rs, `coordinate_with_control`: what is done and left after its loop, however that ended.
use niri_bridge.Prelude.{
  Bool-cases, Result, ok, err, ℕ, ◌≡◌, refl, ap, ◌∙◌, inl, inr, Bool, true, false, Option, none,
  List, [], arith,
}
use niri_bridge.Prelude.Action.{◌>>=◌, ◌>>◌, done, lift, get, modify, when, attempt, finally}
use niri_bridge.Prelude.Sets.{contains}
use niri_bridge.Float.{Float}
use niri_bridge.Receiver as Receiver
use niri_bridge.Receiver.{InputSink, Receiver, no_session}
use niri_bridge.Bridge.Coordinator.{
  World, Coordinator, in_world, change_world, with_receiver, drop_task, stop_capture,
}
use niri_bridge.Receiver.Safe.{IsHonest, IsSafe}
use niri_bridge.Prelude.Triple.{After, Leads, always}
use niri_bridge.Bridge.Coordinator.View.{Safe}
use niri_bridge.Input.Control.{Mode, disconnected, is_active, is_sending, is_receiving}
use niri_bridge.Receiver.Calls.{stop-IsSafe}
use niri_bridge.Receiver.Session.{stop_ends, stop_releases}
use niri_bridge.Bridge.Coordinator.Run.{after_loop}

not_active : (m : Mode) → is_sending m ≡ false → is_receiving m ≡ false → is_active m ≡ false
not_active m h k = ground arith

module _ {F S W P : Type 0} ⦃fl : Float F⦄ (sk : InputSink F S) (down : S → ℕ → Bool)
    (honest : IsHonest sk down) (w : World F W P) where
  -- What is left at the end of a session.
  abbrev pub Ended : Coordinator F S W P → Type 0
  Ended c = IsSafe down c.receiver × (c.receiver.session ≡ none)

  stop_capture-receiver : (c : Coordinator F S W P) → (stop_capture sk w c).1.receiver ≡ c.receiver
  unfolding stop_capture drop_task in_world when modify get done ◌>>=◌ ◌>>◌
  stop_capture-receiver c = elim (Bool-cases c.capture) [
    | inl on ↦ rw on refl
    | inr off ↦ rw off refl
  ]

  verdict :
      (stopped released : Result (Unit {0})) (outcome : Result (Option Bool))
      (c : Coordinator F S W P)
      → let o = (lift stopped >> (lift released >> lift outcome)) c in
        (o.1 ≡ c) × ((again : Option Bool) → o.0 ≡ ok again → released ≡ ok tt)
  unfolding lift ◌>>◌
  verdict (ok a) (ok b) outcome c = (refl, λ again h. refl)
  verdict (ok a) (err e) outcome c = (refl, λ again h. cc)
  verdict (err e) released outcome c = (refl, λ again h. cc)

  after_loop_lem :
      (outcome : Result (Option Bool)) (c : Coordinator F S W P)
      → let o = after_loop sk w outcome c in
        (o.1.receiver ≡ (Receiver.stop sk disconnected c.receiver).1)
        × ((again : Option Bool)
            → o.0 ≡ ok again
            → (Receiver.stop sk disconnected c.receiver).0 ≡ ok tt)
  unfolding after_loop finally attempt with_receiver change_world ◌>>=◌ ◌>>◌
  after_loop_lem outcome c =
      let stopped = Receiver.stop sk disconnected c.receiver in
      let left = record c { receiver = stopped.1; world = w.suspend c.world } in
      let s = stop_capture sk w left in
      let (same, good) = verdict s.0 stopped.0 outcome s.1 in
      (ap (λ (d : Coordinator F S W P). d.receiver) same ∙ stop_capture-receiver left, good)

  pub after_state :
      {A : Type 0} {Q : A → Coordinator F S W P → Type 0} (R : Coordinator F S W P → Type 0)
      (o : Result A × Coordinator F S W P)
      → ((a : A) (c : Coordinator F S W P) → Q a c → R c)
      → ((c : Coordinator F S W P) → Safe down c → R c)
      → After (Safe down) Q o
      → R o.1
  after_state R (ok a, c) good bad h = good a c h
  after_state R (err e, c) good bad h = bad c h

  -- A property of the state after a success.
  clean-After :
      (o : Result (Option Bool) × Coordinator F S W P)
      → ((again : Option Bool) → o.0 ≡ ok again → (code : ℕ) → down o.1.receiver.sink code ≡ false)
      → After (λ _. Unit {0}) (λ _ c. (code : ℕ) → down c.receiver.sink code ≡ false) o
  clean-After (ok a, c) h = h a refl
  clean-After (err e, c) h = tt

  pub when_ok :
      {A : Type 0} (R : Coordinator F S W P → Type 0) (o : Result A × Coordinator F S W P) (a : A)
      → o.0 ≡ ok a
      → After (λ _. Unit {0}) (λ _. R) o
      → R o.1
  when_ok R (ok b, c) a e h = h
  when_ok R (err m, c) a e h = cc

  pub After-any :
      {A : Type 0} (o : Result A × Coordinator F S W P) → After Ended (λ _. Ended) o → Ended o.1
  After-any (ok a, c) h = h
  After-any (err e, c) h = h

  -- After the loop the session is over, however the loop ended.
  ends :
      (outcome : Result (Option Bool)) (c : Coordinator F S W P)
      → Safe down c
      → Ended (after_loop sk w outcome c).1
  ends outcome c safe =
      let same = (after_loop_lem outcome c).0 in
      (
        rw same (stop-IsSafe sk down honest disconnected c.receiver safe),
        rw same (stop_ends sk disconnected c.receiver).0,
      )

  -- A code that is down out of a session waits for its release.
  pub Ended-waits :
      (c : Coordinator F S W P) (code : ℕ)
      → Ended c
      → down c.receiver.sink code ≡ true
      → contains c.receiver.pending_releases code ≡ true
  Ended-waits c code (safe, out) h =
      let idle = session_idle c.receiver safe out in
      ground (arith, safe.covered code h, ap (λ (k : List ℕ). contains k code) idle)
    where
      session_idle : (r : Receiver S) → IsSafe down r → r.session ≡ none → r.state.held.keys ≡ []
      session_idle r v out = v.control.idle (
          not_active r.state.mode v.never_sends (ground (arith, v.session_mode, ap no_session out)))

  pub after_run :
      (outcome : Result (Option Bool))
      → Leads Ended (Safe down) (after_loop sk w outcome) (λ _. Ended)
  after_run outcome = always (λ c h. h) (λ c h. ends outcome c h)

  pub clean_lem :
      (outcome : Result (Option Bool))
      → Leads
          (λ _. Unit {0})
          (Safe down)
          (after_loop sk w outcome)
          (λ _ c. (code : ℕ) → down c.receiver.sink code ≡ false)
  clean_lem outcome = record {
    runs = λ c h.
        let (same, good) = after_loop_lem outcome c in
        clean-After (after_loop sk w outcome c) (λ again e code.
          rw same (stop_releases sk down honest disconnected c.receiver code h (good again e)).0);
  }
