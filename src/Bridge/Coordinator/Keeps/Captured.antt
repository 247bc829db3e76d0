-- ===== src/Bridge/Coordinator/Keeps/Captured.antt =====
-- src/bridge.rs, `coordinate_with_control`: the capture worker's events keep the invariant.
use niri_bridge.Prelude.{
  ◌==◌, if◌then◌else◌, Bool-cases, ℕ, String, ◌≡◌, refl, sym, ap, ◌∙◌, inl, inr, Bool, true, false,
  ◌&&◌, not, some, List, arith,
}
use niri_bridge.Float.{Float}
use niri_bridge.Protocol.Event.{InputEvent, key}
use niri_bridge.Receiver.{InputSink, position}
use niri_bridge.Bridge.Edges.{EdgeConfig}
use niri_bridge.Bridge.Role.{Role, local, sending, receiving}
use niri_bridge.Bridge.Coordinator.{World, is_sending_role, stop_capture}
use niri_bridge.Receiver.Safe.{IsHonest}
use niri_bridge.Prelude.Triple.{Leads, bind, seq, read, before, after, skips, either, repeats}
use niri_bridge.Bridge.Coordinator.View.{
  View, IsValid, home-IsValid, Safe, Sees, Sound, IsQuiet, bind-IsQuiet, seq-IsQuiet, lift-IsQuiet,
  pure-IsQuiet, get-IsQuiet, check-IsQuiet, when-IsQuiet, in_world-IsQuiet, with_world-IsQuiet,
  edge_at-IsQuiet, modify-IsQuiet, quietly,
}
use niri_bridge.Bridge.Coordinator.Steps.{
  uncaptured-IsValid, lands, from_Sound, Agrees-of, reads, ends-Sound, Sound-quietly, set_role_lem,
  send-IsQuiet, rearm-IsQuiet, place-IsQuiet, place_back-IsQuiet, stop_capture_lem, end_lem,
  leave_lem,
}
use niri_bridge.Bridge.Coordinator.Sending.{send_input_lem, forward_lem}
use niri_bridge.Bridge.Coordinator.Captured.{
  CaptureEvent, armed, started, ready, input, finished, is_key, is_emergency, or_no_keys,
  take_session, forward_initial, begin_sending, begin_unless, cross_out, cross_back, cross,
  on_started, on_captured_input, on_finished, captured, on_captured,
}

module _ {F S W P : Type 0} ⦃fl : Float F⦄ (sk : InputSink F S) (down : S → ℕ → Bool)
    (honest : IsHonest sk down) (w : World F W P) where
  take_session-IsQuiet : IsQuiet down (take_session {S = S} sk w)
  unfolding take_session
  take_session-IsQuiet = bind-IsQuiet down (get-IsQuiet down) (λ c.
      bind-IsQuiet down (lift-IsQuiet down _) (λ next.
        seq-IsQuiet down (modify-IsQuiet down _ (λ v d h. record { safe = h.safe; sees = h.sees }))
          (pure-IsQuiet down c.next_session)))

  forward_initial_lem :
      (codes : List ℕ)
      → Leads (Safe down) (Sound down) (forward_initial sk w codes) (λ _. Sound down)
  unfolding forward_initial
  forward_initial_lem codes = repeats codes (λ code.
      seq (Safe down) (after (λ b c h. h.0) (forward_lem sk down honest w (key code true)))
        (skips (λ c h. h)))

  sending-IsValid :
      (v : View F) (session edge : ℕ) (fraction : F)
      → IsValid v
      → v.role ≡ local
      → v.pending ≡ false
      → (v.local_ready && v.peer_ready) ≡ true
      → IsValid (record v { role = sending session 0 edge fraction })
  sending-IsValid v session edge fraction valid idle free unlocked = record {
    agrees = (rw idle at valid.agrees);
    unlocked = λ h. unlocked;
    quiet = λ h. absurd (ground (arith, free));
  }

  begin_sending_lem :
      (v : View F) (edge : ℕ) (selected : EdgeConfig F) (fraction : F) (keys : List ℕ)
      → IsValid v
      → v.role ≡ local
      → v.pending ≡ false
      → (v.local_ready && v.peer_ready) ≡ true
      → Leads
          (Safe down)
          (Sees down v)
          (begin_sending sk w edge selected fraction keys)
          (λ _. Sound down)
  unfolding begin_sending
  begin_sending_lem v edge selected fraction keys valid idle free unlocked =
      bind (Safe down) (quietly down take_session-IsQuiet) (λ session.
        seq (Safe down) (quietly down (send-IsQuiet down sk honest w _)) (
          seq (Safe down)
            (ends-Sound down (sending-IsValid v session edge fraction valid idle free unlocked)
              (set_role_lem down v (sending session 0 edge fraction)))
            (seq (Safe down)
              (Sound-quietly down
                (modify-IsQuiet down _ (λ u c h. record { safe = h.safe; sees = h.sees })))
              (forward_initial_lem keys))))

  stops_lem :
      (v : View F)
      → IsValid v
      → Leads (Safe down) (Sees down v) (stop_capture sk w) (λ _. Sound down)
  stops_lem v valid =
      ends-Sound down (uncaptured-IsValid v valid) (stop_capture_lem down sk honest w v)

  cross_out_lem :
      (v : View F) (edge : ℕ) (selected : EdgeConfig F) (fraction : F)
      → IsValid v
      → v.role ≡ local
      → v.pending ≡ false
      → (v.local_ready && v.peer_ready) ≡ true
      → Leads (Safe down) (Sees down v) (cross_out sk w edge selected fraction) (λ _. Sound down)
  unfolding cross_out begin_unless
  cross_out_lem v edge selected fraction valid idle free unlocked =
      seq (Safe down) (quietly down (in_world-IsQuiet down w.sample)) (
        reads down (λ c same.
          seq (Safe down) (quietly down (with_world-IsQuiet down w.take_keyboard_events)) (
            begins (or_no_keys (w.keyboard_state c.world))
              (is_emergency (or_no_keys (w.keyboard_state c.world))))))
    where
      begins :
          (keys : List ℕ) (emergency : Bool)
          → Leads
              (Safe down)
              (Sees down v)
              (begin_unless sk w emergency edge selected fraction keys)
              (λ _. Sound down)
      begins keys true =
          seq (Safe down) (stops_lem v valid) (Sound-quietly down (rearm-IsQuiet down sk honest w))
      begins keys false = begin_sending_lem v edge selected fraction keys valid idle free unlocked

  cross_back_lem :
      (v : View F) (session : ℕ) (selected : EdgeConfig F) (fraction : F)
      → v.session ≡ some session
      → Leads
          (Safe down)
          (Sees down v)
          (cross_back sk w session selected fraction)
          (λ _. Sound down)
  unfolding cross_back
  cross_back_lem v session selected fraction runs =
      ends-Sound down (home-IsValid _ (refl, refl, refl)) (
        seq (Safe down) (end_lem down sk honest w v session (inr runs)) (
          seq (Safe down) (quietly down (send-IsQuiet down sk honest w _)) (
            seq (Safe down) (set_role_lem down _ local) (
              seq (Safe down) (stop_capture_lem down sk honest w _) (
                seq (Safe down) (quietly down (place-IsQuiet down sk honest w selected fraction))
                  (quietly down (rearm-IsQuiet down sk honest w)))))))

  cross_lem :
      (v : View F) (role : Role F) (edge : ℕ) (selected : EdgeConfig F) (fraction : F)
      → v.role ≡ role
      → IsValid v
      → v.pending ≡ false
      → Leads (Safe down) (Sees down v) (cross sk w role edge selected fraction) (λ _. Sound down)
  unfolding cross
  cross_lem v local edge selected fraction e valid free = reads down (λ c same.
      crosses (c.local_ready && c.peer_ready)
        (λ h. ap (λ (u : View F). u.local_ready && u.peer_ready) (sym same) ∙ h))
    where
      crosses :
          (b : Bool)
          → (b ≡ true → (v.local_ready && v.peer_ready) ≡ true)
          → Leads
              (Safe down)
              (Sees down v)
              (if b then cross_out sk w edge selected fraction else stop_capture sk w)
              (λ _. Sound down)
      crosses true unlocked = cross_out_lem v edge selected fraction valid e free (unlocked refl)
      crosses false unlocked = stops_lem v valid
  cross_lem v (receiving session) edge selected fraction e valid free =
      cross_back_lem v session selected fraction (rw e at valid.agrees)
  cross_lem v (sending session sequence origin position) edge selected fraction e valid free =
      stops_lem v valid

  on_started_lem :
      (v : View F) (index : ℕ) (fraction : F) (available : List ℕ)
      → IsValid v
      → v.pending ≡ false
      → Leads (Safe down) (Sees down v) (on_started sk w index fraction available) (λ _. Sound down)
  unfolding on_started
  on_started_lem v index fraction available valid free = reads down (λ c same.
      bind (Safe down) (quietly down (lift-IsQuiet down _)) (λ edge.
        seq (Safe down) (quietly down (check-IsQuiet down _ "Capture edge is no longer available"))
          (bind (Safe down) (quietly down (edge_at-IsQuiet down edge)) (λ selected.
            cross_lem v c.role edge selected fraction (ap (λ (u : View F). u.role) (sym same)) valid
              free))))

  on_captured_input_lem :
      (age : ℕ) (event : InputEvent F)
      → Leads (Safe down) (Sound down) (on_captured_input sk w age event) (λ _. Sound down)
  unfolding on_captured_input
  on_captured_input_lem age event = read (λ c h.
      either (not (c.physical_keyboard && is_key event) && is_sending_role c.role)
        (λ _.
          seq (Safe down) (Sound-quietly down (check-IsQuiet down _ _))
            (send_input_lem sk down honest w event))
        (λ _ d g. g))

  on_finished_lem :
      (reason : String) → Leads (Safe down) (Sound down) (on_finished sk w reason) (λ _. Sound down)
  unfolding on_finished
  on_finished_lem reason = from_Sound down (λ v valid. reads down (λ c same.
      ends-Sound down (home-IsValid _ (refl, refl, refl)) (
        seq (Safe down) (leave_lem down sk honest w v c.role (Agrees-of down v c valid same)) (
          seq (Safe down) (set_role_lem down _ local) (
            seq (Safe down) (stop_capture_lem down sk honest w _) (
              seq (Safe down)
                (quietly down (when-IsQuiet down _ (place_back-IsQuiet down sk honest w c.role)))
                (quietly down (rearm-IsQuiet down sk honest w))))))))

  captured_lem :
      (v : View F) (age : ℕ) (available : List ℕ) (event : CaptureEvent F)
      → IsValid v
      → v.pending ≡ false
      → Leads (Safe down) (Sees down v) (captured sk w age available event) (λ _. Sound down)
  unfolding captured
  captured_lem v age available (started edge fraction) valid free =
      on_started_lem v edge fraction available valid free
  captured_lem v age available (input event) valid free =
      before (λ c h. lands down v c valid h) (on_captured_input_lem age event)
  captured_lem v age available (finished reason) valid free =
      before (λ c h. lands down v c valid h) (on_finished_lem reason)
  captured_lem v age available armed valid free =
      ends-Sound down valid
        (quietly down (modify-IsQuiet down _ (λ u c h. record { safe = h.safe; sees = h.sees })))
  captured_lem v age available ready valid free = skips (λ c h. lands down v c valid h)

  -- While a capture runs no layout is pending.
  capture-pending :
      (v : View F) (b : Bool) → IsValid v → v.capture ≡ b → b ≡ true → v.pending ≡ false
  capture-pending v b valid e h = elim (Bool-cases v.pending) [
    | inr free ↦ free
    | inl busy ↦ absurd (ground (arith, valid.quiet busy))
  ]

  pub on_captured_lem :
      (generation age : ℕ) (available : List ℕ) (event : CaptureEvent F)
      → Leads
          (Safe down)
          (Sound down)
          (on_captured sk w generation age available event)
          (λ _. Sound down)
  unfolding on_captured
  on_captured_lem generation age available event = from_Sound down (λ v valid. reads down (λ c same.
      either (generation == c.generation && c.capture)
        (λ on. captured_lem v age available event valid (
          capture-pending v c.capture valid (ap (λ (u : View F). u.capture) (sym same))
            (ground arith)))
        (λ _ d h. lands down v d valid h)))
