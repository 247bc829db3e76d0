-- ===== src/Bridge/Coordinator/Keeps/Round.antt =====
-- src/bridge.rs, `coordinate_with_control`: the start of a round keeps the invariant.
use niri_bridge.Prelude.{leb, ℕ, ◌≡◌, refl, ap, Bool, true, false, List, arith}
use niri_bridge.Float.{Float}
use niri_bridge.Receiver.{InputSink}
use niri_bridge.Bridge.Active.{has_output, active_edges}
use niri_bridge.Bridge.Role.{Role, local, sending, receiving}
use niri_bridge.Bridge.Coordinator.{World}
use niri_bridge.Receiver.Safe.{IsHonest}
use niri_bridge.Prelude.Triple.{Leads, bind, seq, read, returns, modifies, either, repeats}
use niri_bridge.Bridge.Coordinator.View.{
  View, IsValid, home-IsValid, Safe, Sees, Sound, IsQuiet, bind-IsQuiet, done-IsQuiet, get-IsQuiet,
  when-IsQuiet, in_world-IsQuiet, with_world-IsQuiet, change_world-IsQuiet, edge_at-IsQuiet,
  edges_at-IsQuiet, quietly,
}
use niri_bridge.Bridge.Coordinator.Steps.{
  lands, from_Sound, Agrees-of, reads, ends-Sound, Sound-quietly, set_role_lem, rearm-IsQuiet,
  place-IsQuiet, stop_capture_lem, leave_lem,
}
use niri_bridge.Bridge.Coordinator.Sending.{send_input_lem}
use niri_bridge.Bridge.Coordinator.Round.{
  is_outdated, return_outdated, end_outdated, start_capture, can_capture, try_capture, begin_round,
}

module _ {F S W P : Type 0} ⦃fl : Float F⦄ (sk : InputSink F S) (down : S → ℕ → Bool)
    (honest : IsHonest sk down) (w : World F W P) where
  return_outdated-IsQuiet : (role : Role F) → IsQuiet down (return_outdated sk w role)
  unfolding return_outdated
  return_outdated-IsQuiet local = done-IsQuiet down
  return_outdated-IsQuiet (receiving session) = done-IsQuiet down
  return_outdated-IsQuiet (sending session sequence edge fraction) =
      bind-IsQuiet down (get-IsQuiet down) (λ c. when-IsQuiet down c.local_ready (
        bind-IsQuiet down (edge_at-IsQuiet down edge) (λ selected.
          when-IsQuiet down (has_output c.desktop selected.output)
            (place-IsQuiet down sk honest w selected fraction))))

  end_outdated_lem : Leads (Safe down) (Sound down) (end_outdated sk w) (λ _. Sound down)
  unfolding end_outdated
  end_outdated_lem = from_Sound down (λ v valid. reads down (λ c same.
      ends-Sound down (home-IsValid _ (refl, refl, refl)) (
        seq (Safe down) (leave_lem down sk honest w v c.role (Agrees-of down v c valid same)) (
          seq (Safe down) (stop_capture_lem down sk honest w _) (
            seq (Safe down) (quietly down (return_outdated-IsQuiet c.role)) (
              seq (Safe down) (set_role_lem down _ local)
                (quietly down (rearm-IsQuiet down sk honest w))))))))

  capture-IsValid :
      (v : View F) → IsValid v → v.pending ≡ false → IsValid (record v { capture = true })
  capture-IsValid v valid free = record {
    agrees = valid.agrees;
    unlocked = valid.unlocked;
    quiet = λ h. absurd (ground (arith, free));
  }

  start_capture_lem :
      (available : List ℕ) (v : View F)
      → Leads
          (Safe down)
          (Sees down v)
          (start_capture sk w available)
          (λ _. Sees down (record v { capture = true }))
  unfolding start_capture
  start_capture_lem available v =
      seq (Safe down) (modifies _ (λ c h. record { safe = h.safe; sees = h.sees })) (
        bind (Safe down) (quietly down (edges_at-IsQuiet down available)) (λ edges.
          reads down (λ c same. seq (Safe down) (quietly down (change_world-IsQuiet down _)) (
            modifies _ (λ d h. record {
              safe = h.safe;
              sees = ap (λ (u : View F). record u { capture = true }) h.sees;
            })))))

  try_capture_lem :
      (available : List ℕ)
      → Leads (Safe down) (Sound down) (try_capture sk w available) (λ _. Sound down)
  unfolding try_capture
  try_capture_lem available = from_Sound down (λ v valid. reads down (λ c same.
      either (can_capture sk w available c)
        (λ can. bind (Safe down) (quietly down (with_world-IsQuiet down w.now)) (λ t.
          either (leb c.rearm_at t)
            (λ _.
              ends-Sound down
                (capture-IsValid v valid (ground (arith, ap (λ (u : View F). u.pending) same)))
                (start_capture_lem available v))
            (λ _ d h. lands down v d valid h)))
        (λ _ d h. lands down v d valid h)))

  pub begin_round_lem : Leads (Safe down) (Sound down) (begin_round sk w) (λ _. Sound down)
  unfolding begin_round
  begin_round_lem = read (λ c h.
      seq (Safe down)
        (either (is_outdated sk w (active_edges c.desktop c.peer_desktop) c) (λ _. end_outdated_lem)
          (λ _ d g. g))
        (read (λ d g. bind (Safe down) (Sound-quietly down (in_world-IsQuiet down _)) (λ events.
          seq (Safe down) (repeats events (λ event. send_input_lem sk down honest w event)) (
            seq (Safe down) (try_capture_lem (active_edges c.desktop c.peer_desktop))
              (returns _ (λ e k. k)))))))
