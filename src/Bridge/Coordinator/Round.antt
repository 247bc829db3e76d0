-- ===== src/Bridge/Coordinator/Round.antt =====
-- src/bridge.rs, `coordinate_with_control`: the start of each round of its loop.
use niri_bridge.Prelude.{leb, ◌==◌, length, ℕ, Bool, true, false, ◌&&◌, ◌||◌, not, List}
use niri_bridge.Prelude.Action.{Action, ◌>>=◌, ◌>>◌, pure, done, get, modify, when, each}
use niri_bridge.Float.{Float}
use niri_bridge.Receiver.{InputSink}
use niri_bridge.Bridge.Active.{has_output, active_edges}
use niri_bridge.Bridge.Role.{Role, local, sending, receiving, session_of}
use niri_bridge.Bridge.Coordinator.{
  World, Coordinator, wrapping_next, is_sending_role, is_some, in_world, with_world, change_world,
  set_role, edge_at, edges_at, rearm, stop_capture, place, leave, send_input,
}

module _ {F S W P : Type 0} ⦃fl : Float F⦄ (sk : InputSink F S) (w : World F W P) where
  -- Whether the capture or the session must end: no edge is left to cross, or the desktops changed.
  abbrev pub is_outdated : List ℕ → Coordinator F S W P → Bool
  is_outdated available c =
      (length available == 0 && is_some (session_of c.role))
      || (c.capture && not (c.capture_epoch == c.desktop_epoch))

  -- The edge of a sending role has its output.
  unfoldable pub return_outdated : Role F → Action (Coordinator F S W P) (Unit {0})
  return_outdated local = done
  return_outdated (receiving session) = done
  return_outdated (sending session sequence edge fraction) = do
    c ← get
    when c.local_ready (do
      selected ← edge_at edge
      when (has_output c.desktop selected.output) (place sk w selected fraction))

  unfoldable pub end_outdated : Action (Coordinator F S W P) (Unit {0})
  end_outdated = do
    c ← get
    leave sk w (session_of c.role)
    stop_capture sk w
    return_outdated c.role
    set_role local
    rearm sk w

  unfoldable pub start_capture : List ℕ → Action (Coordinator F S W P) (Unit {0})
  start_capture available = do
    modify (λ c. record c {
      generation = wrapping_next c.generation;
      capture_edges = available;
      capture_epoch = c.desktop_epoch;
      capture_armed = false;
    })
    edges ← edges_at available
    c ← get
    change_world (w.start_task edges c.generation)
    modify (λ c. record c { capture = true })

  -- Whether a capture can start, but for the clock.
  abbrev pub can_capture : List ℕ → Coordinator F S W P → Bool
  can_capture available c =
      c.local_ready
      && c.peer_ready
      && not (length available == 0)
      && not (is_some c.pending_layout)
      && not c.capture

  unfoldable pub try_capture : List ℕ → Action (Coordinator F S W P) (Unit {0})
  try_capture available = do
    c ← get
    when (can_capture available c)
        (do t ← with_world w.now; when (leb c.rearm_at t) (start_capture available))

  -- The round up to its `select!`, with the edges that are active in it.
  unfoldable pub begin_round : Action (Coordinator F S W P) (List ℕ)
  begin_round = do
    c ← get
    let available = active_edges c.desktop c.peer_desktop
    when (is_outdated available c) end_outdated
    c ← get
    events ← in_world (w.route_touchpads (is_sending_role c.role))
    each (send_input sk w) events
    try_capture available
    pure available
