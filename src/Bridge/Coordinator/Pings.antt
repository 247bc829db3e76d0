-- ===== src/Bridge/Coordinator/Pings.antt =====
-- src/bridge.rs, `coordinate_with_control`: the pings that wait for their answer.
use niri_bridge.Prelude.{
  leb, Bool-cases, length, Result-cases, ℕ, ◌+◌, ◌-◌, ◌≤◌, inl, inr, List, [], ◌∷◌, arith,
}
use niri_bridge.Prelude.Action.{◌>>=◌, ◌>>◌, done, get, modify, when}
use niri_bridge.Float.{Float}
use niri_bridge.Protocol.Message.{Message}
use niri_bridge.Receiver.{InputSink}
use niri_bridge.Bridge.Coordinator.{World, Coordinator, in_world, with_world, send}
use niri_bridge.Bridge.Coordinator.Tick.{keep_16, insert_ping, send_ping, beat}
use niri_bridge.Bridge.Coordinator.Frames.{drop_ping, handle}

length-insert_ping :
    (pings : List (ℕ × ℕ)) (nonce t : ℕ) → length (insert_ping pings nonce t) ≤ length pings + 1
length-insert_ping [] nonce t = ground arith
length-insert_ping ((n, u) ∷ pings) nonce t = ground (arith, length-insert_ping pings nonce t)

length-keep_16 : (pings : List (ℕ × ℕ)) → length pings ≤ 17 → length (keep_16 pings) ≤ 16
length-keep_16 [] h = ground arith
length-keep_16 (p ∷ pings) h = ground arith

length-drop_ping :
    (pings : List (ℕ × ℕ)) (nonce : ℕ) → length (drop_ping pings nonce) ≤ length pings
length-drop_ping [] nonce = ground arith
length-drop_ping ((n, t) ∷ pings) nonce = ground (arith, length-drop_ping pings nonce)

kept :
    (pings : List (ℕ × ℕ)) (nonce t : ℕ)
    → length pings ≤ 16
    → length (keep_16 (insert_ping pings nonce t)) ≤ 16
kept pings nonce t h =
    let n = length-insert_ping pings nonce t in
    length-keep_16 (insert_ping pings nonce t) (omega arith)

module _ {F S W P : Type 0} ⦃fl : Float F⦄ (sk : InputSink F S) (w : World F W P) where
  abbrev Bounded : Coordinator F S W P → Type 0
  Bounded c = length c.pings ≤ 16

  send_ping_lem : (c : Coordinator F S W P) → Bounded c → Bounded (send_ping sk w c).1
  unfolding send_ping with_world modify get send in_world ◌>>=◌ ◌>>◌
  send_ping_lem c h =
      let (t, s) = w.now c.world in
      elim (Result-cases (w.send (Message.ping c.heartbeat) s).0) [
        | inl (_, good) ↦ rw good (kept c.pings c.heartbeat t h)
        | inr (_, bad) ↦ rw bad (kept c.pings c.heartbeat t h)
      ]

  -- With at most 16 pings in flight, at most 16 are after a heartbeat, and after a pong.
  pub pings_bounded :
      (c : Coordinator F S W P) (age nonce : ℕ) (available : List ℕ)
      → length c.pings ≤ 16
      → (length (beat sk w c).1.pings ≤ 16)
        × (length (handle sk w age available (Message.pong nonce) c).1.pings ≤ 16)
  unfolding beat handle modify with_world get when done ◌>>=◌ ◌>>◌
  pings_bounded c age nonce available h =
      let (t, s) = w.now c.world in
      let n = length-drop_ping c.pings nonce in
      (
        elim (Bool-cases (leb 200 (t - c.last_heartbeat))) [
          | inl due ↦ rw due (send_ping_lem (record c { world = s }) h)
          | inr early ↦ rw early h
        ],
        omega arith,
      )
