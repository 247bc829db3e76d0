-- ===== src/Bridge/Active.antt =====
-- src/bridge.rs, `active_edges`: the edges through which a crossing is possible now.
use mathlib.Core.Option.{some-injective}
use niri_bridge.Prelude.{
  if◌then◌else◌, Bool-cases, Option-cases, get_elem?, ℕ, zero, suc, ◌+◌, ◌≤◌, String, ◌≡◌, refl, ap,
  ◌↔◌, inl, inr, Bool, true, false, ◌&&◌, ◌||◌, Option, none, some, List, [], ◌∷◌, map, arith,
}
use niri_bridge.Prelude.Text.{◌==ₛ◌, ==ₛ_iff, has_text}
use niri_bridge.Prelude.Sets.{contains}
use niri_bridge.Bridge.Edges.{EdgeConfig}
use niri_bridge.Control.Layout.{Desktop}

module _ {F : Type 0} where
  -- `outputs.contains_key(&output)`
  abbrev pub has_output : Desktop F → String → Bool
  has_output d output = has_text (map (λ o. o.0) d.outputs) output

  -- `peer.edges.iter().any(...)`
  abbrev pub any_match : Desktop F → EdgeConfig F → List (EdgeConfig F) → Bool
  any_match peer edge [] = false
  any_match peer edge (other ∷ others) =
      (other.id ==ₛ edge.id && has_output peer other.output) || any_match peer edge others

  -- `peer.is_some_and(...)`
  abbrev pub peer_has : Option (Desktop F) → EdgeConfig F → Bool
  peer_has none edge = false
  peer_has (some peer) edge = any_match peer edge peer.edges

  -- The edges from an index on.
  unfoldable pub active_from : Desktop F → Option (Desktop F) → ℕ → List (EdgeConfig F) → List ℕ
  active_from local peer index [] = []
  active_from local peer index (edge ∷ edges) =
      let rest = active_from local peer (index + 1) edges in
      if has_output local edge.output && peer_has peer edge then index ∷ rest else rest

  unfoldable pub active_edges : Desktop F → Option (Desktop F) → List ℕ
  unfolding active_from
  active_edges local peer = active_from local peer 0 local.edges

  -- An edge that both sides can serve now.
  abbrev pub Serves : Desktop F → Desktop F → EdgeConfig F → EdgeConfig F → Type 0
  Serves local peer e other =
      (other.id ≡ e.id) × (has_output local e.output ≡ true) × (has_output peer other.output ≡ true)

  any_match_found :
      (peer : Desktop F) (e : EdgeConfig F) (others : List (EdgeConfig F))
      → any_match peer e others ≡ true
      → (other : EdgeConfig F) × (j : ℕ) × (get_elem? others j ≡ some other)
        × (other.id ≡ e.id)
        × (has_output peer other.output ≡ true)
  any_match_found peer e [] h = cc
  any_match_found peer e (other ∷ others) h =
      elim (Bool-cases (other.id ==ₛ e.id && has_output peer other.output)) [
        | inl here ↦ (other, 0, refl, ground (arith, ==ₛ_iff other.id e.id), ground arith)
        | inr not_here ↦
            let (o, j, at, same, there) = any_match_found peer e others (ground arith) in
            (o, suc j, at, same, there)
      ]

  any_match_of :
      (peer : Desktop F) (e other : EdgeConfig F) (others : List (EdgeConfig F)) (j : ℕ)
      → get_elem? others j ≡ some other
      → other.id ≡ e.id
      → has_output peer other.output ≡ true
      → any_match peer e others ≡ true
  any_match_of peer e other [] j at same there = cc
  any_match_of peer e other (o ∷ others) zero at same there =
      rw (some-injective o other at) (ground (arith, ==ₛ_iff other.id e.id))
  any_match_of peer e other (o ∷ others) (suc j) at same there =
      ground (arith, any_match_of peer e other others j at same there)

  -- `edge` passes the test of the filter.
  abbrev pub usable : Desktop F → Option (Desktop F) → Option (EdgeConfig F) → Bool
  usable local peer none = false
  usable local peer (some e) = has_output local e.output && peer_has peer e

  active_from-le :
      (local : Desktop F) (peer : Option (Desktop F)) (k : ℕ) (edges : List (EdgeConfig F)) (i : ℕ)
      → contains (active_from local peer k edges) i ≡ true
      → k ≤ i
  unfolding active_from
  active_from-le local peer k [] i h = cc
  active_from-le local peer k (e ∷ edges) i h =
      ground (arith, active_from-le local peer (k + 1) edges i)

  pub contains-active_from :
      (local : Desktop F) (peer : Option (Desktop F)) (k : ℕ) (edges : List (EdgeConfig F)) (j : ℕ)
      → contains (active_from local peer k edges) (k + j) ≡ usable local peer (get_elem? edges j)
  unfolding active_from
  contains-active_from local peer k [] j = refl
  contains-active_from local peer k (e ∷ edges) zero =
      ground (arith, active_from-le local peer (k + 1) edges (k + 0))
  contains-active_from local peer k (e ∷ edges) (suc j) =
      ground (arith, contains-active_from local peer (k + 1) edges j)

  -- An edge is active exactly where its own output is connected and the peer is there with an edge
  -- of the same id on a connected output.
  pub active_edges_iff :
      (local peer : Desktop F) (i : ℕ)
      → (contains (active_edges local (some peer)) i ≡ true) ↔ (
          (e : EdgeConfig F) × (other : EdgeConfig F) × (j : ℕ) × (get_elem? local.edges i ≡ some e)
          × (get_elem? peer.edges j ≡ some other)
          × Serves local peer e other)
  unfolding active_edges
  active_edges_iff local peer i =
      let all = contains-active_from local (some peer) 0 local.edges i in
      (
        (λ h. elim (Option-cases (get_elem? local.edges i)) [
          | inl gone ↦ absurd (ground (arith, all, h, ap (λ o. usable local (some peer) o) gone))
          | inr (e, at) ↦
              let fits = ap (λ o. usable local (some peer) o) at in
              let (o, j, found, same, there) =
                any_match_found peer e peer.edges (ground (arith, all, h, fits)) in
              (e, o, j, at, found, (same, ground (arith, all, h, fits), there))
        ]),
        (λ (e, other, j, at, found, (same, here, there)).
            let fits = ap (λ o. usable local (some peer) o) at in
            let matched = any_match_of peer e other peer.edges j found same there in
            ground (arith, all, fits, matched, here)),
      )
