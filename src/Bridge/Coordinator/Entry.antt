-- ===== src/Bridge/Coordinator/Entry.antt =====
-- src/bridge.rs, `coordinate_with_control`: the edge at which a session of the peer begins.
use niri_bridge.Prelude.{
  Bool-cases, get_elem?, ℕ, zero, suc, ◌+◌, ◌<◌, String, ◌≡◌, refl, ◌⊎◌, inl, inr, Bool, true,
  false, ◌&&◌, none, some, List, [], ◌∷◌, arith,
}
use niri_bridge.Prelude.Sets.{contains}
use niri_bridge.Prelude.Text.{◌==ₛ◌}
use niri_bridge.Bridge.Edges.{EdgeConfig}
use niri_bridge.Bridge.Coordinator.Frames.{entry_edge}

first_zero : (n : ℕ) → n + 0 ≡ n
first_zero n = omega arith

first_suc : (n k : ℕ) → n + suc k ≡ n + 1 + k
first_suc n k = omega arith

module _ {F : Type 0} where
  -- An edge has the identifier and stands at an active index.
  abbrev pub is_entry : String → List ℕ → ℕ → EdgeConfig F → Bool
  is_entry id available index e = e.id ==ₛ id && contains available index

  entry_at :
      (d e : EdgeConfig F) (first : ℕ) (id : String) (available : List ℕ)
      → is_entry id available first d ≡ false
      → some d ≡ some e
      → is_entry id available first e ≡ false
  entry_at d e first id available h g = cc

  -- No edge before an index is an entry.
  abbrev pub NoEntry : List (EdgeConfig F) → ℕ → String → List ℕ → ℕ → Type 0
  NoEntry edges first id available k =
      (j : ℕ) (e : EdgeConfig F)
      → j < k
      → get_elem? edges j ≡ some e
      → is_entry id available (first + j) e ≡ false

  NoEntry-cons :
      (d : EdgeConfig F) (edges : List (EdgeConfig F)) (first : ℕ) (id : String)
      (available : List ℕ) (k : ℕ)
      → is_entry id available first d ≡ false
      → NoEntry edges (first + 1) id available k
      → NoEntry (d ∷ edges) first id available (suc k)
  NoEntry-cons d edges first id available k here rest zero e h g =
      rw (first_zero first) (entry_at d e first id available here g)
  NoEntry-cons d edges first id available k here rest (suc j) e h g =
      rw (first_suc first j) (rest j e (omega arith) g)

  -- The edge found is the first with the identifier that is active; where none is found there is
  -- none.
  pub entry_edge-cases :
      (edges : List (EdgeConfig F)) (first : ℕ) (id : String) (available : List ℕ)
      → ((e : EdgeConfig F) × (k : ℕ) × (entry_edge edges first id available ≡ some e)
          × (get_elem? edges k ≡ some e)
          × (is_entry id available (first + k) e ≡ true)
          × NoEntry edges first id available k)
        ⊎ ((entry_edge edges first id available ≡ none)
            × ((k : ℕ) → NoEntry edges first id available k))
  entry_edge-cases [] first id available = inr (refl, λ k j e h g. cc)
  entry_edge-cases (d ∷ edges) first id available =
      elim (Bool-cases (is_entry id available first d)) [
        | inl here ↦
            inl (
              d,
              0,
              rw here refl,
              refl,
              rw (first_zero first) here,
              λ j e h g. absurd (omega arith),
            )
        | inr away ↦ elim (entry_edge-cases edges (first + 1) id available) [
          | inl (e, k, found, at_k, entry, before) ↦ inl (
            e,
            suc k,
            rw away found,
            at_k,
            rw (first_suc first k) entry,
            NoEntry-cons d edges first id available k away before,
          )
          | inr (not_found, before) ↦ inr (
            rw away not_found,
            λ k j e h g.
                NoEntry-cons d edges first id available k away (before k) j e (omega arith) g,
          )
        ]
      ]
