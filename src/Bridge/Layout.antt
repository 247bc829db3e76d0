-- ===== src/Bridge/Layout.antt =====
-- src/bridge.rs, `validate_edges`: which layouts it accepts.
use niri_bridge.Prelude.{
  leb, ◌==◌, length, Result, ok, err, ◌>>◌, ensure, ◌≤◌, String, ◌≡◌, refl, ◌≢◌, ◌↔◌, ◌⊎◌, true,
  false, ◌&&◌, not, List, [], ◌∷◌, ◌++◌, map, arith,
}
use niri_bridge.Prelude.All.{
  All, Pairwise, All-none_before, All-one_before, ensure-ok, >>-ok, for_each-ok,
}
use niri_bridge.Prelude.Text.{bytes, ==ₛ_iff, any_char, is_control, has_text}
use niri_bridge.Float.{Float}
use niri_bridge.Geometry as Geometry
use niri_bridge.Geometry.{Edge, top, bottom, left, right, same_edge, validate}
use niri_bridge.Bridge.Edges.{
  EdgeConfig, max_edges, valid_edge_id, with_context, apart, validate_apart, validate_edge,
  validate_each, validate_edges,
}

with_context-ok : (r : Result (Unit {0})) (m : String) → (with_context r m ≡ ok tt) ↔ (r ≡ ok tt)
with_context-ok (ok _) m = ground arith
with_context-ok (err e) m = ground arith

same_edge_iff : (a b : Edge) → (same_edge a b ≡ true) ↔ (a ≡ b)
same_edge_iff top top = ground arith
same_edge_iff top bottom = ground arith
same_edge_iff top left = ground arith
same_edge_iff top right = ground arith
same_edge_iff bottom top = ground arith
same_edge_iff bottom bottom = ground arith
same_edge_iff bottom left = ground arith
same_edge_iff bottom right = ground arith
same_edge_iff left top = ground arith
same_edge_iff left bottom = ground arith
same_edge_iff left left = ground arith
same_edge_iff left right = ground arith
same_edge_iff right top = ground arith
same_edge_iff right bottom = ground arith
same_edge_iff right left = ground arith
same_edge_iff right right = ground arith

module _ {F : Type 0} ⦃fl : Float F⦄ where
  -- What an edge must meet by itself.
  abbrev pub IsEdge : EdgeConfig F → Type 0
  IsEdge e =
      (valid_edge_id e.id ≡ true)
      × ((not (bytes e.output == 0)
            && leb (bytes e.output) 128
            && not (any_char is_control e.output))
          ≡ true)
      × (Geometry.validate e.boundary ≡ ok tt)

  -- Two spans along one side, of which one ends where the other starts, or before.
  abbrev pub IsBeside : EdgeConfig F → EdgeConfig F → Type 0
  IsBeside previous e =
      (fl.leb previous.boundary.end e.boundary.start ≡ true)
      ⊎ (fl.leb e.boundary.end previous.boundary.start ≡ true)

  -- Two edges of a layout: other names, and on other outputs, on other sides or beside each other.
  abbrev pub Apart : EdgeConfig F → EdgeConfig F → Type 0
  Apart previous e =
      (e.id ≢ previous.id)
      × ((e.output ≢ previous.output)
          ⊎ (e.boundary.edge ≢ previous.boundary.edge)
          ⊎ IsBeside previous e)

  apart_iff :
      (previous e : EdgeConfig F)
      → (apart e previous ≡ true) ↔ (
          (e.output ≢ previous.output)
          ⊎ (e.boundary.edge ≢ previous.boundary.edge)
          ⊎ IsBeside previous e)
  apart_iff previous e = ground (
    arith,
    ==ₛ_iff e.output previous.output,
    same_edge_iff e.boundary.edge previous.boundary.edge,
  )

  abbrev pub IsLayout : List (EdgeConfig F) → Type 0
  IsLayout edges =
      (1 ≤ length edges) × (length edges ≤ 16) × All IsEdge edges × Pairwise Apart edges

  has_id :
      (previous : List (EdgeConfig F)) (id : String)
      → (has_text (map (λ p. p.id) previous) id ≡ false) ↔ All (λ p. id ≢ p.id) previous
  has_id [] id = ((λ _. tt), (λ _. refl))
  has_id (p ∷ previous) id = ground (arith, ==ₛ_iff id p.id, has_id previous id)

  both_hold :
      (e : EdgeConfig F) (previous : List (EdgeConfig F))
      → (All (λ p. e.id ≢ p.id) previous
          × All (λ p. ensure (apart e p) "layout_overlap" ≡ ok tt) previous)
        ↔ All (λ p. Apart p e) previous
  both_hold e [] = ((λ _. tt), (λ _. (tt, tt)))
  both_hold e (p ∷ previous) =
      ground (arith, both_hold e previous, ensure-ok (apart e p) "layout_overlap", apart_iff p e)

  validate_edge-ok :
      (e : EdgeConfig F) (previous : List (EdgeConfig F))
      → (validate_edge e previous ≡ ok tt) ↔ (IsEdge e × All (λ p. Apart p e) previous)
  unfolding validate_edge validate_apart
  validate_edge-ok e previous =
      let overlaps = validate_apart e previous in
      let placed = with_context (Geometry.validate e.boundary) "layout_invalid" in
      let named =
        not (bytes e.output == 0)
        && leb (bytes e.output) 128
        && not (any_char is_control e.output) in
      ground (
        arith,
        has_id previous e.id,
        both_hold e previous,
        for_each-ok (λ p. ensure (apart e p) "layout_overlap") previous,
        with_context-ok (Geometry.validate e.boundary) "layout_invalid",
        >>-ok placed overlaps tt,
        ensure-ok named "layout_invalid",
        >>-ok (ensure named "layout_invalid") (placed >> overlaps) tt,
      )

  validate_each-ok :
      (previous edges : List (EdgeConfig F))
      → (validate_each previous edges ≡ ok tt)
        ↔ (All IsEdge edges × All (λ e. All (λ p. Apart p e) previous) edges × Pairwise Apart edges)
  unfolding validate_each
  validate_each-ok previous [] = ground arith
  validate_each-ok previous (e ∷ edges) =
      let more = previous ++ e ∷ [] in
      let (split, join) = >>-ok (validate_edge e previous) (validate_each more edges) tt in
      let (one, of_one) = validate_edge-ok e previous in
      let (rest, of_rest) = validate_each-ok more edges in
      let (both, of_both) = All-one_before Apart previous e edges in
      (
        (λ h.
            let (a, b) = one (split h).0 in
            let (c, d, k) = rest (split h).1 in let (f, g) = both d in ((a, c), (b, f), (g, k))),
        (λ h.
            let ((a, c), (b, f), (g, k)) = h in
            join (of_one (a, b), of_rest (c, of_both (f, g), k))),
      )

  -- The validation of a layout accepts exactly the layouts of the declarative description: 1 to 16
  -- valid edges, each two with other ids and on other outputs, on other sides, or with one ending
  -- where the other starts or before.
  pub validate_edges-IsLayout :
      (edges : List (EdgeConfig F)) → (validate_edges edges ≡ ok tt) ↔ IsLayout edges
  unfolding validate_edges
  validate_edges-IsLayout edges = ground (
    arith,
    >>-ok (ensure (not (length edges == 0) && leb (length edges) max_edges) "layout_count_invalid")
        (validate_each [] edges) tt,
    validate_each-ok [] edges,
    All-none_before Apart edges,
  )
