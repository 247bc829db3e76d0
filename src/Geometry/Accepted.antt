-- ===== src/Geometry/Accepted.antt =====
-- src/geometry.rs, `Layout::validate`: which layouts it accepts.
use niri_bridge.Prelude.{
  ok, ◌>>◌, ensure, ◌≡◌, refl, ◌≢◌, ◌↔◌, true, false, ◌&&◌, not, List, [], ◌∷◌, ◌++◌, arith,
}
use niri_bridge.Prelude.All.{All, Pairwise, All-none_before, All-one_before, ensure-ok, >>-ok}
use niri_bridge.Prelude.Text.{◌==ₛ◌, ==ₛ_iff}
use niri_bridge.Float.{Float}
use niri_bridge.Geometry as Geometry
use niri_bridge.Geometry.{validate_rect, validate}
use niri_bridge.Geometry.Layout.{
  Screen, Endpoint, Layout, not_blank, has_screen, validate_screen, validate_screens,
  validate_endpoint, validate_layout,
}

module _ {F : Type 0} ⦃fl : Float F⦄ where
  -- What a screen must meet by itself.
  abbrev pub IsScreen : Screen F → Type 0
  IsScreen s = ((not_blank s.device && not_blank s.output) ≡ true) × (validate_rect s.rect ≡ ok tt)

  abbrev pub Differ : Screen F → Screen F → Type 0
  Differ before s = ¬ ((s.device ≡ before.device) × (s.output ≡ before.output))

  -- An end of the link: a span of a screen that is there.
  abbrev pub IsEnd : List (Screen F) → Endpoint F → Type 0
  IsEnd screens e =
      (Geometry.validate e.boundary ≡ ok tt) × (has_screen screens e.device e.output ≡ true)

  no_screen :
      (before : List (Screen F)) (s : Screen F)
      → (has_screen before s.device s.output ≡ false) ↔ All (λ p. Differ p s) before
  no_screen [] s = ((λ _. tt), (λ _. refl))
  no_screen (p ∷ before) s =
      ground (arith, ==ₛ_iff s.device p.device, ==ₛ_iff s.output p.output, no_screen before s)

  validate_screen-ok :
      (s : Screen F) (before : List (Screen F))
      → (validate_screen s before ≡ ok tt) ↔ (IsScreen s × All (λ p. Differ p s) before)
  unfolding validate_screen
  validate_screen-ok s before =
      let named = not_blank s.device && not_blank s.output in
      let first = ensure named "Device and output names cannot be empty" in
      let fresh = not (has_screen before s.device s.output) in
      let last = ensure fresh "Duplicate screen in layout" in
      ground (
        arith,
        no_screen before s,
        ensure-ok named "Device and output names cannot be empty",
        ensure-ok fresh "Duplicate screen in layout",
        >>-ok first (validate_rect s.rect) tt,
        >>-ok (first >> validate_rect s.rect) last tt,
      )

  validate_screens-ok :
      (before screens : List (Screen F))
      → (validate_screens before screens ≡ ok tt) ↔ (
          All IsScreen screens
          × All (λ s. All (λ p. Differ p s) before) screens
          × Pairwise Differ screens)
  unfolding validate_screens
  validate_screens-ok before [] = ground arith
  validate_screens-ok before (s ∷ screens) =
      let more = before ++ s ∷ [] in
      let (split, join) = >>-ok (validate_screen s before) (validate_screens more screens) tt in
      let (one, of_one) = validate_screen-ok s before in
      let (rest, of_rest) = validate_screens-ok more screens in
      let (both, of_both) = All-one_before Differ before s screens in
      (
        (λ h.
            let (a, b) = one (split h).0 in
            let (c, d, k) = rest (split h).1 in let (f, g) = both d in ((a, c), (b, f), (g, k))),
        (λ h.
            let ((a, c), (b, f), (g, k)) = h in
            join (of_one (a, b), of_rest (c, of_both (f, g), k))),
      )

  validate_endpoint-ok :
      (screens : List (Screen F)) (e : Endpoint F)
      → (validate_endpoint screens e ≡ ok tt) ↔ IsEnd screens e
  unfolding validate_endpoint
  validate_endpoint-ok screens e =
      let known = has_screen screens e.device e.output in
      ground (
        arith,
        ensure-ok known "Link refers to an unknown screen",
        >>-ok (Geometry.validate e.boundary) (ensure known "Link refers to an unknown screen") tt,
      )

  -- `Layout::validate` accepts exactly the layouts whose screens are each valid, no two of one
  -- device and output, and whose link joins spans of two known screens of different devices.
  pub validate_layout_iff :
      (l : Layout F)
      → (validate_layout l ≡ ok tt) ↔ (
          All IsScreen l.screens
          × Pairwise Differ l.screens
          × (l.link.a.device ≢ l.link.b.device)
          × IsEnd l.screens l.link.a
          × IsEnd l.screens l.link.b)
  unfolding validate_layout
  validate_layout_iff l =
      let other = not (l.link.a.device ==ₛ l.link.b.device) in
      let crosses = ensure other "A cross-device link must connect different devices" in
      let screens = validate_screens [] l.screens in
      let a = validate_endpoint l.screens l.link.a in
      let b = validate_endpoint l.screens l.link.b in
      ground (
        arith,
        validate_screens-ok [] l.screens,
        All-none_before Differ l.screens,
        ensure-ok other "A cross-device link must connect different devices",
        ==ₛ_iff l.link.a.device l.link.b.device,
        validate_endpoint-ok l.screens l.link.a,
        validate_endpoint-ok l.screens l.link.b,
        >>-ok screens crosses tt,
        >>-ok (screens >> crosses) a tt,
        >>-ok (screens >> crosses >> a) b tt,
      )
