-- ===== src/Geometry/Point.antt =====
-- src/geometry.rs, `Boundary::point_at`: the place where a pointer enters a screen.
use niri_bridge.Prelude.{if◌then◌else◌, Result, ok, err, ◌>>=◌, ◌>>◌, ensure, ◌&&◌}
use niri_bridge.Float.{Float}
use niri_bridge.Geometry.{Rect, Edge, top, bottom, left, right, Boundary, validate_rect, validate}
use niri_bridge.Geometry as Geometry

module _ {F : Type 0} ⦃fl : Float F⦄ where
  -- `v.clamp(low, high)`; the panic of the standard library on a range that is none is an error.
  abbrev pub clamp : F → F → F → Result F
  clamp v low high =
      if fl.leb low high
      then ok (if fl.ltb v low then low else if fl.ltb high v then high else v)
      else err "min > max, or either was NaN"

  -- 0.5
  abbrev pub half : F
  half = fl.div (fl.of_ℕ 1) (fl.of_ℕ 2)

  -- A coordinate along an edge, half a pixel inside the screen at least.
  unfoldable pub tangent : F → F → F → Result F
  tangent origin extent t =
      clamp (fl.add origin (fl.mul t extent)) (fl.add origin half)
        (fl.sub (fl.add origin extent) half)

  abbrev pub entry : Edge → Rect F → F → F → F → F → F × F
  entry top r ix iy tx ty = (tx, fl.add r.y iy)
  entry bottom r ix iy tx ty = (tx, fl.sub (fl.add r.y r.height) iy)
  entry left r ix iy tx ty = (fl.add r.x ix, ty)
  entry right r ix iy tx ty = (fl.sub (fl.add r.x r.width) ix, ty)

  unfoldable pub point_at : Boundary F → Rect F → F → F → Result (F × F)
  unfolding tangent
  point_at b r fraction inset = do
    Geometry.validate b
    validate_rect r
    ensure (fl.is_finite fraction && fl.leb (fl.of_ℕ 0) fraction && fl.leb fraction (fl.of_ℕ 1))
        "Boundary fraction must be between zero and one"
    ensure (fl.is_finite inset && fl.ltb (fl.of_ℕ 0) inset)
        "Entry inset must be finite and positive"
    let t = fl.add b.start (fl.mul fraction (fl.sub b.end b.start))
    let ix = fl.min inset (fl.div r.width (fl.of_ℕ 2))
    let iy = fl.min inset (fl.div r.height (fl.of_ℕ 2))
    tx ← tangent r.x r.width t
    ty ← tangent r.y r.height t
    ok (entry b.edge r ix iy tx ty)
