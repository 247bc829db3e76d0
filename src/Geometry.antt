-- ===== src/Geometry.antt =====
-- src/geometry.rs: screens, their edges, and the span of an edge that leads to the peer.
pub mod Layout
pub mod Point
pub mod Accepted
use niri_bridge.Prelude.{
  if◌then◌else◌, Result, ok, ◌>>◌, ensure, Bool, true, false, ◌&&◌, Option, none, some,
}
use niri_bridge.Float.{Float}

pub record Rect (F : Type 0) : Type 0 where
  pub x : F
  pub y : F
  pub width : F
  pub height : F

pub data Edge : Type 0 where
  top bottom left right : Edge

pub record Boundary (F : Type 0) : Type 0 where
  pub edge : Edge
  pub start : F
  pub end : F

-- The derived `==` on `Edge`.
abbrev pub same_edge : Edge → Edge → Bool
same_edge top top = true
same_edge bottom bottom = true
same_edge left left = true
same_edge right right = true
same_edge _ _ = false

module _ {F : Type 0} ⦃fl : Float F⦄ where
  unfoldable pub validate_rect : Rect F → Result (Unit {0})
  validate_rect r =
      ensure
        (fl.is_finite r.x
          && fl.is_finite r.y
          && fl.is_finite r.width
          && fl.is_finite r.height
          && fl.is_finite (fl.add r.x r.width)
          && fl.is_finite (fl.add r.y r.height))
        "Screen coordinates must be finite"
      >> ensure (fl.leb (fl.of_ℕ 1) r.width && fl.leb (fl.of_ℕ 1) r.height)
          "Screen dimensions must be at least one logical pixel"

  unfoldable pub validate : Boundary F → Result (Unit {0})
  validate b =
      ensure
        (fl.is_finite b.start
          && fl.is_finite b.end
          && fl.leb (fl.of_ℕ 0) b.start
          && fl.leb b.end (fl.of_ℕ 1)
          && fl.ltb b.start b.end)
        "Boundary span must satisfy 0 <= start < end <= 1"

  -- The position along the edge, as a part of its length.
  unfoldable pub along : Edge → Rect F → F → F → F
  along top r x y = fl.div (fl.sub x r.x) r.width
  along bottom r x y = fl.div (fl.sub x r.x) r.width
  along left r x y = fl.div (fl.sub y r.y) r.height
  along right r x y = fl.div (fl.sub y r.y) r.height

  -- `v.clamp(0.0, 1.0)`
  abbrev pub clamp_unit : F → F
  clamp_unit v =
      if fl.ltb v (fl.of_ℕ 0) then fl.of_ℕ 0 else if fl.ltb (fl.of_ℕ 1) v then fl.of_ℕ 1 else v

  unfoldable pub fraction_at : Boundary F → Rect F → F → F → Result (Option F)
  unfolding along
  fraction_at b r x y = do
    validate b
    validate_rect r
    ensure (fl.is_finite x && fl.is_finite y) "Pointer coordinates must be finite"
    let a = along b.edge r x y
    let margin = fl.mul (fl.of_ℕ 16) fl.epsilon
    ok (
        if fl.leb (fl.sub b.start margin) a && fl.leb a (fl.add b.end margin)
        then some (clamp_unit (fl.div (fl.sub a b.start) (fl.sub b.end b.start)))
        else none)
