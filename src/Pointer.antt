-- ===== src/Pointer.antt =====
-- src/pointer.rs: where a position on a screen falls on its output before the output's transform.
use niri_bridge.Prelude.{
  if◌then◌else◌, Result, ok, err, ◌≡◌, refl, ap, ◌∙◌, Bool, true, false, Option, none, some,
}
use niri_bridge.Float.{Float}
use niri_bridge.Control.Layout.{
  Transform, normal, rotate_90, rotate_180, rotate_270, flipped, flipped_90, flipped_180,
  flipped_270,
}

module _ {F : Type 0} ⦃fl : Float F⦄ where
  abbrev pub opposite : F → F
  opposite x = fl.sub (fl.of_ℕ 1) x

  -- `none` is a transform that the protocol does not name.
  unfoldable pub inverse_normalized : Option Transform → F → F → Result (F × F)
  inverse_normalized (some normal) x y = ok (x, y)
  inverse_normalized (some rotate_90) x y = ok (y, opposite x)
  inverse_normalized (some rotate_180) x y = ok (opposite x, opposite y)
  inverse_normalized (some rotate_270) x y = ok (opposite y, x)
  inverse_normalized (some flipped) x y = ok (opposite x, y)
  inverse_normalized (some flipped_90) x y = ok (y, x)
  inverse_normalized (some flipped_180) x y = ok (x, opposite y)
  inverse_normalized (some flipped_270) x y = ok (opposite y, opposite x)
  inverse_normalized none x y = err "Unsupported output transform"

  -- Between 0 and 1.
  abbrev pub InUnit : F → Type 0
  InUnit x = (fl.leb (fl.of_ℕ 0) x ≡ true) × (fl.leb x (fl.of_ℕ 1) ≡ true)

  -- Where a position on an output is shown on the screen, by the output's transform.
  abbrev pub shown : Transform → F × F → F × F
  shown normal (x, y) = (x, y)
  shown rotate_90 (x, y) = (opposite y, x)
  shown rotate_180 (x, y) = (opposite x, opposite y)
  shown rotate_270 (x, y) = (y, opposite x)
  shown flipped (x, y) = (opposite x, y)
  shown flipped_90 (x, y) = (y, x)
  shown flipped_180 (x, y) = (x, opposite y)
  shown flipped_270 (x, y) = (opposite y, opposite x)

  -- A side of the screen: 0 or 1.
  abbrev pub side : Bool → F
  side far = if far then fl.of_ℕ 1 else fl.of_ℕ 0

-- What is relied on of `1.0 - x`: it takes 0 and 1 to each other, and stays between them.
pub record IsOpposite (F : Type 0) ⦃fl : Float F⦄ : Type 0 where
  pub of_zero : opposite (fl.of_ℕ 0) ≡ fl.of_ℕ 1
  pub of_one : opposite (fl.of_ℕ 1) ≡ fl.of_ℕ 0
  pub within : (x : F) → InUnit x → InUnit (opposite x)

module _ {F : Type 0} ⦃fl : Float F⦄ (is : IsOpposite F) where
  twice : (far : Bool) → ◌≡◌ {A = F} (opposite (opposite (side far))) (side far)
  twice true = ap (λ (x : F). opposite x) is.of_one ∙ is.of_zero
  twice false = ap (λ (x : F). opposite x) is.of_zero ∙ is.of_one

  bounds :
      (transform : Transform) (x y : F)
      → InUnit x
      → InUnit y
      → (p : F × F) × (inverse_normalized (some transform) x y ≡ ok p) × InUnit p.0 × InUnit p.1
  unfolding inverse_normalized
  bounds normal x y h k = ((x, y), refl, h, k)
  bounds rotate_90 x y h k = ((y, opposite x), refl, k, is.within x h)
  bounds rotate_180 x y h k = ((opposite x, opposite y), refl, is.within x h, is.within y k)
  bounds rotate_270 x y h k = ((opposite y, x), refl, is.within y k, h)
  bounds flipped x y h k = ((opposite x, y), refl, is.within x h, k)
  bounds flipped_90 x y h k = ((y, x), refl, k, h)
  bounds flipped_180 x y h k = ((x, opposite y), refl, h, is.within y k)
  bounds flipped_270 x y h k = ((opposite y, opposite x), refl, is.within y k, is.within x h)

  -- A corner of the screen, taken to the output, is shown at that corner again.
  corners :
      (transform : Transform) (right_side lower : Bool)
      → (p : F × F) × (inverse_normalized (some transform) (side right_side) (side lower) ≡ ok p)
        × (shown transform p ≡ (side right_side, side lower))
  unfolding inverse_normalized
  corners normal a b = (_, refl, refl)
  corners rotate_90 a b = (_, refl, rw (twice a) refl)
  corners rotate_180 a b = (_, refl, rw (twice a, twice b) refl)
  corners rotate_270 a b = (_, refl, rw (twice b) refl)
  corners flipped a b = (_, refl, rw (twice a) refl)
  corners flipped_90 a b = (_, refl, refl)
  corners flipped_180 a b = (_, refl, rw (twice b) refl)
  corners flipped_270 a b = (_, refl, rw (twice a, twice b) refl)

  -- Where the difference of 1 and a number is 1 at 0, 0 at 1, and between them for a number
  -- between them: for each of the eight transforms a position within the screen falls within the
  -- output, and a corner of the screen falls where the output shows it at that corner.
  pub inverse_normalized_bounds :
      (transform : Transform) (x y : F) (right_side lower : Bool)
      → InUnit x
      → InUnit y
      → ((p : F × F) × (inverse_normalized (some transform) x y ≡ ok p) × InUnit p.0 × InUnit p.1)
        × ((p : F × F) × (inverse_normalized (some transform) (side right_side) (side lower) ≡ ok p)
            × (shown transform p ≡ (side right_side, side lower)))
  inverse_normalized_bounds transform x y right_side lower h k =
      (bounds transform x y h k, corners transform right_side lower)
