-- ===== src/Tests/Pointing.antt =====
-- A position on a rotated output.
use niri_bridge.Prelude.{ok, ℕ, ◌≡◌, refl, true, false, some, arith}
use niri_bridge.Control.Layout.{rotate_90}
use niri_bridge.Pointer.{
  inverse_normalized, InUnit, shown, side, IsOpposite, inverse_normalized_bounds,
}
use niri_bridge.Tests.Backend.{whole_numbers}

whole-IsOpposite : IsOpposite ℕ
whole-IsOpposite = record {
  of_zero = refl;
  of_one = refl;
  within = λ x h. ground (arith, h.0, h.1);
}

inverse_normalized_bounds_example :
    ((p : ℕ × ℕ) × (inverse_normalized (some rotate_90) 0 1 ≡ ok p) × InUnit p.0 × InUnit p.1)
    × ((p : ℕ × ℕ) × (inverse_normalized (some rotate_90) (side true) (side false) ≡ ok p)
        × (shown rotate_90 p ≡ (side true, side false)))
inverse_normalized_bounds_example =
    inverse_normalized_bounds whole-IsOpposite rotate_90 0 1 true false (refl, refl) (refl, refl)
