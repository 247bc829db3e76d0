-- ===== src/Float.antt =====
-- What the sources use of `f64`: a type that the language gives and that has no counterpart here.
-- Every definition over floating-point numbers takes it as an instance argument.
use niri_bridge.Prelude.{ℕ, Bool}

pub record Float (F : Type 0) : Type 0 where
  pub is_finite : F → Bool
  -- `<=` and `<`; both are false where an argument is not a number.
  pub leb : F → F → Bool
  pub ltb : F → F → Bool
  pub add : F → F → F
  pub sub : F → F → F
  pub mul : F → F → F
  pub div : F → F → F
  pub abs : F → F
  -- `f64::min`
  pub min : F → F → F
  -- `f64::from(n)`, and the numerals of the sources.
  pub of_ℕ : ℕ → F
  -- `v as u32`, which saturates.
  pub to_u32 : F → ℕ
  -- `f64::EPSILON`
  pub epsilon : F
