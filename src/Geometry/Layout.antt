-- ===== src/Geometry/Layout.antt =====
-- src/geometry.rs: a layout file's screens and link, and their validation.
use niri_bridge.Prelude.{
  ◌==◌, in_range, Result, ok, ◌>>◌, ensure, ℕ, String, Bool, false, ◌&&◌, ◌||◌, not, List, [], ◌∷◌,
  ◌++◌,
}
use niri_bridge.Prelude.Text.{◌==ₛ◌, any_char}
use niri_bridge.Float.{Float}
use niri_bridge.Geometry as Geometry
use niri_bridge.Geometry.{Rect, Boundary, validate_rect, validate}

pub record Screen (F : Type 0) : Type 0 where
  pub device : String
  pub output : String
  pub rect : Rect F

pub record Endpoint (F : Type 0) : Type 0 where
  pub device : String
  pub output : String
  pub boundary : Boundary F

pub record Link (F : Type 0) : Type 0 where
  pub a : Endpoint F
  pub b : Endpoint F

pub record Layout (F : Type 0) : Type 0 where
  pub screens : List (Screen F)
  pub link : Link F

-- `char::is_whitespace`: the characters with the property White_Space.
abbrev pub is_whitespace : ℕ → Bool
is_whitespace c =
    in_range 9 13 c
    || c == 32
    || c == 133
    || c == 160
    || c == 5760
    || in_range 8192 8202 c
    || in_range 8232 8233 c
    || c == 8239
    || c == 8287
    || c == 12288

-- `!text.trim().is_empty()`
abbrev pub not_blank : String → Bool
not_blank text = any_char (λ c. not (is_whitespace c)) text

-- `screens.contains_key(&(device, output))`; the keys of the map are those of the screens so far.
abbrev pub has_screen : {F : Type 0} → List (Screen F) → String → String → Bool
has_screen [] device output = false
has_screen (s ∷ screens) device output =
    (device ==ₛ s.device && output ==ₛ s.output) || has_screen screens device output

module _ {F : Type 0} ⦃fl : Float F⦄ where
  -- One round of the loop over the screens, with those before this one.
  unfoldable pub validate_screen : Screen F → List (Screen F) → Result (Unit {0})
  validate_screen s before =
      ensure (not_blank s.device && not_blank s.output) "Device and output names cannot be empty"
      >> validate_rect s.rect
      >> ensure (not (has_screen before s.device s.output)) "Duplicate screen in layout"

  unfoldable pub validate_screens : List (Screen F) → List (Screen F) → Result (Unit {0})
  unfolding validate_screen
  validate_screens before [] = ok tt
  validate_screens before (s ∷ screens) =
      validate_screen s before >> validate_screens (before ++ s ∷ []) screens

  unfoldable pub validate_endpoint : List (Screen F) → Endpoint F → Result (Unit {0})
  validate_endpoint screens e =
      Geometry.validate e.boundary
      >> ensure (has_screen screens e.device e.output) "Link refers to an unknown screen"

  -- `Layout::validate`
  unfoldable pub validate_layout : Layout F → Result (Unit {0})
  unfolding validate_screens validate_endpoint
  validate_layout l =
      validate_screens [] l.screens
      >> ensure (not (l.link.a.device ==ₛ l.link.b.device))
          "A cross-device link must connect different devices"
      >> validate_endpoint l.screens l.link.a
      >> validate_endpoint l.screens l.link.b
