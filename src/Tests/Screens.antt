-- ===== src/Tests/Screens.antt =====
-- A layout file of two devices.
use niri_bridge.Prelude.{ok, ℕ, String, ◌≡◌, refl, ◌≢◌, ◌↔◌, [], ◌∷◌}
use niri_bridge.Prelude.All.{All, Pairwise}
use niri_bridge.Geometry as Geometry
use niri_bridge.Geometry.{top, bottom, validate_rect, validate}
use niri_bridge.Geometry.Layout.{
  Screen, Layout, validate_screen, validate_screens, validate_endpoint, validate_layout,
}
use niri_bridge.Geometry.Accepted.{IsScreen, Differ, IsEnd, validate_layout_iff}
use niri_bridge.Tests.Backend.{whole_numbers}

abbrev screen_of : String → Screen ℕ
screen_of device = record {
  device = device;
  output = "DP-1";
  rect = record { x = 0; y = 0; width = 1920; height = 1080 };
}

abbrev desk : Layout ℕ
desk = record {
  screens = screen_of "desktop" ∷ screen_of "laptop" ∷ [];
  link = record {
    a = record {
      device = "desktop";
      output = "DP-1";
      boundary = record { edge = bottom; start = 0; end = 1 };
    };
    b = record {
      device = "laptop";
      output = "DP-1";
      boundary = record { edge = top; start = 0; end = 1 };
    };
  };
}

desk_accepted : validate_layout desk ≡ ok tt
unfolding validate_layout validate_screens validate_screen validate_endpoint Geometry.validate
    Geometry.validate_rect
desk_accepted = refl

validate_layout_iff_example : (validate_layout desk ≡ ok tt) ↔ (
    All IsScreen desk.screens
    × Pairwise Differ desk.screens
    × (desk.link.a.device ≢ desk.link.b.device)
    × IsEnd desk.screens desk.link.a
    × IsEnd desk.screens desk.link.b)
validate_layout_iff_example = validate_layout_iff desk
