-- ===== src/Control/Layout.antt =====
-- src/control.rs and src/niri.rs: desktops, requests for a layout, the messages of a layout
-- transaction, and their validation.
use niri_bridge.Prelude.{
  leb, ◌==◌, in_range, length, Result, ◌>>◌, ensure, for_each, ℕ, String, Bool, true, ◌&&◌, not,
  Option, none, some, List, [], ◌∷◌, map,
}
use niri_bridge.Prelude.Int.{ℤ}
use niri_bridge.Prelude.Text.{bytes, any_char, is_ascii_hexdigit, has_text}
use niri_bridge.Float.{Float}
use niri_bridge.Bridge.Edges.{EdgeConfig, validate_edges}

pub data Transform : Type 0 where
  normal rotate_90 rotate_180 rotate_270 : Transform
  flipped flipped_90 flipped_180 flipped_270 : Transform

pub record LogicalOutput (F : Type 0) : Type 0 where
  pub x : ℤ
  pub y : ℤ
  pub width : ℕ
  pub height : ℕ
  pub scale : F
  pub transform : Transform

-- `outputs` is a `BTreeMap<String, LogicalOutput>`: each name stands once.
pub record Desktop (F : Type 0) : Type 0 where
  pub edges : List (EdgeConfig F)
  pub revision : String
  pub outputs : List (String × LogicalOutput F)

pub record LayoutRequest (F : Type 0) : Type 0 where
  pub local_edges : List (EdgeConfig F)
  pub peer_edges : List (EdgeConfig F)
  pub local_revision : String
  pub peer_revision : String

pub data LayoutMessage (F : Type 0) : Type 0 where
  prepare : (id : String) (edges : List (EdgeConfig F)) (revision : String) → LayoutMessage F
  prepared : (id : String) (success : Bool) (error : Option String) → LayoutMessage F
  commit : (id : String) → LayoutMessage F
  result : (id : String) (success : Bool) (revision error : Option String) → LayoutMessage F
  abort : (id : String) → LayoutMessage F

abbrev pub ids : {F : Type 0} → List (EdgeConfig F) → List String
ids edges = map (λ e. e.id) edges

abbrev pub all_in : List String → List String → Bool
all_in [] ts = true
all_in (s ∷ ss) ts = has_text ts s && all_in ss ts

-- `==` on the sets of the texts of two lists.
abbrev pub same_set : List String → List String → Bool
same_set ss ts = all_in ss ts && all_in ts ss

-- `error.as_ref().is_none_or(|e| e.len() <= 64)`
abbrev pub short_error : Option String → Bool
short_error none = true
short_error (some e) = leb (bytes e) 64

unfoldable pub validate_transaction : String → Result (Unit {0})
validate_transaction id =
    ensure (bytes id == 32 && not (any_char (λ c. not (is_ascii_hexdigit c)) id))
      "Invalid layout transaction"

module _ {F : Type 0} ⦃fl : Float F⦄ where
  unfoldable pub validate_output : String × LogicalOutput F → Result (Unit {0})
  validate_output (name, o) =
      ensure
        (leb (bytes name) 128
          && in_range 1 32768 o.width
          && in_range 1 32768 o.height
          && fl.is_finite o.scale
          && fl.ltb (fl.of_ℕ 0) o.scale)
        "Invalid desktop output"

  -- `Desktop::validate`
  unfoldable pub validate_desktop : Desktop F → Result (Unit {0})
  validate_desktop d =
      validate_edges d.edges
      >> ensure (leb (length d.outputs) 32 && leb (bytes d.revision) 64) "Invalid desktop metadata"
      >> for_each validate_output d.outputs

  -- `LayoutRequest::validate`
  unfoldable pub validate_request : LayoutRequest F → Result (Unit {0})
  validate_request r =
      validate_edges r.local_edges
      >> validate_edges r.peer_edges
      >> ensure (same_set (ids r.local_edges) (ids r.peer_edges)) "layout_ids_invalid"
      >> ensure (bytes r.local_revision == 64 && bytes r.peer_revision == 64)
          "Invalid layout revision"

  -- `LayoutMessage::validate`
  unfoldable pub validate_message : LayoutMessage F → Result (Unit {0})
  validate_message (prepare id edges revision) =
      validate_edges edges
      >> ensure (bytes revision == 64) "Invalid layout revision"
      >> validate_transaction id
  validate_message (prepared id success error) =
      ensure (short_error error) "Invalid layout result" >> validate_transaction id
  validate_message (result id success revision error) =
      ensure (short_error error) "Invalid layout result" >> validate_transaction id
  validate_message (commit id) = validate_transaction id
  validate_message (abort id) = validate_transaction id
