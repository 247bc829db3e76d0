-- ===== src/Bridge/Edges.antt =====
-- src/bridge.rs: the screen edges of a configuration and their validation.
use niri_bridge.Prelude.{
  leb, ◌==◌, length, Result, ok, err, ◌>>◌, ensure, for_each, ℕ, String, Bool, ◌&&◌, ◌||◌, not,
  List, [], ◌∷◌, ◌++◌, map,
}
use niri_bridge.Prelude.Text.{bytes, ◌==ₛ◌, any_char, is_control, is_ascii_alphanumeric, has_text}
use niri_bridge.Float.{Float}
use niri_bridge.Geometry as Geometry
use niri_bridge.Geometry.{Boundary, same_edge, validate}

pub record EdgeConfig (F : Type 0) : Type 0 where
  pub id : String
  pub output : String
  pub boundary : Boundary F

-- MAX_EDGES
abbrev pub max_edges : ℕ
max_edges = 16

-- The bytes of a text outside ASCII are none of those admitted, so its characters are tested.
abbrev pub edge_id_char : ℕ → Bool
edge_id_char c = is_ascii_alphanumeric c || c == 45 || c == 95

unfoldable pub valid_edge_id : String → Bool
valid_edge_id id =
    not (bytes id == 0) && leb (bytes id) 64 && not (any_char (λ c. not (edge_id_char c)) id)

-- `context(message)` on a result: its error is replaced.
abbrev pub with_context {ℓ} : {A : Type ℓ} → Result A → String → Result A
with_context (ok a) message = ok a
with_context (err e) message = err message

module _ {F : Type 0} ⦃fl : Float F⦄ where
  -- Two spans that share no inner point: on different edges, or one ends where the other starts.
  abbrev pub apart : EdgeConfig F → EdgeConfig F → Bool
  apart e previous =
      not (e.output ==ₛ previous.output)
      || not (same_edge e.boundary.edge previous.boundary.edge)
      || fl.leb previous.boundary.end e.boundary.start
      || fl.leb e.boundary.end previous.boundary.start

  -- The inner loop, over the edges before this one.
  unfoldable pub validate_apart : EdgeConfig F → List (EdgeConfig F) → Result (Unit {0})
  validate_apart e previous = for_each (λ p. ensure (apart e p) "layout_overlap") previous

  -- One round of the loop, with the edges before this one; their ids are the set `ids`.
  unfoldable pub validate_edge : EdgeConfig F → List (EdgeConfig F) → Result (Unit {0})
  unfolding validate_apart
  validate_edge e previous = do
    ensure (valid_edge_id e.id && not (has_text (map (λ p. p.id) previous) e.id))
        "layout_ids_invalid"
    ensure
        (not (bytes e.output == 0)
          && leb (bytes e.output) 128
          && not (any_char is_control e.output))
        "layout_invalid"
    with_context (Geometry.validate e.boundary) "layout_invalid"
    validate_apart e previous

  unfoldable pub validate_each : List (EdgeConfig F) → List (EdgeConfig F) → Result (Unit {0})
  unfolding validate_edge
  validate_each previous [] = ok tt
  validate_each previous (e ∷ edges) =
      validate_edge e previous >> validate_each (previous ++ e ∷ []) edges

  unfoldable pub validate_edges : List (EdgeConfig F) → Result (Unit {0})
  unfolding validate_each
  validate_edges edges =
      ensure (not (length edges == 0) && leb (length edges) max_edges) "layout_count_invalid"
      >> validate_each [] edges
