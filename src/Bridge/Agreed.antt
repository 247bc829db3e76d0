-- ===== src/Bridge/Agreed.antt =====
-- src/control.rs and src/bridge.rs: the edges that are active once a layout is agreed.
use niri_bridge.Prelude.{
  ◌==◌, length, get_elem?, ok, ◌>>◌, ensure, ℕ, zero, suc, ◌<◌, String, ◌≡◌, refl, ap, true, ◌&&◌,
  some, List, [], ◌∷◌, arith,
}
use niri_bridge.Prelude.All.{All, ensure-ok, >>-ok}
use niri_bridge.Prelude.Text.{bytes, ==ₛ_iff, has_text}
use niri_bridge.Prelude.Sets.{contains}
use niri_bridge.Float.{Float}
use niri_bridge.Bridge.Edges.{EdgeConfig, validate_edges}
use niri_bridge.Bridge.Active.{has_output, any_match, active_edges, usable, contains-active_from}
use niri_bridge.Control.Layout.{Desktop, LayoutRequest, ids, all_in, same_set, validate_request}

All-at :
    {A : Type 0} (P : A → Type 0) (xs : List A) (i : ℕ)
    → All P xs
    → i < length xs
    → (x : A) × (get_elem? xs i ≡ some x) × P x
All-at P [] i h k = absurd (omega arith)
All-at P (x ∷ xs) zero h k = (x, refl, h.0)
All-at P (x ∷ xs) (suc i) h k = All-at P xs i h.1 (omega arith)

All-and :
    {A : Type 0} (P Q : A → Type 0) (xs : List A) → All P xs → All Q xs → All (λ x. P x × Q x) xs
All-and P Q [] h k = tt
All-and P Q (x ∷ xs) h k = ((h.0, k.0), All-and P Q xs h.1 k.1)

-- Each edge of a device stands on a connected output.
abbrev pub Connected : {F : Type 0} → Desktop F → Type 0
Connected d = All (λ e. has_output d e.output ≡ true) d.edges

match_in :
    {F : Type 0} (peer : Desktop F) (e : EdgeConfig F) (others : List (EdgeConfig F))
    → All (λ o. has_output peer o.output ≡ true) others
    → has_text (ids others) e.id ≡ true
    → any_match peer e others ≡ true
match_in peer e [] h k = cc
match_in peer e (o ∷ others) h k =
    ground (arith, match_in peer e others, ==ₛ_iff e.id o.id, ==ₛ_iff o.id e.id)

ids_in :
    {F : Type 0} (edges : List (EdgeConfig F)) (texts : List String)
    → all_in (ids edges) texts ≡ true
    → All (λ e. has_text texts e.id ≡ true) edges
ids_in [] texts h = tt
ids_in (e ∷ edges) texts h = ground (arith, ids_in edges texts)

module _ {F : Type 0} ⦃fl : Float F⦄ where
  request-same_set :
      (r : LayoutRequest F)
      → validate_request r ≡ ok tt
      → same_set (ids r.local_edges) (ids r.peer_edges) ≡ true
  unfolding validate_request
  request-same_set r h =
      let alike = same_set (ids r.local_edges) (ids r.peer_edges) in
      let edges = validate_edges r.local_edges >> validate_edges r.peer_edges in
      let same = ensure alike "layout_ids_invalid" in
      let revisions =
        ensure (bytes r.local_revision == 64 && bytes r.peer_revision == 64)
          "Invalid layout revision" in
      (ensure-ok alike "layout_ids_invalid").0
        ((>>-ok edges same tt).0 ((>>-ok (edges >> same) revisions tt).0 h).0).1

  -- Where two devices have the edges of an accepted layout request, all on connected outputs, every
  -- edge is active.
  pub agreed-active :
      (r : LayoutRequest F) (local peer : Desktop F) (i : ℕ)
      → validate_request r ≡ ok tt
      → local.edges ≡ r.local_edges
      → peer.edges ≡ r.peer_edges
      → Connected local
      → Connected peer
      → i < length local.edges
      → contains (active_edges local (some peer)) i ≡ true
  unfolding active_edges
  agreed-active r local peer i accepted own other here there below =
      let same : same_set (ids local.edges) (ids peer.edges) ≡ true =
        rw (own, other) (request-same_set r accepted) in
      let known = ids_in local.edges (ids peer.edges) (ground (arith, same)) in
      let (e, at, (has, listed)) =
        All-at (λ e. (has_output local e.output ≡ true) × (has_text (ids peer.edges) e.id ≡ true))
          local.edges i (All-and _ _ local.edges here known) below in
      let matched = match_in peer e peer.edges there listed in
      let fits = ap (λ o. usable local (some peer) o) at in
      ground (arith, contains-active_from local (some peer) 0 local.edges i, fits, has, matched)
