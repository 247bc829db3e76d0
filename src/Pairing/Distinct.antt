-- ===== src/Pairing/Distinct.antt =====
-- src/pairing.rs: what a configuration with valid peers is.
use niri_bridge.Prelude.{◌==◌, ok, ensure, ◌≤◌, String, ◌≡◌, true, false, List, [], ◌∷◌, arith}
use niri_bridge.Prelude.Text.{bytes, any_char, is_control, has_text}
use niri_bridge.Prelude.All.{All, ensure-ok, >>-ok}
use niri_bridge.Float.{Float}
use niri_bridge.Bridge.Edges.{validate_edges}
use niri_bridge.Pairing.{
  SavedPeer, Config, valid_fingerprint, no_peers, some_peer, peer_is_valid, validate_peers,
  is_selected, validate,
}

module _ {F : Type 0} ⦃fl : Float F⦄ where
  -- A saved peer with a fingerprint and a name of the right form, and valid screen edges.
  pub record IsPeer (peer : SavedPeer F) : Type 0 where
    pub fingerprint : valid_fingerprint peer.fingerprint ≡ true
    pub named : (bytes peer.name == 0) ≡ false
    short : bytes peer.name ≤ 253
    printable : any_char is_control peer.name ≡ false
    pub edges : validate_edges peer.edges ≡ ok tt

  -- Peers with fingerprints that differ from each other and from those before.
  abbrev pub AreDistinct : List String → List (SavedPeer F) → Type 0
  AreDistinct before [] = Unit {0}
  AreDistinct before (peer ∷ peers) =
      (has_text before peer.fingerprint ≡ false) × AreDistinct (peer.fingerprint ∷ before) peers

  validate_peers-AreDistinct :
      (before : List String) (peers : List (SavedPeer F))
      → validate_peers before peers ≡ ok tt
      → All IsPeer peers × AreDistinct before peers
  unfolding validate_peers
  validate_peers-AreDistinct before [] h = (tt, tt)
  validate_peers-AreDistinct before (peer ∷ peers) h =
      let (first, rest) = (>>-ok (ensure (peer_is_valid before peer) _) _ tt).0 h in
      let (edges, others) = (>>-ok (validate_edges peer.edges) _ tt).0 rest in
      let valid = (ensure-ok _ _).0 first in
      let (all, distinct) = validate_peers-AreDistinct (peer.fingerprint ∷ before) peers others in
      (
        (
          record {
            fingerprint = ground arith;
            named = ground arith;
            short = ground arith;
            printable = ground arith;
            edges = edges;
          },
          all,
        ),
        (ground arith, distinct),
      )

  -- A configuration that is accepted: each saved peer is well formed, no two have one fingerprint,
  -- and where there are any, the selected certificate and name are those of one of them.
  pub validate-AreDistinct :
      (config : Config F)
      → validate config ≡ ok tt
      → All IsPeer config.paired_devices
        × AreDistinct [] config.paired_devices
        × (no_peers config.paired_devices ≡ false
            → some_peer (is_selected config) config.paired_devices ≡ true)
  unfolding validate
  validate-AreDistinct config h =
      let (peers, selected) = (>>-ok (validate_peers [] config.paired_devices) _ tt).0 h in
      let (all, distinct) = validate_peers-AreDistinct [] config.paired_devices peers in
      let one = (ensure-ok _ _).0 selected in (all, distinct, λ saved. ground arith)
