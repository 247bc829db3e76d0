-- ===== src/Pairing/Trusted.antt =====
-- src/pairing.rs: that only the certificate of a saved peer is used.
use niri_bridge.Prelude.{
  Bool-cases, Result, ok, err, ensure, context, String, ◌≡◌, refl, sym, ap, ◌∙◌, ◌⊎◌, inl, inr,
  Bool, true, false, ◌&&◌, Option, none, some, List, [], ◌∷◌, arith,
}
use niri_bridge.Prelude.Text.{◌==ₛ◌, ==ₛ_iff}
use niri_bridge.Prelude.All.{ensure-ok, >>-ok, >>=-ok, ok-injective}
use niri_bridge.Float.{Float}
use niri_bridge.Bridge.Edges.{with_context}
use niri_bridge.Pairing.{
  SavedPeer, Config, CertificateInfo, Files, Write, set_peer_name, set_peer_certificate,
  set_connection, set_edges, set_profiles, find_peer, no_peers, has_fingerprint, absolute_peer,
  checked_certificate, check_selected, selected_certificate, activate, select,
}

-- An element of a list.
abbrev pub Among : {A : Type 0} → A → List A → Type 0
Among x [] = ⊥
Among x (y ∷ ys) = (x ≡ y) ⊎ Among x ys

pub find_peer-Among :
    {F : Type 0} (p : SavedPeer F → Bool) (peers : List (SavedPeer F)) (peer : SavedPeer F)
    → find_peer p peers ≡ some peer
    → Among peer peers × (p peer ≡ true)
find_peer-Among p [] peer h = cc
find_peer-Among p (q ∷ peers) peer h = elim (Bool-cases (p q)) [
  | inl own ↦
      let same : some q ≡ some peer = (rw own at h) in
      let same' : q ≡ peer = cc in (inl (sym same'), ap p (sym same') ∙ own)
  | inr other ↦ let (among, own) = find_peer-Among p peers peer (rw other at h) in (inr among, own)
]

context-ok :
    {A : Type 0} (o : Option A) (message : String) (a : A) → context o message ≡ ok a → o ≡ some a
context-ok none message a h = cc
context-ok (some b) message a h = ap (λ c. some c) (ok-injective b a h)

pub with_context-ok :
    {A : Type 0} (r : Result A) (message : String) (a : A)
    → with_context r message ≡ ok a
    → r ≡ ok a
with_context-ok (ok b) message a h = h
with_context-ok (err e) message a h = cc

module _ {F : Type 0} ⦃fl : Float F⦄ {K W : Type 0} (files : Files F K W) where
  -- A certificate file that is that of a saved peer.
  pub record IsChecked (peer : SavedPeer F) (info : CertificateInfo) (w : W) : Type 0 where
    pub found : files.read_certificate peer.certificate w ≡ ok info
    pub fingerprint : info.fingerprint ≡ peer.fingerprint
    pub name : info.name ≡ peer.name

  pub checked_certificate-IsChecked :
      (peer : SavedPeer F) (w : W) (info : CertificateInfo)
      → checked_certificate files peer w ≡ ok info
      → IsChecked peer info w
  unfolding checked_certificate
  checked_certificate-IsChecked peer w info h =
      let (found, reading, rest) =
        >>=-ok (with_context (files.read_certificate peer.certificate w) "peer_certificate_changed")
          _ info h in
      let (checked, same) =
        (>>-ok (ensure (found.fingerprint ==ₛ peer.fingerprint && found.name ==ₛ peer.name) _) _
            info).0
          rest in
      let both = (ensure-ok _ _).0 checked in
      let here = ok-injective found info same in
      record {
        found = with_context-ok _ _ found reading ∙ ap (λ i. ok i) here;
        fingerprint =
            ap (λ (i : CertificateInfo). i.fingerprint) (sym here)
            ∙ (==ₛ_iff found.fingerprint peer.fingerprint).0 (ground arith);
        name =
            ap (λ (i : CertificateInfo). i.name) (sym here)
            ∙ (==ₛ_iff found.name peer.name).0 (ground arith);
      }

  -- What the writes of an edit make of a configuration.
  abbrev pub settings_after : List (Write F) → Config F → Config F
  settings_after [] config = config
  settings_after (set_peer_name name ∷ writes) config =
      settings_after writes (record config { peer_name = name })
  settings_after (set_peer_certificate path ∷ writes) config =
      settings_after writes (record config { peer_certificate = path })
  settings_after (set_connection connection ∷ writes) config =
      settings_after writes (record config { connection = connection })
  settings_after (set_edges edges ∷ writes) config =
      settings_after writes (record config { edges = edges })
  settings_after (set_profiles peers ∷ writes) config =
      settings_after writes (record config { paired_devices = peers })

  -- A configuration with a peer's settings in place of its own, and all else as it is.
  abbrev pub settings_of : SavedPeer F → Config F → Config F
  settings_of peer config = record config {
    peer_name = peer.name;
    peer_certificate = peer.certificate;
    connection = peer.connection;
    edges = peer.edges;
  }

  -- What a selection has written, and of which peer: one that is saved under the fingerprint asked
  -- for, and whose certificate file was just read and is its own.
  pub record IsSelection (directory fingerprint : String) (config : Config F) (w : W)
      (writes : List (Write F)) : Type 0 where
    pub peer : SavedPeer F
    pub info : CertificateInfo
    pub saved : Among peer config.paired_devices
    pub asked : peer.fingerprint ≡ fingerprint
    pub checked : IsChecked (absolute_peer files directory peer) info w
    pub written : settings_after writes config ≡ settings_of peer config

  -- A peer is selected only where it is saved under the fingerprint that is asked for and its
  -- certificate file is the one that was saved; what is written puts this peer's name,
  -- certificate, connection and edges in place of the configuration's own, and changes nothing
  -- else of it.
  pub select-IsSelection :
      (directory fingerprint : String) (config : Config F) (w : W) (writes : List (Write F))
      → select files directory fingerprint config w ≡ ok writes
      → IsSelection directory fingerprint config w writes
  unfolding select activate
  select-IsSelection directory fingerprint config w writes h =
      let (peer, looked, rest) =
        >>=-ok (context (find_peer (has_fingerprint fingerprint) config.paired_devices) _) _ writes
          h in
      let (info, checked, last) =
        >>=-ok (checked_certificate files (absolute_peer files directory peer) w) _ writes rest in
      let (among, own) =
        find_peer-Among (has_fingerprint fingerprint) config.paired_devices peer
          (context-ok _ _ peer looked) in
      record {
        peer = peer;
        info = info;
        saved = among;
        asked = (==ₛ_iff peer.fingerprint fingerprint).0 own;
        checked = checked_certificate-IsChecked (absolute_peer files directory peer) w info checked;
        written = ap (λ ws. settings_after ws config) (sym (ok-injective _ _ last));
      }

  -- What the selected file holds now is a certificate, and that of a peer that is saved.
  pub record IsTrusted (config : Config F) (w : W) (certificate : K) : Type 0 where
    pub loaded : files.load_certificate config.peer_certificate w ≡ ok certificate
    pub peer : SavedPeer F
    pub saved : Among peer config.paired_devices
    pub selected : peer.certificate ≡ config.peer_certificate
    pub same : files.digest certificate ≡ peer.fingerprint

  check_selected-ok :
      (certificate chosen : K) (o : Option (SavedPeer F))
      → check_selected files certificate o ≡ ok chosen
      → (peer : SavedPeer F) × (o ≡ some peer)
        × (certificate ≡ chosen)
        × (files.digest certificate ≡ peer.fingerprint)
  check_selected-ok certificate chosen none h = cc
  check_selected-ok certificate chosen (some peer) h =
      let (checked, same) =
        (>>-ok (ensure (files.digest certificate ==ₛ peer.fingerprint) _) _ chosen).0 h in
      (
        peer,
        refl,
        ok-injective _ _ same,
        (==ₛ_iff (files.digest certificate) peer.fingerprint).0 ((ensure-ok _ _).0 checked),
      )

  -- Where peers are saved, the certificate that the connection uses is what the selected file
  -- holds now, and is that of a saved peer: the one whose file is selected, and whose fingerprint
  -- it has.
  pub selected_certificate-IsTrusted :
      (config : Config F) (w : W) (certificate : K)
      → no_peers config.paired_devices ≡ false
      → selected_certificate files config w ≡ ok certificate
      → IsTrusted config w certificate
  unfolding selected_certificate
  selected_certificate-IsTrusted config w certificate saved h =
      let (loaded, reading, rest) =
        >>=-ok (files.load_certificate config.peer_certificate w) _ certificate h in
      let chosen =
        find_peer (λ p. p.certificate ==ₛ config.peer_certificate) config.paired_devices in
      let rest : check_selected files loaded chosen ≡ ok certificate = (rw saved at rest) in
      let (peer, found, same, digest) = check_selected-ok loaded certificate chosen rest in
      let (among, own) = find_peer-Among _ config.paired_devices peer found in
      record {
        loaded = reading ∙ ap (λ k. ok k) same;
        peer = peer;
        saved = among;
        selected = (==ₛ_iff peer.certificate config.peer_certificate).0 own;
        same = ap files.digest (sym same) ∙ digest;
      }
