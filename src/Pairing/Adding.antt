-- ===== src/Pairing/Adding.antt =====
-- src/pairing.rs, `add`: a reviewed certificate is saved.
use niri_bridge.Prelude.{
  if◌then◌else◌, Bool-cases, Result, ok, err, context, and_then, String, ◌≡◌, refl, inl, inr, Bool,
  true, false, Option, none, some, List, [], ◌∷◌, ◌++◌, arith,
}
use niri_bridge.Prelude.Text.{◌==ₛ◌, ==ₛ_iff}
use niri_bridge.Prelude.Action.{Action, ◌>>=◌, ◌>>◌, pure, done, fail, lift, get}
use niri_bridge.Prelude.Triple.{After, bind, seq, read, returns, fails_with, branch, After-map}
use niri_bridge.Float.{Float}
use niri_bridge.Bridge.Edges.{EdgeConfig}
use niri_bridge.Pairing.{
  Connection, listen, SavedPeer, Config, CertificateInfo, Files, Write, set_profiles, find_peer,
  no_peers, some_peer, has_fingerprint, absolute, absolute_peer, checked_certificate, activate,
}
use niri_bridge.Pairing.Store.{stored_certificate}
use niri_bridge.Pairing.Trusted.{Among}
use niri_bridge.Touchpad.Physical.Reading.{Gives, anything}
pub mod Backed

-- The peers, and what was written to the document so far.
pub record Draft (F : Type 0) : Type 0 where
  pub peers : List (SavedPeer F)
  pub writes : List (Write F)

abbrev pub first_edge : {F : Type 0} → List (EdgeConfig F) → Option (EdgeConfig F)
first_edge [] = none
first_edge (e ∷ es) = some e

module _ {F : Type 0} ⦃fl : Float F⦄ {K W : Type 0} (files : Files F K W) where
  -- The peer of a configuration that has no saved ones, when its certificate exists.
  abbrev save_current : String → Config F → CertificateInfo → String → Bool → Action W (Draft F)
  save_current directory config info old false w = (ok (record { peers = []; writes = [] }), w)
  save_current directory config info old true w =
      and_then (files.read_certificate old w, w)
        (λ current w.
          and_then
            (stored_certificate files directory current (current.fingerprint ==ₛ info.fingerprint)
              w)
            (λ path w.
              let peer : SavedPeer F = record {
                fingerprint = current.fingerprint;
                name = current.name;
                certificate = path;
                connection = config.connection;
                edges = config.edges;
              } in
              (ok (record { peers = peer ∷ []; writes = activate files peer }), w)))

  unfoldable pub migrate : String → Config F → CertificateInfo → Action W (Draft F)
  migrate directory config info w =
      if no_peers config.paired_devices
      then and_then (files.exists (absolute files directory config.peer_certificate) w, w)
          (save_current directory config info (absolute files directory config.peer_certificate))
      else (ok (record { peers = config.paired_devices; writes = [] }), w)

  -- The settings of a new peer: those of the configuration for the first one.
  abbrev new_connection : Bool → Config F → Connection
  new_connection true config = config.connection
  new_connection false config = listen "0.0.0.0:42420"

  abbrev new_edges : Bool → Config F → EdgeConfig F → List (EdgeConfig F)
  new_edges true config edge = config.edges
  new_edges false config edge = record edge { id = "default" } ∷ []

  abbrev with_peer : Bool → SavedPeer F → Draft F → Draft F
  with_peer first peer draft = record {
    peers = draft.peers ++ peer ∷ [];
    writes = draft.writes ++ (if first then activate files peer else []);
  }

  unfoldable pub add_new : String → Config F → CertificateInfo → Draft F → Action W (Draft F)
  add_new directory config info draft = do
    let first = no_peers draft.peers
    edge ← lift (context (first_edge config.edges) "layout_invalid")
    path ← stored_certificate files directory info true
    pure (
        with_peer first
          (record {
            fingerprint = info.fingerprint;
            name = info.name;
            certificate = path;
            connection = new_connection first config;
            edges = new_edges first config edge;
          })
          draft)

  -- A peer that is saved already: its certificate is stored again, and checked.
  unfoldable pub renew_peer :
      String → CertificateInfo → Draft F → Option (SavedPeer F) → Action W (Draft F)
  renew_peer directory info draft none = fail "peer_not_found"
  renew_peer directory info draft (some saved) = do
    stored_certificate files directory info true
    w ← get
    lift (checked_certificate files (absolute_peer files directory saved) w)
    pure draft

  unfoldable pub add_peer : String → Config F → CertificateInfo → Draft F → Action W (Draft F)
  add_peer directory config info draft =
      if some_peer (has_fingerprint info.fingerprint) draft.peers
      then renew_peer directory info draft
          (find_peer (has_fingerprint info.fingerprint) draft.peers)
      else add_new directory config info draft

  -- `add`, of the configuration that the document is read as.
  pub add : String → CertificateInfo → Config F → Action W (List (Write F))
  add directory info config = do
    draft ← migrate directory config info
    done ← add_peer directory config info draft
    pure (done.writes ++ set_profiles done.peers ∷ [])

  -- The peers of a draft have one with the fingerprint, and all of those before.
  pub record HasPeer (fingerprint : String) (before : List (SavedPeer F)) (draft : Draft F)
      : Type 0 where
    pub kept : (peer : SavedPeer F) → Among peer before → Among peer draft.peers
    pub saved : some_peer (has_fingerprint fingerprint) draft.peers ≡ true

  Among-append : {A : Type 0} (x y : A) (ys : List A) → Among x ys → Among x (ys ++ y ∷ [])
  Among-append x y [] h = absurd h
  Among-append x y (z ∷ ys) (inl h) = inl h
  Among-append x y (z ∷ ys) (inr h) = inr (Among-append x y ys h)

  some_peer-append :
      (p : SavedPeer F → Bool) (peer : SavedPeer F) (peers : List (SavedPeer F))
      → p peer ≡ true
      → some_peer p (peers ++ peer ∷ []) ≡ true
  some_peer-append p peer [] h = rw h refl
  some_peer-append p peer (q ∷ peers) h = ground (arith, some_peer-append p peer peers h)

  add_peer-HasPeer :
      (directory : String) (config : Config F) (info : CertificateInfo) (draft : Draft F)
      → Gives
          (λ done. HasPeer info.fingerprint draft.peers done)
          (add_peer directory config info draft)
  unfolding add_peer add_new
  add_peer-HasPeer directory config info draft =
      branch _ (λ saved. renewed saved (find_peer (has_fingerprint info.fingerprint) draft.peers))
        (λ _. bind _ (anything (lift (context (first_edge config.edges) "layout_invalid"))) (λ edge.
          bind _ (anything (stored_certificate files directory info true)) (λ path.
            returns _ (λ w h. record {
              kept = λ peer among. Among-append peer _ draft.peers among;
              saved =
                  some_peer-append (has_fingerprint info.fingerprint) _ draft.peers
                    ((==ₛ_iff info.fingerprint info.fingerprint).1 refl);
            }))))
    where
      renewed :
          some_peer (has_fingerprint info.fingerprint) draft.peers ≡ true
          → (o : Option (SavedPeer F))
          → Gives
              (λ done. HasPeer info.fingerprint draft.peers done)
              (renew_peer directory info draft o)
      renewed saved none = unfold renew_peer in fails_with _ (λ w h. tt)
      renewed saved (some peer) =
          unfold renew_peer in
          seq _ (anything (stored_certificate files directory info true)) (
            read (λ w _.
              seq _ (anything (lift _))
                (returns draft (λ w h. record { kept = λ peer among. among; saved = saved }))))

  migrate-keeps :
      (directory : String) (config : Config F) (info : CertificateInfo)
      → Gives
          (λ draft.
            (peer : SavedPeer F) → Among peer config.paired_devices → Among peer draft.peers)
          (migrate directory config info)
  unfolding migrate
  migrate-keeps directory config info = record {
    runs = λ w _. elim (Bool-cases (no_peers config.paired_devices)) [
      | inl empty ↦ rw empty (nothing_lost config.paired_devices empty _)
      | inr some_saved ↦ rw some_saved (λ peer among. among)
    ];
  }
    where
      nothing_lost :
          (peers : List (SavedPeer F))
          → no_peers peers ≡ true
          → (o : Result (Draft F) × W)
          → After
              (λ _. Unit {0})
              (λ draft _. (peer : SavedPeer F) → Among peer peers → Among peer draft.peers)
              o
      nothing_lost [] empty (ok draft, w) = λ peer among. absurd among
      nothing_lost [] empty (err e, w) = tt
      nothing_lost (q ∷ peers) empty o = absurd (ground arith)

  -- The peers that an addition saves, and that they are what it writes last.
  pub record IsAdded (fingerprint : String) (before : List (SavedPeer F)) (writes : List (Write F))
      : Type 0 where
    pub peers : List (SavedPeer F)
    pub earlier : List (Write F)
    pub written : writes ≡ earlier ++ set_profiles peers ∷ []
    pub kept : (peer : SavedPeer F) → Among peer before → Among peer peers
    pub saved : some_peer (has_fingerprint fingerprint) peers ≡ true

  add-Gives :
      (directory : String) (info : CertificateInfo) (config : Config F)
      → Gives (IsAdded info.fingerprint config.paired_devices) (add directory info config)
  unfolding add
  add-Gives directory info config = record {
    runs = λ w _.
        ((bind _ (migrate-keeps directory config info) (λ draft.
            bind _ (record { runs = λ w keep. with_kept draft keep w })
              (λ done. returns _ (λ w h. record {
                peers = done.peers;
                earlier = done.writes;
                written = refl;
                kept = h.0;
                saved = h.1;
              })))).runs
          w tt);
  }
    where
      Both : Draft F → Type 0
      Both done =
          ((peer : SavedPeer F) → Among peer config.paired_devices → Among peer done.peers)
          × (some_peer (has_fingerprint info.fingerprint) done.peers ≡ true)

      with_kept :
          (draft : Draft F)
          → ((peer : SavedPeer F) → Among peer config.paired_devices → Among peer draft.peers)
          → (w : W)
          → After (λ _. Unit {0}) (λ done _. Both done) (add_peer directory config info draft w)
      with_kept draft keep w =
          After-map _ _ _ _ (add_peer directory config info draft w)
            ((add_peer-HasPeer directory config info draft).runs w tt) (λ w h. tt)
            (λ done w h. ((λ peer among. h.kept peer (keep peer among)), h.saved))

  -- An addition that succeeds, whatever the files are: what it writes last are the saved peers, with
  -- one of the fingerprint that was reviewed, and all that were saved before.
  pub add-IsAdded :
      (directory : String) (info : CertificateInfo) (config : Config F) (w : W)
      → After
          (λ _. Unit {0})
          (λ writes _. IsAdded info.fingerprint config.paired_devices writes)
          (add directory info config w)
  add-IsAdded directory info config w = (add-Gives directory info config).runs w tt
