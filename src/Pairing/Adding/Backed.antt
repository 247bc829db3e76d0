-- ===== src/Pairing/Adding/Backed.antt =====
-- src/pairing.rs, `add`: the certificate file of the peer that is added.
use niri_bridge.Prelude.{
  Result, ok, context, String, ◌≡◌, refl, ◌∙◌, inl, inr, true, Option, none, some, List, [], ◌∷◌,
  ◌++◌,
}
use niri_bridge.Prelude.Text.{==ₛ_iff}
use niri_bridge.Prelude.Action.{lift}
use niri_bridge.Prelude.Triple.{
  After, Leads, bind, seq, read_exact, after, returns, fails_with, branch, lifted,
}
use niri_bridge.Float.{Float}
use niri_bridge.Pairing.{
  SavedPeer, Config, CertificateInfo, Files, Write, set_profiles, valid_fingerprint, find_peer,
  has_fingerprint, absolute, absolute_peer, checked_certificate,
}
use niri_bridge.Pairing.Adding.{Draft, first_edge, migrate, add_new, renew_peer, add_peer, add}
use niri_bridge.Pairing.Store.{relative, stored_certificate}
use niri_bridge.Pairing.Store.Holds.{IsStore, IsPem, Holds, stored_certificate-IsStored}
use niri_bridge.Pairing.Trusted.{Among, find_peer-Among, checked_certificate-IsChecked}
use niri_bridge.Touchpad.Physical.Reading.{anything}

Among-last : {A : Type 0} (x : A) (ys : List A) → Among x (ys ++ x ∷ [])
Among-last x [] = inl refl
Among-last x (y ∷ ys) = inr (Among-last x ys)

module _ {F : Type 0} ⦃fl : Float F⦄ {K W : Type 0} (files : Files F K W) where
  -- A peer of a list is saved under a fingerprint, and its file is a certificate that has it.
  pub record HasBacked (directory fingerprint : String) (peers : List (SavedPeer F)) (w : W)
      : Type 0 where
    pub peer : SavedPeer F
    pub among : Among peer peers
    pub own : peer.fingerprint ≡ fingerprint
    pub holds : Holds files (absolute files directory peer.certificate) fingerprint w

  -- What an addition writes last is a list of peers with such a one.
  pub record IsBacked (directory fingerprint : String) (writes : List (Write F)) (w : W)
      : Type 0 where
    pub peers : List (SavedPeer F)
    pub earlier : List (Write F)
    pub written : writes ≡ earlier ++ set_profiles peers ∷ []
    pub backed : HasBacked directory fingerprint peers w

  -- What is relied on of paths: a file name is put after a relative path.
  abbrev pub StaysRelative : Type 0
  StaysRelative =
      (info : CertificateInfo)
      → valid_fingerprint info.fingerprint ≡ true
      → files.is_relative (relative files info) ≡ true

  abbrev Any : W → Type 0
  Any w = Unit {0}

  renew_peer-HasBacked :
      (directory : String) (info : CertificateInfo) (draft : Draft F) (o : Option (SavedPeer F))
      → find_peer (has_fingerprint info.fingerprint) draft.peers ≡ o
      → Leads Any Any
          (renew_peer files directory info draft o)
          (λ done. HasBacked directory info.fingerprint done.peers)
  unfolding renew_peer
  renew_peer-HasBacked directory info draft none looked = fails_with _ (λ w h. tt)
  renew_peer-HasBacked directory info draft (some saved) looked =
      let (among, has) =
        find_peer-Among (has_fingerprint info.fingerprint) draft.peers saved looked in
      let own = (==ₛ_iff saved.fingerprint info.fingerprint).0 has in
      seq Any (anything (stored_certificate files directory info true)) (
        read_exact (λ w _.
          seq Any
            {Q = λ v.
              (held : CertificateInfo) × (v ≡ w)
              × (checked_certificate files (absolute_peer files directory saved) w ≡ ok held)}
            (after (λ held v h. (held, h.0, h.1))
              (lifted (checked_certificate files (absolute_peer files directory saved) w)
                (λ v h. tt)))
            (returns draft (λ v h.
              let (held, same, checked) = h in
              let is =
                checked_certificate-IsChecked files (absolute_peer files directory saved) w held
                  checked in
              record {
                peer = saved;
                among = among;
                own = own;
                holds = (held, rw same (is.found), is.fingerprint ∙ own);
              }))))

  module _ (text_of : String → W → String) (certificate_of : String → Result CertificateInfo)
      (store : IsStore files text_of certificate_of) (stays_relative : StaysRelative) where
    add_new-HasBacked :
        (directory : String) (config : Config F) (info : CertificateInfo) (draft : Draft F)
        → IsPem certificate_of info
        → Leads Any Any
            (add_new files directory config info draft)
            (λ done. HasBacked directory info.fingerprint done.peers)
    unfolding add_new
    add_new-HasBacked directory config info draft pem =
        bind Any (anything (lift (context (first_edge config.edges) "layout_invalid"))) (λ edge.
          bind Any
            (stored_certificate-IsStored files text_of certificate_of store directory info true pem)
            (λ path. returns _ (λ w h. record {
              peer = _;
              among = Among-last _ draft.peers;
              own = refl;
              holds =
                  let (same, valid, holds) = h in
                  let is : files.is_relative path ≡ true = rw same (stays_relative info valid) in
                  rw is holds;
            })))

    add_peer-HasBacked :
        (directory : String) (config : Config F) (info : CertificateInfo) (draft : Draft F)
        → IsPem certificate_of info
        → Leads Any Any
            (add_peer files directory config info draft)
            (λ done. HasBacked directory info.fingerprint done.peers)
    unfolding add_peer
    add_peer-HasBacked directory config info draft pem =
        branch _ (λ _. renew_peer-HasBacked directory info draft _ refl)
          (λ _. add_new-HasBacked directory config info draft pem)

    -- Over files as relied on, and for a certificate whose text is read as one with its
    -- fingerprint, an addition that succeeds: among the peers that it writes last one has the
    -- fingerprint that was reviewed, and its certificate file is now a certificate with that
    -- fingerprint.
    pub add-IsBacked :
        (directory : String) (info : CertificateInfo) (config : Config F) (w : W)
        → IsPem certificate_of info
        → After
            (λ _. Unit {0})
            (IsBacked directory info.fingerprint)
            (add files directory info config w)
    unfolding add
    add-IsBacked directory info config w pem =
        (bind Any (anything (migrate files directory config info)) (λ draft.
            bind Any (add_peer-HasBacked directory config info draft pem) (λ done. returns _ (λ v h.
              record {
                peers = done.peers;
                earlier = done.writes;
                written = refl;
                backed = h;
              })))).runs
          w tt
