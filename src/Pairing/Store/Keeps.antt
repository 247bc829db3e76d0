-- ===== src/Pairing/Store/Keeps.antt =====
-- src/pairing.rs, `stored_certificate`: which files at its path are replaced.
use niri_bridge.Prelude.{
  Bool-cases, Result, ok, err, is_ok, String, ◌≡◌, refl, sym, ap, ◌∙◌, inl, inr, Bool, true, false,
  ◌&&◌, not, arith,
}
use niri_bridge.Prelude.Action.{◌>>=◌, ◌>>◌, lift, get, check, attempt}
use niri_bridge.Prelude.Text.{◌==ₛ◌}
use niri_bridge.Prelude.All.{ok-injective}
use niri_bridge.Prelude.Triple.{
  Leads, bind, seq, read, read_exact, after, always, returns, lifts, fails_with, branch, lifted,
  given, checks, kept,
}
use niri_bridge.Pairing.{
  CertificateInfo, Metadata, Found, found, not_found, failed, Files, valid_fingerprint,
}
use niri_bridge.Pairing.Store.{
  metadata_of, is_found, is_private, ready_peers, verify_existing, store_existing, store_new,
  store_in, relative, stored_certificate,
}

module _ {F K W : Type 0} (files : Files F K W) where
  -- A file is at a path, and is read as a certificate or not.
  abbrev pub Has : String → Metadata → Result CertificateInfo → W → Type 0
  Has path m r w = (files.metadata path w ≡ found m) × (files.read_certificate path w ≡ r)

  -- Whether a file that is read like this is replaced: for a repair, where it is not the certificate.
  abbrev pub is_replaced : String → Bool → Result CertificateInfo → Bool
  is_replaced fingerprint repair (ok held) = repair && not (held.fingerprint ==ₛ fingerprint)
  is_replaced fingerprint repair (err e) = repair

  -- What is relied on of the files: a new directory changes no file that is there.
  abbrev pub CreatesKeep : Type 0
  CreatesKeep =
      (dir path : String) (m : Metadata) (r : Result CertificateInfo) (w : W)
      → Has path m r w
      → Has path m r (files.create_dir dir w).1

  module _ (creates_keep : CreatesKeep) (destination : String) (info : CertificateInfo)
      (m : Metadata) (r : Result CertificateInfo) where
    abbrev I : W → Type 0
    I = Has destination m r

    ready_peers-keeps :
        (peers : String) (o : Found) → Leads I I (ready_peers files peers o) (λ _. I)
    unfolding ready_peers
    ready_peers-keeps peers (found p) = after (λ _ w h. h.0) (checks _ _ (λ w h. h))
    ready_peers-keeps peers (not_found e) =
        always (λ w h. h) (λ w h. creates_keep peers destination m r w h)
    ready_peers-keeps peers (failed e) = fails_with e (λ w h. h)

    verify_existing-keeps : Leads I I (verify_existing files destination info) (λ _. I)
    unfolding verify_existing
    verify_existing-keeps = read (λ w _.
        bind I (lifts (metadata_of (files.metadata destination w)) (λ v h. h)) (λ m'.
          seq I (after (λ _ v h. h.0) (checks (is_private files m'.is_file m') _ (λ v h. h))) (
            bind I (lifts (files.read_certificate destination w) (λ v h. h)) (λ held.
              after (λ _ v h. h.0) (checks (held.fingerprint ==ₛ info.fingerprint) _ (λ v h. h))))))

    -- A file that is private and is the certificate is verified.
    verify_existing-ok :
        (held : CertificateInfo) (w : W)
        → I w
        → r ≡ ok held
        → is_private files m.is_file m ≡ true
        → (held.fingerprint ==ₛ info.fingerprint) ≡ true
        → verify_existing files destination info w ≡ (ok tt, w)
    unfolding verify_existing ◌>>=◌ ◌>>◌ get lift check
    verify_existing-ok held w h e private same = rw (h.0, private, h.1, e, same) refl

    -- Where a file is not to be replaced, and a repair is asked for, it is verified.
    not_replaced :
        (repair : Bool) (w : W)
        → is_replaced info.fingerprint repair r ≡ false
        → I w
        → is_private files m.is_file m ≡ true
        → (not (is_ok (verify_existing files destination info w).0) && repair) ≡ false
    not_replaced repair w stays h private = go r refl stays
      where
        go :
            (o : Result CertificateInfo)
            → r ≡ o
            → is_replaced info.fingerprint repair o ≡ false
            → (not (is_ok (verify_existing files destination info w).0) && repair) ≡ false
        go (ok held) e stays = elim (Bool-cases (held.fingerprint ==ₛ info.fingerprint)) [
          | inl same ↦ rw (verify_existing-ok held w h e private same) refl
          | inr other ↦ ground arith
        ]
        go (err x) e stays = ground arith

    store_existing-keeps :
        (peers : String) (repair : Bool)
        → is_replaced info.fingerprint repair r ≡ false
        → Leads I I (store_existing files peers destination info repair) (λ _. I)
    unfolding store_existing attempt
    store_existing-keeps peers repair stays = read_exact (λ w h.
        bind I (lifted (metadata_of (files.metadata destination w)) (λ v e. rw e h)) (λ m'.
          given (λ reads. seq I (checks (is_private files m'.is_file m') _ (λ v e. rw e h)) (
            given (λ private. bind I (verified w h) (λ v. given (λ is.
              branch (not (is_ok v) && repair)
                (λ yes.
                  let m_same : ok m ≡ ok m' = ap metadata_of (sym h.0) ∙ reads in
                  let here = ok-injective m m' m_same in
                  let stays' = not_replaced repair w stays h (rw here private) in
                  let yes' : (not (is_ok (verify_existing files destination info w).0) && repair)
                      ≡ true =
                    (rw is at yes) in
                  cc)
                (λ _. verify_existing-keeps))))))))
      where
        verified :
            (w : W)
            → I w
            → Leads I
                (λ t. t ≡ w)
                (attempt (verify_existing files destination info))
                (λ v t. I t × (v ≡ (verify_existing files destination info w).0))
        verified w h = record {
          runs = λ t e.
              rw e
                (kept I (verify_existing files destination info) w verify_existing-keeps h, refl);
        }

    store_in-keeps :
        (peers : String) (repair : Bool)
        → is_replaced info.fingerprint repair r ≡ false
        → Leads I I (store_in files peers destination info repair) (λ _. I)
    unfolding store_in
    store_in-keeps peers repair stays = read (λ w h.
        branch {y = store_new files peers destination info}
          (is_found (files.metadata destination w)) (λ _. store_existing-keeps peers repair stays)
          (λ missing. let there : true ≡ false = rw h.0 at missing in cc))

  -- Where a new directory changes no file, a file that is at the path of a certificate which is
  -- stored is replaced only for a repair, and only where it is not read as a certificate of that
  -- fingerprint: else it stays as it is, whether the certificate is stored or refused.
  pub stored_certificate-keeps :
      CreatesKeep
      → (directory : String) (info : CertificateInfo) (repair : Bool) (m : Metadata)
        (r : Result CertificateInfo) (w : W)
      → Has (files.join directory (relative files info)) m r w
      → is_replaced info.fingerprint repair r ≡ false
      → Has
          (files.join directory (relative files info))
          m
          r
          (stored_certificate files directory info repair w).1
  unfolding stored_certificate
  stored_certificate-keeps creates_keep directory info repair m r w h stays =
      let peers = files.join directory "peers" in
      let destination = files.join directory (relative files info) in
      let There = Has destination m r in
      kept There _ w
        (read (λ v _.
          seq There
            (ready_peers-keeps creates_keep destination info m r peers (files.metadata peers v))
            (seq There
              (after (λ _ u g. g.0) (checks (valid_fingerprint info.fingerprint) _ (λ u g. g)))
              (seq There (store_in-keeps creates_keep destination info m r peers repair stays)
                (returns (relative files info) (λ u g. g))))))
        h
