-- ===== src/Pairing/Store/Holds.antt =====
-- src/pairing.rs, `stored_certificate`: what the file at the path that it gives holds.
use niri_bridge.Prelude.{Result, ok, err, is_ok, String, ◌≡◌, refl, ◌∙◌, Bool, true, ◌&&◌, not}
use niri_bridge.Prelude.Text.{◌==ₛ◌, ==ₛ_iff}
use niri_bridge.Prelude.Action.{lift, check, attempt}
use niri_bridge.Prelude.Triple.{
  After, Leads, bind, seq, read, read_exact, before, after, always, returns, skips, lifts,
  fails_with, branch, lifted, given, checks,
}
use niri_bridge.Touchpad.Physical.Reading.{anything}
use niri_bridge.Manager.{write_failed}
use niri_bridge.Pairing.{
  CertificateInfo, Placed, placed, already_exists, not_placed, Files, valid_fingerprint,
}
use niri_bridge.Pairing.Store.{
  metadata_of, is_found, is_private, ready_peers, verify_existing, persist_over, replace_existing,
  store_existing, place_new, on_placed, store_new, store_in, relative, stored_certificate,
}

-- What is relied on of the files: a temporary file has the text written to it, a file that is moved
-- to a path is read there as the certificate of its text, and a directory that is written out keeps
-- what its files are read as.
pub record IsStore {F K W : Type 0} (files : Files F K W) (text_of : String → W → String)
    (certificate_of : String → Result CertificateInfo) : Type 0 where
  pub temp_text :
      (dir text t : String) (w : W)
      → (files.write_temp dir text w).0 ≡ ok t
      → text_of t (files.write_temp dir text w).1 ≡ text
  pub persist_writes :
      (t path : String) (w : W)
      → (files.persist t path w).0 ≡ ok tt
      → files.read_certificate path (files.persist t path w).1 ≡ certificate_of (text_of t w)
  pub noclobber_writes :
      (t path : String) (w : W)
      → (files.persist_noclobber t path w).0 ≡ placed
      → files.read_certificate path (files.persist_noclobber t path w).1
        ≡ certificate_of (text_of t w)
  pub sync_keeps :
      (dir path : String) (w : W)
      → files.read_certificate path (files.sync_dir dir w).1 ≡ files.read_certificate path w

-- A certificate whose text is read as one with its fingerprint.
abbrev pub IsPem : (String → Result CertificateInfo) → CertificateInfo → Type 0
IsPem certificate_of info =
    (i : CertificateInfo) × (certificate_of info.pem ≡ ok i) × (i.fingerprint ≡ info.fingerprint)

module _ {F K W : Type 0} (files : Files F K W) where
  -- The file at a path is a certificate with the fingerprint.
  abbrev pub Holds : String → String → W → Type 0
  Holds path fingerprint w =
      (i : CertificateInfo) × (files.read_certificate path w ≡ ok i) × (i.fingerprint ≡ fingerprint)

  abbrev Any : W → Type 0
  Any w = Unit {0}

  -- A file that is verified is a certificate with the fingerprint.
  pub verify_existing-Holds :
      (destination : String) (info : CertificateInfo)
      → Leads Any Any
          (verify_existing files destination info)
          (λ _. Holds destination info.fingerprint)
  unfolding verify_existing
  verify_existing-Holds destination info = read_exact (λ w h.
      bind Any (lifts (metadata_of (files.metadata destination w)) (λ v e. tt)) (λ m.
        seq Any (checks (is_private files m.is_file m) _ (λ v e. tt)) (
          given (λ private.
            bind Any (lifted (files.read_certificate destination w) (λ v e. tt)) (λ held.
              given (λ reads.
                after
                  (λ _ v e. (held, rw e.0 reads, (==ₛ_iff held.fingerprint info.fingerprint).0 e.1))
                  (checks (held.fingerprint ==ₛ info.fingerprint) _ (λ v e. tt))))))))

  module _ (text_of : String → W → String) (certificate_of : String → Result CertificateInfo)
      (store : IsStore files text_of certificate_of) where
    write_temp_lem :
        (dir text : String) → Leads Any Any (files.write_temp dir text) (λ t w. text_of t w ≡ text)
    write_temp_lem dir text = record { runs = λ w h. go w (files.write_temp dir text w).0 refl }
      where
        go :
            (w : W) (r : Result String)
            → (files.write_temp dir text w).0 ≡ r
            → After Any (λ t v. text_of t v ≡ text) (r, (files.write_temp dir text w).1)
        go w (ok t) e = store.temp_text dir text t w e
        go w (err m) e = tt

    persist_over_lem :
        (t path text : String)
        → Leads Any
            (λ w. text_of t w ≡ text)
            (persist_over files t path)
            (λ _ w. files.read_certificate path w ≡ certificate_of text)
    unfolding persist_over
    persist_over_lem t path text = record { runs = λ w h. go w h (files.persist t path w).0 refl }
      where
        go :
            (w : W)
            → text_of t w ≡ text
            → (r : Result (Unit {0})) → (files.persist t path w).0 ≡ r
            → After Any
                (λ _ v. files.read_certificate path v ≡ certificate_of text)
                (write_failed r, (files.persist t path w).1)
        go w h (ok tt) e = rw⁻¹ h (store.persist_writes t path w e)
        go w h (err m) e = tt

    place_new_lem :
        (t path text : String)
        → Leads Any
            (λ w. text_of t w ≡ text)
            (place_new files t path)
            (λ o w. o ≡ placed → files.read_certificate path w ≡ certificate_of text)
    unfolding place_new
    place_new_lem t path text = record {
      runs = λ w h e. rw⁻¹ h (store.noclobber_writes t path w e);
    }

    sync_dir_lem :
        (dir path fingerprint : String)
        → Leads Any (Holds path fingerprint) (files.sync_dir dir) (λ _. Holds path fingerprint)
    sync_dir_lem dir path fingerprint =
        always (λ w h. tt)
          (λ w h. let (i, reads, same) = h in (i, store.sync_keeps dir path w ∙ reads, same))

    module _ (peers destination : String) (info : CertificateInfo)
        (pem : IsPem certificate_of info) where
      written-Holds :
          (w : W)
          → files.read_certificate destination w ≡ certificate_of info.pem
          → Holds destination info.fingerprint w
      written-Holds w h = let (i, reads, same) = pem in (i, h ∙ reads, same)

      replace_existing-Holds :
          Leads Any Any
            (replace_existing files peers destination info)
            (λ _. Holds destination info.fingerprint)
      unfolding replace_existing
      replace_existing-Holds = bind Any (write_temp_lem peers info.pem) (λ t.
          seq Any (after (λ _. written-Holds) (persist_over_lem t destination info.pem))
            (sync_dir_lem peers destination info.fingerprint))

      store_existing-Holds :
          (repair : Bool)
          → Leads Any Any
              (store_existing files peers destination info repair)
              (λ _. Holds destination info.fingerprint)
      unfolding store_existing
      store_existing-Holds repair = read (λ w _. bind Any (anything (lift _)) (λ m.
          seq Any (anything (check _ _)) (
            bind Any (anything (attempt (verify_existing files destination info))) (λ verified.
              branch (not (is_ok verified) && repair) (λ _. replace_existing-Holds)
                (λ _. verify_existing-Holds destination info)))))

      on_placed-Holds :
          (o : Placed)
          → Leads Any
              (λ w. o ≡ placed → files.read_certificate destination w ≡ certificate_of info.pem)
              (on_placed files destination info o)
              (λ _. Holds destination info.fingerprint)
      unfolding on_placed
      on_placed-Holds placed = skips (λ w h. written-Holds w (h refl))
      on_placed-Holds already_exists = before (λ w h. tt) (verify_existing-Holds destination info)
      on_placed-Holds (not_placed e) = fails_with e (λ w h. tt)

      store_new-Holds :
          Leads Any Any
            (store_new files peers destination info)
            (λ _. Holds destination info.fingerprint)
      unfolding store_new
      store_new-Holds = bind Any (write_temp_lem peers info.pem) (λ t.
          bind Any (place_new_lem t destination info.pem)
            (λ o. seq Any (on_placed-Holds o) (sync_dir_lem peers destination info.fingerprint)))

      store_in-Holds :
          (repair : Bool)
          → Leads Any Any
              (store_in files peers destination info repair)
              (λ _. Holds destination info.fingerprint)
      unfolding store_in
      store_in-Holds repair = read (λ w _.
          branch (is_found (files.metadata destination w)) (λ _. store_existing-Holds repair)
            (λ _. store_new-Holds))

    -- What is known of the path of a certificate that was stored.
    abbrev pub IsStored : String → CertificateInfo → String → W → Type 0
    IsStored directory info path w =
        (path ≡ relative files info)
        × (valid_fingerprint info.fingerprint ≡ true)
        × Holds (files.join directory path) info.fingerprint w

    -- A certificate that is stored, whether it was there or is written, repaired or not: its
    -- fingerprint is well formed, and the file at the path that is given has it.
    pub stored_certificate-IsStored :
        (directory : String) (info : CertificateInfo) (repair : Bool)
        → IsPem certificate_of info
        → Leads Any Any (stored_certificate files directory info repair) (IsStored directory info)
    unfolding stored_certificate
    stored_certificate-IsStored directory info repair pem =
        let peers = files.join directory "peers" in
        let destination = files.join directory (relative files info) in
        read (λ w _. seq Any (anything (ready_peers files peers (files.metadata peers w))) (
          seq Any (checks (valid_fingerprint info.fingerprint) _ (λ v h. tt)) (
            given (λ valid.
              seq Any (store_in-Holds peers destination info pem repair)
                (returns (relative files info) (λ v h. (refl, valid, h)))))))
