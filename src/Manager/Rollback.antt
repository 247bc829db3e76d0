-- ===== src/Manager/Rollback.antt =====
-- src/manager.rs: what an edit of the configuration file leaves in it.
use niri_bridge.Prelude.{
  if◌then◌else◌, Bool-cases, Result, ok, err, context, String, ◌≡◌, refl, ap, ◌∙◌, ◌⊎◌, inl, inr,
  Bool, true, false, ◌&&◌, not, List, [], ◌∷◌, arith,
}
use niri_bridge.Prelude.Action.{◌>>◌, pure}
use niri_bridge.Prelude.Text.{◌==ₛ◌}
use niri_bridge.Prelude.Triple.{
  After, Leads, bind, seq, read, before, after, always, returns, skips, either, lifts, checks,
}
use niri_bridge.Manager as Manager
use niri_bridge.Manager.{
  Files, Prepared, all_enabled, write_failed, digest_of, revision, persist, atomic, check_outputs,
  write_backup, commit, is_revision, drop,
}

-- What is relied on of the file system: a temporary file has the text written to it and changes no
-- other, a rename that succeeds puts that text at its path and one that fails changes nothing, a
-- file that is created anew changes none that exists, and asking for the outputs changes no file.
pub record IsStore {T W : Type 0} (f : Files T W) (text_of : T → String) : Type 0 where
  pub temp_text :
      (dir text : String) (s : W) (t : T) → (f.write_temp dir text s).0 ≡ ok t → text_of t ≡ text
  pub temp_keeps :
      (dir text path : String) (s : W) → f.read path (f.write_temp dir text s).1 ≡ f.read path s
  pub persist_writes :
      (t : T) (path : String) (s : W)
      → (f.persist t path s).0 ≡ ok tt
      → f.read path (f.persist t path s).1 ≡ ok (text_of t)
  pub persist_fails :
      (t : T) (path : String) (s : W) (e : String)
      → (f.persist t path s).0 ≡ err e
      → f.read path (f.persist t path s).1 ≡ f.read path s
  pub new_keeps :
      (path text other held : String) (s : W)
      → f.read other s ≡ ok held
      → f.read other (f.write_new path text s).1 ≡ ok held
  pub outputs_keep : (path : String) (s : W) → f.read path (f.outputs s).1 ≡ f.read path s

module _ {T W : Type 0} (f : Files T W) (text_of : T → String) (store : IsStore f text_of) where
  -- The file at a path has a text.
  abbrev pub Has : String → String → W → Type 0
  Has path text s = f.read path s ≡ ok text

  persist-After :
      (t : T) (path old : String) (s : W)
      → Has path old s
      → After (Has path old) (λ _. Has path (text_of t)) (Manager.persist f t path s)
  unfolding Manager.persist
  persist-After t path old s h = go (f.persist t path s).0 refl
    where
      go :
          (r : Result (Unit {0}))
          → (f.persist t path s).0 ≡ r
          → After
              (Has path old)
              (λ (_ : Unit {0}). Has path (text_of t))
              (write_failed r, (f.persist t path s).1)
      go (ok tt) e = store.persist_writes t path s e
      go (err m) e = store.persist_fails t path s m e ∙ h

  pub temp_lem :
      (dir text path old : String)
      → Leads
          (Has path old)
          (Has path old)
          (f.write_temp dir text)
          (λ t s. Has path old s × (text_of t ≡ text))
  temp_lem dir text path old = record { runs = λ s h. go s h (f.write_temp dir text s).0 refl }
    where
      go :
          (s : W)
          → Has path old s
          → (r : Result T) → (f.write_temp dir text s).0 ≡ r
          → After
              (Has path old)
              (λ t u. Has path old u × (text_of t ≡ text))
              (r, (f.write_temp dir text s).1)
      go s h (ok t) e = (store.temp_keeps dir text path s ∙ h, store.temp_text dir text s t e)
      go s h (err m) e = store.temp_keeps dir text path s ∙ h

  atomic_lem :
      (path text old : String)
      → Leads (Has path old) (Has path old) (atomic f path text) (λ _. Has path text)
  unfolding atomic
  atomic_lem path text old =
      bind (Has path old) (lifts (context (f.parent path) "config_invalid") (λ s h. h)) (λ dir.
        bind (Has path old) (temp_lem dir text path old)
          (λ t. record { runs = λ s h. rw⁻¹ h.1 (persist-After t path old s h.0) }))

  outputs_lem :
      (names : List String) (path old : String)
      → Leads (Has path old) (Has path old) (check_outputs f names) (λ _. Has path old)
  unfolding check_outputs
  outputs_lem [] path old = skips (λ s h. h)
  outputs_lem (name ∷ names) path old =
      bind (Has path old) (always (λ s h. h) (λ s h. store.outputs_keep path s ∙ h)) (λ outputs.
        after (λ _ s h. h.0)
          (checks (all_enabled outputs (name ∷ names)) "output_unavailable" (λ s h. h)))

  revision_lem :
      (path old : String)
      → Leads
          (Has path old)
          (Has path old)
          (revision f path)
          (λ found s. Has path old s × (found ≡ f.digest old))
  unfolding revision
  revision_lem path old = record { runs = λ s h. go s h (f.read path s) h }
    where
      go :
          (s : W)
          → Has path old s
          → (r : Result String) → r ≡ ok old
          → After
              (Has path old)
              (λ found t. Has path old t × (found ≡ f.digest old))
              (digest_of f r, s)
      go s h (ok text) e = (h, cc)
      go s h (err m) e = h

  backup_lem :
      (p : Prepared) (old : String)
      → Leads (Has p.path old) (Has p.path old) (write_backup f p) (λ _. Has p.path old)
  unfolding write_backup
  backup_lem p old = read (λ s h.
      either (not (f.exists (f.backup_of p.path) s))
        (λ _.
          always (λ t g. g) (λ t g. store.new_keeps (f.backup_of p.path) p.before p.path old t g))
        (λ _ t g. g))

  -- What a successful commit leaves, with the text that the file had.
  abbrev Committed : Prepared → String → Prepared → W → Type 0
  Committed p old q s =
      (q ≡ record p { committed = true })
      × Has p.path p.next s
      × ((f.digest old ==ₛ p.before_revision) ≡ true)

  -- A commit that succeeds has put the new text in the file, over one of the revision that the
  -- edit was made of; one that fails, at whatever step, leaves the file with the text it had.
  pub commit_atomic :
      (p : Prepared) (old : String) (s : W)
      → f.read p.path s ≡ ok old
      → After
          (λ t. f.read p.path t ≡ ok old)
          (λ q t.
            (q ≡ record p { committed = true })
            × (f.read p.path t ≡ ok p.next)
            × ((f.digest old ==ₛ p.before_revision) ≡ true))
          (commit f p s)
  unfolding commit
  commit_atomic p old s h =
      (seq (Has p.path old) (outputs_lem p.target_outputs p.path old) (
          bind (Has p.path old) (revision_lem p.path old) (λ found.
            seq (Has p.path old)
              (checks (found ==ₛ p.before_revision) "settings_conflict" (λ t g. g.0))
              (ends found)))).runs
        s h
    where
      ends :
          (found : String)
          → Leads
              (Has p.path old)
              (λ t.
                (Has p.path old t × (found ≡ f.digest old))
                × ((found ==ₛ p.before_revision) ≡ true))
              (write_backup f p >> (atomic f p.path p.next >> pure (record p { committed = true })))
              (Committed p old)
      ends found = record {
        runs = λ t g.
            (seq (Has p.path old) (backup_lem p old) (
                seq (Has p.path old) (atomic_lem p.path p.next old) (
                  returns (record p { committed = true }) (λ u k. (refl, k, rw⁻¹ g.0.1 g.1))))).runs
              t g.0.0;
      }

  restored :
      (path before old : String) (o : Result (Unit {0}) × W)
      → After (Has path old) (λ _. Has path before) o
      → (Has path old o.1) ⊎ (Has path before o.1)
  restored path before old (ok a, s) h = inr h
  restored path before old (err e, s) h = inl h

  -- Whether a drop puts the text before back, where the file has a text.
  abbrev rolls_back : Prepared → String → Bool
  rolls_back p text = p.committed && not p.finished && (f.digest text ==ₛ p.after_revision)

  drop-if :
      (p : Prepared) (text : String) (s : W)
      → Has p.path text s
      → drop f p s ≡ (if rolls_back p text then (atomic f p.path p.before s).1 else s)
  unfolding drop revision
  drop-if p text s h =
      ap
        (λ (r : Result String).
          if p.committed && not p.finished && is_revision f (digest_of f r) p.after_revision
          then (atomic f p.path p.before s).1
          else s)
        h

  -- An edit that is dropped changes the file only where it was committed, is not finished, and the
  -- file still is of the revision that it wrote; then at most the text before is put back.
  pub drop_restores :
      (p : Prepared) (text : String) (s : W)
      → f.read p.path s ≡ ok text
      → (drop f p s ≡ s)
        ⊎ ((p.committed ≡ true)
            × (p.finished ≡ false)
            × ((f.digest text ==ₛ p.after_revision) ≡ true)
            × ((f.read p.path (drop f p s) ≡ ok text) ⊎ (f.read p.path (drop f p s) ≡ ok p.before)))
  drop_restores p text s h = elim (Bool-cases (rolls_back p text)) [
    | inr keeps ↦ inl (drop-if p text s h ∙ rw keeps refl)
    | inl rolls ↦
        let same : drop f p s ≡ (atomic f p.path p.before s).1 =
          drop-if p text s h ∙ rw rolls refl in
        inr (
          ground arith,
          ground arith,
          ground arith,
          rw same (
              restored p.path p.before text (atomic f p.path p.before s)
                ((atomic_lem p.path p.before text).runs s h)),
        )
  ]
