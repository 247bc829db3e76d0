-- ===== src/Manager/Edit.antt =====
-- src/manager.rs, `Prepared::edit`: an edit of the configuration file is made of the revision that
-- was shown, and accepted before it is committed.
use niri_bridge.Prelude.{
  Result, ok, err, Bool, context, String, ◌≡◌, refl, sym, ap, ◌∙◌, true, false, [],
}
use niri_bridge.Prelude.Text.{◌==ₛ◌}
use niri_bridge.Prelude.Action.{Action, ◌>>=◌, ◌>>◌, pure, lift, get, check}
use niri_bridge.Prelude.Triple.{
  After, Leads, bind, seq, read, after, always, returns, lifts, lifted, checks, given, After-map,
}
use niri_bridge.Prelude.All.{ok-injective}
use niri_bridge.Float.{Float}
use niri_bridge.Bridge.Edges.{with_context}
use niri_bridge.Pairing as Pairing
use niri_bridge.Pairing.Trusted.{with_context-ok}
use niri_bridge.Pairing.{Metadata}
use niri_bridge.Pairing.Store.{is_private}
use niri_bridge.Manager.{Files, Prepared, commit}
use niri_bridge.Manager.Document.{Toml, synced_doc}
use niri_bridge.Manager.Rollback.{IsStore, Has, temp_lem, commit_atomic}

-- How the lock file beside the configuration is opened, created when it is missing and never
-- emptied, what is known of it once it is open, and `flock`, whether it is taken.
pub record Locking (L W : Type 0) : Type 0 where
  -- `path.with_extension("edit.lock")`
  pub lock_path : String → String
  pub open_lock : String → W → Result L × W
  pub metadata : L → W → Result Metadata × W
  pub flock : L → W → Result Bool × W

module _ {F : Type 0} ⦃fl : Float F⦄ {K T D L W : Type 0} (f : Files T W)
    (files : Pairing.Files F K W) (toml : Toml F D) (temp_path : T → String)
    (locking : Locking L W) where
  -- `lock`. The lock is given up with the edit, which changes no file.
  unfoldable pub lock : String → Action W (Unit {0})
  lock path = do
    file ← locking.open_lock (locking.lock_path path)
    m ← locking.metadata file
    check (is_private files m.is_file m) "settings_permissions"
    taken ← locking.flock file
    check taken "settings_busy"

  abbrev pub prepared : String → String → String → String → Prepared
  prepared path expected text next = record {
    path = path;
    before = text;
    next = next;
    before_revision = expected;
    after_revision = f.digest next;
    committed = false;
    finished = false;
    target_outputs = [];
  }

  -- `Prepared::edit`. A path that was read has a parent; without one, the source panics.
  unfoldable pub edit : String → String → (D → Action W D) → Action W Prepared
  edit path expected change = do
    lock path
    w ← get
    text ← lift (f.read path w)
    check (f.digest text ==ₛ expected) "settings_conflict"
    document ← lift (with_context (toml.parse text) "config_invalid")
    synced ← lift (synced_doc files toml document)
    changed ← change synced
    last ← lift (synced_doc files toml changed)
    let next = toml.print last
    parent ← lift (context (f.parent path) "config_invalid")
    temporary ← f.write_temp parent next
    w ← get
    lift (with_context (Pairing.load files (temp_path temporary) w) "config_invalid")
    pure (prepared path expected text next)

  -- What is relied on of the lock: a file that is opened, asked for its metadata and locked, is
  -- created at most, and every file that is there is as it was.
  pub record LockKeeps : Type 0 where
    pub opening :
        (lock_path path text : String) (w : W)
        → f.read path w ≡ ok text
        → f.read path (locking.open_lock lock_path w).1 ≡ ok text
    pub asking :
        (file : L) (path : String) (w : W) → f.read path (locking.metadata file w).1 ≡ f.read path w
    pub locks :
        (file : L) (path : String) (w : W) → f.read path (locking.flock file w).1 ≡ f.read path w

  -- What is relied on of a change, which may write other files: not the file that is edited.
  abbrev pub ChangeKeeps : String → (D → Action W D) → Type 0
  ChangeKeeps path change = (d : D) (w : W) → f.read path (change d w).1 ≡ f.read path w

  module _ (text_of : T → String) where
    -- A text that `Config::load` took, of a temporary file with it.
    pub record Accepted (next : String) : Type 0 where
      pub temporary : T
      pub state : W
      pub config : Pairing.Config F
      pub holds : text_of temporary ≡ next
      pub loads : Pairing.load files (temp_path temporary) state ≡ ok config

    -- What a text is made to by an edit: the revision asked for was that of the text before; the new
    -- one is that of the document of the text before, after the change, which is given it with the
    -- selected peer brought up to date, and whose result is brought up to date too; and it was
    -- accepted.
    pub record IsEdit (expected : String) (change : D → Action W D) (old next : String)
        : Type 0 where
      pub document : D
      pub synced : D
      pub before_change : W
      pub changed : D
      pub last : D
      pub revision : (f.digest old ==ₛ expected) ≡ true
      pub parsed : toml.parse old ≡ ok document
      pub first_sync : synced_doc files toml document ≡ ok synced
      pub made : (change synced before_change).0 ≡ ok changed
      pub last_sync : synced_doc files toml changed ≡ ok last
      pub printed : toml.print last ≡ next
      pub accepted : Accepted next

  module _ (text_of : T → String) (store : IsStore f text_of) (keeps : LockKeeps) where
    lock_lem :
        (path old : String)
        → Leads
            (Has f text_of store path old)
            (Has f text_of store path old)
            (lock path)
            (λ _. Has f text_of store path old)
    unfolding lock
    lock_lem path old =
        bind There (always (λ w h. h) (λ w h. keeps.opening _ path old w h)) (λ file.
          bind There (always (λ w h. h) (λ w h. keeps.asking file path w ∙ h)) (λ m.
            seq There (after (λ _ w h. h.0) (checks (is_private files m.is_file m) _ (λ w h. h))) (
              bind There (always (λ w h. h) (λ w h. keeps.locks file path w ∙ h))
                (λ taken. after (λ _ w h. h.0) (checks taken _ (λ w h. h))))))
      where
        There : W → Type 0
        There = Has f text_of store path old

    change_lem :
        (path old : String) (change : D → Action W D) (d : D)
        → ChangeKeeps path change
        → Leads
            (Has f text_of store path old)
            (Has f text_of store path old)
            (change d)
            (λ changed w.
              Has f text_of store path old w × ((v : W) × ((change d v).0 ≡ ok changed)))
    change_lem path old change d keep = record { runs = λ w h. go w h (change d w) refl }
      where
        go :
            (w : W)
            → Has f text_of store path old w
            → (o : Result D × W) → change d w ≡ o
            → After
                (Has f text_of store path old)
                (λ changed v.
                  Has f text_of store path old v × ((v : W) × ((change d v).0 ≡ ok changed)))
                o
        go w h (ok changed, v) e = (
          ap (λ (o : Result D × W). f.read path o.1) (sym e) ∙ keep d w ∙ h,
          (w, ap (λ (o : Result D × W). o.0) e),
        )
        go w h (err m, v) e = ap (λ (o : Result D × W). f.read path o.1) (sym e) ∙ keep d w ∙ h

    abbrev IsPrepared : String → String → (D → Action W D) → String → Prepared → W → Type 0
    IsPrepared path expected change old p w =
        (next : String) × (p ≡ prepared path expected old next)
        × (f.read path w ≡ ok old)
        × IsEdit text_of expected change old next

    edit_lem :
        (path expected old : String) (change : D → Action W D)
        → ChangeKeeps path change
        → Leads
            (Has f text_of store path old)
            (Has f text_of store path old)
            (edit path expected change)
            (IsPrepared path expected change old)
    unfolding edit ◌>>◌ ◌>>=◌
    edit_lem path expected old change keep = seq There (lock_lem path old) (
        read (λ w here. bind There (lifted (f.read path w) (λ v h. h)) (λ text. given (λ reads.
          let same : ok text ≡ ok old = sym reads ∙ here in
          let is = ok-injective text old same in
          seq There (checks (f.digest text ==ₛ expected) _ (λ v h. h)) (
            given (λ revision.
              bind There (lifted (with_context (toml.parse text) "config_invalid") (λ v h. h))
                (λ document. given (λ parsed.
                  bind There (lifted (synced_doc files toml document) (λ v h. h)) (λ synced.
                    given (λ first_sync.
                      bind There (change_lem path old change synced keep) (λ changed. given (λ made.
                        bind There (lifted (synced_doc files toml changed) (λ v h. h)) (λ last.
                          given (λ last_sync.
                            let next = toml.print last in
                            bind There (lifts (context (f.parent path) _) (λ v h. h)) (λ parent.
                              bind There (temp_lem f text_of store parent next path old) (λ t.
                                given (λ holds. read (λ v _.
                                  bind There
                                    (lifted
                                      (with_context (Pairing.load files (temp_path t) v)
                                        "config_invalid")
                                      (λ u h. h))
                                    (λ config. given (λ loads.
                                      returns (prepared path expected text next) (λ u h. (
                                        next,
                                        ap (λ s. prepared path expected s next) is,
                                        h,
                                        record {
                                          document = document;
                                          synced = synced;
                                          before_change = made.0;
                                          changed = changed;
                                          last = last;
                                          revision = rw⁻¹ is revision;
                                          parsed = rw⁻¹ is (with_context-ok _ _ document parsed);
                                          first_sync = first_sync;
                                          made = made.1;
                                          last_sync = last_sync;
                                          printed = refl;
                                          accepted = record {
                                            temporary = t;
                                            state = v;
                                            config = config;
                                            holds = holds;
                                            loads = with_context-ok _ _ config loads;
                                          };
                                        },
                                      ))))))))))))))))))))))
      where
        There : W → Type 0
        There = Has f text_of store path old

    -- Over a file system as relied on, with a lock whose calls change no file that is there and a
    -- change that does not write the file itself, an edit that is committed: where both succeed
    -- the file has the text of the document that the change made of the synced document of the
    -- text before, synced again; the text before was of the revision asked for, and `Config::load`
    -- accepted the new one. Where either fails, the file is as it was.
    pub edit-commit :
        (path expected old : String) (change : D → Action W D) (w : W)
        → ChangeKeeps path change
        → f.read path w ≡ ok old
        → After
            (λ v. f.read path v ≡ ok old)
            (λ q v. (f.read path v ≡ ok q.next) × IsEdit text_of expected change old q.next)
            ((edit path expected change >>= commit f) w)
    edit-commit path expected old change w keep h =
        (bind There (edit_lem path expected old change keep) (λ p. record {
          runs = λ v is.
              let (next, same, here, made) = is in
              rw same (
                After-map There There _ _ (commit f (prepared path expected old next) v)
                  (commit_atomic f text_of store (prepared path expected old next) old v here)
                  (λ u g. g) (λ q u g. rw (g.0) (g.1, made)));
        })).runs
          w h
      where
        There : W → Type 0
        There v = f.read path v ≡ ok old
