-- ===== src/Tests/Settings.antt =====
-- An edit of a configuration file, over a store of two files.
use niri_bridge.Tests.Backend.{whole_numbers}
use niri_bridge.Prelude.Action.{Action, ◌>>=◌, ◌>>◌, pure, done, lift, get, when, check}
use niri_bridge.Geometry as Geometry
use niri_bridge.Bridge.Edges.{
  valid_edge_id, validate_apart, validate_edge, validate_each, validate_edges,
}
use niri_bridge.Pairing as Pairing
use niri_bridge.Pairing.{
  not_found, placed, valid_fingerprint, validate_peers, located, sync_selected,
}
use niri_bridge.Tests.Pairing.{paired}
use niri_bridge.Manager.Document.{Toml}
use niri_bridge.Manager.Edit as Edit
use niri_bridge.Manager.Edit.{Locking, IsEdit, edit-commit}
use niri_bridge.Prelude.{Result, ok, err, ℕ, String, ◌≡◌, refl, ◌⊎◌, Bool, true, false, some, []}
use niri_bridge.Prelude.Triple.{After}
use niri_bridge.Prelude.Text.{◌==ₛ◌}
use niri_bridge.Manager.{
  Files, Prepared, revision, persist, atomic, check_outputs, write_backup, commit, drop,
}
use niri_bridge.Manager.Rollback.{IsStore, commit_atomic, drop_restores}

-- The configuration, and whether the backup is there.
abbrev Disk : Type 0
Disk = String × Bool

abbrev read_disk : String → Disk → Result String
read_disk path (text, backed) = ok text

abbrev disk : Files String Disk
disk = record {
  read = read_disk;
  parent = λ path. some "dir";
  backup_of = λ path. "backup";
  exists = λ path d. d.1;
  write_temp = λ dir text d. (ok text, d);
  persist = λ text path d. (ok tt, (text, d.1));
  write_new = λ path text d. (ok tt, (d.0, true));
  outputs = λ d. (ok [], d);
  digest = λ text. text;
}

disk-IsStore : IsStore disk (λ text. text)
disk-IsStore = record {
  temp_text = λ dir text d t h. cc;
  temp_keeps = λ dir text path d. refl;
  persist_writes = λ t path d h. refl;
  persist_fails = λ t path d e h. cc;
  new_keeps = λ path text other old d h. h;
  outputs_keep = λ path d. refl;
}

abbrev edit : Bool → Prepared
edit committed = record {
  path = "config.toml";
  before = "old";
  next = "new";
  before_revision = "old";
  after_revision = "new";
  committed = committed;
  finished = false;
  target_outputs = [];
}

commit_atomic_example :
    After
      (λ t. disk.read "config.toml" t ≡ ok "old")
      (λ q t.
        (q ≡ edit true)
        × (disk.read "config.toml" t ≡ ok "new")
        × ((disk.digest "old" ==ₛ "old") ≡ true))
      (commit disk (edit false) ("old", false))
commit_atomic_example =
    commit_atomic disk (λ text. text) disk-IsStore (edit false) "old" ("old", false) refl

drop_restores_example :
    (drop disk (edit true) ("new", true) ≡ ("new", true))
    ⊎ ((true ≡ true)
        × (false ≡ false)
        × ((disk.digest "new" ==ₛ "new") ≡ true)
        × ((disk.read "config.toml" (drop disk (edit true) ("new", true)) ≡ ok "new")
            ⊎ (disk.read "config.toml" (drop disk (edit true) ("new", true)) ≡ ok "old")))
drop_restores_example =
    drop_restores disk (λ text. text) disk-IsStore (edit true) "new" ("new", true) refl

-- Documents that are their text, with one configuration, and its files.
abbrev toml : Toml ℕ String
toml = record {
  parse = λ text. ok text;
  print = λ doc. doc;
  config_of = λ doc. ok paired;
  write = λ writes doc. doc;
}

abbrev peers : Pairing.Files ℕ ℕ Disk
peers = record {
  is_relative = λ path. false;
  parent = λ path. "/etc";
  join = λ directory path. path;
  read_config = λ path d. ok paired;
  read_certificate = λ path d. err "certificate_invalid";
  load_certificate = λ path d. ok 7;
  digest = λ k. "";
  exists = λ path d. ok true;
  metadata = λ path d. not_found "no such file";
  euid = 1000;
  create_dir = λ path d. (ok tt, d);
  write_temp = λ dir text d. (ok "temporary", d);
  persist = λ t path d. (ok tt, d);
  persist_noclobber = λ t path d. (placed, d);
  sync_dir = λ dir d. (ok tt, d);
}

abbrev locking : Locking String Disk
locking = record {
  lock_path = λ path. "config.edit.lock";
  open_lock = λ path d. (ok path, d);
  metadata = λ file d. (ok (record { is_dir = false; is_file = true; uid = 1000; mode = 384 }), d);
  flock = λ file d. (ok true, d);
}

abbrev change : String → Action Disk String
change doc d = (ok "new", d)

abbrev edit_disk : Action Disk Prepared
edit_disk = Edit.edit disk peers toml (λ text. text) locking "config.toml" "old" change

-- The new text is committed, and the text before is kept as a backup.
edited_and_committed : (edit_disk >>= commit disk) ("old", false) ≡ (ok (edit true), ("new", true))
unfolding Edit.edit Edit.lock commit check_outputs revision write_backup atomic persist
    sync_selected Pairing.validate validate_peers valid_fingerprint Pairing.load located
    validate_edges validate_each validate_edge validate_apart valid_edge_id Geometry.validate ◌>>=◌
    ◌>>◌ pure done lift get when check
edited_and_committed = refl

edit-commit_example :
    After
      (λ v. disk.read "config.toml" v ≡ ok "old")
      (λ q v.
        (disk.read "config.toml" v ≡ ok q.next)
        × IsEdit disk peers toml (λ text. text) locking (λ text. text) "old" change "old" q.next)
      ((edit_disk >>= commit disk) ("old", false))
edit-commit_example =
    edit-commit disk peers toml (λ text. text) locking (λ text. text) disk-IsStore
      (record {
        opening = λ lock path text d h. h;
        asking = λ file path d. refl;
        locks = λ file path d. refl;
      })
      "config.toml" "old" "old" change ("old", false) (λ doc d. refl) refl
