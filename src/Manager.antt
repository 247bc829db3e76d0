-- ===== src/Manager.antt =====
-- src/manager.rs: an edit of the configuration file, which is committed, and rolled back when it is
-- dropped before it is finished.
use niri_bridge.Prelude.{
  if◌then◌else◌, Result, ok, err, context, String, Bool, true, false, ◌&&◌, not, Option, List, [],
  ◌∷◌,
}
use niri_bridge.Prelude.Action.{Action, ◌>>=◌, ◌>>◌, pure, done, lift, get, when, check}
use niri_bridge.Prelude.Text.{◌==ₛ◌}
pub mod Document
pub mod Edit
pub mod Rollback

-- What the edits call: the file system, with temporary files `T`, the desktop, and SHA-256 as text.
pub record Files (T W : Type 0) : Type 0 where
  pub read : String → W → Result String
  pub parent : String → Option String
  -- `path.with_extension("before-ui.toml")`
  pub backup_of : String → String
  pub exists : String → W → Bool
  -- A new file in a directory: `new_in`, `write_all` and `sync_all`.
  pub write_temp : String → String → W → Result T × W
  pub persist : T → String → W → Result (Unit {0}) × W
  -- The same with `create_new`, at a path.
  pub write_new : String → String → W → Result (Unit {0}) × W
  -- `desktop::outputs`, by name, with whether the output is enabled.
  pub outputs : W → Result (List (String × Bool)) × W
  pub digest : String → String

-- The lock of the edit is left out.
pub record Prepared : Type 0 where
  pub path : String
  pub before : String
  pub next : String
  pub before_revision : String
  pub after_revision : String
  pub committed : Bool
  pub finished : Bool
  pub target_outputs : List String

-- `outputs.get(output).is_some_and(|o| o.logical.is_some())`
abbrev pub is_enabled : List (String × Bool) → String → Bool
is_enabled [] name = false
is_enabled ((n, on) ∷ outputs) name = if name ==ₛ n then on else is_enabled outputs name

abbrev pub all_enabled : List (String × Bool) → List String → Bool
all_enabled outputs [] = true
all_enabled outputs (name ∷ names) = is_enabled outputs name && all_enabled outputs names

-- `map_err(|_| anyhow!("settings_write_failed"))`
abbrev pub write_failed : Result (Unit {0}) → Result (Unit {0})
write_failed (ok _) = ok tt
write_failed (err e) = err "settings_write_failed"

module _ {T W : Type 0} (f : Files T W) where
  abbrev pub digest_of : Result String → Result String
  digest_of (ok text) = ok (f.digest text)
  digest_of (err e) = err e

  unfoldable pub revision : String → Action W String
  revision path s = (digest_of (f.read path s), s)

  unfoldable pub persist : T → String → Action W (Unit {0})
  persist temporary path s =
      let (result, t) = f.persist temporary path s in (write_failed result, t)

  unfoldable pub atomic : String → String → Action W (Unit {0})
  atomic path text = do
    parent ← lift (context (f.parent path) "config_invalid")
    temporary ← f.write_temp parent text
    persist temporary path

  unfoldable pub check_outputs : List String → Action W (Unit {0})
  check_outputs [] = done
  check_outputs (name ∷ names) = do
    outputs ← f.outputs
    check (all_enabled outputs (name ∷ names)) "output_unavailable"

  unfoldable pub write_backup : Prepared → Action W (Unit {0})
  write_backup p = do
    s ← get
    when (not (f.exists (f.backup_of p.path) s)) (f.write_new (f.backup_of p.path) p.before)

  -- `Prepared::commit`: the edit after a success; a failed one leaves the edit as it is.
  unfoldable pub commit : Prepared → Action W Prepared
  commit p = do
    check_outputs p.target_outputs
    found ← revision p.path
    check (found ==ₛ p.before_revision) "settings_conflict"
    write_backup p
    atomic p.path p.next
    pure (record p { committed = true })

  -- `Prepared::finish`
  unfoldable pub finish : Prepared → Prepared
  finish p = record p { finished = true }

  abbrev pub is_revision : Result String → String → Bool
  is_revision (ok r) expected = r ==ₛ expected
  is_revision (err e) expected = false

  -- `Drop for Prepared`
  unfoldable pub drop : Prepared → W → W
  drop p s =
      if p.committed && not p.finished && is_revision (revision p.path s).0 p.after_revision
      then (atomic p.path p.before s).1
      else s
