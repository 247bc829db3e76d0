-- ===== src/Pairing/Store.antt =====
-- src/pairing.rs, `stored_certificate`: a copy of a peer's certificate, kept beside the
-- configuration under the name of its fingerprint.
use Prim.Native.String.{◌++◌}
use niri_bridge.Prelude.{
  ◌==◌, if◌then◌else◌, Result, ok, err, is_ok, String, Bool, true, false, ◌&&◌, not, ◌%◌,
}
use niri_bridge.Prelude.Text.{◌==ₛ◌}
use niri_bridge.Prelude.Action.{Action, ◌>>=◌, ◌>>◌, pure, done, fail, lift, get, check, attempt}
use niri_bridge.Manager.{write_failed}
use niri_bridge.Pairing.{
  CertificateInfo, Files, Metadata, Found, found, not_found, failed, Placed, placed, already_exists,
  not_placed, valid_fingerprint,
}
pub mod Holds
pub mod Keeps

-- `symlink_metadata(path)?`
abbrev pub metadata_of : Found → Result Metadata
metadata_of (found m) = ok m
metadata_of (not_found e) = err e
metadata_of (failed e) = err e

-- `symlink_metadata(path).is_ok()`
abbrev pub is_found : Found → Bool
is_found (found m) = true
is_found (not_found e) = false
is_found (failed e) = false

-- `format!("{}.pem", info.fingerprint)`
abbrev pub file_name : CertificateInfo → String
file_name info = info.fingerprint ++ ".pem"

module _ {F K W : Type 0} (files : Files F K W) where
  -- Of the kind asked for, of this user, and with no permission for others: `mode & 0o077` is 0.
  abbrev pub is_private : Bool → Metadata → Bool
  is_private kind m = kind && m.uid == files.euid && m.mode % 64 == 0

  unfoldable pub ready_peers : String → Found → Action W (Unit {0})
  ready_peers peers (found m) = check (is_private m.is_dir m) "settings_permissions"
  ready_peers peers (not_found e) = files.create_dir peers
  ready_peers peers (failed e) = fail e

  unfoldable pub verify_existing : String → CertificateInfo → Action W (Unit {0})
  verify_existing destination info = do
    w ← get
    m ← lift (metadata_of (files.metadata destination w))
    check (is_private m.is_file m) "settings_permissions"
    held ← lift (files.read_certificate destination w)
    check (held.fingerprint ==ₛ info.fingerprint) "peer_certificate_changed"

  -- `map_err(|_| anyhow!("settings_write_failed"))`
  unfoldable pub persist_over : String → String → Action W (Unit {0})
  persist_over temporary destination w =
      let (result, w') = files.persist temporary destination w in (write_failed result, w')

  unfoldable pub replace_existing : String → String → CertificateInfo → Action W (Unit {0})
  replace_existing peers destination info = do
    temporary ← files.write_temp peers info.pem
    persist_over temporary destination
    files.sync_dir peers

  unfoldable pub store_existing : String → String → CertificateInfo → Bool → Action W (Unit {0})
  store_existing peers destination info repair = do
    w ← get
    m ← lift (metadata_of (files.metadata destination w))
    check (is_private m.is_file m) "settings_permissions"
    verified ← attempt (verify_existing destination info)
    if not (is_ok verified) && repair
        then replace_existing peers destination info
        else verify_existing destination info

  unfoldable pub place_new : String → String → Action W Placed
  place_new temporary destination w =
      let (result, w') = files.persist_noclobber temporary destination w in (ok result, w')

  unfoldable pub on_placed : String → CertificateInfo → Placed → Action W (Unit {0})
  on_placed destination info placed = done
  on_placed destination info already_exists = verify_existing destination info
  on_placed destination info (not_placed e) = fail e

  unfoldable pub store_new : String → String → CertificateInfo → Action W (Unit {0})
  store_new peers destination info = do
    temporary ← files.write_temp peers info.pem
    outcome ← place_new temporary destination
    on_placed destination info outcome
    files.sync_dir peers

  unfoldable pub store_in : String → String → CertificateInfo → Bool → Action W (Unit {0})
  store_in peers destination info repair = do
    w ← get
    if is_found (files.metadata destination w)
        then store_existing peers destination info repair
        else store_new peers destination info

  -- `PathBuf::from("peers").join(…)`
  abbrev pub relative : CertificateInfo → String
  relative info = files.join "peers" (file_name info)

  -- `stored_certificate`
  unfoldable pub stored_certificate : String → CertificateInfo → Bool → Action W String
  stored_certificate directory info repair = do
    let peers = files.join directory "peers"
    w ← get
    ready_peers peers (files.metadata peers w)
    check (valid_fingerprint info.fingerprint) "certificate_invalid"
    store_in peers (files.join directory (relative info)) info repair
    pure (relative info)
