-- ===== src/Pairing.antt =====
-- src/pairing.rs, and src/bridge.rs `Config::load`: the saved peers of a configuration, and which of
-- them is trusted.
use niri_bridge.Prelude.{
  leb, ◌==◌, if◌then◌else◌, in_range, length, Result, ok, err, ◌>>=◌, ◌>>◌, ensure, context, ℕ,
  String, Bool, true, false, ◌&&◌, ◌||◌, not, Option, none, some, List, [], ◌∷◌, map,
}
use niri_bridge.Prelude.Text.{bytes, ◌==ₛ◌, any_char, is_control, has_text}
use niri_bridge.Float.{Float}
use niri_bridge.Bridge.Edges.{EdgeConfig, with_context, validate_edges}
pub mod Adding
pub mod Distinct
pub mod Store
pub mod Trusted

pub data Connection : Type 0 where
  listen connect : (address : String) → Connection

pub record SavedPeer (F : Type 0) : Type 0 where
  pub fingerprint : String
  pub name : String
  pub certificate : String
  pub connection : Connection
  pub edges : List (EdgeConfig F)

pub record Config (F : Type 0) : Type 0 where
  pub certificate : String
  pub private_key : String
  pub peer_certificate : String
  pub peer_name : String
  pub paired_devices : List (SavedPeer F)
  pub connection : Connection
  pub edges : List (EdgeConfig F)
  pub activity_devices : List String
  pub native_touchpads : Bool
  pub source_path : Option String

pub record CertificateInfo : Type 0 where
  pub name : String
  pub fingerprint : String
  pub expires : String
  pub pem : String

pub record Summary : Type 0 where
  pub name : String
  pub fingerprint : String
  pub expires : String
  pub active : Bool

-- What is asked of a file's metadata, and how the question ends: `ErrorKind::NotFound` apart.
pub record Metadata : Type 0 where
  pub is_dir : Bool
  pub is_file : Bool
  pub uid : ℕ
  pub mode : ℕ

pub data Found : Type 0 where
  found : Metadata → Found
  not_found failed : (e : String) → Found

-- How `persist_noclobber` ends: `ErrorKind::AlreadyExists` apart.
pub data Placed : Type 0 where
  placed already_exists : Placed
  not_placed : (e : String) → Placed

-- What is called: paths, the file system `W` with its TOML documents and certificates `K`, and
-- SHA-256 as text; and the writes of files: a temporary file goes by its path, which is known when
-- its text is written and flushed.
pub record Files (F K W : Type 0) : Type 0 where
  pub is_relative : String → Bool
  pub parent : String → String
  pub join : String → String → String
  pub read_config : String → W → Result (Config F)
  pub read_certificate : String → W → Result CertificateInfo
  pub load_certificate : String → W → Result K
  pub digest : K → String
  pub exists : String → W → Result Bool
  -- `symlink_metadata`, `geteuid`, and `DirBuilder` with mode 0700.
  pub metadata : String → W → Found
  pub euid : ℕ
  pub create_dir : String → W → Result (Unit {0}) × W
  -- A new file in a directory: `new_in`, `write_all` and `sync_all`.
  pub write_temp : String → String → W → Result String × W
  pub persist : String → String → W → Result (Unit {0}) × W
  pub persist_noclobber : String → String → W → Placed × W
  -- `File::open`, and `sync_all` on what is opened.
  pub sync_dir : String → W → Result (Unit {0}) × W

-- What an edit writes to its document.
pub data Write (F : Type 0) : Type 0 where
  set_peer_name set_peer_certificate : String → Write F
  set_connection : Connection → Write F
  set_edges : List (EdgeConfig F) → Write F
  set_profiles : List (SavedPeer F) → Write F

abbrev pub is_fingerprint_char : ℕ → Bool
is_fingerprint_char c = in_range 48 57 c || in_range 97 102 c

-- The bytes of a text outside ASCII are none of those admitted, so its characters are tested.
unfoldable pub valid_fingerprint : String → Bool
valid_fingerprint value =
    bytes value == 64 && not (any_char (λ c. not (is_fingerprint_char c)) value)

-- `option.context(message)` for a peer that is looked for.
abbrev pub find_peer :
    {F : Type 0} → (SavedPeer F → Bool) → List (SavedPeer F) → Option (SavedPeer F)
find_peer p [] = none
find_peer p (peer ∷ peers) = if p peer then some peer else find_peer p peers

abbrev pub no_peers : {F : Type 0} → List (SavedPeer F) → Bool
no_peers [] = true
no_peers (peer ∷ peers) = false

abbrev pub some_peer : {F : Type 0} → (SavedPeer F → Bool) → List (SavedPeer F) → Bool
some_peer p [] = false
some_peer p (peer ∷ peers) = p peer || some_peer p peers

abbrev pub has_fingerprint : {F : Type 0} → String → SavedPeer F → Bool
has_fingerprint value peer = peer.fingerprint ==ₛ value

abbrev pub prepend :
    {F : Type 0} → SavedPeer F → Option (List (SavedPeer F)) → Option (List (SavedPeer F))
prepend peer none = none
prepend peer (some peers) = some (peer ∷ peers)

module _ {F : Type 0} ⦃fl : Float F⦄ where
  abbrev pub peer_is_valid : List String → SavedPeer F → Bool
  peer_is_valid fingerprints peer =
      valid_fingerprint peer.fingerprint
      && not (has_text fingerprints peer.fingerprint)
      && not (bytes peer.name == 0)
      && leb (bytes peer.name) 253
      && not (any_char is_control peer.name)

  -- The loop of `validate`, with the fingerprints met before.
  unfoldable pub validate_peers : List String → List (SavedPeer F) → Result (Unit {0})
  validate_peers fingerprints [] = ok tt
  validate_peers fingerprints (peer ∷ peers) =
      ensure (peer_is_valid fingerprints peer) "config_invalid"
      >> (validate_edges peer.edges >> validate_peers (peer.fingerprint ∷ fingerprints) peers)

  -- The peer that the top-level values of a configuration are those of.
  abbrev pub is_selected : Config F → SavedPeer F → Bool
  is_selected config peer =
      peer.certificate ==ₛ config.peer_certificate && peer.name ==ₛ config.peer_name

  unfoldable pub validate : Config F → Result (Unit {0})
  validate config =
      validate_peers [] config.paired_devices
      >> ensure
          (no_peers config.paired_devices || some_peer (is_selected config) config.paired_devices)
          "config_invalid"

  module _ {K W : Type 0} (files : Files F K W) where
    abbrev pub absolute : String → String → String
    absolute directory path = if files.is_relative path then files.join directory path else path

    abbrev pub absolute_peer : String → SavedPeer F → SavedPeer F
    absolute_peer directory peer = record peer { certificate = absolute directory peer.certificate }

    -- The paths of a configuration, taken from the directory that it is in.
    unfoldable pub located : String → Config F → Config F
    located path config =
        let directory = files.parent path in
        record config {
          source_path = some path;
          certificate = absolute directory config.certificate;
          private_key = absolute directory config.private_key;
          peer_certificate = absolute directory config.peer_certificate;
          paired_devices = map (absolute_peer directory) config.paired_devices;
        }

    -- `Config::load`
    unfoldable pub load : String → W → Result (Config F)
    load path w = files.read_config path w >>= λ read.
        let config = located path read in
        validate config
        >> (validate_edges config.edges
            >> (ensure (in_range 1 32 (length config.activity_devices))
                  "Configure physical input devices for takeover detection"
                >> ok config))

    unfoldable pub checked_certificate : SavedPeer F → W → Result CertificateInfo
    checked_certificate peer w =
        with_context (files.read_certificate peer.certificate w) "peer_certificate_changed"
        >>= λ info.
            ensure (info.fingerprint ==ₛ peer.fingerprint && info.name ==ₛ peer.name)
              "peer_certificate_changed"
            >> ok info

    -- `info.map(|i| i.expires).unwrap_or_default()`
    abbrev pub expiry : Result CertificateInfo → String
    expiry (ok info) = info.expires
    expiry (err e) = ""

    abbrev pub only_summary : Result CertificateInfo → List Summary
    only_summary (ok info) =
        record {
          name = info.name;
          fingerprint = info.fingerprint;
          expires = info.expires;
          active = true;
        }
        ∷ []
    only_summary (err e) = []

    abbrev pub summary : Config F → W → SavedPeer F → Summary
    summary config w peer = record {
      name = peer.name;
      fingerprint = peer.fingerprint;
      expires = expiry (checked_certificate peer w);
      active = peer.certificate ==ₛ config.peer_certificate;
    }

    unfoldable pub summaries : Config F → W → List Summary
    summaries config w =
        if no_peers config.paired_devices
        then only_summary (files.read_certificate config.peer_certificate w)
        else map (summary config w) config.paired_devices

    -- The check of the selected certificate against the peer that is saved with it.
    abbrev pub check_selected : K → Option (SavedPeer F) → Result K
    check_selected certificate none = err "config_invalid"
    check_selected certificate (some peer) =
        ensure (files.digest certificate ==ₛ peer.fingerprint) "peer_certificate_changed"
        >> ok certificate

    unfoldable pub selected_certificate : Config F → W → Result K
    selected_certificate config w =
        files.load_certificate config.peer_certificate w >>= λ certificate.
        if no_peers config.paired_devices
        then ok certificate
        else check_selected certificate
            (find_peer (λ p. p.certificate ==ₛ config.peer_certificate) config.paired_devices)

    -- `activate`
    unfoldable pub activate : SavedPeer F → List (Write F)
    activate peer =
        set_peer_name peer.name
        ∷ set_peer_certificate peer.certificate
        ∷ set_connection peer.connection
        ∷ set_edges peer.edges
        ∷ []

    -- The first peer with the selected certificate, with the top-level values in it.
    abbrev pub synced : Config F → List (SavedPeer F) → Option (List (SavedPeer F))
    synced config [] = none
    synced config (peer ∷ peers) =
        let rest = synced config peers in
        if peer.certificate ==ₛ config.peer_certificate
        then some (record peer { connection = config.connection; edges = config.edges } ∷ peers)
        else prepend peer rest

    -- `sync_selected`, of the configuration that the document is read as.
    unfoldable pub sync_selected : Config F → Result (List (Write F))
    sync_selected config =
        if no_peers config.paired_devices
        then ok []
        else (validate config
            >> (context (synced config config.paired_devices) "config_invalid" >>= λ peers.
                ok (set_profiles peers ∷ [])))

    -- `select`, with what is written.
    unfoldable pub select : String → String → Config F → W → Result (List (Write F))
    select directory fingerprint config w =
        context (find_peer (has_fingerprint fingerprint) config.paired_devices) "peer_not_found"
        >>= λ peer.
            checked_certificate (absolute_peer directory peer) w >>= λ info. ok (activate peer)
