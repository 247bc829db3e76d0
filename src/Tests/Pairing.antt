-- ===== src/Tests/Pairing.antt =====
-- Runs of the pairing, over files that hold two certificates.
use niri_bridge.Tests.Backend.{whole_numbers}
use Prim.Native.String as Str
use Prim.Native.Char.{code}
use niri_bridge.Prelude.{
  ◌==◌, if◌then◌else◌, Result, ok, err, ℕ, String, ◌≡◌, refl, ap, Bool, true, false, not, none, [],
  ◌∷◌,
}
use niri_bridge.Prelude.Action.{◌>>=◌, ◌>>◌, pure, done, lift, get, check}
use niri_bridge.Prelude.Text.{◌==ₛ◌, ==ₛ_iff}
use niri_bridge.Prelude.All.{All}
use niri_bridge.Prelude.Triple.{After}
use niri_bridge.Geometry as Geometry
use niri_bridge.Bridge.Edges.{
  EdgeConfig, valid_edge_id, validate_apart, validate_edge, validate_each, validate_edges,
}
use niri_bridge.Pairing as Pairing
use niri_bridge.Pairing.{
  listen, SavedPeer, Config, CertificateInfo, Metadata, Found, found, not_found, placed, Files,
  valid_fingerprint, some_peer, validate_peers, is_selected, validate, checked_certificate,
  selected_certificate, activate, select,
}
use niri_bridge.Pairing.Adding.{add, IsAdded, add-IsAdded}
use niri_bridge.Pairing.Adding.Backed.{IsBacked, add-IsBacked}
use niri_bridge.Pairing.Distinct.{IsPeer, AreDistinct, validate-AreDistinct}
use niri_bridge.Pairing.Store.{
  ready_peers, place_new, on_placed, store_new, store_in, relative, stored_certificate,
}
use niri_bridge.Pairing.Store.Holds.{IsStore}
use niri_bridge.Pairing.Store.Keeps.{Has, stored_certificate-keeps}
use niri_bridge.Pairing.Trusted.{
  IsSelection, select-IsSelection, IsTrusted, selected_certificate-IsTrusted,
}

abbrev desk_id : String
desk_id = "00000000000000000000000000000000000000000000000000000000000000aa"

abbrev lap_id : String
lap_id = "00000000000000000000000000000000000000000000000000000000000000bb"

abbrev screen_edge : EdgeConfig ℕ
screen_edge = record {
  id = "default";
  output = "eDP-1";
  boundary = record { edge = Geometry.right; start = 0; end = 1 };
}

abbrev desk : SavedPeer ℕ
desk = record {
  fingerprint = desk_id;
  name = "desk";
  certificate = "/peers/desk.pem";
  connection = listen "0.0.0.0:42420";
  edges = screen_edge ∷ [];
}

abbrev pub paired : Pairing.Config ℕ
paired = record {
  certificate = "/own.pem";
  private_key = "/own.key";
  peer_certificate = "/peers/desk.pem";
  peer_name = "desk";
  paired_devices = desk ∷ [];
  connection = listen "0.0.0.0:42420";
  edges = screen_edge ∷ [];
  activity_devices = "/dev/input/event3" ∷ [];
  native_touchpads = false;
  source_path = none;
}

abbrev desk_info : CertificateInfo
desk_info = record { name = "desk"; fingerprint = desk_id; expires = "2030"; pem = "desk" }

abbrev lap_info : CertificateInfo
lap_info = record { name = "lap"; fingerprint = lap_id; expires = "2031"; pem = "lap" }

-- The last temporary file, and the text at each path: none where no file is.
abbrev Disk : Type 0
Disk = String × (String → String)

abbrev certificate_of : String → Result CertificateInfo
certificate_of text =
    if text ==ₛ "desk"
    then ok desk_info
    else (if text ==ₛ "lap" then ok lap_info else err "certificate_invalid")

abbrev own_file : Metadata
own_file = record { is_dir = true; is_file = true; uid = 1000; mode = 384 }

abbrev metadata_at : String → Found
metadata_at text = if text ==ₛ "" then not_found "no such file" else found own_file

abbrev is_relative_path : String → Bool
is_relative_path Str.[] = true
is_relative_path (Str.◌∷◌ c s) = not (code c == 47)

abbrev join_path : String → String → String
join_path Str.[] path = Str.◌++◌ "/" path
join_path (Str.◌∷◌ c s) path = Str.◌∷◌ c (join_path s path)

abbrev written : String → String → (String → String) → String → String
written path text held other = if other ==ₛ path then text else held other

abbrev disk : Files ℕ ℕ Disk
disk = record {
  is_relative = is_relative_path;
  parent = λ path. "/etc";
  join = join_path;
  read_config = λ path w. ok paired;
  read_certificate = λ path w. certificate_of (w.1 path);
  load_certificate = λ path w. ok 7;
  digest = λ k. desk_id;
  exists = λ path w. ok (not (w.1 path ==ₛ ""));
  metadata = λ path w. metadata_at (w.1 path);
  euid = 1000;
  create_dir = λ path w. (ok tt, w);
  write_temp = λ dir text w. (ok "/etc/peers/temporary", (text, w.1));
  persist = λ t path w. (ok tt, (w.0, written path w.0 w.1));
  persist_noclobber = λ t path w. (placed, (w.0, written path w.0 w.1));
  sync_dir = λ dir w. (ok tt, w);
}

written-same : (path text : String) (held : String → String) → written path text held path ≡ text
written-same path text held = rw ((==ₛ_iff path path).1 refl) refl

disk-IsStore : IsStore disk (λ t w. w.0) certificate_of
disk-IsStore = record {
  temp_text = λ dir text t w h. refl;
  persist_writes = λ t path w h. ap certificate_of (written-same path w.0 w.1);
  noclobber_writes = λ t path w h. ap certificate_of (written-same path w.0 w.1);
  sync_keeps = λ dir path w. refl;
}

-- A disk on which each file is the certificate of one device.
abbrev all_of : String → Disk
all_of text = ("", λ path. text)

select-IsSelection_example :
    IsSelection disk "/etc" desk_id paired (all_of "desk") (activate disk desk)
unfolding select checked_certificate
select-IsSelection_example =
    select-IsSelection disk "/etc" desk_id paired (all_of "desk") (activate disk desk) refl

selected_certificate-IsTrusted_example : IsTrusted disk paired (all_of "desk") 7
unfolding selected_certificate
selected_certificate-IsTrusted_example =
    selected_certificate-IsTrusted disk paired (all_of "desk") 7 refl refl

validate-AreDistinct_example :
    All IsPeer (desk ∷ [])
    × AreDistinct [] (desk ∷ [])
    × (false ≡ false → some_peer (is_selected paired) (desk ∷ []) ≡ true)
unfolding Pairing.validate validate_peers valid_fingerprint validate_edges validate_each
    validate_edge validate_apart valid_edge_id Geometry.validate
validate-AreDistinct_example = validate-AreDistinct paired refl

add-IsAdded_example :
    After {S = Disk}
      (λ _. Unit {0})
      (λ writes _. IsAdded disk lap_id (desk ∷ []) writes)
      (add disk "/etc" lap_info paired (all_of "desk"))
add-IsAdded_example = add-IsAdded disk "/etc" lap_info paired (all_of "desk")

-- A new certificate is written under the name of its fingerprint.
stored_new :
    (stored_certificate disk "/etc" lap_info false (all_of "")).0 ≡ ok (relative disk lap_info)
unfolding stored_certificate ready_peers store_in store_new place_new on_placed valid_fingerprint
    ◌>>=◌ ◌>>◌ get check lift pure done
stored_new = refl

add-IsBacked_example :
    After {S = Disk}
      (λ _. Unit {0})
      (IsBacked disk "/etc" lap_id)
      (add disk "/etc" lap_info paired (all_of "desk"))
add-IsBacked_example =
    add-IsBacked disk (λ t w. w.0) certificate_of disk-IsStore (λ info valid. refl) "/etc" lap_info
      paired (all_of "desk") (lap_info, refl, refl)

stored_certificate-keeps_example :
    Has disk
      (join_path "/etc" (relative disk lap_info))
      own_file
      (ok lap_info)
      (stored_certificate disk "/etc" lap_info true (all_of "lap")).1
stored_certificate-keeps_example =
    stored_certificate-keeps disk (λ dir path m r w h. h) "/etc" lap_info true own_file
      (ok lap_info) (all_of "lap") (refl, refl) refl
