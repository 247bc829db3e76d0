-- ===== src/Tests/Wire.antt =====
-- Runs of the frames and of the layouts of two devices.
use niri_bridge.Tests.Backend.{whole_numbers}
use niri_bridge.Prelude.{
  ◌==◌, if◌then◌else◌, length, get_elem?, Result, ok, err, ℕ, ◌≤◌, String, ◌≡◌, refl, ◌↔◌, true,
  some, List, [], ◌∷◌, ◌++◌, arith,
}
use niri_bridge.Prelude.All.{ok-injective}
use niri_bridge.Prelude.Int.{pos}
use niri_bridge.Prelude.Sets.{contains}
use niri_bridge.Geometry as Geometry
use niri_bridge.Geometry.{top, bottom}
use niri_bridge.Bridge.Edges.{
  EdgeConfig, valid_edge_id, validate_apart, validate_edge, validate_each, validate_edges,
}
use niri_bridge.Bridge.Layout.{IsLayout, validate_edges-IsLayout}
use niri_bridge.Bridge.Agreed.{agreed-active}
use niri_bridge.Bridge.Active.{active_from, active_edges, Serves, active_edges_iff}
use niri_bridge.Control.Layout.{normal, LogicalOutput, Desktop, LayoutRequest, validate_request}
use niri_bridge.Protocol.Message as Message
use niri_bridge.Protocol.Message.{
  Message, desktop, layout, touchpads, hello, begin, input, end, ping, pong, lock_state, validate,
}
use niri_bridge.Protocol.Frame.{Codec, frame_of, read_body, read_frame}
use niri_bridge.Protocol.Roundtrip.{read_frame-frame_of}

-- A codec of two kinds of messages.
abbrev write : Message ℕ → Result (List ℕ)
write (Message.ping n) = ok (1 ∷ n ∷ [])
write (Message.hello n) = ok (2 ∷ n ∷ [])
write _ = err "Unsupported"

abbrev read : List ℕ → Result (Message ℕ)
read (t ∷ n ∷ []) =
    if t == 1
    then ok (Message.ping n)
    else if t == 2
    then ok (Message.hello n)
    else err "Unsupported"
read _ = err "Unsupported"

abbrev pings : Codec ℕ
pings = record { to_vec = write; from_slice = read }

filled : (m : Message ℕ) (bytes : List ℕ) → write m ≡ ok bytes → 1 ≤ length bytes
filled (Message.ping n) bs h = rw⁻¹ (ok-injective _ _ h) (omega arith)
filled (Message.hello n) bs h = rw⁻¹ (ok-injective _ _ h) (omega arith)
filled (Message.desktop i) bs h = cc
filled (Message.layout i) bs h = cc
filled (Message.touchpads i) bs h = cc
filled (Message.begin s e) bs h = cc
filled (Message.input s q e) bs h = cc
filled (Message.end s e) bs h = cc
filled (Message.pong n) bs h = cc
filled (Message.lock_state b) bs h = cc

abbrev ping_frame : List ℕ
ping_frame = 0 ∷ 0 ∷ 0 ∷ 2 ∷ 1 ∷ 7 ∷ []

read_frame-frame_of_example :
    read_frame pings (ping_frame ++ 0 ∷ 0 ∷ []) ≡ (ok (Message.ping 7), 0 ∷ 0 ∷ [])
unfolding frame_of Message.validate
read_frame-frame_of_example =
    read_frame-frame_of pings (Message.ping 7) (Message.ping 7) ping_frame (0 ∷ 0 ∷ []) filled
      (record { body = 1 ∷ 7 ∷ []; wrote = refl; reads = refl }) refl refl

-- A header that announces more than 65536 bytes.
abbrev oversize : List ℕ
oversize = 0 ∷ 1 ∷ 0 ∷ 1 ∷ 9 ∷ []

oversize_left : (read_frame pings oversize).1 ≡ 9 ∷ []
unfolding read_frame read_body
oversize_left = refl

abbrev lower_edge : EdgeConfig ℕ
lower_edge = record {
  id = "default";
  output = "DP-1";
  boundary = record { edge = bottom; start = 0; end = 1 };
}

abbrev upper_edge : EdgeConfig ℕ
upper_edge = record {
  id = "second";
  output = "DP-1";
  boundary = record { edge = top; start = 0; end = 1 };
}

two_edges-IsLayout : validate_edges (lower_edge ∷ upper_edge ∷ []) ≡ ok tt
unfolding validate_edges validate_each validate_edge validate_apart valid_edge_id Geometry.validate
two_edges-IsLayout = refl

validate_edges-IsLayout_example :
    (validate_edges (lower_edge ∷ upper_edge ∷ []) ≡ ok tt)
    ↔ IsLayout (lower_edge ∷ upper_edge ∷ [])
validate_edges-IsLayout_example = validate_edges-IsLayout (lower_edge ∷ upper_edge ∷ [])

abbrev screen : LogicalOutput ℕ
screen = record { x = pos 0; y = pos 0; width = 1920; height = 1080; scale = 1; transform = normal }

abbrev device : List (EdgeConfig ℕ) → Desktop ℕ
device edges = record { edges = edges; revision = ""; outputs = ("DP-1", screen) ∷ [] }

abbrev here : Desktop ℕ
here = device (lower_edge ∷ upper_edge ∷ [])

abbrev there : Desktop ℕ
there = device (upper_edge ∷ [])

second_active : active_edges here (some there) ≡ 1 ∷ []
unfolding active_edges active_from
second_active = refl

active_edges_iff_example : (contains (active_edges here (some there)) 1 ≡ true) ↔ (
    (e : EdgeConfig ℕ) × (other : EdgeConfig ℕ) × (j : ℕ) × (get_elem?
        (lower_edge ∷ upper_edge ∷ [])
        1
      ≡ some e)
    × (get_elem? (upper_edge ∷ []) j ≡ some other)
    × Serves here there e other)
active_edges_iff_example = active_edges_iff here there 1

abbrev digest : String
digest = "0123456789abcdef0123456789abcdef0123456789abcdef0123456789abcdef"

abbrev request : LayoutRequest ℕ
request = record {
  local_edges = lower_edge ∷ upper_edge ∷ [];
  peer_edges = upper_edge ∷ lower_edge ∷ [];
  local_revision = digest;
  peer_revision = digest;
}

agreed-active_example :
    contains (active_edges here (some (device (upper_edge ∷ lower_edge ∷ [])))) 1 ≡ true
unfolding validate_request validate_edges validate_each validate_edge validate_apart valid_edge_id
    Geometry.validate
agreed-active_example =
    agreed-active request here (device (upper_edge ∷ lower_edge ∷ [])) 1 refl refl refl
      (refl, (refl, tt)) (refl, (refl, tt)) (omega arith)
